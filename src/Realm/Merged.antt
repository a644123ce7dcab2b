-- ===== src/Realm/Merged.antt =====
-- realm/resolver.go: `Merged`, the graph's realms with those of the configuration on top.
pub mod Laws
use dataverse_hub.Base.{
  ℕ, Bool, true, false, ◌||◌, Option, none, some, List, [], ◌∷◌, ◌++◌, Bytes, contains, length,
  if◌then◌else◌,
}
use dataverse_hub.Realm.Resolver.{RealmResolver}
use dataverse_hub.Realm.Shared
use dataverse_hub.Realm.Shared.{SharedRealms}
use dataverse_hub.Realm.Graph
use dataverse_hub.Realm.Graph.{GraphSharedRealms}

pub record Merged : Type 0 where
  pub graph : Option GraphSharedRealms
  pub toml : Option SharedRealms

-- `NewMerged`
abbrev pub new_merged : Option GraphSharedRealms → Option SharedRealms → Merged
new_merged graph toml = record { graph = graph; toml = toml }

-- a call on a component that is nil is not made; the component's own nil check answers the same
unfoldable pub is_shared_realm : Merged → Bytes → Bool
is_shared_realm m name =
    if Shared.is_shared_realm m.toml name
    then true
    else if Graph.is_shared_realm m.graph name
    then true
    else false

unfoldable pub is_member : Merged → Bytes → Bytes → Bool
is_member m realm pubkey =
    if Shared.is_member m.toml realm pubkey
    then true
    else if Graph.is_member m.graph realm pubkey
    then true
    else false

-- `for _, r := range rs { if _, ok := seen[r]; !ok { …; result = append(result, r) } }`; the set
-- `seen` holds the strings of the result
unfoldable pub append_new : List Bytes → List Bytes → List Bytes
append_new result [] = result
append_new result (r ∷ rs) = append_new (if contains result r then result else result ++ r ∷ []) rs

unfoldable pub realms_for_pubkey : Merged → Bytes → List Bytes
unfolding append_new
realms_for_pubkey m pubkey =
    append_new (append_new [] (Shared.realms_for_pubkey m.toml pubkey))
      (Graph.realms_for_pubkey m.graph pubkey)

unfoldable pub count : Merged → ℕ
unfolding append_new
count m = elim m.graph [
  | none ↦ Shared.count m.toml
  | some g ↦ elim m.toml [
    | none ↦ Graph.count (some g)
    | some s ↦
        length (append_new (append_new [] (Shared.realms_keys (some s))) (Graph.realms_keys g))
  ]
]

-- `*Merged` as a `RealmResolver`
abbrev pub merged_resolver : Merged → RealmResolver
merged_resolver m = record {
  is_shared_realm = is_shared_realm m;
  is_member = is_member m;
  realms_for_pubkey = realms_for_pubkey m;
  count = count m;
}
