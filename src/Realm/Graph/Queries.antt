-- ===== src/Realm/Graph/Queries.antt =====
-- realm/graph.go: the graph's index fills the interface `RealmResolver`.
use dataverse_hub.Base.{
  ◌≡◌, some, [], Bytes, ◌==◌, eq_refl, contains, arith, Bool-cases, Option-cases, inl, inr,
}
use dataverse_hub.Base.Dict.{lookup, contains-keys}
use dataverse_hub.Realm.Resolver.{IsLawful}
use dataverse_hub.Realm.Graph.{
  GraphSharedRealms, is_shared_realm, is_member, realms_for_pubkey, graph_resolver,
}
use dataverse_hub.Realm.Graph.Index.{IsIndexed}

-- The two ways to ask for a membership, by the realm's entry and by the key's index, agree.
pub realms_for_pubkey-is_member :
    (g : GraphSharedRealms) (realm pubkey : Bytes)
    → IsIndexed g
    → contains (realms_for_pubkey (some g) pubkey) realm ≡ is_member (some g) realm pubkey
unfolding realms_for_pubkey is_member contains
realms_for_pubkey-is_member g realm pubkey i = elim (Bool-cases (pubkey == [])) [
  | inl e ↦ ground arith
  | inr e ↦ elim (Option-cases (lookup pubkey g.by_pk)) [
    | inl n ↦ ground (arith, i.agrees pubkey realm)
    | inr (set, s) ↦ ground (arith, i.agrees pubkey realm, contains-keys realm set)
  ]
]

pub graph_resolver-IsLawful :
    (g : GraphSharedRealms) → IsIndexed g → IsLawful (graph_resolver (some g))
unfolding is_member is_shared_realm
graph_resolver-IsLawful g i = record {
  member_shared = λ realm pubkey m. ground arith;
  anonymous = λ realm. ground (arith, eq_refl []);
  listed = λ realm pubkey. realms_for_pubkey-is_member g realm pubkey i;
}
