-- ===== src/Realm/Merged/Laws.antt =====
-- realm/resolver.go: the merged view is the union of its parts.
use dataverse_hub.Base.{◌≡◌, ◌||◌, List, [], ◌∷◌, ◌++◌, Bytes, ◌==◌, eq_iff, contains, arith}
use dataverse_hub.Realm.Resolver.{IsLawful}
use dataverse_hub.Realm.Shared
use dataverse_hub.Realm.Shared.{shared_resolver}
use dataverse_hub.Realm.Graph
use dataverse_hub.Realm.Graph.{graph_resolver}
use dataverse_hub.Realm.Merged.{
  Merged, is_shared_realm, is_member, append_new, realms_for_pubkey, merged_resolver,
}

contains-append_one :
    (xs : List Bytes) (x y : Bytes) → contains (xs ++ x ∷ []) y ≡ (contains xs y || x == y)
unfolding contains
contains-append_one [] x y = ground arith
contains-append_one (z ∷ xs) x y = ground (arith, contains-append_one xs x y)

contains-append_new :
    (result rs : List Bytes) (r : Bytes)
    → contains (append_new result rs) r ≡ (contains result r || contains rs r)
unfolding append_new contains
contains-append_new result [] r = ground arith
contains-append_new result (s ∷ rs) r = ground (
  arith,
  eq_iff s r,
  contains-append_one result s r,
  contains-append_new result rs r,
  contains-append_new (result ++ s ∷ []) rs r,
)

-- A membership of the merged view is one of the configuration or one of the graph: the
-- configuration can add members, and cannot take one away.
pub is_member_union :
    (m : Merged) (realm pubkey : Bytes)
    → is_member m realm pubkey
      ≡ (Shared.is_member m.toml realm pubkey || Graph.is_member m.graph realm pubkey)
unfolding is_member
is_member_union m realm pubkey = ground arith

-- The merged view keeps the interface's laws when both of its parts do.
pub merged_resolver-IsLawful :
    (m : Merged)
    → IsLawful (shared_resolver m.toml)
    → IsLawful (graph_resolver m.graph)
    → IsLawful (merged_resolver m)
unfolding is_member is_shared_realm realms_for_pubkey contains
merged_resolver-IsLawful m s g = record {
  member_shared =
      λ realm pubkey h. ground (arith, s.member_shared realm pubkey, g.member_shared realm pubkey);
  anonymous = λ realm. ground (arith, s.anonymous realm, g.anonymous realm);
  listed = λ realm pubkey. ground (
    arith,
    s.listed realm pubkey,
    g.listed realm pubkey,
    contains-append_new [] (Shared.realms_for_pubkey m.toml pubkey) realm,
    contains-append_new (append_new [] (Shared.realms_for_pubkey m.toml pubkey))
        (Graph.realms_for_pubkey m.graph pubkey) realm,
  );
}
