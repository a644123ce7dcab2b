-- ===== src/Realm/Shared/Laws.antt =====
-- realm/shared.go fills the interface `RealmResolver`.
use dataverse_hub.Base.{
  ◌≡◌, refl, false, none, some, List, [], ◌∷◌, Bytes, ◌==◌, eq_iff, eq_refl, contains, arith,
  option_else, Bool-cases, inl, inr,
}
use dataverse_hub.Base.Dict.{Dict, lookup, IsMap}
use dataverse_hub.Realm.Resolver.{IsLawful}
use dataverse_hub.Realm.Shared.{
  SharedRealms, is_shared_realm, is_member, realms_of, realms_for_pubkey, shared_resolver,
}

contains-realms_of-none :
    (realm pubkey : Bytes) (m : Dict (List Bytes))
    → lookup realm m ≡ none
    → contains (realms_of pubkey m) realm ≡ false
unfolding lookup realms_of contains
contains-realms_of-none realm pubkey [] h = refl
contains-realms_of-none realm pubkey ((name, members) ∷ m) h =
    ground (arith, contains-realms_of-none realm pubkey m)

contains-realms_of :
    (realm pubkey : Bytes) (m : Dict (List Bytes))
    → IsMap m
    → contains (realms_of pubkey m) realm
      ≡ (option_else (lookup realm m) false λ members. contains members pubkey)
unfolding lookup realms_of contains
contains-realms_of realm pubkey [] h = refl
contains-realms_of realm pubkey ((name, members) ∷ m) (fresh, h) = ground (
  arith,
  eq_iff name realm,
  contains-realms_of realm pubkey m h,
  contains-realms_of-none name pubkey m fresh,
)

-- The laws hold of a configuration with one entry for each realm.
pub shared_resolver-IsLawful :
    (s : SharedRealms) → IsMap s.realms → IsLawful (shared_resolver (some s))
unfolding is_member is_shared_realm realms_for_pubkey contains
shared_resolver-IsLawful s h = record {
  member_shared = λ realm pubkey m. ground arith;
  anonymous = λ realm. ground (arith, eq_refl []);
  listed = λ realm pubkey. elim (Bool-cases (pubkey == [])) [
    | inl e ↦ rw e
    | inr e ↦ rw e (contains-realms_of realm pubkey s.realms h)
  ];
}
