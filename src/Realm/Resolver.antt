-- ===== src/Realm/Resolver.antt =====
-- realm/resolver.go: the interface `RealmResolver`, and the laws that its readers rely on.
use dataverse_hub.Base.{ℕ, Bool, true, false, List, [], Bytes, ◌≡◌, contains}

pub record RealmResolver : Type 0 where
  pub is_shared_realm : Bytes → Bool
  pub is_member : Bytes → Bytes → Bool
  pub realms_for_pubkey : Bytes → List Bytes
  pub count : ℕ

pub record IsLawful (R : RealmResolver) : Type 0 where
  -- only a known realm has members
  pub member_shared :
      (realm pubkey : Bytes) → R.is_member realm pubkey ≡ true → R.is_shared_realm realm ≡ true
  -- nobody is authenticated as ""
  pub anonymous : (realm : Bytes) → R.is_member realm [] ≡ false
  -- the list of a key's realms is the membership test
  pub listed :
      (realm pubkey : Bytes)
      → contains (R.realms_for_pubkey pubkey) realm ≡ R.is_member realm pubkey
