-- ===== src/Realm/Contract.antt =====
-- realm/graph.go: the contract of the type SHARED_REALM. The errors of `ParseSharedRealm` are the
-- constructors of `ContractError`, in the order of the checks.
pub mod Laws
use dataverse_hub.Base.{
  ℕ, Bool, true, false, ◌||◌, not, Option, none, some, List, [], ◌∷◌, ◌++◌, Bytes, bytes, ◌==◌,
  contains, length, eqb, if◌then◌else◌, option_else, Result, ok, err,
}
use dataverse_hub.Base.Dict.{lookup}
use dataverse_hub.External.{Library}
use dataverse_hub.Object.Types.{Item}
use dataverse_hub.Object.Verify.{is_pubkey_realm}
use dataverse_hub.Realm.Access.{dataverse001}
use dataverse_hub.Realm.RealmId.{cut_dot, split_realm_owner, realm_id}

pub data ContractError : Type 0 where
  nil_item other_type missing_content invalid_content missing_realm : ContractError
  not_owner_prefixed wrong_signer wrong_id not_global : ContractError

abbrev pub type_shared_realm : Bytes
type_shared_realm = bytes "SHARED_REALM"

abbrev pub relation_member : Bytes
relation_member = bytes "member"

-- `refPubkey`
unfoldable pub ref_pubkey : Bytes → Bytes
unfolding cut_dot
ref_pubkey ref = option_else (cut_dot ref) [] λ p. p.0

-- `entries := item.Relations[name]`, nil if the name is missing
abbrev pub relation_entries : Item → Bytes → List Bytes
relation_entries item name = option_else (lookup name item.relations) [] λ entries. entries

module _ (lib : Library) where
  -- the key that an entry grants access to, if it is well-formed
  unfoldable pub entry_member : Bytes → Option Bytes
  unfolding ref_pubkey
  entry_member raw = option_else (lib.relation_ref raw) none λ ref.
      if ref == []
      then none
      else let pk = ref_pubkey ref in
        if (pk == []) || not (is_pubkey_realm lib pk) then none else some pk

  -- the loop of `extractMemberPubkeys`; the set `seen` holds the members so far
  unfoldable pub extract_from : List Bytes → List Bytes → List Bytes
  extract_from members [] = members
  extract_from members (raw ∷ entries) =
      extract_from
        (option_else (entry_member raw) members
          λ pk. if contains members pk then members else members ++ pk ∷ [])
        entries

  unfoldable pub extract_member_pubkeys : List Bytes → List Bytes
  unfolding extract_from entry_member
  extract_member_pubkeys entries = extract_from [] entries

  -- `ParseSharedRealm` of an item that is not nil
  unfoldable pub parse_item : Item → Result ContractError (Bytes × List Bytes)
  parse_item item =
      if not (item.kind == type_shared_realm)
      then err other_type
      else if eqb (length item.content) 0
      then err missing_content
      else option_else (lib.realm_content item.content) (err invalid_content) λ realm.
        if realm == []
        then err missing_realm
        else let owner = split_realm_owner lib realm in
          if not (owner.1)
          then err not_owner_prefixed
          else if not (item.pubkey == owner.0)
          then err wrong_signer
          else if not (item.id == realm_id lib realm)
          then err wrong_id
          else if not (contains item.realms dataverse001)
          then err not_global
          else ok (realm, extract_member_pubkeys (relation_entries item relation_member))

  -- `ParseSharedRealm`
  unfoldable pub parse_shared_realm : Option Item → Result ContractError (Bytes × List Bytes)
  unfolding parse_item
  parse_shared_realm none = err nil_item
  parse_shared_realm (some item) = parse_item item
