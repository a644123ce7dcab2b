-- ===== src/Realm/Access.antt =====
-- realm/realm.go: the tests that guard reads and writes. A nil resolver is `none`.
pub mod Laws
use dataverse_hub.Base.{
  Bool, true, false, ◌&&◌, ◌||◌, not, Option, none, some, List, [], ◌∷◌, Bytes, bytes, ◌==◌,
  contains, any, if◌then◌else◌,
}
use dataverse_hub.External.{Library}
use dataverse_hub.Object.Types.{InField}
use dataverse_hub.Object.Verify.{is_pubkey_realm}
use dataverse_hub.Realm.Resolver.{RealmResolver}

abbrev pub dataverse001 : Bytes
dataverse001 = bytes "dataverse001"

abbrev pub server_public : Bytes
server_public = bytes "server-public"

unfoldable pub is_public_read : InField → Bool
is_public_read realms = contains realms dataverse001 || contains realms server_public

unfoldable pub is_global_object : InField → Bool
is_global_object realms = contains realms dataverse001

-- the deprecated name of `IsPublicRead`
unfoldable pub is_public_object : InField → Bool
unfolding is_public_read
is_public_object realms = is_public_read realms

unfoldable pub has_matching_realm : List Bytes → Bytes → Bool
has_matching_realm realms pubkey = if pubkey == [] then false else contains realms pubkey

-- `resolver != nil && resolver.IsSharedRealm(r)`
abbrev pub knows_realm : Option RealmResolver → Bytes → Bool
knows_realm none r = false
knows_realm (some R) r = R.is_shared_realm r

abbrev pub grants : Option RealmResolver → Bytes → Bytes → Bool
grants none r pubkey = false
grants (some R) r pubkey = R.is_member r pubkey

-- one round of the loop of `ValidateRealmsForPut`
unfoldable pub accepts_realm : Library → Bytes → Option RealmResolver → Bytes → Bool
accepts_realm lib signer R r =
    (r == dataverse001 || r == server_public)
    || (is_pubkey_realm lib r && r == signer)
    || knows_realm R r

unfoldable pub validate_realms_for_put : Library → List Bytes → Bytes → Option RealmResolver → Bool
unfolding accepts_realm
validate_realms_for_put lib [] signer R = false
validate_realms_for_put lib (r ∷ rs) signer R =
    accepts_realm lib signer R r || validate_realms_for_put lib rs signer R

-- the loop of `CanRead`
unfoldable pub some_realm_grants : Option RealmResolver → List Bytes → Bytes → Bool
some_realm_grants R [] pubkey = false
some_realm_grants R (r ∷ rs) pubkey = grants R r pubkey || some_realm_grants R rs pubkey

unfoldable pub can_read : List Bytes → Bytes → Option RealmResolver → Bool
unfolding is_public_object has_matching_realm some_realm_grants
can_read realms pubkey R =
    if is_public_object realms
    then true
    else if has_matching_realm realms pubkey
    then true
    else if not (pubkey == [])
    then some_realm_grants R realms pubkey
    else false
