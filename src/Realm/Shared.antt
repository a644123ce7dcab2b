-- ===== src/Realm/Shared.antt =====
-- realm/shared.go: the shared realms of the configuration file. A nil receiver is `none`.
pub mod Laws
use dataverse_hub.Base.{
  ℕ, Bool, false, Option, none, some, List, [], ◌∷◌, Bytes, ◌==◌, contains, length, if◌then◌else◌,
  option_else, is_some,
}
use dataverse_hub.Base.Dict.{Dict, lookup, keys}
use dataverse_hub.Realm.Resolver.{RealmResolver}

pub record SharedRealms : Type 0 where
  pub realms : Dict (List Bytes)

abbrev pub new_shared_realms : SharedRealms
new_shared_realms = record { realms = [] }

-- `Load`
unfoldable pub load : Dict (List Bytes) → SharedRealms → SharedRealms
load realms s = record s { realms = realms }

unfoldable pub is_shared_realm : Option SharedRealms → Bytes → Bool
is_shared_realm none name = false
is_shared_realm (some s) name = is_some (lookup name s.realms)

unfoldable pub is_member : Option SharedRealms → Bytes → Bytes → Bool
is_member none realm pubkey = false
is_member (some s) realm pubkey =
    if pubkey == []
    then false
    else option_else (lookup realm s.realms) false λ members. contains members pubkey

-- the loops of `RealmsForPubkey`
unfoldable pub realms_of : Bytes → Dict (List Bytes) → List Bytes
realms_of pubkey [] = []
realms_of pubkey ((name, members) ∷ m) =
    if contains members pubkey then name ∷ realms_of pubkey m else realms_of pubkey m

unfoldable pub realms_for_pubkey : Option SharedRealms → Bytes → List Bytes
unfolding realms_of
realms_for_pubkey none pubkey = []
realms_for_pubkey (some s) pubkey = if pubkey == [] then [] else realms_of pubkey s.realms

unfoldable pub count : Option SharedRealms → ℕ
count none = 0
count (some s) = length s.realms

unfoldable pub realms_keys : Option SharedRealms → List Bytes
realms_keys none = []
realms_keys (some s) = keys s.realms

-- `*SharedRealms` as a `RealmResolver`
abbrev pub shared_resolver : Option SharedRealms → RealmResolver
shared_resolver s = record {
  is_shared_realm = is_shared_realm s;
  is_member = is_member s;
  realms_for_pubkey = realms_for_pubkey s;
  count = count s;
}
