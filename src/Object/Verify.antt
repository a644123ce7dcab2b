-- ===== src/Object/Verify.antt =====
-- object/verify.go, object/conflict.go and the decoders of object/types.go. The package's errors are
-- the constructors of `VerifyError`, in the order of the checks.
pub mod Signed
pub mod SameItem
use dataverse_hub.Base.{
  ℕ, Bool, true, false, ◌&&◌, ◌||◌, not, Option, none, some, List, [], ◌∷◌, ◌++◌, Bytes, bytes,
  ◌==◌, length, eqb, keep, if◌then◌else◌, option_else, byte_is, get_elem?,
}
use dataverse_hub.Object.Types.{Envelope, Item, InField, resolve_in, timestamp_text}
use dataverse_hub.External.{Library}

pub data VerifyError : Type 0 where
  invalid_json missing_signature missing_item invalid_item missing_in missing_pubkey : VerifyError
  missing_id missing_created_at invalid_pubkey_encoding pubkey_length invalid_pubkey : VerifyError
  canonical_failed invalid_signature_encoding invalid_signature_asn1 : VerifyError
  verification_failed : VerifyError

-- the newline that Encode appends
unfoldable pub trim_newline : Bytes → Bytes
trim_newline [] = []
trim_newline (c ∷ []) = if eqb c 10 then [] else c ∷ []
trim_newline (c ∷ (d ∷ s)) = c ∷ trim_newline (d ∷ s)

module _ (lib : Library) where
  -- `InField.UnmarshalJSON`
  unfoldable pub unmarshal_in : Bytes → Option InField
  unmarshal_in raw = elim (lib.unmarshal_strings raw) [
    | some arr ↦ some arr
    | none ↦ elim (lib.unmarshal_string raw) [ some s ↦ some (s ∷ []) | none ↦ none ]
  ]

  unfoldable pub decode_envelope : Bytes → Option Envelope
  decode_envelope raw = lib.unmarshal_envelope unmarshal_in raw

  unfoldable pub decode_item : Bytes → Option Item
  decode_item raw = lib.unmarshal_item unmarshal_in raw

  -- `ParseEnvelope`
  unfoldable pub parse_envelope : Bytes → Option (Envelope × Item)
  parse_envelope raw =
      option_else (decode_envelope raw) none
        λ env. option_else (decode_item env.item) none λ item. some (env, item)

  -- `CanonicalJSON`
  unfoldable pub canonical_json : Bytes → Option Bytes
  canonical_json raw =
      option_else (lib.unmarshal_any raw) none
        λ v. option_else (lib.encode_any v) none λ out. some (trim_newline out)

  -- `Item.Timestamp`
  unfoldable pub timestamp : Item → Option ℕ
  timestamp item = lib.parse_time (timestamp_text item)

  -- `IsPubkeyRealm`: the first byte of a decoded key is 2 or 3
  unfoldable pub is_pubkey_realm : Bytes → Bool
  is_pubkey_realm realm =
      if not (eqb (length realm) 44)
      then false
      else option_else (lib.decode_base64url realm) false λ raw.
        if not (eqb (length raw) 33)
        then false
        else byte_is (get_elem? raw 0) 2 || byte_is (get_elem? raw 0) 3

  -- `PubkeyRealms`
  unfoldable pub pubkey_realms : InField → List Bytes
  pubkey_realms realms = keep is_pubkey_realm realms

  -- the tail of `VerifyEnvelope`, from the decoding of the pubkey on
  unfoldable pub verify_signature : Envelope → Item → Option VerifyError
  verify_signature env item =
      option_else (lib.decode_base64url item.pubkey) (some invalid_pubkey_encoding) λ key.
        if not (eqb (length key) 33)
        then some pubkey_length
        else option_else (lib.unmarshal_compressed key) (some invalid_pubkey) λ point.
          option_else (canonical_json env.item) (some canonical_failed) λ canonical.
            option_else (lib.decode_base64 env.signature) (some invalid_signature_encoding) λ sig.
              option_else (lib.unmarshal_signature sig) (some invalid_signature_asn1) λ rs.
                if not (lib.ecdsa_verify point (lib.sha256 canonical) rs)
                then some verification_failed
                else none

  -- `VerifyEnvelope`; `none` is the nil error
  unfoldable pub verify_envelope : Bytes → Option VerifyError
  unfolding verify_signature
  verify_envelope raw = option_else (decode_envelope raw) (some invalid_json) λ env.
      if env.signature == []
      then some missing_signature
      else if eqb (length env.item) 0
      then some missing_item
      else option_else (decode_item env.item) (some invalid_item) λ item.
        if eqb (length (resolve_in env item)) 0
        then some missing_in
        else if item.pubkey == []
        then some missing_pubkey
        else if item.id == []
        then some missing_id
        else if item.created_at == []
        then some missing_created_at
        else verify_signature env item

  -- `SameItem`; `none` is its error
  unfoldable pub same_item : Bytes → Bytes → Option Bool
  same_item a b = option_else (parse_envelope a) none λ left.
      option_else (parse_envelope b) none λ right.
        option_else (canonical_json (left.0).item) none
          λ x. option_else (canonical_json (right.0).item) none λ y. some (x == y)
