-- ===== src/Realm/RealmId.antt =====
-- realm/realmid.go: the address of a shared realm's object.
pub mod Uuid
pub mod Address
use Prim.Native.Nat.{bit_and, bit_or}
use dataverse_hub.Base.{
  ℕ, zero, suc, ◌+◌, ◌-◌, ◌*◌, ◌/◌, ◌%◌, Bool, true, false, ◌&&◌, not, Option, none, some, List, [],
  ◌∷◌, ◌++◌, Bytes, bytes, ◌==◌, length, get_elem?, take, drop, byte_is, ltb, leb, eqb, all,
  if◌then◌else◌, option_else,
}
use dataverse_hub.External.{Library}
use dataverse_hub.Object.Verify.{is_pubkey_realm}

abbrev pub namespace_uuid : Bytes
namespace_uuid = bytes "00000000-0000-0000-0000-000000000000"

-- a digit of %02x
abbrev pub hex_digit : ℕ → ℕ
hex_digit d = if ltb d 10 then b'0' + d else b'a' + (d - 10)

-- "%02x" of each byte
unfoldable pub hex_text : Bytes → Bytes
hex_text [] = []
hex_text (c ∷ s) = hex_digit (c / 16) ∷ (hex_digit (c % 16) ∷ hex_text s)

-- `formatUUID`
unfoldable pub format_uuid : Bytes → Bytes
format_uuid b =
    hex_text (take 4 b)
    ++ (b'-'
        ∷ (hex_text (take 2 (drop 4 b))
            ++ (b'-'
                ∷ (hex_text (take 2 (drop 6 b))
                    ++ (b'-' ∷ (hex_text (take 2 (drop 8 b)) ++ (b'-' ∷ hex_text (drop 10 b))))))))

abbrev hex_value : ℕ → Option ℕ
hex_value c =
    if leb b'0' c && leb c b'9'
    then some (c - b'0')
    else if leb b'a' c && leb c b'f'
    then some (c - b'a' + 10)
    else if leb b'A' c && leb c b'F'
    then some (c - b'A' + 10)
    else none

-- hex.Decode of the standard library
unfoldable pub hex_decode : Bytes → Option Bytes
hex_decode [] = some []
hex_decode (_ ∷ []) = none
hex_decode (h ∷ (l ∷ s)) = option_else (hex_value h) none λ a.
    option_else (hex_value l) none
      λ b. option_else (hex_decode s) none λ rest. some ((a * 16 + b) ∷ rest)

-- `mustParseUUID`; `none` is a panic
unfoldable pub must_parse_uuid : Bytes → Option Bytes
must_parse_uuid s =
    if not (eqb (length s) 36)
    then none
    else if not (all (λ p. byte_is (get_elem? s p) b'-') (8 ∷ 13 ∷ 18 ∷ 23 ∷ []))
    then none
    else let hex =
        take 8 s
        ++ (take 4 (drop 9 s) ++ (take 4 (drop 14 s) ++ (take 4 (drop 19 s) ++ drop 24 s))) in
      option_else (hex_decode hex) none λ b. if not (eqb (length b) 16) then none else some b

-- `namespaceBytes`, computed when the program starts
unfoldable pub namespace_bytes : Bytes
unfolding must_parse_uuid hex_decode
namespace_bytes = option_else (must_parse_uuid namespace_uuid) [] λ b. b

-- copy into a [16]byte
unfoldable pub copy_into : ℕ → Bytes → Bytes
copy_into zero s = []
copy_into (suc n) [] = 0 ∷ copy_into n []
copy_into (suc n) (c ∷ s) = c ∷ copy_into n s

-- `b[i] = f(b[i])`
abbrev pub update_at : ℕ → (ℕ → ℕ) → Bytes → Bytes
update_at i f [] = []
update_at zero f (c ∷ s) = f c ∷ s
update_at (suc i) f (c ∷ s) = c ∷ update_at i f s

abbrev pub set_version : ℕ → ℕ
set_version c = bit_or (bit_and c 0x0f) 0x50

abbrev pub set_variant : ℕ → ℕ
set_variant c = bit_or (bit_and c 0x3f) 0x80

-- the 16 bytes that `RealmID` formats
unfoldable pub realm_id_bytes : Library → Bytes → Bytes
unfolding copy_into namespace_bytes
realm_id_bytes lib realm =
    update_at 8 set_variant
      (update_at 6 set_version (copy_into 16 (lib.sha1 (namespace_bytes ++ realm))))

-- `RealmID`
unfoldable pub realm_id : Library → Bytes → Bytes
realm_id lib realm = format_uuid (realm_id_bytes lib realm)

-- what stands before and after the first '.', if there is one
unfoldable pub cut_dot : Bytes → Option (Bytes × Bytes)
cut_dot [] = none
cut_dot (c ∷ s) =
    if eqb c b'.' then some ([], s) else option_else (cut_dot s) none λ p. some (c ∷ p.0, p.1)

-- `splitRealmOwner`
unfoldable pub split_realm_owner : Library → Bytes → Bytes × Bool
unfolding cut_dot
split_realm_owner lib realm =
    option_else (cut_dot realm) ([], false)
      λ p. if p.1 == [] then ([], false) else (p.0, is_pubkey_realm lib p.0)

-- `RealmRef`; `none` is its error
unfoldable pub realm_ref : Library → Bytes → Option Bytes
realm_ref lib realm =
    let owner = split_realm_owner lib realm in
    if not (owner.1) then none else some (owner.0 ++ (bytes "." ++ realm_id lib realm))
