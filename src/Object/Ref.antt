-- ===== src/Object/Ref.antt =====
-- object/ref.go: the shape check on refs, over the bytes of the string.
pub mod Alphabet
pub mod Shape
use dataverse_hub.Base.{
  ℕ, suc, ◌+◌, ◌-◌, Bool, true, false, ◌&&◌, ◌||◌, not, Option, none, some, List, [], ◌∷◌, Bytes,
  length, byte_is, get_elem?, take, drop, ltb, leb, eqb, if◌then◌else◌,
}

abbrev pub is_base64url : ℕ → Bool
is_base64url c =
    (leb b'A' c && leb c b'Z')
    || (leb b'a' c && leb c b'z')
    || (leb b'0' c && leb c b'9')
    || eqb c b'-'
    || eqb c b'_'

-- the loop of `isBase64URLChars`
unfoldable pub is_base64url_chars : Bytes → Bool
is_base64url_chars [] = true
is_base64url_chars (c ∷ s) = is_base64url c && is_base64url_chars s

-- the positions of `case 8, 13, 18, 23`
abbrev pub is_hyphen_position : ℕ → Bool
is_hyphen_position i = eqb i 8 || eqb i 13 || eqb i 18 || eqb i 23

abbrev pub is_hex : ℕ → Bool
is_hex c = (leb b'0' c && leb c b'9') || (leb b'a' c && leb c b'f') || (leb b'A' c && leb c b'F')

-- one round of the loop of `isCanonicalUUID`
abbrev pub uuid_byte : ℕ → ℕ → Bool
uuid_byte i c = if is_hyphen_position i then eqb c b'-' else is_hex c

-- the loop from position `i` on
unfoldable pub uuid_from : ℕ → Bytes → Bool
uuid_from i [] = true
uuid_from i (c ∷ s) = uuid_byte i c && uuid_from (suc i) s

unfoldable pub is_canonical_uuid : Bytes → Bool
is_canonical_uuid s = if not (eqb (length s) 36) then false else uuid_from 0 s

unfoldable pub is_valid_ref : Bytes → Bool
unfolding is_base64url_chars is_canonical_uuid uuid_from
is_valid_ref s =
    if ltb (length s) 80 || ltb 81 (length s)
    then false
    else let dot = length s - 37 in
      if not (byte_is (get_elem? s dot) b'.')
      then false
      else if not (is_base64url_chars (take dot s))
      then false
      else is_canonical_uuid (drop (dot + 1) s)
