-- ===== src/Object/Ref/Alphabet.antt =====
-- object/ref.go: the bytes that the two loops over a ref let pass.
use dataverse_hub.Base.{
  ℕ, ◌≤◌, ◌≡◌, refl, true, ◌&&◌, [], ◌∷◌, Bytes, all, leb, eqb, arith, Bool-cases, inl, inr,
}
use dataverse_hub.Object.Ref.{is_base64url, is_base64url_chars, is_hex}

-- A byte of the base64url alphabet of RFC 4648.
pub data IsBase64urlByte (c : ℕ) : Type 0 where
  upper : b'A' ≤ c → c ≤ b'Z' → IsBase64urlByte c
  lower : b'a' ≤ c → c ≤ b'z' → IsBase64urlByte c
  digit : b'0' ≤ c → c ≤ b'9' → IsBase64urlByte c
  dash : c ≡ b'-' → IsBase64urlByte c
  underscore : c ≡ b'_' → IsBase64urlByte c

-- A hex digit of either case.
pub data IsHexDigit (c : ℕ) : Type 0 where
  decimal : b'0' ≤ c → c ≤ b'9' → IsHexDigit c
  small : b'a' ≤ c → c ≤ b'f' → IsHexDigit c
  capital : b'A' ≤ c → c ≤ b'F' → IsHexDigit c

abbrev pub Each : (ℕ → Type 0) → Bytes → Type 0
Each P [] = Unit
Each P (c ∷ s) = P c × Each P s

is_base64url_sound : (c : ℕ) → is_base64url c ≡ true → IsBase64urlByte c
is_base64url_sound c h = elim (Bool-cases (leb b'A' c && leb c b'Z')) [
  | inl e ↦ upper (ground arith) (ground arith)
  | inr e ↦ elim (Bool-cases (leb b'a' c && leb c b'z')) [
    | inl f ↦ lower (ground arith) (ground arith)
    | inr f ↦ elim (Bool-cases (leb b'0' c && leb c b'9')) [
      | inl g ↦ digit (ground arith) (ground arith)
      | inr g ↦ elim (Bool-cases (eqb c b'-')) [
        | inl k ↦ dash (ground arith)
        | inr k ↦ underscore (ground arith)
      ]
    ]
  ]
]

is_base64url_complete : (c : ℕ) → IsBase64urlByte c → is_base64url c ≡ true
is_base64url_complete c (upper h k) = ground arith
is_base64url_complete c (lower h k) = ground arith
is_base64url_complete c (digit h k) = ground arith
is_base64url_complete c (dash h) = ground arith
is_base64url_complete c (underscore h) = ground arith

is_hex_sound : (c : ℕ) → is_hex c ≡ true → IsHexDigit c
is_hex_sound c h = elim (Bool-cases (leb b'0' c && leb c b'9')) [
  | inl e ↦ decimal (ground arith) (ground arith)
  | inr e ↦ elim (Bool-cases (leb b'a' c && leb c b'f')) [
    | inl f ↦ small (ground arith) (ground arith)
    | inr f ↦ capital (ground arith) (ground arith)
  ]
]

is_hex_complete : (c : ℕ) → IsHexDigit c → is_hex c ≡ true
is_hex_complete c (decimal h k) = ground arith
is_hex_complete c (small h k) = ground arith
is_hex_complete c (capital h k) = ground arith

pub is_base64url_chars_sound : (s : Bytes) → is_base64url_chars s ≡ true → Each IsBase64urlByte s
unfolding is_base64url_chars
is_base64url_chars_sound [] h = tt
is_base64url_chars_sound (c ∷ s) h = elim (Bool-cases (is_base64url c)) [
  | inl e ↦ (is_base64url_sound c e, is_base64url_chars_sound s (rw e at h))
  | inr e ↦ absurd (cc (rw e at h))
]

pub is_base64url_chars_complete : (s : Bytes) → Each IsBase64urlByte s → is_base64url_chars s ≡ true
unfolding is_base64url_chars
is_base64url_chars_complete [] h = refl
is_base64url_chars_complete (c ∷ s) (h, k) =
    rw (is_base64url_complete c h) (is_base64url_chars_complete s k)

pub all-is_hex_sound : (s : Bytes) → all is_hex s ≡ true → Each IsHexDigit s
all-is_hex_sound [] h = tt
all-is_hex_sound (c ∷ s) h = elim (Bool-cases (is_hex c)) [
  | inl e ↦ (is_hex_sound c e, all-is_hex_sound s (rw e at h))
  | inr e ↦ absurd (cc (rw e at h))
]

pub all-is_hex_complete : (s : Bytes) → Each IsHexDigit s → all is_hex s ≡ true
all-is_hex_complete [] h = refl
all-is_hex_complete (c ∷ s) (h, k) = rw (is_hex_complete c h) (all-is_hex_complete s k)
