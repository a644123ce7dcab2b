-- ===== src/Realm/RealmId/Uuid.antt =====
-- realm/realmid.go: formatting and parsing of UUIDs.
use native.Mathlib.Decide.{dec_lt}
use dataverse_hub.Base.{
  ℕ, zero, suc, ◌+◌, ◌*◌, ◌/◌, ◌%◌, ◌≤◌, ◌<◌, ◌≡◌, refl, ap, ◌∙◌, Bool, true, false, ◌&&◌, some, [],
  ◌∷◌, ◌++◌, Bytes, length, take, drop, ltb, leb, all, arith, all-take, all-drop, length-take,
  length-drop,
}
use dataverse_hub.External.{Library}
use dataverse_hub.Object.Ref.{is_hex}
use dataverse_hub.Object.Ref.Alphabet.{all-is_hex_sound}
use dataverse_hub.Object.Ref.Shape.{IsHexGroup, IsUuid}
use dataverse_hub.Realm.RealmId.{
  hex_text, hex_digit, format_uuid, hex_value, hex_decode, must_parse_uuid, namespace_bytes,
  copy_into, update_at, realm_id, realm_id_bytes, set_version, set_variant,
}

abbrev pub all_bytes : Bytes → Bool
all_bytes = all (λ c. ltb c 256)

hex_text-hex : (s : Bytes) → all_bytes s ≡ true → all is_hex (hex_text s) ≡ true
unfolding hex_text
hex_text-hex [] h = refl
hex_text-hex (c ∷ s) h = ground (arith, hex_text-hex s)

length-hex_text : (s : Bytes) → length (hex_text s) ≡ 2 * length s
unfolding hex_text
length-hex_text [] = refl
length-hex_text (c ∷ s) = omega (arith, length-hex_text s)

hex_value-digit : (d : ℕ) → d < 16 → hex_value (hex_digit d) ≡ some d
hex_value-digit d h = ground arith

hex_decode-text : (s : Bytes) → all_bytes s ≡ true → hex_decode (hex_text s) ≡ some s
unfolding hex_decode hex_text
hex_decode-text [] h = refl
hex_decode-text (c ∷ s) h =
    ground (arith, hex_decode-text s, hex_value-digit (c / 16), hex_value-digit (c % 16))

-- The 16 bytes one by one.
parse_sixteen :
    (b : Bytes) → length b ≡ 16 → all_bytes b ≡ true → must_parse_uuid (format_uuid b) ≡ some b
unfolding must_parse_uuid format_uuid hex_text
parse_sixteen
      (b0 ∷ b1 ∷ b2 ∷ b3 ∷ b4 ∷ b5 ∷ b6 ∷ b7 ∷ b8 ∷ b9 ∷ b10 ∷ b11 ∷ b12 ∷ b13 ∷ b14 ∷ b15 ∷ []) n
      h =
    let text =
      hex_decode-text
        (b0 ∷ b1 ∷ b2 ∷ b3 ∷ b4 ∷ b5 ∷ b6 ∷ b7 ∷ b8 ∷ b9 ∷ b10 ∷ b11 ∷ b12 ∷ b13 ∷ b14 ∷ b15 ∷ [])
        h in
    rw text
parse_sixteen _ n h = absurd (omega arith)

hex_group :
    (n : ℕ) (s : Bytes) → all_bytes s ≡ true → length s ≡ n → IsHexGroup (2 * n) (hex_text s)
hex_group n s h size = record {
  size = omega (arith, length-hex_text s);
  digits = all-is_hex_sound _ (hex_text-hex s h);
}

bytes_part : (n m : ℕ) (b : Bytes) → all_bytes b ≡ true → all_bytes (take n (drop m b)) ≡ true
bytes_part n m b h = all-take _ n (drop m b) (all-drop _ m b h)

length-part : (n m : ℕ) (b : Bytes) → n + m ≤ length b → length (take n (drop m b)) ≡ n
length-part n m b h = length-take n (drop m b) (omega (arith, length-drop m b))

-- The text of 16 bytes has the canonical form.
pub format_uuid-IsUuid : (b : Bytes) → length b ≡ 16 → all_bytes b ≡ true → IsUuid (format_uuid b)
unfolding format_uuid
format_uuid-IsUuid b n h = record {
  a = hex_text (take 4 b);
  b = hex_text (take 2 (drop 4 b));
  c = hex_text (take 2 (drop 6 b));
  d = hex_text (take 2 (drop 8 b));
  e = hex_text (drop 10 b);
  form = refl;
  a_hex = hex_group 4 _ (all-take _ 4 b h) (length-take 4 b (omega arith));
  b_hex = hex_group 2 _ (bytes_part 2 4 b h) (length-part 2 4 b (omega arith));
  c_hex = hex_group 2 _ (bytes_part 2 6 b h) (length-part 2 6 b (omega arith));
  d_hex = hex_group 2 _ (bytes_part 2 8 b h) (length-part 2 8 b (omega arith));
  e_hex = hex_group 6 _ (all-drop _ 10 b h) (omega (arith, length-drop 10 b));
}

length-copy_into : (n : ℕ) (s : Bytes) → length (copy_into n s) ≡ n
unfolding copy_into
length-copy_into zero s = refl
length-copy_into (suc n) [] = omega (arith, length-copy_into n [])
length-copy_into (suc n) (c ∷ s) = omega (arith, length-copy_into n s)

all_bytes-copy_into : (n : ℕ) (s : Bytes) → all_bytes s ≡ true → all_bytes (copy_into n s) ≡ true
unfolding copy_into
all_bytes-copy_into zero s h = refl
all_bytes-copy_into (suc n) [] h = ground (arith, all_bytes-copy_into n [])
all_bytes-copy_into (suc n) (c ∷ s) h = ground (arith, all_bytes-copy_into n s)

length-update_at : (i : ℕ) (f : ℕ → ℕ) (s : Bytes) → length (update_at i f s) ≡ length s
length-update_at i f [] = refl
length-update_at zero f (c ∷ s) = refl
length-update_at (suc i) f (c ∷ s) = ap suc (length-update_at i f s)

all_bytes-update_at :
    (i : ℕ) (f : ℕ → ℕ) (s : Bytes)
    → ((c : ℕ) → c < 256 → f c < 256)
    → all_bytes s ≡ true
    → all_bytes (update_at i f s) ≡ true
all_bytes-update_at i f [] k h = refl
all_bytes-update_at zero f (c ∷ s) k h = ground (arith, k c)
all_bytes-update_at (suc i) f (c ∷ s) k h = ground (arith, all_bytes-update_at i f s k)

-- The test passes at each of the first numbers.
passes : (ℕ → Bool) → ℕ → Bool
passes test zero = true
passes test (suc count) = elim (test count) [ true ↦ passes test count | false ↦ false ]

passes_at :
    (test : ℕ → Bool) (count : ℕ) → passes test count ≡ true → (c : ℕ) → c < count → test c ≡ true
unfolding passes
passes_at test (suc count) all_pass c small = elim (dec_lt c count) [
  | yes below ↦ passes_at test count (ground arith) c below
  | no last ↦ let e : c ≡ count = omega arith in rw e (ground arith)
]
passes_at test zero all_pass c small = absurd (omega arith)

-- Version 5 in the high nibble; the variant bits 10.
version_table : passes (λ c. leb 0x50 (set_version c) && ltb (set_version c) 0x60) 256 ≡ true
unfolding passes
version_table = refl

variant_table : passes (λ c. leb 0x80 (set_variant c) && ltb (set_variant c) 0xc0) 256 ≡ true
unfolding passes
variant_table = refl

pub set_version-range : (c : ℕ) → c < 256 → (0x50 ≤ set_version c) × (set_version c < 0x60)
set_version-range c h = ground (arith, passes_at _ 256 version_table c h)

pub set_variant-range : (c : ℕ) → c < 256 → (0x80 ≤ set_variant c) × (set_variant c < 0xc0)
set_variant-range c h = ground (arith, passes_at _ 256 variant_table c h)

-- Reading the text of 16 bytes gives the bytes back.
pub must_parse_uuid-format_uuid :
    (b : Bytes) → length b ≡ 16 → all_bytes b ≡ true → must_parse_uuid (format_uuid b) ≡ some b
must_parse_uuid-format_uuid = parse_sixteen

-- sha1.Sum returns bytes.
pub record IsSha1 (lib : Library) : Type 0 where
  pub bytes : (s : Bytes) → all_bytes (lib.sha1 s) ≡ true

module _ (lib : Library) (hash : IsSha1 lib) (realm : Bytes) where
  abbrev sum : Bytes
  sum = copy_into 16 (lib.sha1 (namespace_bytes ++ realm))

  pub realm_id_bytes-bytes : all_bytes (realm_id_bytes lib realm) ≡ true
  unfolding realm_id_bytes
  realm_id_bytes-bytes =
      all_bytes-update_at 8 set_variant (update_at 6 set_version sum)
        (λ c h. omega (arith, set_variant-range c h))
        (all_bytes-update_at 6 set_version sum (λ c h. omega (arith, set_version-range c h))
          (all_bytes-copy_into 16 (lib.sha1 (namespace_bytes ++ realm))
            (hash.bytes (namespace_bytes ++ realm))))

  pub length-realm_id_bytes : length (realm_id_bytes lib realm) ≡ 16
  unfolding realm_id_bytes
  length-realm_id_bytes =
      length-update_at 8 set_variant (update_at 6 set_version sum)
      ∙ length-update_at 6 set_version sum
      ∙ length-copy_into 16 (lib.sha1 (namespace_bytes ++ realm))

  pub realm_id-IsUuid : IsUuid (realm_id lib realm)
  unfolding realm_id
  realm_id-IsUuid =
      format_uuid-IsUuid (realm_id_bytes lib realm) length-realm_id_bytes realm_id_bytes-bytes
