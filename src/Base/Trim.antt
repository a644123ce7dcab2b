-- ===== src/Base/Trim.antt =====
-- strings.TrimSpace and strings.Split with the separator ",". A string is its UTF-8 bytes, and a white
-- space code point of Unicode one of their encodings.
use Prim.Native.Nat.{ℕ, zero, suc}
use mathlib.Core.Path.{◌≡◌, refl, ap}
use mathlib.Core.Bool.{Bool, true, false, ◌&&◌, ◌||◌}
use mathlib.Core.List.{List, [], ◌∷◌, ◌++◌}
use native.Mathlib.Omega.{arith}
use dataverse_hub.Base.Tests.{ltb, leb, eqb, if◌then◌else◌}
use dataverse_hub.Base.Lists.{all}
use dataverse_hub.Base.Text.{Bytes}

-- the third byte of a white space code point whose first two are E2 80: U+2000 to U+200A, U+2028,
-- U+2029 and U+202F
abbrev is_general_space : ℕ → Bool
is_general_space c = leb 128 c && leb c 138 || eqb c 168 || eqb c 169 || eqb c 175

abbrev wide_space : ℕ → ℕ → ℕ → Bool
wide_space a b c =
    eqb a 225 && eqb b 154 && eqb c 128
    || eqb a 226 && eqb b 128 && is_general_space c
    || eqb a 226 && eqb b 129 && eqb c 159
    || eqb a 227 && eqb b 128 && eqb c 128

-- The number of bytes of the white space that the text starts with, and 0 if it starts with none.
unfoldable space_width : Bytes → ℕ
space_width [] = 0
space_width (a ∷ s) =
    if ltb a 128 then (if leb 9 a && leb a 13 || eqb a 32 then 1 else 0) else elim s [
      | [] ↦ 0
      | ◌∷◌ b t ↦
          if eqb a 194 && (eqb b 133 || eqb b 160)
          then 2
          else elim t [ [] ↦ 0 | ◌∷◌ c u ↦ if wide_space a b c then 3 else 0 ]
    ]

-- The first argument counts the bytes that are left of a white space.
unfoldable trim_left : ℕ → Bytes → Bytes
unfolding space_width
trim_left k [] = []
trim_left (suc k) (c ∷ s) = trim_left k s
trim_left zero (c ∷ s) = elim (space_width (c ∷ s)) [ zero ↦ c ∷ s | suc k ↦ trim_left k s ]

unfoldable is_all_space : ℕ → Bytes → Bool
unfolding space_width
is_all_space k [] = true
is_all_space (suc k) (c ∷ s) = is_all_space k s
is_all_space zero (c ∷ s) = elim (space_width (c ∷ s)) [ zero ↦ false | suc k ↦ is_all_space k s ]

unfoldable trim_right : Bytes → Bytes
unfolding is_all_space
trim_right [] = []
trim_right (c ∷ s) = let rest = trim_right s in if is_all_space 0 (c ∷ s) then [] else c ∷ rest

unfoldable pub trim_space : Bytes → Bytes
unfolding trim_left trim_right
trim_space s = trim_right (trim_left 0 s)

add_byte : ℕ → List Bytes → List Bytes
add_byte c [] = (c ∷ []) ∷ []
add_byte c (part ∷ parts) = (c ∷ part) ∷ parts

-- strings.Split(s, ",")
unfoldable pub split_commas : Bytes → List Bytes
unfolding add_byte
split_commas [] = [] ∷ []
split_commas (c ∷ s) =
    let rest = split_commas s in if eqb c b',' then [] ∷ rest else add_byte c rest

-- A digit, a letter or a sign after the comma.
abbrev pub is_plain : ℕ → Bool
is_plain c = leb 45 c && ltb c 128

trim_right-quoted :
    (s : Bytes) → all is_plain s ≡ true → trim_right (s ++ b'"' ∷ []) ≡ s ++ b'"' ∷ []
unfolding trim_right is_all_space space_width
trim_right-quoted [] h = refl
trim_right-quoted (c ∷ s) h = ground (arith, trim_right-quoted s)

-- A quoted plain text has no white space to trim.
pub trim_space-quoted :
    (s : Bytes)
    → all is_plain s ≡ true
    → trim_space (b'"' ∷ (s ++ b'"' ∷ [])) ≡ b'"' ∷ (s ++ b'"' ∷ [])
unfolding trim_space trim_left trim_right is_all_space space_width
trim_space-quoted s h = ap (◌∷◌ b'"') (trim_right-quoted s h)

split_commas-quoted_end :
    (s : Bytes) → all is_plain s ≡ true → split_commas (s ++ b'"' ∷ []) ≡ (s ++ b'"' ∷ []) ∷ []
unfolding split_commas add_byte
split_commas-quoted_end [] h = refl
split_commas-quoted_end (c ∷ s) h = ground (arith, split_commas-quoted_end s)

-- A quoted plain text has no comma to split at.
pub split_commas-quoted :
    (s : Bytes)
    → all is_plain s ≡ true
    → split_commas (b'"' ∷ (s ++ b'"' ∷ [])) ≡ (b'"' ∷ (s ++ b'"' ∷ [])) ∷ []
unfolding split_commas add_byte
split_commas-quoted s h = ap (λ parts. add_byte b'"' parts) (split_commas-quoted_end s h)
