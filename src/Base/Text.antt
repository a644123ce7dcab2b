-- ===== src/Base/Text.antt =====
-- A Go string is its bytes. Equality and the byte-wise order of strings, and literals.
use Prim.Native.Nat.{ℕ}
use Prim.Native.Char.{code}
use Prim.Native.String.{String}
use mathlib.Core.Path.{◌≡◌, refl}
use mathlib.Core.Logic.{◌↔◌, ◌⊎◌, inl, inr}
use mathlib.Core.Bool.{Bool, true, false, ◌&&◌, ◌||◌}
use mathlib.Core.Option.{Option, none, some}
use mathlib.Core.List.{List, [], ◌∷◌}
use native.Mathlib.Omega.{arith}
use dataverse_hub.Base.Tests.{ltb, eqb}

abbrev pub Bytes : Type 0
Bytes = List ℕ

-- The bytes of an ASCII literal.
abbrev pub bytes : String → Bytes
bytes String.[] = []
bytes (String.◌∷◌ c s) = code c ∷ bytes s

infix 50 ◌==◌
unfoldable pub ◌==◌ : Bytes → Bytes → Bool
[] == [] = true
[] == (_ ∷ _) = false
(_ ∷ _) == [] = false
(a ∷ s) == (b ∷ t) = eqb a b && s == t

-- `s < t` on strings
unfoldable pub str_lt : Bytes → Bytes → Bool
str_lt _ [] = false
str_lt [] (_ ∷ _) = true
str_lt (a ∷ s) (b ∷ t) = ltb a b || (eqb a b && str_lt s t)

pub eq_sound : (s t : Bytes) → (s == t) ≡ true → s ≡ t
unfolding ◌==◌
eq_sound [] [] h = refl
eq_sound [] (_ ∷ _) h = cc
eq_sound (_ ∷ _) [] h = cc
eq_sound (a ∷ s) (b ∷ t) h = ground (arith, eq_sound s t)

pub eq_refl : (s : Bytes) → (s == s) ≡ true
unfolding ◌==◌
eq_refl [] = refl
eq_refl (a ∷ s) = ground (arith, eq_refl s)

pub eq_complete : (s t : Bytes) → s ≡ t → (s == t) ≡ true
eq_complete s t h = ground (arith, eq_refl s)

pub eq_iff : (s t : Bytes) → ((s == t) ≡ true) ↔ (s ≡ t)
eq_iff s t = (eq_sound s t, eq_complete s t)

pub str_lt_irrefl : (s : Bytes) → str_lt s s ≡ false
unfolding str_lt
str_lt_irrefl [] = refl
str_lt_irrefl (a ∷ s) = ground (arith, str_lt_irrefl s)

pub str_lt_trans : (s t u : Bytes) → str_lt s t ≡ true → str_lt t u ≡ true → str_lt s u ≡ true
unfolding str_lt
str_lt_trans s t [] h k = cc
str_lt_trans [] t (_ ∷ _) h k = refl
str_lt_trans (_ ∷ _) [] (_ ∷ _) h k = cc
str_lt_trans (a ∷ s) (b ∷ t) (c ∷ u) h k = ground (arith, str_lt_trans s t u)

-- Of two different strings one is smaller.
pub str_lt_total : (s t : Bytes) → (s ≡ t) ⊎ (str_lt s t ≡ true) ⊎ (str_lt t s ≡ true)
unfolding str_lt
str_lt_total [] [] = inl refl
str_lt_total [] (_ ∷ _) = inr (inl refl)
str_lt_total (_ ∷ _) [] = inr (inr refl)
str_lt_total (a ∷ s) (b ∷ t) = ground (arith, str_lt_total s t)

-- `for _, r := range xs { if r == s { return true } }; return false`
unfoldable pub contains : List Bytes → Bytes → Bool
contains [] s = false
contains (r ∷ rs) s = r == s || contains rs s

-- `s[i] == c`, given `s[i]`; the program indexes within bounds
abbrev pub byte_is : Option ℕ → ℕ → Bool
byte_is none c = false
byte_is (some b) c = eqb b c
