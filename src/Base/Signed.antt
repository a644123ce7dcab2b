-- ===== src/Base/Signed.antt =====
-- Go's signed integers, of which the program only compares revisions and prints them.
use Prim.Native.Nat.{ℕ, zero, suc, ◌+◌, ◌-◌, ◌*◌, ◌/◌, ◌%◌, ◌≤◌, ◌<◌}
use mathlib.Core.Path.{◌≡◌, refl, ap, sym, ◌∙◌}
use mathlib.Core.Logic.{inl, inr}
use mathlib.Core.Bool.{Bool, true, false, ◌||◌}
use mathlib.Core.List.{[], ◌∷◌, ◌++◌, tail}
use native.Mathlib.Omega.{arith}
use dataverse_hub.Base.Tests.{ltb, eqb, if◌then◌else◌, Bool-cases}
use dataverse_hub.Base.Lists.{all, all-append}
use dataverse_hub.Base.Text.{Bytes}
use dataverse_hub.Base.Trim.{is_plain}

-- `negsuc n` is -(n + 1).
pub data ℤ : Type 0 where
  pos : ℕ → ℤ
  negsuc : ℕ → ℤ

abbrev pub pos_part : ℤ → ℕ
pos_part (pos n) = n
pos_part (negsuc n) = 0

abbrev pub neg_part : ℤ → ℕ
neg_part (pos n) = 0
neg_part (negsuc n) = suc n

infix 50 ◌<ℤ◌ ◌≤ℤ◌
abbrev pub ◌<ℤ◌ : ℤ → ℤ → Type 0
a <ℤ b = pos_part a + neg_part b < pos_part b + neg_part a

abbrev pub ◌≤ℤ◌ : ℤ → ℤ → Type 0
a ≤ℤ b = pos_part a + neg_part b ≤ pos_part b + neg_part a

-- `a < b` and `a == b` on int
abbrev pub int_lt : ℤ → ℤ → Bool
int_lt a b = ltb (pos_part a + neg_part b) (pos_part b + neg_part a)

abbrev pub int_eq : ℤ → ℤ → Bool
int_eq a b = eqb (pos_part a + neg_part b) (pos_part b + neg_part a)

pub int_eq_sound : (a b : ℤ) → int_eq a b ≡ true → a ≡ b
int_eq_sound a b h = ground arith

-- strconv.Itoa
digits_from : ℕ → ℕ → Bytes
digits_from zero n = []
digits_from (suc fuel) n =
    let front = digits_from fuel (n / 10) in
    if ltb n 10 then (b'0' + n) ∷ [] else front ++ (b'0' + n % 10) ∷ []

-- A number has fewer digits than it has predecessors, so the fuel is enough.
unfoldable pub itoa : ℤ → Bytes
unfolding digits_from
itoa (pos n) = digits_from (suc n) n
itoa (negsuc n) = b'-' ∷ digits_from (suc (suc n)) (suc n)

value : ℕ → Bytes → ℕ
value acc [] = acc
value acc (c ∷ s) = value (acc * 10 + (c - b'0')) s

value-append_one : (acc c : ℕ) (s : Bytes) → value acc (s ++ c ∷ []) ≡ value acc s * 10 + (c - b'0')
unfolding value
value-append_one acc c [] = refl
value-append_one acc c (d ∷ s) = value-append_one (acc * 10 + (d - b'0')) c s

value-digits_from : (fuel n : ℕ) → n < fuel → value 0 (digits_from fuel n) ≡ n
unfolding digits_from value
value-digits_from zero n h = absurd (omega arith)
value-digits_from (suc fuel) n h = elim (Bool-cases (ltb n 10)) [
  | inl e ↦ rw e (omega arith)
  | inr e ↦ rw e (
      value-append_one 0 (b'0' + n % 10) (digits_from fuel (n / 10))
      ∙ omega (arith, value-digits_from fuel (n / 10) (ground arith)))
]

abbrev any_minus : Bytes → Bool
any_minus [] = false
any_minus (c ∷ s) = eqb c b'-' || any_minus s

any_minus-append : (s : Bytes) (c : ℕ) → any_minus (s ++ c ∷ []) ≡ (any_minus s || eqb c b'-')
any_minus-append [] c = ground arith
any_minus-append (d ∷ s) c = ground (arith, any_minus-append s c)

no_minus : (fuel n : ℕ) → any_minus (digits_from fuel n) ≡ false
unfolding digits_from
no_minus zero n = refl
no_minus (suc fuel) n = elim (Bool-cases (ltb n 10)) [
  | inl e ↦ rw e (ground arith)
  | inr e ↦ rw e (
      any_minus-append (digits_from fuel (n / 10)) (b'0' + n % 10)
      ∙ ground (arith, no_minus fuel (n / 10)))
]

-- Different integers have different texts.
pub itoa-injective : (a b : ℤ) → itoa a ≡ itoa b → a ≡ b
unfolding itoa
itoa-injective (pos m) (pos n) h = ap pos (
    sym (value-digits_from (suc m) m (omega arith))
    ∙ ap (value 0) h
    ∙ value-digits_from (suc n) n (omega arith))
itoa-injective (negsuc m) (negsuc n) h =
    let e =
      sym (value-digits_from (suc (suc m)) (suc m) (omega arith))
      ∙ ap (λ s. value 0 (tail s)) h
      ∙ value-digits_from (suc (suc n)) (suc n) (omega arith) in
    ap negsuc (omega (arith, e))
itoa-injective (pos m) (negsuc n) h =
    absurd (ground (arith, sym (no_minus (suc m) m) ∙ ap any_minus h))
itoa-injective (negsuc m) (pos n) h = absurd (ground (arith, ap any_minus h ∙ no_minus (suc n) n))

digits_from-all_plain : (fuel n : ℕ) → all is_plain (digits_from fuel n) ≡ true
unfolding digits_from
digits_from-all_plain zero n = refl
digits_from-all_plain (suc fuel) n = elim (Bool-cases (ltb n 10)) [
  | inl e ↦ rw e (ground arith)
  | inr e ↦ rw e (
      all-append is_plain (digits_from fuel (n / 10)) ((b'0' + n % 10) ∷ [])
      ∙ ground (arith, digits_from-all_plain fuel (n / 10)))
]

-- The text of an integer has only digits and a sign.
pub itoa-all_plain : (a : ℤ) → all is_plain (itoa a) ≡ true
unfolding itoa
itoa-all_plain (pos n) = digits_from-all_plain (suc n) n
itoa-all_plain (negsuc n) = ground (arith, digits_from-all_plain (suc (suc n)) (suc n))
