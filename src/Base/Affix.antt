-- ===== src/Base/Affix.antt =====
-- strings.HasPrefix, TrimPrefix, HasSuffix, TrimSuffix, Contains and LastIndex with one byte.
use Prim.Native.Nat.{ℕ}
use mathlib.Core.Path.{◌≡◌, refl, ap, ◌∙◌}
use mathlib.Core.Bool.{Bool, false, ◌||◌}
use mathlib.Core.Option.{Option, none, some, some-injective}
use mathlib.Core.List.{[], ◌∷◌, ◌++◌}
use native.Mathlib.Omega.{arith}
use dataverse_hub.Base.Tests.{eqb, if◌then◌else◌, option_else, is_some, Bool-cases, Option-cases}
use dataverse_hub.Base.Lists.{length, length-append}
use mathlib.Core.Logic.{inl, inr}
use dataverse_hub.Base.Text.{Bytes, ◌==◌, eq_refl, eq_iff}

-- The text after a prefix, and `none` if the text does not start with it.
unfoldable pub strip_prefix : Bytes → Bytes → Option Bytes
strip_prefix [] s = some s
strip_prefix (c ∷ p) [] = none
strip_prefix (c ∷ p) (d ∷ s) = if eqb c d then strip_prefix p s else none

abbrev pub has_prefix : Bytes → Bytes → Bool
has_prefix s p = is_some (strip_prefix p s)

abbrev pub trim_prefix : Bytes → Bytes → Bytes
trim_prefix s p = option_else (strip_prefix p s) s λ rest. rest

-- The text before a suffix, and `none` if the text does not end with it.
unfoldable pub strip_suffix : Bytes → Bytes → Option Bytes
strip_suffix t [] = if t == [] then some [] else none
strip_suffix t (c ∷ s) =
    let rest = strip_suffix t s in
    if t == (c ∷ s) then some [] else option_else rest none λ front. some (c ∷ front)

abbrev pub has_suffix : Bytes → Bytes → Bool
has_suffix s t = is_some (strip_suffix t s)

abbrev pub trim_suffix : Bytes → Bytes → Bytes
trim_suffix s t = option_else (strip_suffix t s) s λ front. front

abbrev pub has_byte : ℕ → Bytes → Bool
has_byte c [] = false
has_byte c (d ∷ s) = eqb c d || has_byte c s

-- The text before the first byte of that value: `strings.SplitN(s, c, 2)[0]`.
unfoldable pub before_first : ℕ → Bytes → Bytes
before_first c [] = []
before_first c (d ∷ s) = let rest = before_first c s in if eqb c d then [] else d ∷ rest

-- The text before the last byte of that value, which is `s[:strings.LastIndex(s, c)]`.
unfoldable pub before_last : ℕ → Bytes → Option Bytes
before_last c [] = none
before_last c (d ∷ s) = elim (before_last c s) [
  | some front ↦ some (d ∷ front)
  | none ↦ if eqb c d then some [] else none
]

pub strip_prefix-append : (p s : Bytes) → strip_prefix p (p ++ s) ≡ some s
unfolding strip_prefix
strip_prefix-append [] s = refl
strip_prefix-append (c ∷ p) s = ground (arith, strip_prefix-append p s)

strip_suffix_self : (t : Bytes) → strip_suffix t t ≡ some []
unfolding strip_suffix
strip_suffix_self [] = rw (eq_refl []) refl
strip_suffix_self (c ∷ t) = rw (eq_refl (c ∷ t)) refl

longer : (c : ℕ) (s t : Bytes) → (t == (c ∷ s ++ t)) ≡ false
longer c s t = elim (Bool-cases (t == (c ∷ s ++ t))) [
  | inr e ↦ e
  | inl e ↦ absurd (omega (arith, ap length ((eq_iff t (c ∷ s ++ t)).0 e), length-append s t))
]

pub strip_suffix-append : (s t : Bytes) → strip_suffix t (s ++ t) ≡ some s
unfolding strip_suffix
strip_suffix-append [] t = strip_suffix_self t
strip_suffix-append (c ∷ s) t = rw (longer c s t, strip_suffix-append s t) refl

pub has_byte-append : (c : ℕ) (s t : Bytes) → has_byte c (s ++ t) ≡ (has_byte c s || has_byte c t)
has_byte-append c [] t = refl
has_byte-append c (d ∷ s) t = ground (arith, has_byte-append c s t)

pub before_last-absent : (c : ℕ) (s : Bytes) → has_byte c s ≡ false → before_last c s ≡ none
unfolding before_last
before_last-absent c [] h = refl
before_last-absent c (d ∷ s) h = rw (before_last-absent c s (ground (arith, h))) (ground (arith, h))

pub before_last-append :
    (c : ℕ) (s t : Bytes) → has_byte c t ≡ false → before_last c (s ++ c ∷ t) ≡ some s
unfolding before_last
before_last-append c [] t h = rw (before_last-absent c t h) (ground arith)
before_last-append c (d ∷ s) t h = rw (before_last-append c s t h) refl

pub before_last-none : (c : ℕ) (s : Bytes) → before_last c s ≡ none → has_byte c s ≡ false
unfolding before_last
before_last-none c [] h = refl
before_last-none c (d ∷ s) h = elim (Option-cases (before_last c s)) [
  | inr (f, e) ↦ absurd (ground (arith, rw e at h))
  | inl n ↦ ground (arith, before_last-none c s n, rw n at h)
]

-- The text around the last byte of that value.
pub before_last-split :
    (c : ℕ) (s front : Bytes)
    → before_last c s ≡ some front
    → (rest : Bytes) × (s ≡ front ++ c ∷ rest) × (has_byte c rest ≡ false)
unfolding before_last
before_last-split c [] front h = absurd (cc)
before_last-split c (d ∷ s) front h = elim (Option-cases (before_last c s)) [
  | inr (f, e) ↦
      let (rest, at, clear) = before_last-split c s f e in
      (rest, ap (◌∷◌ d) at ∙ ap (λ x. x ++ c ∷ rest) (some-injective _ _ (rw e at h)), clear)
  | inl n ↦
      let clear = before_last-none c s n in
      let own = rw n at h in
      elim (Bool-cases (eqb c d)) [
        | inl q ↦ (
          s,
          (ap (λ x. x ∷ s) (ground (arith, q))
              ∙ ap (λ x. x ++ c ∷ s) (some-injective _ _ (rw q at own))),
          clear,
        )
        | inr q ↦ absurd (ground (arith, rw q at own))
      ]
]
