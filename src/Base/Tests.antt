-- ===== src/Base/Tests.antt =====
-- Boolean tests on the native numbers, the conditional, and case splits that keep an equation.
use Prim.Native.Nat.{ℕ, ◌≤◌, ◌<◌, compare, Ordering}
use mathlib.Core.Path.{◌≡◌, refl}
use mathlib.Core.Logic.{◌≢◌, ◌↔◌, ◌⊎◌, inl, inr}
use mathlib.Core.Bool.{Bool, true, false}
use mathlib.Core.Option.{Option, none, some}
use native.Mathlib.Omega.{arith}

abbrev pub ltb : ℕ → ℕ → Bool
ltb a b = elim (compare a b) [ Ordering.lt ↦ true | _ ↦ false ]

abbrev pub leb : ℕ → ℕ → Bool
leb a b = elim (compare a b) [ Ordering.gt ↦ false | _ ↦ true ]

abbrev pub eqb : ℕ → ℕ → Bool
eqb a b = elim (compare a b) [ Ordering.eq ↦ true | _ ↦ false ]

infix 1 if◌then◌else◌
abbrev pub if◌then◌else◌ {ℓ} : {A : Type ℓ} → Bool → A → A → A
if true then x else y = x
if false then x else y = y

pub ltb→lt : (a b : ℕ) → ltb a b ≡ true → a < b
ltb→lt a b h = ground arith

pub leb→le : (a b : ℕ) → leb a b ≡ true → a ≤ b
leb→le a b h = ground arith

pub eqb_iff : (a b : ℕ) → (eqb a b ≡ true) ↔ (a ≡ b)
eqb_iff a b = ground arith

pub Bool-cases : (b : Bool) → (b ≡ true) ⊎ (b ≡ false)
Bool-cases true = inl refl
Bool-cases false = inr refl

pub Option-cases {ℓ} : {A : Type ℓ} (o : Option A) → (o ≡ none) ⊎ ((a : A) × (o ≡ some a))
Option-cases none = inl refl
Option-cases (some a) = inr (a, refl)

-- `v, ok := …; if !ok { return d }; return f(v)`
abbrev pub option_else {ℓ κ} : {A : Type ℓ} {B : Type κ} → Option A → B → (A → B) → B
option_else none d f = d
option_else (some a) d f = f a

abbrev pub is_some {ℓ} : {A : Type ℓ} → Option A → Bool
is_some none = false
is_some (some a) = true

-- Inversion of a chain of early returns: the result is not the one that a failed test returns.
pub option_else-inv {ℓ κ} :
    {A : Type ℓ} {B : Type κ} (o : Option A) (d : B) (f : A → B) {r : B}
    → option_else o d f ≡ r
    → d ≢ r
    → (a : A) × (o ≡ some a) × (f a ≡ r)
option_else-inv none d f h n = absurd (n h)
option_else-inv (some a) d f h n = (a, refl, h)

-- What holds of both outcomes of an early return holds of the result.
pub option_else_ind {ℓ κ τ} :
    {A : Type ℓ} {B : Type κ} (P : B → Type τ) (o : Option A) (d : B) (f : A → B)
    → (o ≡ none → P d)
    → ((a : A) → P (f a))
    → P (option_else o d f)
option_else_ind P none d f h k = h refl
option_else_ind P (some a) d f h k = k a

pub option_else-inv_none {ℓ κ} :
    {A : Type ℓ} {B : Type κ} (o : Option A) (d : B) (f : A → B) {r : B}
    → option_else o d f ≡ r
    → ((a : A) → f a ≢ r)
    → (o ≡ none) × (d ≡ r)
option_else-inv_none none d f h n = (refl, h)
option_else-inv_none (some a) d f h n = absurd (n a h)

pub if-inv {ℓ} :
    {B : Type ℓ} (b : Bool) (x y : B) {r : B}
    → (if b then x else y) ≡ r
    → x ≢ r
    → (b ≡ false) × (y ≡ r)
if-inv true x y h n = absurd (n h)
if-inv false x y h n = (refl, h)

-- A result and a nil error, or an error.
pub data Result {ℓ} (E : Type 0) (A : Type ℓ) : Type ℓ where
  ok : A → Result E A
  err : E → Result E A

pub Result-cases {ℓ} :
    {E : Type 0} {A : Type ℓ} (r : Result E A) → ((a : A) × (r ≡ ok a)) ⊎ ((e : E) × (r ≡ err e))
Result-cases (ok a) = inl (a, refl)
Result-cases (err e) = inr (e, refl)
