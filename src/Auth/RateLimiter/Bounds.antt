-- ===== src/Auth/RateLimiter/Bounds.antt =====
-- auth/ratelimit.go: the limit on the requests of one address.
use dataverse_hub.Base.{
  ℕ, suc, ◌+◌, ◌-◌, ◌≤◌, ◌≡◌, refl, ap, sym, subst, ◌∙◌, Bool, true, false, ◌&&◌, Option, none,
  some, List, [], ◌∷◌, Bytes, ◌==◌, eq_iff, eq_refl, arith, leb, if◌then◌else◌, Option-cases,
  Bool-cases, inl, inr,
}
use dataverse_hub.Auth.RateLimiter.{
  Window, RateLimiter, window_of, set_count, allow, minute, refund,
}
use dataverse_hub.Auth.RateLimiter.Minute.{
  minute_of, minute_of-allow, allow-max, allow-below_max, window_of-open, window_of-fresh,
  give_back_own, give_back_other, refund-max,
}

abbrev is_allowed : Option ℕ → Bool
is_allowed none = true
is_allowed (some t) = false

-- What the middleware calls for an address at a time: `Allow` for a request, and `Refund` for a request
-- whose reply was 304.
pub data LimiterCall : Type 0 where
  request refunding : Bytes → ℕ → LimiterCall

-- How many of the calls of `Allow`, among all calls in their order, let the address through.
abbrev pub allowed : Bytes → List LimiterCall → RateLimiter → ℕ
allowed ip [] rl = 0
allowed ip (request j now ∷ calls) rl =
    (if j == ip && is_allowed (allow j now rl).0 then 1 else 0)
    + allowed ip calls (allow j now rl).1
allowed ip (refunding j now ∷ calls) rl = allowed ip calls (refund j now rl)

-- How many of the calls are refunds of the address.
abbrev pub refunds : Bytes → List LimiterCall → ℕ
refunds ip [] = 0
refunds ip (request j now ∷ calls) = refunds ip calls
refunds ip (refunding j now ∷ calls) = (if j == ip then 1 else 0) + refunds ip calls

abbrev pub time_of : LimiterCall → ℕ
time_of (request j now) = now
time_of (refunding j now) = now

abbrev pub none_after : ℕ → List LimiterCall → Bool
none_after t [] = true
none_after t (c ∷ calls) = leb (time_of c) t && none_after t calls

none_after-rest :
    (t : ℕ) (c : LimiterCall) (calls : List LimiterCall)
    → none_after t (c ∷ calls) ≡ true
    → (time_of c ≤ t) × (none_after t calls ≡ true)
none_after-rest t c calls h = (ground arith, ground arith)

-- The bound that an open window puts on the calls.
abbrev IsBounded : Bytes → List LimiterCall → Type 0
IsBounded ip calls =
    (rl : RateLimiter) (w : Window)
    → minute_of rl ip ≡ some w
    → none_after w.reset_at calls ≡ true
    → allowed ip calls rl ≤ rl.max_per_min - w.count + refunds ip calls

allowed-refunding :
    (ip j : Bytes) (now : ℕ) (calls : List LimiterCall) (rl : RateLimiter) (w : Window)
    → IsBounded ip calls
    → minute_of rl ip ≡ some w
    → none_after w.reset_at calls ≡ true
    → allowed ip (refunding j now ∷ calls) rl
      ≤ rl.max_per_min - w.count + refunds ip (refunding j now ∷ calls)
unfolding refund
allowed-refunding ip j now calls rl w ih e rest = elim (Bool-cases (j == ip)) [
  | inr n ↦
      let next : minute_of (refund j now rl) ip ≡ some w =
        give_back_other ip j now rl.per_min n ∙ e in
      rw n (omega (arith, ih (refund j now rl) w next rest, refund-max j now rl))
  | inl y ↦
      let same : j ≡ ip = (eq_iff j ip).0 y in
      let (n, next, low) = give_back_own ip now rl.per_min w e in
      let bound = ih (refund ip now rl) (set_count n w) next rest in
      rw (same, eq_refl ip) (omega (arith, bound, low, refund-max ip now rl))
]

allowed-own_call :
    (ip : Bytes) (now : ℕ) (calls : List LimiterCall) (rl : RateLimiter) (w : Window)
    → IsBounded ip calls
    → window_of rl.per_min ip now minute ≡ w
    → none_after w.reset_at calls ≡ true
    → allowed ip (request ip now ∷ calls) rl ≤ rl.max_per_min - w.count + refunds ip calls
allowed-own_call ip now calls rl w ih found rest = elim (Option-cases (allow ip now rl).0) [
  | inl g ↦
      let next : minute_of (allow ip now rl).1 ip ≡ some (set_count (suc w.count) w) =
        minute_of-allow ip ip now rl ∙ rw (eq_refl ip, g, found) refl in
      let bound : allowed ip calls (allow ip now rl).1
          ≤ (allow ip now rl).1.max_per_min - suc w.count + refunds ip calls =
        ih (allow ip now rl).1 (set_count (suc w.count) w) next rest in
      rw (eq_refl ip, g)
        (omega (
          arith,
          bound,
          allow-below_max ip now rl g,
          allow-max ip now rl,
          ap (λ (x : Window). x.count) found,
        ))
  | inr (t, r) ↦
      let next : minute_of (allow ip now rl).1 ip ≡ some w =
        minute_of-allow ip ip now rl ∙ rw (eq_refl ip, r, found) refl in
      rw (eq_refl ip, r) (omega (arith, ih (allow ip now rl).1 w next rest, allow-max ip now rl))
]

-- As long as the window of an address is open, whatever calls for this and for other addresses come,
-- the address is let through at most as often as its count is below the limit of the minute, and once
-- more for each refund.
pub allowed-open_bound :
    (ip : Bytes) (calls : List LimiterCall) (rl : RateLimiter) (w : Window)
    → minute_of rl ip ≡ some w
    → none_after w.reset_at calls ≡ true
    → allowed ip calls rl ≤ rl.max_per_min - w.count + refunds ip calls
allowed-open_bound ip [] rl w e h = omega arith
allowed-open_bound ip (refunding j now ∷ calls) rl w e h =
    allowed-refunding ip j now calls rl w (λ r v. allowed-open_bound ip calls r v) e
      (none_after-rest w.reset_at (refunding j now) calls h).1
allowed-open_bound ip (request j now ∷ calls) rl w e h =
    let rest = none_after-rest w.reset_at (request j now) calls h in
    elim (Bool-cases (j == ip)) [
      | inr n ↦
          let next : minute_of (allow j now rl).1 ip ≡ some w =
            minute_of-allow j ip now rl ∙ rw n e in
          rw n (
            omega (
              arith,
              allowed-open_bound ip calls (allow j now rl).1 w next rest.1,
              allow-max j now rl,
            ))
      | inl y ↦
          subst
            (λ x.
              allowed ip (request x now ∷ calls) rl ≤ rl.max_per_min - w.count + refunds ip calls)
            (sym ((eq_iff j ip).0 y))
            (allowed-own_call ip now calls rl w (λ r v. allowed-open_bound ip calls r v)
              (window_of-open rl.per_min ip now minute w e rest.0) rest.1)
    ]

-- In the minute after a request of an address without a window, that request included, the address is
-- let through at most as often as the limit of the minute says, and once more for each refund that it
-- gets, in whatever order requests and refunds of all addresses come.
pub allowed-minute_bound :
    (ip : Bytes) (start : ℕ) (calls : List LimiterCall) (rl : RateLimiter)
    → minute_of rl ip ≡ none
    → none_after (start + minute) calls ≡ true
    → allowed ip (request ip start ∷ calls) rl ≤ rl.max_per_min + refunds ip calls
allowed-minute_bound ip start calls rl e h = omega (
  arith,
  allowed-own_call ip start calls rl (record { count = 0; reset_at = start + minute })
      (λ r v. allowed-open_bound ip calls r v) (window_of-fresh rl.per_min ip start minute e) h,
)
