-- ===== src/Auth/RateLimiter/Minute.antt =====
-- auth/ratelimit.go: what `Allow` and `Refund` do to the window of the minute of one address.
use dataverse_hub.Base.{
  ℕ, suc, ◌+◌, ◌-◌, ◌≤◌, ◌<◌, ◌≡◌, refl, sym, false, ◌&&◌, Option, none, some, Bytes, ◌==◌, eq_iff,
  eq_refl, arith, leb, ltb, if◌then◌else◌, Option-cases, Bool-cases, inl, inr,
}
use dataverse_hub.Base.Dict.{Dict, lookup, lookup-insert}
use dataverse_hub.Auth.RateLimiter.{
  Window, RateLimiter, has_ended, window_of, get_or_create, set_count, allow, minute, day,
  give_back, refund,
}

pub lookup-get_or_create :
    (m : Dict Window) (ip j : Bytes) (now duration : ℕ)
    → lookup j (get_or_create m ip now duration)
      ≡ (if ip == j then some (window_of m ip now duration) else lookup j m)
unfolding get_or_create window_of
lookup-get_or_create m ip j now duration = elim (Option-cases (lookup ip m)) [
  | inl n ↦ rw (n, lookup-insert ip j) refl
  | inr (w, e) ↦ elim (Bool-cases (has_ended now w)) [
    | inl d ↦ rw (e, d, lookup-insert ip j) refl
    | inr d ↦ rw (e, d) (ground (arith, eq_iff ip j))
  ]
]

-- The window of the minute in the map, as a call finds it.
abbrev pub minute_of : RateLimiter → Bytes → Option Window
minute_of rl ip = lookup ip rl.per_min

-- What a call leaves in the map of the minutes.
pub minute_of-allow :
    (ip j : Bytes) (now : ℕ) (rl : RateLimiter)
    → minute_of (allow ip now rl).1 j ≡ (
        if ip == j
        then elim (allow ip now rl).0 [
          | none ↦ some (
              set_count
                (suc (window_of rl.per_min ip now minute).count)
                (window_of rl.per_min ip now minute))
          | some t ↦ some (window_of rl.per_min ip now minute)
        ]
        else minute_of rl j)
unfolding allow
minute_of-allow ip j now rl =
    elim (Bool-cases (leb rl.max_per_min (window_of rl.per_min ip now minute).count)) [
      | inl e ↦ rw e (lookup-get_or_create rl.per_min ip j now minute)
      | inr e ↦
          rw e (elim (Bool-cases (leb rl.max_per_day (window_of rl.per_day ip now day).count)) [
            | inl d ↦ rw d (lookup-get_or_create rl.per_min ip j now minute)
            | inr d ↦ rw d (
                rw (lookup-insert ip j, lookup-get_or_create rl.per_min ip j now minute)
                  (ground (arith, eq_iff ip j)))
          ])
    ]

pub allow-max :
    (ip : Bytes) (now : ℕ) (rl : RateLimiter) → (allow ip now rl).1.max_per_min ≡ rl.max_per_min
unfolding allow
allow-max ip now rl =
    elim (Bool-cases (leb rl.max_per_min (window_of rl.per_min ip now minute).count)) [
      | inl e ↦ rw e refl
      | inr e ↦
          rw e (elim (Bool-cases (leb rl.max_per_day (window_of rl.per_day ip now day).count)) [
            | inl d ↦ rw d refl
            | inr d ↦ rw d refl
          ])
    ]

pub allow-below_max :
    (ip : Bytes) (now : ℕ) (rl : RateLimiter)
    → (allow ip now rl).0 ≡ none
    → (window_of rl.per_min ip now minute).count < rl.max_per_min
unfolding allow
allow-below_max ip now rl h =
    elim (Bool-cases (leb rl.max_per_min (window_of rl.per_min ip now minute).count)) [
      | inl e ↦
          let k : ◌≡◌ {A = Option ℕ} (some (window_of rl.per_min ip now minute).reset_at) none =
            rw (sym h, e) refl in
          absurd (cc)
      | inr e ↦ ground arith
    ]

-- The window that a call finds is the one in the map if it has not ended.
pub window_of-open :
    (m : Dict Window) (ip : Bytes) (now duration : ℕ) (w : Window)
    → lookup ip m ≡ some w
    → now ≤ w.reset_at
    → window_of m ip now duration ≡ w
unfolding window_of
window_of-open m ip now duration w e le = rw e (ground arith)

-- What a refund leaves of a window: the count goes down by 1 at most.
pub give_back_own :
    (ip : Bytes) (now : ℕ) (m : Dict Window) (w : Window)
    → lookup ip m ≡ some w
    → (n : ℕ) × (lookup ip (give_back ip now m) ≡ some (set_count n w)) × (w.count ≤ suc n)
unfolding give_back
give_back_own ip now m w e = elim (Bool-cases (ltb now w.reset_at && ltb 0 w.count)) [
  | inl q ↦ (w.count - 1, rw (e, q, lookup-insert ip ip, eq_refl ip) refl, omega arith)
  | inr q ↦ (w.count, rw (e, q) e, omega arith)
]

pub give_back_other :
    (ip j : Bytes) (now : ℕ) (m : Dict Window)
    → (j == ip) ≡ false
    → lookup ip (give_back j now m) ≡ lookup ip m
unfolding give_back
give_back_other ip j now m n = elim (Option-cases (lookup j m)) [
  | inl e ↦ rw e refl
  | inr (w, e) ↦ elim (Bool-cases (ltb now w.reset_at && ltb 0 w.count)) [
    | inl q ↦ rw (e, q, lookup-insert j ip, n) refl
    | inr q ↦ rw (e, q) refl
  ]
]

pub refund-max :
    (ip : Bytes) (now : ℕ) (rl : RateLimiter) → (refund ip now rl).max_per_min ≡ rl.max_per_min
unfolding refund
refund-max ip now rl = refl

pub window_of-fresh :
    (m : Dict Window) (ip : Bytes) (now duration : ℕ)
    → lookup ip m ≡ none
    → window_of m ip now duration ≡ record { count = 0; reset_at = now + duration }
unfolding window_of
window_of-fresh m ip now duration e = rw e
