-- ===== src/Auth/RateLimiter/Cleanup.antt =====
-- auth/ratelimit.go: the background cleanup does not change what is allowed.
use dataverse_hub.Base.{
  ℕ, ◌≤◌, ◌≡◌, refl, sym, ◌∙◌, Option, none, some, [], ◌∷◌, Bytes, eq_iff, arith, leb,
  if◌then◌else◌, option_else, Option-cases, Bool-cases, inl, inr,
}
use dataverse_hub.Base.Dict.{Dict, lookup, IsMap}
use dataverse_hub.Auth.RateLimiter.{
  Window, RateLimiter, has_ended, window_of, allow, minute, day, drop_ended, cleanup,
}

lookup-drop_ended :
    (now : ℕ) (ip : Bytes) (m : Dict Window)
    → IsMap m
    → lookup ip (drop_ended now m)
      ≡ option_else (lookup ip m) none λ w. if has_ended now w then none else some w
unfolding lookup drop_ended
lookup-drop_ended now ip [] h = refl
lookup-drop_ended now ip ((j, w) ∷ m) (fresh, h) =
    ground (arith, lookup-drop_ended now ip m h, eq_iff j ip)

window_of-drop_ended :
    (now later duration : ℕ) (ip : Bytes) (m : Dict Window)
    → IsMap m
    → now ≤ later
    → window_of (drop_ended now m) ip later duration ≡ window_of m ip later duration
unfolding window_of
window_of-drop_ended now later duration ip m h le = elim (Option-cases (lookup ip m)) [
  | inl n ↦ rw (lookup-drop_ended now ip m h, n)
  | inr (w, e) ↦ rw (lookup-drop_ended now ip m h, e) (ground arith)
]

verdict : RateLimiter → Window → Window → Option ℕ
verdict rl wm wd =
    if leb rl.max_per_min wm.count
    then some wm.reset_at
    else if leb rl.max_per_day wd.count
    then some wd.reset_at
    else none

allow-verdict :
    (ip : Bytes) (now : ℕ) (rl : RateLimiter)
    → (allow ip now rl).0
      ≡ verdict rl (window_of rl.per_min ip now minute) (window_of rl.per_day ip now day)
unfolding allow verdict
allow-verdict ip now rl =
    elim (Bool-cases (leb rl.max_per_min (window_of rl.per_min ip now minute).count)) [
      | inl e ↦ rw e refl
      | inr e ↦
          rw e (elim (Bool-cases (leb rl.max_per_day (window_of rl.per_day ip now day).count)) [
            | inl d ↦ rw d refl
            | inr d ↦ rw d refl
          ])
    ]

-- What `Allow` answers, and the retry time, are the same whether a cleanup ran at an earlier time or
-- not, in maps with one window for each address.
pub allow-cleanup :
    (now later : ℕ) (ip : Bytes) (rl : RateLimiter)
    → IsMap rl.per_min
    → IsMap rl.per_day
    → now ≤ later
    → (allow ip later (cleanup now rl)).0 ≡ (allow ip later rl).0
unfolding cleanup verdict
allow-cleanup now later ip rl hm hd le =
    allow-verdict ip later (cleanup now rl)
    ∙ (rw
        (
          window_of-drop_ended now later minute ip rl.per_min hm le,
          window_of-drop_ended now later day ip rl.per_day hd le,
        )
        (sym (allow-verdict ip later rl)))
