-- ===== src/Auth/RateLimiter/Refund.antt =====
-- auth/ratelimit.go: the refund that the middleware gives for a reply 304.
use dataverse_hub.Base.{
  ℕ, suc, ◌<◌, ◌≡◌, refl, ap, ◌∙◌, true, ◌&&◌, none, some, Bytes, eq_refl, arith, ltb,
}
use dataverse_hub.Base.Dict.{Dict, lookup, lookup-insert}
use dataverse_hub.Auth.RateLimiter.{
  Window, RateLimiter, window_of, set_count, allow, minute, give_back, refund,
}
use dataverse_hub.Auth.RateLimiter.Minute.{minute_of, minute_of-allow}

lookup-give_back :
    (ip : Bytes) (now : ℕ) (m : Dict Window) (w : Window)
    → lookup ip m ≡ some (set_count (suc w.count) w)
    → now < w.reset_at
    → lookup ip (give_back ip now m) ≡ some w
unfolding give_back
lookup-give_back ip now m w e lt =
    let running : (ltb now w.reset_at && ltb 0 (suc w.count)) ≡ true = ground arith in
    rw (e, running, lookup-insert ip ip, eq_refl ip) (ap (λ n. some (set_count n w)) (omega arith))

-- A request that is let through and refunded before the minute ends leaves the address the count and
-- the end of the minute that the request found.
pub refund-allow :
    (ip : Bytes) (now later : ℕ) (rl : RateLimiter)
    → (allow ip now rl).0 ≡ none
    → later < (window_of rl.per_min ip now minute).reset_at
    → minute_of (refund ip later (allow ip now rl).1) ip ≡ some (window_of rl.per_min ip now minute)
unfolding refund
refund-allow ip now later rl granted running =
    lookup-give_back ip later (allow ip now rl).1.per_min (window_of rl.per_min ip now minute)
      (minute_of-allow ip ip now rl ∙ rw (eq_refl ip, granted) refl) running
