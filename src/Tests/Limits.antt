-- ===== src/Tests/Limits.antt =====
-- auth/ at concrete inputs.
use dataverse_hub.Base.{◌<◌, ◌≤◌, ◌≡◌, ◌+◌, refl, none, List, [], ◌∷◌, arith}
use dataverse_hub.Base.Dict.{lookup}
use dataverse_hub.Auth.RateLimiter.{
  window_of, RateLimiter, new_rate_limiter, allow, cleanup, minute,
}
use dataverse_hub.Auth.RateLimiter.Minute.{minute_of}
use dataverse_hub.Auth.RateLimiter.Bounds.{
  LimiterCall, request, refunding, allowed, refunds, allowed-minute_bound,
}
use dataverse_hub.Auth.RateLimiter.Cleanup.{allow-cleanup}
use dataverse_hub.Tests.Fixture.{alice, bob}

abbrev limiter : RateLimiter
limiter = new_rate_limiter 2 100

abbrev calls : List LimiterCall
calls = request bob 1 ∷ request alice 2 ∷ refunding alice 2 ∷ request alice 3 ∷ []

limiter-fresh : minute_of limiter alice ≡ none
unfolding lookup
limiter-fresh = refl

allowed-minute_bound_example :
    allowed alice (request alice 0 ∷ calls) limiter ≤ 2 + refunds alice calls
allowed-minute_bound_example = allowed-minute_bound alice 0 calls limiter limiter-fresh refl

allow-cleanup_example : (allow alice 9 (cleanup 5 limiter)).0 ≡ (allow alice 9 limiter).0
allow-cleanup_example = allow-cleanup 5 9 alice limiter tt tt (omega arith)

first-granted : (allow alice 0 limiter).0 ≡ none
unfolding allow lookup
first-granted = refl

first-open : 7 < (window_of limiter.per_min alice 0 minute).reset_at
unfolding window_of lookup
first-open = omega arith
