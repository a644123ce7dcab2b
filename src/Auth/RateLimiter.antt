-- ===== src/Auth/RateLimiter.antt =====
-- auth/ratelimit.go: `RateLimiter`. Its methods run under its lock, and the time that each reads is an
-- argument. Counts are never negative, and a limit below 0 acts as 0.
pub mod Minute
pub mod Bounds
pub mod Cleanup
pub mod Refund
use dataverse_hub.Base.{
  ℕ, suc, ◌+◌, ◌-◌, ◌*◌, ◌^◌, Bool, true, false, ◌&&◌, not, Option, none, some, List, [], ◌∷◌,
  Bytes, leb, ltb, if◌then◌else◌, option_else,
}
use dataverse_hub.Base.Dict.{Dict, lookup, insert}

pub record Window : Type 0 where
  pub count : ℕ
  pub reset_at : ℕ

pub record RateLimiter : Type 0 where
  pub per_min : Dict Window
  pub per_day : Dict Window
  pub max_per_min : ℕ
  pub max_per_day : ℕ

-- `NewRateLimiter`
abbrev pub new_rate_limiter : ℕ → ℕ → RateLimiter
new_rate_limiter per_min per_day = record {
  per_min = [];
  per_day = [];
  max_per_min = per_min;
  max_per_day = per_day;
}

-- time.Minute and 24*time.Hour in nanoseconds
abbrev pub minute : ℕ
minute = 60 * 10 ^ 9

abbrev pub day : ℕ
day = 24 * 60 * 60 * 10 ^ 9

-- `now.After(w.resetAt)`
abbrev pub has_ended : ℕ → Window → Bool
has_ended now w = ltb w.reset_at now

-- the window that `getOrCreate` returns
unfoldable pub window_of : Dict Window → Bytes → ℕ → ℕ → Window
window_of m ip now duration =
    option_else (lookup ip m) (record { count = 0; reset_at = now + duration })
      λ w. if has_ended now w then (record { count = 0; reset_at = now + duration }) else w

-- the map that `getOrCreate` leaves
unfoldable pub get_or_create : Dict Window → Bytes → ℕ → ℕ → Dict Window
get_or_create m ip now duration =
    option_else (lookup ip m) (insert ip (window_of m ip now duration) m)
      λ w. if has_ended now w then insert ip (window_of m ip now duration) m else m

-- `w.count++` and `w.count--` through the pointer in the map
abbrev pub set_count : ℕ → Window → Window
set_count n w = record w { count = n }

-- `Allow`: `none` allows the request; `some t` rejects it until t, from which the caller gets the
-- time that is left
unfoldable pub allow : Bytes → ℕ → RateLimiter → Option ℕ × RateLimiter
unfolding window_of get_or_create
allow ip now rl =
    let wm = window_of rl.per_min ip now minute in
    let per_min = get_or_create rl.per_min ip now minute in
    let wd = window_of rl.per_day ip now day in
    let per_day = get_or_create rl.per_day ip now day in
    if leb rl.max_per_min wm.count
    then (some wm.reset_at, record rl { per_min = per_min })
    else if leb rl.max_per_day wd.count
    then (some wd.reset_at, record rl { per_min = per_min; per_day = per_day })
    else (
      none,
      record rl {
        per_min = insert ip (set_count (suc wm.count) wm) per_min;
        per_day = insert ip (set_count (suc wd.count) wd) per_day;
      },
    )

-- `Remaining`; subtraction on ℕ stops at 0, as the code does
unfoldable pub remaining : Bytes → ℕ → RateLimiter → (ℕ × ℕ) × RateLimiter
unfolding window_of get_or_create
remaining ip now rl = (
  (
    rl.max_per_min - (window_of rl.per_min ip now minute).count,
    rl.max_per_day - (window_of rl.per_day ip now day).count,
  ),
  record rl {
    per_min = get_or_create rl.per_min ip now minute;
    per_day = get_or_create rl.per_day ip now day;
  },
)

-- one loop of `cleanup`
unfoldable pub drop_ended : ℕ → Dict Window → Dict Window
drop_ended now [] = []
drop_ended now ((ip, w) ∷ m) =
    let rest = drop_ended now m in if has_ended now w then rest else (ip, w) ∷ rest

-- `cleanup`
unfoldable pub cleanup : ℕ → RateLimiter → RateLimiter
unfolding drop_ended
cleanup now rl = record rl {
  per_min = drop_ended now rl.per_min;
  per_day = drop_ended now rl.per_day;
}

-- the part of `Refund` for one map
unfoldable pub give_back : Bytes → ℕ → Dict Window → Dict Window
give_back ip now m =
    option_else (lookup ip m) m λ w.
      if ltb now w.reset_at && ltb 0 w.count then insert ip (set_count (w.count - 1) w) m else m

-- `Refund`
unfoldable pub refund : Bytes → ℕ → RateLimiter → RateLimiter
unfolding give_back
refund ip now rl = record rl {
  per_min = give_back ip now rl.per_min;
  per_day = give_back ip now rl.per_day;
}
