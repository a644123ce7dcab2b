-- ===== src/Auth.antt =====
-- auth/: the rate limiter.
pub mod RateLimiter
pub mod Tokens
