-- ===== src/RateLimiter.antt =====
-- The rate limiter of app/core/rate_limiter.py.
pub mod Info
pub mod Memory
pub mod Deployment
pub mod Identity
pub mod Limit
