-- ===== src/RateLimit.antt =====
-- go-backend/middleware/rate_limit.go: the limiter of login and captcha requests. Times are
-- nanoseconds; a Go map is a function of its key; the mutex makes each call atomic.
pub mod Defs
pub mod Window
pub mod Cleanup
