-- ===== src/RateLimit/Defs.antt =====
-- go-backend/middleware/rate_limit.go: ipRecord, rateLimiter, newRateLimiter, allow and cleanup.
use flux_panel_plus.Prelude.{
  ℕ, suc, ◌+◌, ◌*◌, Bool, true, Option, none, some, List, [], ◌∷◌, ltb, leb, if◌then◌else◌,
}
use flux_panel_plus.Prelude.Text.{Text, text_eq}

pub record IpRecord : Type 0 where
  pub count : ℕ
  pub reset_at : ℕ

pub record RateLimiter : Type 0 where
  pub records : Text → Option IpRecord
  pub limit : ℕ
  pub window : ℕ

unfoldable pub new_rate_limiter : ℕ → ℕ → RateLimiter
new_rate_limiter limit window = record { records = λ ip. none; limit = limit; window = window }

-- `time.Minute`
abbrev pub minute : ℕ
minute = 60 * 1000 * 1000 * 1000

unfoldable pub login_limiter : RateLimiter
unfolding new_rate_limiter
login_limiter = new_rate_limiter 10 minute

unfoldable pub captcha_limiter : RateLimiter
unfolding new_rate_limiter
captcha_limiter = new_rate_limiter 20 minute

-- `!exists || now.After(rec.resetAt)`
abbrev pub is_stale : ℕ → Option IpRecord → Bool
is_stale now none = true
is_stale now (some r) = ltb r.reset_at now

abbrev pub put : Text → IpRecord → RateLimiter → RateLimiter
put ip r rl = record rl { records = λ other. if text_eq other ip then some r else rl.records other }

-- The record after one more request.
abbrev pub counted : Option IpRecord → IpRecord
counted none = record { count = 1; reset_at = 0 }
counted (some r) = record r { count = suc r.count }

unfoldable pub allow : Text → ℕ → RateLimiter → Bool × RateLimiter
allow ip now rl =
    if is_stale now (rl.records ip)
    then (true, put ip (record { count = 1; reset_at = now + rl.window }) rl)
    else (leb (counted (rl.records ip)).count rl.limit, put ip (counted (rl.records ip)) rl)

abbrev pub drop_stale : ℕ → Option IpRecord → Option IpRecord
drop_stale now none = none
drop_stale now (some r) = if ltb r.reset_at now then none else some r

unfoldable pub cleanup : ℕ → RateLimiter → RateLimiter
cleanup now rl = record rl { records = λ ip. drop_stale now (rl.records ip) }

-- How many of the requests of one address a limiter lets through, requests of all addresses and
-- the times at which they arrive given in order.
unfoldable pub count_allowed : Text → List (Text × ℕ) → RateLimiter → ℕ
unfolding allow
count_allowed ip [] rl = 0
count_allowed ip ((from, now) ∷ requests) rl =
    let rest = count_allowed ip requests (allow from now rl).1 in
    if text_eq from ip then if (allow from now rl).0 then suc rest else rest else rest

abbrev pub count_requests : Text → List (Text × ℕ) → ℕ
count_requests ip [] = 0
count_requests ip ((from, now) ∷ requests) =
    if text_eq from ip then suc (count_requests ip requests) else count_requests ip requests
