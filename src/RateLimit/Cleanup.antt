-- ===== src/RateLimit/Cleanup.antt =====
-- Dropping stale records is not observable.
use flux_panel_plus.Prelude.{
  ℕ, ◌≤◌, ◌≡◌, ◌⊎◌, refl, true, false, Option, none, some, List, [], ◌∷◌, arith, All, inl, inr,
}
use flux_panel_plus.Prelude.Text.{Text}
use flux_panel_plus.RateLimit.Defs.{
  IpRecord, RateLimiter, is_stale, drop_stale, allow, cleanup, count_allowed,
}

-- Two limiters that agree but for records that are stale at a time.
record Agree (now : ℕ) (rl rl' : RateLimiter) : Type 0 where
  same_limit : rl'.limit ≡ rl.limit
  same_window : rl'.window ≡ rl.window
  same_live : (ip : Text) → drop_stale now (rl'.records ip) ≡ drop_stale now (rl.records ip)

drop_later :
    (now later : ℕ) (o : Option IpRecord)
    → now ≤ later
    → drop_stale later (drop_stale now o) ≡ drop_stale later o
drop_later now later none h = refl
drop_later now later (some r) h = ground arith

-- Of two records that agree but for staleness, a request at a later time finds both stale, or one
-- live record twice.
seen :
    (t now : ℕ) (o o' : Option IpRecord)
    → t ≤ now
    → drop_stale t o' ≡ drop_stale t o
    → ((is_stale now o ≡ true) × (is_stale now o' ≡ true)) ⊎ ((is_stale now o ≡ false) × (o' ≡ o))
seen t now none none le h = inl (refl, refl)
seen t now none (some r) le h = ground arith
seen t now (some r) none le h = ground arith
seen t now (some r) (some q) le h = ground arith

allow-Agree :
    (t now : ℕ) (ip : Text) (rl rl' : RateLimiter)
    → t ≤ now
    → Agree t rl rl'
    → ((allow ip now rl').0 ≡ (allow ip now rl).0)
      × Agree t (allow ip now rl).1 (allow ip now rl').1
unfolding allow
allow-Agree t now ip rl rl' le a =
    elim (seen t now (rl.records ip) (rl'.records ip) le (a.same_live ip)) [
      | inl (s, s') ↦ (
        ground (arith, s, s'),
        record {
          same_limit = ground (arith, s, s', a.same_limit);
          same_window = ground (arith, s, s', a.same_window);
          same_live = λ other. ground (arith, s, s', a.same_window, a.same_live other);
        },
      )
      | inr (s, e) ↦ (
        ground (arith, s, e, a.same_limit),
        record {
          same_limit = ground (arith, s, e, a.same_limit);
          same_window = ground (arith, s, e, a.same_window);
          same_live = λ other. ground (arith, s, e, a.same_live other);
        },
      )
    ]

count_allowed-Agree :
    (t : ℕ) (ip : Text) (requests : List (Text × ℕ)) (rl rl' : RateLimiter)
    → All (λ (r : Text × ℕ). t ≤ r.1) requests
    → Agree t rl rl'
    → count_allowed ip requests rl' ≡ count_allowed ip requests rl
unfolding count_allowed
count_allowed-Agree t ip [] rl rl' h a = refl
count_allowed-Agree t ip ((from, now) ∷ requests) rl rl' h a =
    let (same, next) = allow-Agree t now from rl rl' h.0 a in
    let ih =
      count_allowed-Agree t ip requests (allow from now rl).1 (allow from now rl').1 h.1 next in
    ground (arith, same, ih)

cleanup-Agree : (now : ℕ) (rl : RateLimiter) → Agree now rl (cleanup now rl)
unfolding cleanup
cleanup-Agree now rl = record {
  same_limit = refl;
  same_window = refl;
  same_live = λ ip. drop_later now now (rl.records ip) (omega arith);
}

-- A cleanup changes no later answer: of any requests that arrive from then on, as many of each
-- address are let through as without it.
pub count_allowed-cleanup :
    (now : ℕ) (ip : Text) (requests : List (Text × ℕ)) (rl : RateLimiter)
    → All (λ (r : Text × ℕ). now ≤ r.1) requests
    → count_allowed ip requests (cleanup now rl) ≡ count_allowed ip requests rl
count_allowed-cleanup now ip requests rl h =
    count_allowed-Agree now ip requests rl (cleanup now rl) h (cleanup-Agree now rl)
