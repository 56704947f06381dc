-- ===== src/RateLimit/Window.antt =====
-- In one window an address gets exactly its quota, whatever the other addresses do.
use Prim.Native.Nat.{min}
use flux_panel_plus.Prelude.{
  ℕ, suc, ◌+◌, ◌-◌, ◌≤◌, ◌≡◌, true, false, some, List, [], ◌∷◌, arith, All, leb, Bool-cases, inl,
  inr, ◌∙◌,
}
use flux_panel_plus.Prelude.Text.{Text, text_eq, text_eq→eq, text_eq_refl, text_eq_sym}
use flux_panel_plus.RateLimit.Defs.{
  IpRecord, RateLimiter, is_stale, allow, count_allowed, count_requests,
}

-- Every request arrives at or before the time.
abbrev pub Until : ℕ → List (Text × ℕ) → Type 0
Until t = All (λ (r : Text × ℕ). r.1 ≤ t)

-- A request changes the record of its own address only, and no setting.
pub allow_others :
    (ip other : Text) (now : ℕ) (rl : RateLimiter)
    → text_eq other ip ≡ false
    → ((allow ip now rl).1.records other ≡ rl.records other)
      × ((allow ip now rl).1.limit ≡ rl.limit)
      × ((allow ip now rl).1.window ≡ rl.window)
unfolding allow
allow_others ip other now rl h = ground arith

allow_live :
    (ip : Text) (now : ℕ) (rl : RateLimiter) (r : IpRecord)
    → rl.records ip ≡ some r
    → now ≤ r.reset_at
    → ((allow ip now rl).0 ≡ leb (suc r.count) rl.limit)
      × ((allow ip now rl).1.records ip ≡ some (record r { count = suc r.count }))
      × ((allow ip now rl).1.limit ≡ rl.limit)
unfolding allow
allow_live ip now rl r h le = ground (arith, text_eq_refl ip)

-- An address whose window is still open is let through as often as its quota has left.
pub count_allowed_open :
    (ip : Text) (requests : List (Text × ℕ)) (rl : RateLimiter) (r : IpRecord)
    → rl.records ip ≡ some r
    → Until r.reset_at requests
    → count_allowed ip requests rl ≡ min (count_requests ip requests) (rl.limit - r.count)
unfolding count_allowed
count_allowed_open ip [] rl r h u = omega arith
count_allowed_open ip ((from, now) ∷ requests) rl r h u = elim (Bool-cases (text_eq from ip)) [
  | inl same ↦
      let e = text_eq→eq from ip same in
      let (passed, kept, limits) = allow_live ip now rl r h u.0 in
      let ih =
        count_allowed_open ip requests (allow ip now rl).1 (record r { count = suc r.count }) kept
          u.1 in
      rw e (ground (arith, text_eq_refl ip, passed, ih, limits))
  | inr other ↦
      let (kept, limits, windows) = allow_others from ip now rl (text_eq_sym ip from ∙ other) in
      let ih = count_allowed_open ip requests (allow from now rl).1 r (kept ∙ h) u.1 in
      ground (arith, other, ih, limits)
]

allow_stale :
    (ip : Text) (now : ℕ) (rl : RateLimiter)
    → is_stale now (rl.records ip) ≡ true
    → ((allow ip now rl).0 ≡ true)
      × ((allow ip now rl).1.records ip ≡ some (record { count = 1; reset_at = now + rl.window }))
      × ((allow ip now rl).1.limit ≡ rl.limit)
unfolding allow
allow_stale ip now rl h = ground (arith, text_eq_refl ip)

-- From a request that finds no open window, to the end of the window that it opens, an address is
-- let through exactly as often as it asks, up to a limit of at least 1. Requests of other addresses
-- in between do not count.
pub window_quota :
    (ip : Text) (now : ℕ) (requests : List (Text × ℕ)) (rl : RateLimiter)
    → 1 ≤ rl.limit
    → is_stale now (rl.records ip) ≡ true
    → Until (now + rl.window) requests
    → count_allowed ip ((ip, now) ∷ requests) rl
      ≡ min (count_requests ip ((ip, now) ∷ requests)) rl.limit
unfolding count_allowed
window_quota ip now requests rl one stale u =
    let (passed, kept, limits) = allow_stale ip now rl stale in
    let rest =
      count_allowed_open ip requests (allow ip now rl).1
        (record { count = 1; reset_at = now + rl.window }) kept u in
    ground (arith, text_eq_refl ip, passed, rest, limits)
