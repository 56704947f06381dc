-- ===== src/Flow/Limits.antt =====
-- The quota tests in exact arithmetic, and the name of a service as the accounting reads it.
use flux_panel_plus.Prelude.{
  ℕ, ℤ, pos, eq_ℤ_iff, ◌≤ℤ◌, ◌<ℤ◌, Fits, ◌+ℤ◌, ◌*ℤ◌, add64_exact, mul64_exact, ◌^◌, ◌<◌, ◌≡◌, ◌≢◌,
  ◌↔◌, ◌⊎◌, refl, ◌∙◌, true, false, some, [], ◌∷◌, ◌++◌, append_assoc, arith, sym, Bool-cases, inl,
  inr,
}
use flux_panel_plus.Prelude.Text.{
  Text, codes, text_eq, text_eq→eq, split, split_at, decimal, decimal_digits, decimal-injective,
  parse_decimal, parse-decimal, all_digits, all_digits-decimal,
}
use flux_panel_plus.Model.{User, UserTunnel}
use flux_panel_plus.Gost.Names.{service_name}
use flux_panel_plus.Flow.Defs.{bytes_to_gb, must_pause_user, must_pause_user_tunnel, parse_id}

-- Where the products and sums fit an int64, a user is paused exactly when a limit other than 0 is
-- exceeded, or an expiry time above 0 has been reached, or the status is not 1.
pub must_pause_user_iff :
    (now : ℤ) (u : User)
    → Fits (u.flow *ℤ bytes_to_gb)
    → Fits (u.in_flow +ℤ u.out_flow)
    → (must_pause_user now u ≡ true) ↔ (
        ((u.flow ≢ pos 0) × (u.flow *ℤ bytes_to_gb <ℤ u.in_flow +ℤ u.out_flow))
        ⊎ ((pos 0 <ℤ u.exp_time) × (u.exp_time ≤ℤ now))
        ⊎ (u.status ≢ pos 1))
unfolding must_pause_user
must_pause_user_iff now u h k =
    let limit = mul64_exact u.flow bytes_to_gb h in
    let current = add64_exact u.in_flow u.out_flow k in
    let no_limit = eq_ℤ_iff u.flow (pos 0) in
    let enabled = eq_ℤ_iff u.status (pos 1) in
    (
      λ t. ground (arith, limit, current, no_limit, enabled),
      λ t. ground (arith, limit, current, no_limit, enabled),
    )

-- Where the products and sums fit an int64, a tunnel permission is paused exactly when a limit other
-- than 0 is reached, or an expiry time above 0 has been reached, or the status is not 1.
pub must_pause_user_tunnel_iff :
    (now : ℤ) (t : UserTunnel)
    → Fits (t.flow *ℤ bytes_to_gb)
    → Fits (t.in_flow +ℤ t.out_flow)
    → (must_pause_user_tunnel now t ≡ true) ↔ (
        ((t.flow ≢ pos 0) × (t.flow *ℤ bytes_to_gb ≤ℤ t.in_flow +ℤ t.out_flow))
        ⊎ ((pos 0 <ℤ t.exp_time) × (t.exp_time ≤ℤ now))
        ⊎ (t.status ≢ pos 1))
unfolding must_pause_user_tunnel
must_pause_user_tunnel_iff now t h k =
    let limit = mul64_exact t.flow bytes_to_gb h in
    let current = add64_exact t.in_flow t.out_flow k in
    let no_limit = eq_ℤ_iff t.flow (pos 0) in
    let enabled = eq_ℤ_iff t.status (pos 1) in
    (
      λ e. ground (arith, limit, current, no_limit, enabled),
      λ e. ground (arith, limit, current, no_limit, enabled),
    )

-- The name under which a service of a forward reports splits into the three ids of the forward, and
-- what stands behind the next underscore.
pub split-service_name :
    (forward_id user_id ut_id : ℕ) (rest : Text)
    → split b'_' (service_name forward_id user_id ut_id ++ b'_' ∷ rest)
      ≡ decimal forward_id ∷ decimal user_id ∷ decimal ut_id ∷ split b'_' rest
split-service_name forward_id user_id ut_id rest = rw (
  append_assoc (decimal forward_id) (b'_' ∷ (decimal user_id ++ b'_' ∷ decimal ut_id))
      (b'_' ∷ rest),
  append_assoc (decimal user_id) (b'_' ∷ decimal ut_id) (b'_' ∷ rest),
  split_at b'_' (decimal forward_id) _ (decimal_digits b'_' forward_id refl),
  split_at b'_' (decimal user_id) _ (decimal_digits b'_' user_id refl),
  split_at b'_' (decimal ut_id) rest (decimal_digits b'_' ut_id refl),
)

decimal-zero : decimal 0 ≡ codes "0"
unfolding decimal
decimal-zero = refl

pub not_zero_text : (n : ℕ) → 0 < n → text_eq (decimal n) (codes "0") ≡ false
not_zero_text n h = elim (Bool-cases (text_eq (decimal n) (codes "0"))) [
  | inr e ↦ e
  | inl e ↦ absurd (
      ground
        (arith, decimal-injective n 0 (text_eq→eq (decimal n) (codes "0") e ∙ sym decimal-zero)))
]

parse_id-digits :
    (s : Text) {n : ℕ}
    → all_digits s ≡ true
    → parse_decimal s ≡ some n
    → n < 2 ^ 63
    → parse_id s ≡ n
unfolding parse_id
parse_id-digits [] d e h = absurd (unfold parse_decimal in cc)
parse_id-digits (c ∷ s) {n} d e h = ground arith

pub parse_id-decimal : (n : ℕ) → n < 2 ^ 63 → parse_id (decimal n) ≡ n
parse_id-decimal n h =
    parse_id-digits (decimal n) {n = n} (all_digits-decimal n) (parse-decimal n) h
