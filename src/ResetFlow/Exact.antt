-- ===== src/ResetFlow/Exact.antt =====
-- Which counters the daily reset clears.
use flux_panel_plus.Prelude.{
  ℕ, ℤ, pos, eq_ℤ, ltb_ℤ, ◌≤◌, Bool, ◌&&◌, arith, if◌then◌else◌, ◌≡◌, refl, ap, ◌∙◌, ◌||◌, List, [],
  ◌∷◌, ◌++◌,
}
use flux_panel_plus.Prelude.Table.{
  find_where, update_where, update_where-cong, update_each, update_each-find_two, by_id, for_each,
  Distinct,
}
use flux_panel_plus.Model.{User, UserTunnel}
use flux_panel_plus.Gost.Commands.{World}
use flux_panel_plus.ResetFlow.Defs.{
  Today, is_reset_day, days_in_current_month, user_due_monthly, user_due_weekly,
  permission_due_monthly, permission_due_weekly, zero_user, zero_user_tunnel, with_users,
  with_user_tunnels, reset_users, reset_user_tunnels,
}

user_loop :
    (ss : List User) (w : World)
    → for_each
        (λ (u : User) (v : World).
          with_users v (update_where (by_id (λ r. r.id) u.id) zero_user v.db.users))
        ss
        w
      ≡ with_users w (update_each (λ r. r.id) zero_user ss w.db.users)
user_loop [] w = refl
user_loop (u ∷ ss) w =
    user_loop ss (with_users w (update_where (by_id (λ r. r.id) u.id) zero_user w.db.users))

permission_loop :
    (ss : List UserTunnel) (w : World)
    → for_each
        (λ (u : UserTunnel) (v : World).
          with_user_tunnels v
            (update_where (by_id (λ r. r.id) u.id) zero_user_tunnel v.db.user_tunnels))
        ss
        w
      ≡ with_user_tunnels w (update_each (λ r. r.id) zero_user_tunnel ss w.db.user_tunnels)
permission_loop [] w = refl
permission_loop (u ∷ ss) w =
    permission_loop ss (
      with_user_tunnels w
        (update_where (by_id (λ r. r.id) u.id) zero_user_tunnel w.db.user_tunnels))

-- A reset day that the month does not have is its last day.
abbrev pub day_in_month : (days : ℕ) → ℤ → ℤ
day_in_month days d = if ltb_ℤ (pos days) d then pos days else d

-- An enabled user whose day of the month, or of the week, is today.
abbrev pub is_day_of : Today → User → Bool
is_day_of t u =
    eq_ℤ u.status (pos 1)
    && (eq_ℤ u.flow_reset_type (pos 1)
          && eq_ℤ (day_in_month (days_in_current_month t.year t.month) u.flow_reset_day)
              (pos t.day_of_month)
        || eq_ℤ u.flow_reset_type (pos 2) && eq_ℤ u.flow_reset_day (pos t.day_of_week))

-- The user with the traffic of forwards and of Xray, both ways, at zero.
abbrev pub without_traffic : User → User
without_traffic u = record u {
  in_flow = pos 0;
  out_flow = pos 0;
  xray_in_flow = pos 0;
  xray_out_flow = pos 0;
}

due_iff_day :
    (t : Today) (u : User)
    → t.day_of_month ≤ days_in_current_month t.year t.month
    → (user_due_monthly t u || user_due_weekly t u) ≡ is_day_of t u
unfolding is_reset_day
due_iff_day t u h = ground (arith, h)

-- On distinct user ids and a day that the month has, the reset of users takes to zero the four
-- counters of exactly the enabled users whose day of the month, clipped to the last one, or of the
-- week is today, and changes nothing else in the world.
pub reset_users_exact :
    (t : Today) (w : World)
    → t.day_of_month ≤ days_in_current_month t.year t.month
    → Distinct (λ (u : User). u.id) w.db.users
    → reset_users t w ≡ with_users w (update_where (is_day_of t) without_traffic w.db.users)
unfolding reset_users
reset_users_exact t w h d =
    user_loop
      (find_where (user_due_monthly t) w.db.users ++ find_where (user_due_weekly t) w.db.users) w
    ∙ ap (with_users w) (
        update_each-find_two (λ (u : User). u.id) (user_due_monthly t) (user_due_weekly t) zero_user
          w.db.users (λ r. refl) (λ r. refl) d
        ∙ update_where-cong (λ u. user_due_monthly t u || user_due_weekly t u) (is_day_of t)
            without_traffic w.db.users (λ u. due_iff_day t u h))

-- On distinct permission ids, the reset of tunnel permissions clears the two counters of exactly
-- the permissions that are due by the monthly or the weekly rule, and changes nothing else.
pub reset_user_tunnels_exact :
    (t : Today) (w : World)
    → Distinct (λ (u : UserTunnel). u.id) w.db.user_tunnels
    → reset_user_tunnels t w
      ≡ with_user_tunnels w (
          update_where
            (λ u. permission_due_monthly t u || permission_due_weekly t u)
            zero_user_tunnel
            w.db.user_tunnels)
unfolding reset_user_tunnels
reset_user_tunnels_exact t w d =
    permission_loop
      (find_where (permission_due_monthly t) w.db.user_tunnels
        ++ find_where (permission_due_weekly t) w.db.user_tunnels)
      w
    ∙ ap (with_user_tunnels w) (
        update_each-find_two (λ (u : UserTunnel). u.id) (permission_due_monthly t)
          (permission_due_weekly t) zero_user_tunnel w.db.user_tunnels (λ r. refl) (λ r. refl) d)
