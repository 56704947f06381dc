-- ===== src/Permissions/Granted.antt =====
-- What a granted permission promises.
use flux_panel_plus.Prelude.{
  ℕ, ℤ, pos, ◌<ℤ◌, ◌≡◌, ◌⊎◌, false, Option, some, arith, Option-cases, inl, inr,
}
use flux_panel_plus.Prelude.Table.{count_where}
use flux_panel_plus.Model.{User, UserTunnel, Tunnel}
use flux_panel_plus.Model.Database.{Db}
use flux_panel_plus.Response.{ok}
use flux_panel_plus.Pause.Defs.{get_user_tunnel}
use flux_panel_plus.Flow.Defs.{must_pause_user, must_pause_user_tunnel}
use flux_panel_plus.Permissions.Defs.{
  get_user, check_forward_quota, check_user_access, check_user_permissions, counts_for_user,
  counts_for_tunnel, is_admin,
}

-- The number of rows is below a limit other than 0.
abbrev pub IsBelow : ℤ → ℕ → Type 0
IsBelow num count = (num ≡ pos 0) ⊎ (pos count <ℤ num)

-- A user who is no administrator is granted a new forward on a tunnel only if both rows exist, the
-- numbers of the user's forwards, in total and on the tunnel, are below their limits, and a traffic
-- report at this moment would pause neither an enabled user nor the permission.
pub check_user_permissions_granted :
    (now : ℤ) (db : Db) (user_id : ℕ) (role_id : ℤ) (tunnel : Tunnel) (exclude : Option ℕ)
    {limiter : Option ℕ} {ut : Option UserTunnel}
    → is_admin role_id ≡ false
    → check_user_permissions now db user_id role_id tunnel exclude ≡ ok (limiter, ut)
    → (user : User) × (p : UserTunnel) × (get_user db user_id ≡ some user)
      × (get_user_tunnel db user_id tunnel.id ≡ some p)
      × (ut ≡ some p)
      × (limiter ≡ p.speed_id)
      × IsBelow user.num (count_where (counts_for_user user_id exclude) db.forwards)
      × IsBelow p.num (count_where (counts_for_tunnel user_id tunnel.id exclude) db.forwards)
      × (user.status ≡ pos 1 → must_pause_user now user ≡ false)
      × (must_pause_user_tunnel now p ≡ false)
unfolding check_user_permissions check_user_access check_forward_quota must_pause_user
    must_pause_user_tunnel
check_user_permissions_granted now db user_id role_id tunnel exclude {limiter} {ut} r h =
    elim (Option-cases (get_user db user_id)) [
      | inl e ↦ absurd (ground (arith, r, e, h))
      | inr (user, e) ↦ elim (Option-cases (get_user_tunnel db user_id tunnel.id)) [
        | inl k ↦ absurd (ground (arith, r, e, k, h))
        | inr (p, k) ↦ (
          user,
          p,
          e,
          k,
          ground (arith, r, e, k, h),
          ground (arith, r, e, k, h),
          ground (arith, r, e, k, h),
          ground (arith, r, e, k, h),
          (λ st. ground (arith, r, e, k, h)),
          ground (arith, r, e, k, h),
        )
      ]
    ]
