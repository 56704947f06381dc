-- ===== src/Permissions/Defs.antt =====
-- go-backend/service/forward.go: checkUserPermissions, checkForwardQuota, checkUserFlowLimits.
use flux_panel_plus.Prelude.{
  ℕ, ℤ, pos, eq_ℤ, leb_ℤ, add64, mul64, Bool, not, ◌&&◌, Option, none, some, ◌==◌, if◌then◌else◌,
}
use flux_panel_plus.Prelude.Table.{first_where, count_where, by_id}
use flux_panel_plus.Model.{User, UserTunnel, Tunnel, Forward}
use flux_panel_plus.Model.Database.{Db}
use flux_panel_plus.Response.{
  Result, ok, ◌>>=◌, refuse_if, or_error, user_not_found, user_expired, no_tunnel_permission,
  tunnel_permission_disabled, tunnel_permission_expired, user_flow_exhausted, tunnel_flow_exhausted,
  user_forward_limit, tunnel_forward_limit,
}
use flux_panel_plus.Ports.Defs.{is_excluded}
use flux_panel_plus.Pause.Defs.{get_user_tunnel}
use flux_panel_plus.Flow.Defs.{bytes_to_gb}

-- `adminRoleId`
abbrev pub is_admin : ℤ → Bool
is_admin role_id = eq_ℤ role_id (pos 0)

unfoldable pub get_user : Db → ℕ → Option User
get_user db id = first_where (by_id (λ (u : User). u.id) id) db.users

-- `ExpTime != 0 && ExpTime <= time.Now().UnixMilli()`
abbrev pub has_ended : ℤ → ℤ → Bool
has_ended now exp_time = not (eq_ℤ exp_time (pos 0)) && leb_ℤ exp_time now

-- `Flow != 0 && Flow*bytesToGB <= InFlow+OutFlow`
abbrev pub flow_used_up : (flow in_flow out_flow : ℤ) → Bool
flow_used_up flow in_flow out_flow =
    not (eq_ℤ flow (pos 0)) && leb_ℤ (mul64 flow bytes_to_gb) (add64 in_flow out_flow)

abbrev pub counts_for_user : ℕ → Option ℕ → Forward → Bool
counts_for_user user_id exclude f = (f.user_id == user_id) && not (is_excluded exclude f.id)

abbrev pub counts_for_tunnel : ℕ → ℕ → Option ℕ → Forward → Bool
counts_for_tunnel user_id tunnel_id exclude f =
    (f.user_id == user_id) && (f.tunnel_id == tunnel_id) && not (is_excluded exclude f.id)

-- `Num != 0 && count >= int64(Num)`
abbrev pub quota_reached : ℤ → ℕ → Bool
quota_reached num count = not (eq_ℤ num (pos 0)) && leb_ℤ num (pos count)

unfoldable pub check_forward_quota : Db → ℕ → ℕ → UserTunnel → User → Option ℕ → Result {0} Unit
check_forward_quota db user_id tunnel_id ut user exclude = do
  _ ←
      refuse_if (quota_reached user.num (count_where (counts_for_user user_id exclude) db.forwards))
        (user_forward_limit user.num)
  refuse_if
      (quota_reached ut.num (count_where (counts_for_tunnel user_id tunnel_id exclude) db.forwards))
      (tunnel_forward_limit ut.num)

-- The checks of a user who is no administrator.
unfoldable pub check_user_access :
    ℤ → Db → ℕ → Tunnel → Option ℕ → Result (Option ℕ × Option UserTunnel)
unfolding get_user get_user_tunnel check_forward_quota
check_user_access now db user_id tunnel exclude = do
  user ← or_error (get_user db user_id) user_not_found
  _ ← refuse_if (has_ended now user.exp_time) user_expired
  ut ← or_error (get_user_tunnel db user_id tunnel.id) no_tunnel_permission
  _ ← refuse_if (not (eq_ℤ ut.status (pos 1))) tunnel_permission_disabled
  _ ← refuse_if (has_ended now ut.exp_time) tunnel_permission_expired
  _ ← refuse_if (flow_used_up user.flow user.in_flow user.out_flow) user_flow_exhausted
  _ ← refuse_if (flow_used_up ut.flow ut.in_flow ut.out_flow) tunnel_flow_exhausted
  _ ← check_forward_quota db user_id tunnel.id ut user exclude
  ok (ut.speed_id, some ut)

-- The limiter and the permission; an administrator has neither.
unfoldable pub check_user_permissions :
    ℤ → Db → ℕ → ℤ → Tunnel → Option ℕ → Result (Option ℕ × Option UserTunnel)
unfolding check_user_access
check_user_permissions now db user_id role_id tunnel exclude =
    if is_admin role_id then ok (none, none) else check_user_access now db user_id tunnel exclude

unfoldable pub check_user_flow_limits : ℤ → Db → ℕ → Tunnel → Result {0} Unit
unfolding get_user get_user_tunnel
check_user_flow_limits now db user_id tunnel = do
  user ← or_error (get_user db user_id) user_not_found
  _ ← refuse_if (has_ended now user.exp_time) user_expired
  ut ← or_error (get_user_tunnel db user_id tunnel.id) no_tunnel_permission
  _ ← refuse_if (has_ended now ut.exp_time) tunnel_permission_expired
  _ ← refuse_if (flow_used_up user.flow user.in_flow user.out_flow) user_flow_exhausted
  refuse_if (flow_used_up ut.flow ut.in_flow ut.out_flow) tunnel_flow_exhausted
