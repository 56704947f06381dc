-- ===== src/Forwards/Authorization.antt =====
-- Who may pause, resume and delete a forward, and within which limits.
use flux_panel_plus.Prelude.{
  ℕ, ℤ, pos, ◌≡◌, refl, true, false, Option, none, some, arith, Option-cases, inl, inr,
}
use flux_panel_plus.Prelude.Table.{first_where, by_id}
use flux_panel_plus.Model.{User, UserTunnel, Tunnel, Forward}
use flux_panel_plus.Model.Database.{Db}
use flux_panel_plus.Response.{ok, Result-cases}
use flux_panel_plus.Gost.Commands.{World, Env}
use flux_panel_plus.Pause.Defs.{get_tunnel, get_user_tunnel}
use flux_panel_plus.Flow.Defs.{must_pause_user, must_pause_user_tunnel}
use flux_panel_plus.Permissions.Defs.{is_admin, get_user, check_user_flow_limits}
use flux_panel_plus.Forwards.Steps.{validate_forward_exists, check_user_enabled, is_stranger}
use flux_panel_plus.Forwards.Handlers.{
  resume_permission, pause_forward, resume_tunnel_forward, resume_forward, delete_forward,
}
use flux_panel_plus.Actions.{Action, is_ok}

-- The handler fails, and the world stays as it is.
abbrev pub Refused : Action {0} Unit → World → Type 0
Refused m w = (is_ok (m w).0 ≡ false) × ((m w).1 ≡ w)

module _ (env : Env) (id user_id : ℕ) (role_id : ℤ) where
  stranger_validates :
      (db : Db) {f : Forward}
      → first_where (by_id (λ (f : Forward). f.id) id) db.forwards ≡ some f
      → is_stranger user_id role_id f ≡ true
      → validate_forward_exists db id user_id role_id ≡ none
  unfolding validate_forward_exists
  stranger_validates db {f} e s = ground (arith, e, s)

  -- Someone who is neither an administrator nor the owner of a forward can neither pause, resume nor
  -- delete it: each handler fails, changes nothing in the database and sends no command.
  pub stranger-Refused :
      (w : World) {f : Forward}
      → first_where (by_id (λ (f : Forward). f.id) id) w.db.forwards ≡ some f
      → is_stranger user_id role_id f ≡ true
      → Refused (pause_forward env id user_id role_id) w
        × Refused (resume_forward env id user_id role_id) w
        × Refused (delete_forward env id user_id role_id) w
  unfolding pause_forward resume_forward delete_forward
  stranger-Refused w {f} e s =
      let refused = stranger_validates w.db e s in
      elim (Result-cases (check_user_enabled w.db user_id role_id)) [
        | inl (u, k) ↦ rw (k, refused) ((refl, refl), (refl, refl), (refl, refl))
        | inr (x, k) ↦ rw (k, refused) ((refl, refl), (refl, refl), (refl, refl))
      ]

  resume_permission_granted :
      (db : Db) (f : Forward) (tunnel : Tunnel) {ut : Option UserTunnel}
      → is_admin role_id ≡ false
      → resume_permission env.now db user_id role_id f tunnel ≡ ok ut
      → (user : User) × (p : UserTunnel) × (get_user db user_id ≡ some user)
        × (get_user_tunnel db user_id tunnel.id ≡ some p)
        × (user.status ≡ pos 1 → must_pause_user env.now user ≡ false)
        × (must_pause_user_tunnel env.now p ≡ false)
  unfolding resume_permission check_user_flow_limits must_pause_user must_pause_user_tunnel
  resume_permission_granted db f tunnel {ut} r h = elim (Option-cases (get_user db user_id)) [
    | inl e ↦ absurd (ground (arith, r, e, h))
    | inr (user, e) ↦ elim (Option-cases (get_user_tunnel db user_id tunnel.id)) [
      | inl k ↦ absurd (ground (arith, r, e, k, h))
      | inr (p, k) ↦ (user, p, e, k, (λ st. ground (arith, r, e, k, h)), ground (arith, r, e, k, h))
    ]
  ]

  -- A user who is no administrator can resume a forward of theirs that is on no route only if the tunnel and
  -- the permission for it exist, the tunnel is enabled, and a traffic report at this moment would
  -- pause neither an enabled user nor the permission.
  pub resume_forward_within_limits :
      (w : World) {f : Forward}
      → is_admin role_id ≡ false
      → validate_forward_exists w.db id user_id role_id ≡ some f
      → f.route_id ≡ 0
      → is_ok (resume_forward env id user_id role_id w).0 ≡ true
      → (tunnel : Tunnel) × (user : User) × (p : UserTunnel) × (get_tunnel w.db f.tunnel_id
          ≡ some tunnel)
        × (tunnel.status ≡ pos 1)
        × (get_user w.db user_id ≡ some user)
        × (get_user_tunnel w.db user_id tunnel.id ≡ some p)
        × (user.status ≡ pos 1 → must_pause_user env.now user ≡ false)
        × (must_pause_user_tunnel env.now p ≡ false)
  unfolding resume_forward resume_tunnel_forward
  resume_forward_within_limits w {f} r e z h =
      elim (Result-cases (check_user_enabled w.db user_id role_id)) [
        | inr (x, k) ↦ absurd (ground (arith, k, h))
        | inl (u, k) ↦ elim (Option-cases (get_tunnel w.db f.tunnel_id)) [
          | inl n ↦ absurd (ground (arith, k, e, z, n, h))
          | inr (tunnel, t) ↦
              elim (Result-cases (resume_permission env.now w.db user_id role_id f tunnel)) [
                | inr (x, q) ↦ absurd (ground (arith, k, e, z, t, q, h))
                | inl (ut, q) ↦
                    let (user, p, found, has, limits, permitted) =
                      resume_permission_granted w.db f tunnel r q in
                    (
                      tunnel,
                      user,
                      p,
                      t,
                      ground (arith, k, e, z, t, h),
                      found,
                      has,
                      limits,
                      permitted,
                    )
              ]
        ]
      ]
