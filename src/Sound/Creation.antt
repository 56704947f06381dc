-- ===== src/Sound/Creation.antt =====
-- A forward that is created has its target.
use flux_panel_plus.Prelude.{ℕ, ℤ, ◌≡◌, sym, subst, false, arith, ◌==◌, ◌++◌, Bool-cases, inl, inr}
use flux_panel_plus.Prelude.Text.{Text}
use flux_panel_plus.Prelude.Table.{has_id}
use flux_panel_plus.Model.{Forward}
use flux_panel_plus.Gost.Commands.{World, Env}
use flux_panel_plus.Create.Handler.{ForwardDto, create_tunnel_forward}
use flux_panel_plus.Create.Route.{bind_ports, create_route_forward}
use flux_panel_plus.Create.Outcome.{row_for, create_tunnel_forward-Outcome}
use flux_panel_plus.Create.RouteOutcome.{route_row, create_route_forward-Outcome}
use flux_panel_plus.Address.Defs.{Resolver, validate_remote_addr}
use flux_panel_plus.Actions.{is_ok}
use flux_panel_plus.Update.Entry.{create_on_route_or_tunnel, create_forward}
use flux_panel_plus.Update.Relates.{answered-Relates}
use flux_panel_plus.Sound.Defs.{IsSound, sound}
use flux_panel_plus.Sound.Forwards.{found-has_tunnel, loaded-has_route, add_forward-IsSound}

module _ (env : Env) (lookup : Resolver) (id : ℕ) (port_ids : ℕ → ℕ) (d : ForwardDto) (user_id : ℕ)
    (role_id : ℤ) (user_name : Text) (w : World)
    (fresh : has_id (λ (r : Forward). r.id) id w.db.forwards ≡ false) (s : IsSound w.db) where
  on_tunnel-IsSound : IsSound (create_tunnel_forward env id d user_id role_id user_name w).1.db
  on_tunnel-IsSound =
      elim (create_tunnel_forward-Outcome env id d user_id role_id user_name w fresh) [
        | inl (refused, kept) ↦ subst IsSound (sym kept) s
        | inr (t, permission, ports, granted, created) ↦
            let r = (create_tunnel_forward env id d user_id role_id user_name w).0 in
            subst IsSound (sym created) (
              add_forward-IsSound w.db (row_for env id d user_id role_id user_name w ports)
                (is_ok r) w.db.route_ports (found-has_tunnel w.db d.tunnel_id granted.0) s)
      ]

  on_route-IsSound :
      (d.route_id == 0) ≡ false
      → IsSound (create_route_forward env id port_ids d user_id role_id user_name w).1.db
  on_route-IsSound given =
      elim (create_route_forward-Outcome env id port_ids d user_id role_id user_name w fresh) [
        | inl (refused, kept) ↦ subst IsSound (sym kept) s
        | inr (route, hops, ports, granted, created) ↦
            let r = (create_route_forward env id port_ids d user_id role_id user_name w).0 in
            let bound = bind_ports env.now port_ids id route.id 0 ports.1 in
            subst IsSound (sym created) (
              add_forward-IsSound w.db
                (route_row env id port_ids d user_id role_id user_name w ports) (is_ok r)
                (w.db.route_ports ++ bound)
                (ground (arith, given, loaded-has_route w.db d.route_id granted.1)) s)
      ]

  either-IsSound :
      IsSound (create_on_route_or_tunnel env lookup id port_ids d user_id role_id user_name w).1.db
  unfolding create_on_route_or_tunnel
  either-IsSound = elim (Bool-cases (d.route_id == 0)) [
    | inr given ↦ rw given (on_route-IsSound given)
    | inl none_given ↦ elim (Bool-cases (d.tunnel_id == 0)) [
      | inl neither ↦ rw (none_given, neither) s
      | inr tunnel ↦ rw (none_given, tunnel) on_tunnel-IsSound
    ]
  ]

  -- With an id that no forward has, a forward that is created has its tunnel or its route.
  pub create_forward-IsSound :
      IsSound (create_forward env lookup id port_ids d user_id role_id user_name w).1.db
  unfolding create_forward
  create_forward-IsSound =
      answered-Relates sound (λ db. validate_remote_addr lookup d.remote_addr role_id) _ w
        (λ u accepted x. either-IsSound) s
