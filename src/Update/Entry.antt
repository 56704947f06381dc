-- ===== src/Update/Entry.antt =====
-- go-backend/service/forward.go: UpdateForward, ForceDeleteForward and UpdateForwardA, and the whole
-- of CreateForward.
use flux_panel_plus.Prelude.{ℕ, ℤ, not, ◌&&◌, Option, none, some, ◌==◌, if◌then◌else◌}
use flux_panel_plus.Prelude.Text.{Text}
use flux_panel_plus.Prelude.Table.{first_where, by_id}
use flux_panel_plus.Model.{UserTunnel, Forward, Tunnel, Node}
use flux_panel_plus.Response.{
  Result, ok, err, or_error, forward_not_found, tunnel_or_route_required,
}
use flux_panel_plus.Gost.Names.{build_service_name}
use flux_panel_plus.Gost.Commands.{World, Env}
use flux_panel_plus.Pause.Defs.{get_tunnel, get_user_tunnel}
use flux_panel_plus.Forwards.Steps.{validate_forward_exists, check_user_enabled, get_required_nodes}
use flux_panel_plus.Forwards.Routes.{cleanup_route_forward_services, delete_route_row}
use flux_panel_plus.Create.Handler.{ForwardDto, listening_on, create_tunnel_forward}
use flux_panel_plus.Create.Route.{create_route_forward}
use flux_panel_plus.Address.Defs.{Resolver, validate_remote_addr}
use flux_panel_plus.Update.Services.{update_gost_services, delete_old_gost_services}
use flux_panel_plus.Update.Handler.{ForwardUpdateDto, update_tunnel_forward}
use flux_panel_plus.Update.Route.{update_route_forward}
use flux_panel_plus.Actions.{Action, ◌>>=◌, ◌>>◌, fail, query, perform, change}

module _ (env : Env) (lookup : Resolver) where
  unfoldable pub create_on_route_or_tunnel :
      ℕ → (ℕ → ℕ) → ForwardDto → ℕ → ℤ → Text → Action {0} Unit
  unfolding create_route_forward create_tunnel_forward
  create_on_route_or_tunnel id port_ids d user_id role_id user_name =
      if not (d.route_id == 0)
      then create_route_forward env id port_ids d user_id role_id user_name
      else if d.tunnel_id == 0
      then fail tunnel_or_route_required
      else create_tunnel_forward env id d user_id role_id user_name

  unfoldable pub create_forward : ℕ → (ℕ → ℕ) → ForwardDto → ℕ → ℤ → Text → Action {0} Unit
  unfolding validate_remote_addr create_on_route_or_tunnel
  create_forward id port_ids d user_id role_id user_name = do
    query (λ db. validate_remote_addr lookup d.remote_addr role_id)
    create_on_route_or_tunnel id port_ids d user_id role_id user_name

  unfoldable pub update_on_route_or_tunnel :
      (ℕ → ℕ) → ForwardUpdateDto → ℕ → ℤ → Forward → Action {0} Unit
  unfolding update_tunnel_forward update_route_forward
  update_on_route_or_tunnel port_ids d user_id role_id f =
      if (f.route_id == 0) && (d.route_id == 0)
      then update_tunnel_forward env d user_id role_id f
      else update_route_forward env port_ids d f role_id

  unfoldable pub update_forward : (ℕ → ℕ) → ForwardUpdateDto → ℕ → ℤ → Action {0} Unit
  unfolding check_user_enabled validate_remote_addr validate_forward_exists
      update_on_route_or_tunnel
  update_forward port_ids d user_id role_id = do
    query (λ db. check_user_enabled db user_id role_id)
    query (λ db. validate_remote_addr lookup d.remote_addr role_id)
    f ← query (λ db. or_error (validate_forward_exists db d.id user_id role_id) forward_not_found)
    update_on_route_or_tunnel port_ids d user_id role_id f

-- The cleanup, as far as it gets.
unfoldable pub cleanup_forward : Env → Forward → World → World
unfolding cleanup_route_forward_services get_tunnel delete_old_gost_services
cleanup_forward env f w =
    if not (f.route_id == 0)
    then (cleanup_route_forward_services env f w).1
    else elim (get_tunnel w.db f.tunnel_id) [
      | none ↦ w
      | some tunnel ↦ delete_old_gost_services env f tunnel w
    ]

unfoldable pub force_delete_forward : Env → ℕ → Action {0} Unit
unfolding cleanup_forward
force_delete_forward env id = do
  f ← query (λ db.
      or_error (first_where (by_id (λ (f : Forward). f.id) id) db.forwards) forward_not_found)
  perform (cleanup_forward env f)
  change (delete_route_row id)

abbrev pub speed_of : Option UserTunnel → Option ℕ
speed_of none = none
speed_of (some ut) = ut.speed_id

abbrev pub refresh_on :
    Env → Forward → Tunnel → Option UserTunnel → Result (Node × Option Node) → World → World
refresh_on env f tunnel ut (err e) w = w
refresh_on env f tunnel ut (ok (in_node, out_node)) w =
    (update_gost_services env f tunnel (speed_of ut) (build_service_name f.id f.user_id ut) in_node
      out_node w).1

-- `UpdateForwardA`: the services of a forward as its row has them.
unfoldable pub update_forward_a : Env → Forward → World → World
unfolding get_tunnel get_user_tunnel get_required_nodes update_gost_services build_service_name
update_forward_a env f w = elim (get_tunnel w.db f.tunnel_id) [
  | none ↦ w
  | some tunnel ↦
      refresh_on env f (listening_on f.listen_ip tunnel) (get_user_tunnel w.db f.user_id tunnel.id)
        (get_required_nodes w.db tunnel) w
]
