-- ===== src/Forwards/Steps.antt =====
-- go-backend/service/forward.go: the steps that the handlers share.
use flux_panel_plus.Prelude.{
  ℕ, ℤ, pos, eq_ℤ, Bool, true, false, not, ◌&&◌, Option, none, some, List, [], ◌∷◌, ◌==◌, leb,
  length, if◌then◌else◌,
}
use flux_panel_plus.Prelude.Text.{Text}
use flux_panel_plus.Prelude.Table.{
  first_where, find_where, update_where, delete_where, by_id, order_by,
}
use flux_panel_plus.Model.{UserTunnel, Tunnel, Forward, Node, Route, RouteHop, ForwardRoutePort}
use flux_panel_plus.Model.Database.{Db}
use flux_panel_plus.Response.{
  Result, ok, err, refuse_if, user_not_found, user_disabled, no_tunnel_permission, in_node_missing,
  out_node_missing, route_not_found, route_needs_two_nodes, route_ports_not_found,
}
use flux_panel_plus.Gost.Commands.{
  World, Env, pause_service_command, pause_service_multi_ip, pause_remote_service,
  resume_service_command, resume_service_multi_ip, resume_remote_service, delete_service_command,
  delete_service_multi_ip, delete_remote_service, delete_chains_command,
}
use flux_panel_plus.Ports.Defs.{get_node_by_id, tunnel_forward}
use flux_panel_plus.Pause.Defs.{get_user_tunnel, is_multi_ip}
use flux_panel_plus.Permissions.Defs.{is_admin, get_user}
use flux_panel_plus.Actions.{Action, ◌>>◌, return, expect_ok, expect_gone}

-- No administrator, and not the owner.
abbrev pub is_stranger : ℕ → ℤ → Forward → Bool
is_stranger user_id role_id f = not (is_admin role_id) && not (user_id == f.user_id)

abbrev pub owned : ℕ → ℤ → Option Forward → Option Forward
owned user_id role_id none = none
owned user_id role_id (some f) = if is_stranger user_id role_id f then none else some f

unfoldable pub validate_forward_exists : Db → ℕ → ℕ → ℤ → Option Forward
validate_forward_exists db id user_id role_id =
    owned user_id role_id (first_where (by_id (λ f. f.id) id) db.forwards)

-- The first check of `PauseForward` and `ResumeForward`.
unfoldable pub check_user_enabled : Db → ℕ → ℤ → Result {0} Unit
unfolding get_user
check_user_enabled db user_id role_id =
    if is_admin role_id then ok tt else elim (get_user db user_id) [
      | none ↦ err user_not_found
      | some user ↦ refuse_if (eq_ℤ user.status (pos 0)) user_disabled
    ]

-- The permission that names the service: a user must have one of their own.
unfoldable pub permission_for : Db → ℕ → ℤ → Forward → Tunnel → Result (Option UserTunnel)
unfolding get_user_tunnel
permission_for db user_id role_id f tunnel =
    if is_admin role_id
    then ok (get_user_tunnel db f.user_id tunnel.id)
    else elim (get_user_tunnel db user_id tunnel.id) [
      | none ↦ err no_tunnel_permission
      | some ut ↦ ok (some ut)
    ]

unfoldable pub required_out_node : Db → Tunnel → Result (Option Node)
unfolding get_node_by_id
required_out_node db tunnel =
    if eq_ℤ tunnel.type tunnel_forward
    then elim (get_node_by_id db tunnel.out_node_id) [
      | none ↦ err out_node_missing
      | some node ↦ ok (some node)
    ]
    else ok none

unfoldable pub get_required_nodes : Db → Tunnel → Result (Node × Option Node)
unfolding required_out_node get_node_by_id
get_required_nodes db tunnel = elim (get_node_by_id db tunnel.in_node_id) [
  | none ↦ err in_node_missing
  | some in_node ↦ elim (required_out_node db tunnel) [
    | err e ↦ err e
    | ok out_node ↦ ok (in_node, out_node)
  ]
]

abbrev pub at_least_two : Route → List RouteHop → Result (Route × List RouteHop)
at_least_two route hops =
    if leb 2 (length hops) then ok (route, hops) else err route_needs_two_nodes

unfoldable pub load_route_with_hops : Db → ℕ → Result (Route × List RouteHop)
load_route_with_hops db route_id =
    elim (first_where (by_id (λ (r : Route). r.id) route_id) db.routes) [
      | none ↦ err route_not_found
      | some route ↦
          at_least_two route
            (order_by (λ h. h.hop_order) (find_where (λ h. h.route_id == route_id) db.route_hops))
    ]

unfoldable pub route_ports_of : Db → ℕ → List ForwardRoutePort
route_ports_of db forward_id =
    order_by (λ p. p.hop_order) (find_where (λ p. p.forward_id == forward_id) db.route_ports)

abbrev pub some_ports : List ForwardRoutePort → Result (List ForwardRoutePort)
some_ports [] = err route_ports_not_found
some_ports (p ∷ ps) = ok (p ∷ ps)

unfoldable pub load_forward_route_ports : Db → ℕ → Result (List ForwardRoutePort)
unfolding route_ports_of
load_forward_route_ports db forward_id = some_ports (route_ports_of db forward_id)

-- `Updates` of the status and the time of a forward.
abbrev pub set_forward_status : ℤ → ℕ → ℤ → Db → Db
set_forward_status now id status db = record db {
  forwards =
      update_where (by_id (λ f. f.id) id) (λ f. record f { status = status; updated_time = now })
        db.forwards;
}

abbrev pub delete_forward_row : ℕ → Db → Db
delete_forward_row id db = record db { forwards = delete_where (by_id (λ f. f.id) id) db.forwards }

module _ (env : Env) where
  -- Pausing (`true`) or resuming the services on the nodes of a tunnel.
  unfoldable pub set_in_service : Bool → ℕ → Text → Text → World → Text × World
  unfolding pause_service_command pause_service_multi_ip resume_service_command
      resume_service_multi_ip
  set_in_service true node_id name listen_ip =
      if is_multi_ip listen_ip
      then pause_service_multi_ip env node_id name listen_ip
      else pause_service_command env node_id name
  set_in_service false node_id name listen_ip =
      if is_multi_ip listen_ip
      then resume_service_multi_ip env node_id name listen_ip
      else resume_service_command env node_id name

  unfoldable pub set_remote_service : Bool → ℕ → Text → World → Text × World
  unfolding pause_remote_service resume_remote_service
  set_remote_service true node_id name = pause_remote_service env node_id name
  set_remote_service false node_id name = resume_remote_service env node_id name

  unfoldable pub on_out_node : Tunnel → Option Node → (ℕ → World → Text × World) → Action {0} Unit
  on_out_node tunnel none c = return tt
  on_out_node tunnel (some out_node) c =
      if eq_ℤ tunnel.type tunnel_forward then expect_ok (c out_node.id) else return tt

  unfoldable pub set_gost_services :
      Bool → Tunnel → Node → Option Node → Text → Text → Action {0} Unit
  unfolding set_in_service set_remote_service on_out_node
  set_gost_services pausing tunnel in_node out_node name listen_ip =
      expect_ok (set_in_service pausing in_node.id name listen_ip)
      >> on_out_node tunnel out_node (λ id. set_remote_service pausing id name)

  unfoldable pub delete_remote : Option Node → Text → Action {0} Unit
  unfolding delete_remote_service
  delete_remote none name = return tt
  delete_remote (some out_node) name = expect_gone (delete_remote_service env out_node.id name)

  unfoldable pub delete_in_service : ℕ → Text → Text → World → Text × World
  unfolding delete_service_command delete_service_multi_ip
  delete_in_service node_id name listen_ip =
      if is_multi_ip listen_ip
      then delete_service_multi_ip env node_id name listen_ip
      else delete_service_command env node_id name

  unfoldable pub delete_gost_services_with_ip :
      Tunnel → Node → Option Node → Text → Text → Action {0} Unit
  unfolding delete_in_service delete_chains_command delete_remote
  delete_gost_services_with_ip tunnel in_node out_node name listen_ip =
      expect_gone (delete_in_service in_node.id name listen_ip)
      >> (if eq_ℤ tunnel.type tunnel_forward
          then expect_gone (delete_chains_command env in_node.id name)
            >> delete_remote out_node name
          else return tt)
