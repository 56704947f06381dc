-- ===== src/Update/Handler.antt =====
-- go-backend/service/forward.go: UpdateForward for a forward that stays on tunnels, from its check of
-- the tunnel on.
use flux_panel_plus.Prelude.{
  ℕ, ℤ, pos, eq_ℤ, Bool, false, not, ◌&&◌, ◌||◌, Option, none, some, ◌==◌, if◌then◌else◌,
}
use flux_panel_plus.Prelude.Text.{Text, text_eq}
use flux_panel_plus.Prelude.Table.{update_where, by_id}
use flux_panel_plus.Model.{UserTunnel, Tunnel, Forward, Node}
use flux_panel_plus.Model.Database.{Db}
use flux_panel_plus.Response.{
  Result, ok, err, refuse_if, or_error, user_not_found, tunnel_not_found, tunnel_disabled,
  no_tunnel_permission, tunnel_permission_disabled, tunnel_permission_expired, old_tunnel_missing,
}
use flux_panel_plus.Gost.Names.{build_service_name}
use flux_panel_plus.Gost.Commands.{
  World, Env, is_gost_success, update_forwarder_command, update_remote_forwarder,
}
use flux_panel_plus.Ports.Defs.{tunnel_forward, allocate_ports}
use flux_panel_plus.Pause.Defs.{active, failed, get_tunnel, get_user_tunnel}
use flux_panel_plus.Permissions.Defs.{
  is_admin, get_user, has_ended, check_forward_quota, check_user_permissions,
}
use flux_panel_plus.Forwards.Steps.{get_required_nodes, permission_for}
use flux_panel_plus.Create.Services.{create_gost_services}
use flux_panel_plus.Create.Handler.{listening_on, mark_failed}
use flux_panel_plus.Update.Services.{update_gost_services, delete_old_gost_services}
use flux_panel_plus.Actions.{Action, ◌>>=◌, ◌>>◌, return, query, perform, change}

-- The caller's id is taken from the session, never from the request.
pub record ForwardUpdateDto : Type 0 where
  pub id : ℕ
  pub name : Text
  pub tunnel_id : ℕ
  pub route_id : ℕ
  pub remote_addr : Text
  pub strategy : Text
  pub in_port : Option ℕ
  pub listen_ip : Text
  pub interface_name : Text

-- What an administrator is asked on behalf of the owner, as `Result` steps.
unfoldable pub owner_permissions :
    ℤ → Db → ForwardUpdateDto → Forward → Result (Option ℕ × Option UserTunnel)
unfolding get_user get_user_tunnel check_forward_quota
owner_permissions now db d f = elim (get_user db f.user_id) [
  | none ↦ err user_not_found
  | some user ↦ elim (get_user_tunnel db f.user_id d.tunnel_id) [
    | none ↦ err no_tunnel_permission
    | some ut ↦
        if not (eq_ℤ ut.status (pos 1))
        then err tunnel_permission_disabled
        else if has_ended now ut.exp_time
        then err tunnel_permission_expired
        else elim (check_forward_quota db f.user_id d.tunnel_id ut user (some d.id)) [
          | err e ↦ err e
          | ok u ↦ ok (ut.speed_id, some ut)
        ]
  ]
]

abbrev pub tunnel_changed : ForwardUpdateDto → Forward → Bool
tunnel_changed d f = not (f.tunnel_id == d.tunnel_id)

-- The limiter and the permission are looked up only where the tunnel changes.
unfoldable pub update_permissions :
    ℤ → Db → ℕ → ℤ → ForwardUpdateDto → Forward → Tunnel → Result (Option ℕ × Option UserTunnel)
unfolding owner_permissions check_user_permissions
update_permissions now db user_id role_id d f tunnel =
    if not (tunnel_changed d f)
    then ok (none, none)
    else if not (is_admin role_id)
    then check_user_permissions now db user_id role_id tunnel (some d.id)
    else if user_id == f.user_id
    then ok (none, none)
    else owner_permissions now db d f

abbrev pub or_else : Option UserTunnel → Option UserTunnel → Option UserTunnel
or_else none ut = ut
or_else (some p) ut = some p

abbrev pub in_port_changed : Option ℕ → Forward → Bool
in_port_changed none f = false
in_port_changed (some port) f = not (port == f.in_port)

-- `specifiedInPort`: the port of the request, or the forward's own on the tunnel that it has.
abbrev pub specified_port : ForwardUpdateDto → Forward → Option ℕ → Option ℕ
specified_port d f (some port) = some port
specified_port d f none = if tunnel_changed d f then none else some f.in_port

unfoldable pub updated_ports : Db → ForwardUpdateDto → Forward → Tunnel → Result (ℕ × ℕ)
unfolding allocate_ports
updated_ports db d f tunnel =
    if tunnel_changed d f || in_port_changed d.in_port f
    then allocate_ports db tunnel (specified_port d f d.in_port) (some d.id)
    else ok (f.in_port, f.out_port)

abbrev pub updated_forward : ℤ → ForwardUpdateDto → Forward → ℕ × ℕ → Forward
updated_forward now d f ports = record f {
  id = d.id;
  name = d.name;
  tunnel_id = d.tunnel_id;
  remote_addr = d.remote_addr;
  strategy = d.strategy;
  listen_ip = d.listen_ip;
  interface_name = d.interface_name;
  in_port = ports.0;
  out_port = ports.1;
  updated_time = now;
}

-- The columns of the last statement.
abbrev pub set_updated : Forward → Forward → Forward
set_updated u row = record row {
  name = u.name;
  tunnel_id = u.tunnel_id;
  remote_addr = u.remote_addr;
  strategy = u.strategy;
  listen_ip = u.listen_ip;
  interface_name = u.interface_name;
  in_port = u.in_port;
  out_port = u.out_port;
  status = active;
  updated_time = u.updated_time;
}

-- The columns that are saved where the new services cannot be created.
abbrev pub set_moved : Forward → Forward → Forward
set_moved u row = record row {
  tunnel_id = u.tunnel_id;
  in_port = u.in_port;
  out_port = u.out_port;
  listen_ip = u.listen_ip;
  status = failed;
}

abbrev pub update_row : ℕ → (Forward → Forward) → Db → Db
update_row id g db = record db { forwards = update_where (by_id (λ f. f.id) id) g db.forwards }

unfoldable pub save_moved : Forward → Result {0} Unit × World → Result {0} Unit × World
save_moved u (ok x, w) = (ok x, w)
save_moved u (err e, w) = (err e, record w { db = update_row u.id (set_moved u) w.db })

-- `isGostSuccess` of an answer.
abbrev pub succeeded : Text × World → Bool × World
succeeded (msg, w) = (is_gost_success msg, w)

abbrev pub port_forward : ℤ
port_forward = pos 1

module _ (env : Env) (f u : Forward) (tunnel : Tunnel) (limiter : Option ℕ) (name : Text)
    (in_node : Node) (out_node : Option Node) where
  unfoldable pub old_tunnel : Db → Result Tunnel
  unfolding get_tunnel
  old_tunnel db =
      if f.tunnel_id == u.tunnel_id
      then ok tunnel
      else or_error (get_tunnel db f.tunnel_id) old_tunnel_missing

  unfoldable pub create_or_move : Action {0} Unit
  unfolding create_gost_services save_moved
  create_or_move w =
      save_moved u (create_gost_services env u tunnel limiter name in_node out_node w)

  -- The old services are deleted, then the new ones are created.
  unfoldable pub replace_services : Action {0} Unit
  unfolding old_tunnel delete_old_gost_services create_or_move
  replace_services = do
    old ← query old_tunnel
    perform (delete_old_gost_services env f old)
    create_or_move

  unfoldable pub rebuild : Action {0} Unit
  unfolding update_gost_services mark_failed
  rebuild w = mark_failed u (update_gost_services env u tunnel limiter name in_node out_node w)

  -- The forwarder of the running service, on the node that has it.
  unfoldable pub hot_update : Option Node → World → Bool × World
  unfolding update_forwarder_command update_remote_forwarder
  hot_update none w =
      if eq_ℤ tunnel.type port_forward
      then succeeded (update_forwarder_command env in_node.id name u.remote_addr u.strategy w)
      else (false, w)
  hot_update (some out) w =
      if eq_ℤ tunnel.type port_forward
      then succeeded (update_forwarder_command env in_node.id name u.remote_addr u.strategy w)
      else if eq_ℤ tunnel.type tunnel_forward
      then succeeded (update_remote_forwarder env out.id name u.remote_addr u.strategy w)
      else (false, w)

  unfoldable pub hot_or_rebuild : Action {0} Unit
  unfolding hot_update rebuild
  hot_or_rebuild w =
      let (hot_ok, w') = hot_update out_node w in if hot_ok then (ok tt, w') else rebuild w'

  abbrev pub listener_same : Bool
  listener_same = (f.in_port == u.in_port) && text_eq f.interface_name u.interface_name

  abbrev pub addr_changed : Bool
  addr_changed = not (text_eq f.remote_addr u.remote_addr) || not (text_eq f.strategy u.strategy)

  -- The lightest change of the services that will do.
  unfoldable pub refresh_services : Action {0} Unit
  unfolding hot_or_rebuild rebuild
  refresh_services =
      if listener_same then if addr_changed then hot_or_rebuild else return tt else rebuild

  unfoldable pub deploy_update : Action {0} Unit
  unfolding replace_services refresh_services
  deploy_update =
      if not (f.tunnel_id == u.tunnel_id) || not (text_eq f.listen_ip u.listen_ip)
      then replace_services
      else refresh_services

module _ (env : Env) (d : ForwardUpdateDto) (user_id : ℕ) (role_id : ℤ) where
  unfoldable pub update_tunnel_forward : Forward → Action {0} Unit
  unfolding get_tunnel update_permissions permission_for updated_ports get_required_nodes
      deploy_update build_service_name
  update_tunnel_forward f = do
    tunnel ← query (λ db. or_error (get_tunnel db d.tunnel_id) tunnel_not_found)
    query (λ db. refuse_if (not (eq_ℤ tunnel.status (pos 1))) tunnel_disabled)
    (limiter, permitted) ← query (λ db. update_permissions env.now db user_id role_id d f tunnel)
    ut ← query (λ db. permission_for db user_id role_id f tunnel)
    ports ← query (λ db. updated_ports db d f tunnel)
    (in_node, out_node) ← query (λ db. get_required_nodes db tunnel)
    let u = updated_forward env.now d f ports
    let name = build_service_name u.id u.user_id (or_else permitted ut)
    deploy_update env f u (listening_on u.listen_ip tunnel) limiter name in_node out_node
    change (update_row u.id (set_updated u))
