-- ===== src/Create/Handler.antt =====
-- go-backend/service/forward.go: CreateForward for a forward on a tunnel, behind the check of the
-- remote address and the branch for routes; UserHasGostNodeAccess of go-backend/service/user.go.
-- The id that the database gives the new row is an argument.
use flux_panel_plus.Prelude.{
  ℕ, ℤ, pos, eq_ℤ, leb_ℤ, add64, Bool, true, not, ◌&&◌, ◌||◌, Option, none, some, List, [], ◌∷◌,
  ◌==◌, ltb, if◌then◌else◌,
}
use flux_panel_plus.Prelude.Text.{Text, is_empty}
use flux_panel_plus.Prelude.Table.{count_where}
use flux_panel_plus.Model.{UserTunnel, Tunnel, Forward, Node}
use flux_panel_plus.Model.Database.{Db}
use flux_panel_plus.Response.{
  Result, ok, err, refuse_if, or_error, tunnel_not_found, tunnel_disabled, no_in_node_access,
  no_out_node_access,
}
use flux_panel_plus.Gost.Names.{build_service_name}
use flux_panel_plus.Gost.Commands.{World, Env}
use flux_panel_plus.Ports.Defs.{get_node_by_id, tunnel_forward, allocate_ports}
use flux_panel_plus.Ports.Exclusive.{create_forward_row}
use flux_panel_plus.Pause.Defs.{active, failed, get_tunnel, update_forward_status}
use flux_panel_plus.Permissions.Defs.{is_admin, check_user_permissions}
use flux_panel_plus.Forwards.Steps.{get_required_nodes, delete_forward_row}
use flux_panel_plus.Create.Services.{create_gost_services}
use flux_panel_plus.Actions.{Action, ◌>>=◌, ◌>>◌, query, fail, change}

pub record ForwardDto : Type 0 where
  pub name : Text
  pub tunnel_id : ℕ
  pub route_id : ℕ
  pub remote_addr : Text
  pub strategy : Text
  pub in_port : Option ℕ
  pub listen_ip : Text
  pub interface_name : Text

-- A user without any row of their own may use every node.
unfoldable pub user_has_gost_node_access : Db → ℕ → ℕ → Bool
user_has_gost_node_access db user_id node_id =
    (count_where (λ n. n.user_id == user_id) db.user_nodes == 0)
    || ltb 0 (
        count_where
          (λ n. (n.user_id == user_id) && (n.node_id == node_id) && eq_ℤ n.gost_enabled (pos 1))
          db.user_nodes)

-- A missing node is let through here.
abbrev pub has_access : Db → ℕ → Option Node → Bool
has_access db user_id none = true
has_access db user_id (some node) = user_has_gost_node_access db user_id node.id

unfoldable pub check_node_access : Db → ℕ → ℤ → Tunnel → Result {0} Unit
unfolding user_has_gost_node_access get_node_by_id
check_node_access db user_id role_id tunnel =
    if is_admin role_id
    then ok tt
    else if not (has_access db user_id (get_node_by_id db tunnel.in_node_id))
    then err no_in_node_access
    else refuse_if
        (eq_ℤ tunnel.type tunnel_forward
          && not (has_access db user_id (get_node_by_id db tunnel.out_node_id)))
        no_out_node_access

abbrev max_inx_from : ℤ → List Forward → ℤ
max_inx_from m [] = m
max_inx_from m (f ∷ fs) = max_inx_from (if leb_ℤ m f.inx then f.inx else m) fs

-- `COALESCE(MAX(inx), 0)`
abbrev pub max_inx : List Forward → ℤ
max_inx [] = pos 0
max_inx (f ∷ fs) = max_inx_from f.inx fs

abbrev pub new_forward : Env → Db → ℕ → ForwardDto → ℕ → Text → ℕ → ℕ → Forward
new_forward env db id d user_id user_name in_port out_port = record {
  id = id;
  user_id = user_id;
  user_name = user_name;
  name = d.name;
  tunnel_id = d.tunnel_id;
  route_id = 0;
  in_port = in_port;
  out_port = out_port;
  remote_addr = d.remote_addr;
  strategy = d.strategy;
  listen_ip = d.listen_ip;
  interface_name = d.interface_name;
  in_flow = pos 0;
  out_flow = pos 0;
  created_time = env.now;
  updated_time = env.now;
  status = active;
  inx = add64 (max_inx db.forwards) (pos 1);
}

-- The forward's own listen address takes the place of the tunnel's.
abbrev pub listening_on : Text → Tunnel → Tunnel
listening_on listen_ip tunnel =
    if is_empty listen_ip
    then tunnel
    else record tunnel { tcp_listen_addr = listen_ip; udp_listen_addr = listen_ip }

-- What follows the services' creation.
unfoldable pub mark_failed : Forward → Result {0} Unit × World → Result {0} Unit × World
unfolding update_forward_status
mark_failed f (ok u, w) = (ok u, w)
mark_failed f (err e, w) = (err e, update_forward_status f.id failed w)

module _ (env : Env) where
  unfoldable pub deploy_forward :
      Forward
      → Tunnel
      → Option ℕ
      → Option UserTunnel
      → Result (Node × Option Node)
      → Action {0} Unit
  unfolding create_gost_services build_service_name mark_failed
  deploy_forward f tunnel limiter ut (err e) = change (delete_forward_row f.id) >> fail e
  deploy_forward f tunnel limiter ut (ok (in_node, out_node)) = λ w. mark_failed f (
      create_gost_services env f (listening_on f.listen_ip tunnel) limiter
        (build_service_name f.id f.user_id ut) in_node out_node w)

  -- The row is created first, and deleted again where a node is missing.
  unfoldable pub create_and_deploy :
      Forward → Tunnel → Option ℕ → Option UserTunnel → Action {0} Unit
  unfolding get_required_nodes deploy_forward
  create_and_deploy f tunnel limiter ut = do
    change (λ db. create_forward_row db f)
    nodes ← query (λ db. ok (get_required_nodes db tunnel))
    deploy_forward f tunnel limiter ut nodes

  unfoldable pub create_tunnel_forward : ℕ → ForwardDto → ℕ → ℤ → Text → Action {0} Unit
  unfolding get_tunnel check_node_access check_user_permissions allocate_ports create_and_deploy
  create_tunnel_forward id d user_id role_id user_name = do
    tunnel ← query (λ db. or_error (get_tunnel db d.tunnel_id) tunnel_not_found)
    query (λ db. refuse_if (not (eq_ℤ tunnel.status (pos 1))) tunnel_disabled)
    query (λ db. check_node_access db user_id role_id tunnel)
    (limiter, ut) ← query (λ db. check_user_permissions env.now db user_id role_id tunnel none)
    (in_port, out_port) ← query (λ db. allocate_ports db tunnel d.in_port none)
    f ← query (λ db. ok (new_forward env db id d user_id user_name in_port out_port))
    create_and_deploy f tunnel limiter ut
