-- ===== src/Sound/Steps.antt =====
-- The panel as a machine whose steps are its handlers, and what no run of it can break.
use flux_panel_plus.Prelude.{ℕ, ℤ, ◌≡◌, Bool, false}
use flux_panel_plus.Prelude.Text.{Text}
use flux_panel_plus.Prelude.Table.{has_id}
use flux_panel_plus.Model.{Forward}
use flux_panel_plus.Gost.Commands.{World, Env}
use flux_panel_plus.Forwards.Handlers.{pause_forward, resume_forward, delete_forward}
use flux_panel_plus.Create.Handler.{ForwardDto}
use flux_panel_plus.Address.Defs.{Resolver}
use flux_panel_plus.Update.Handler.{ForwardUpdateDto}
use flux_panel_plus.Update.Entry.{create_forward, update_forward, force_delete_forward}
use flux_panel_plus.Topology.Tunnels.{
  TunnelDto, TunnelUpdateDto, create_tunnel, update_tunnel, delete_tunnel,
}
use flux_panel_plus.Topology.Routes.{
  RouteDto, RouteUpdateDto, create_route, update_route, delete_route,
}
use flux_panel_plus.Topology.Nodes.{
  NodeDto, NodeUpdateDto, NodeSetProtocolDto, create_node, update_node, set_node_protocol,
  delete_node,
}
use flux_panel_plus.Users.Deletion.{delete_user}
use flux_panel_plus.Users.Permissions.{remove_user_tunnel}
use flux_panel_plus.Sound.Users.{delete_user-IsSound, remove_user_tunnel-IsSound}
use flux_panel_plus.Sound.Defs.{has_route, IsSound}
use flux_panel_plus.Sound.Tunnels.{
  create_tunnel-IsSound, update_tunnel-IsSound, delete_tunnel-IsSound,
}
use flux_panel_plus.Sound.Routes.{create_route-IsSound, update_route-IsSound, delete_route-IsSound}
use flux_panel_plus.Sound.Nodes.{
  create_node-IsSound, update_node-IsSound, set_node_protocol-IsSound, delete_node-IsSound,
}
use flux_panel_plus.Sound.Forwards.{
  pause_forward-IsSound, resume_forward-IsSound, delete_forward-IsSound,
}
use flux_panel_plus.Sound.Creation.{create_forward-IsSound}
use flux_panel_plus.Sound.Changes.{update_forward-IsSound, force_delete_forward-IsSound}
use flux_panel_plus.Reconcile.Defs.{reconcile_gost}
use flux_panel_plus.Reconcile.Kept.{reconcile_gost-IsSound}

-- One call of a handler, or the limiter and forward phases of a reconciliation. Which nodes are on, how they answer and how a name resolves may differ from
-- call to call; the database gives a new route or forward an id that none has.
pub data PanelStep (same_name : Text → Text → Bool) (w : World) : World → Type 0 where
  node_created :
      (env : Env) (id : ℕ) (secret : Text) (names : Text × Text) (d : NodeDto)
      → PanelStep same_name w (create_node env id secret names d w).1
  node_updated : (env : Env) (d : NodeUpdateDto) → PanelStep same_name w (update_node env d w).1
  protocol_set :
      (env : Env) (d : NodeSetProtocolDto) → PanelStep same_name w (set_node_protocol env d w).1
  node_deleted : (env : Env) (id : ℕ) → PanelStep same_name w (delete_node env id w).1
  tunnel_created :
      (env : Env) (id : ℕ) (d : TunnelDto)
      → PanelStep same_name w (create_tunnel env same_name id d w).1
  tunnel_updated :
      (env : Env) (d : TunnelUpdateDto) → PanelStep same_name w (update_tunnel env same_name d w).1
  tunnel_deleted : (id : ℕ) → PanelStep same_name w (delete_tunnel id w).1
  route_created :
      (env : Env) (id : ℕ) (hop_ids : ℕ → ℕ) (d : RouteDto)
      → has_route w.db id ≡ false
      → PanelStep same_name w (create_route env same_name id hop_ids d w).1
  route_updated :
      (env : Env) (hop_ids : ℕ → ℕ) (d : RouteUpdateDto)
      → PanelStep same_name w (update_route env same_name hop_ids d w).1
  route_deleted : (id : ℕ) → PanelStep same_name w (delete_route id w).1
  forward_created :
      (env : Env) (lookup : Resolver) (id : ℕ) (port_ids : ℕ → ℕ) (d : ForwardDto) (user_id : ℕ)
      (role_id : ℤ) (user_name : Text)
      → has_id (λ (f : Forward). f.id) id w.db.forwards ≡ false
      → PanelStep same_name w
          (create_forward env lookup id port_ids d user_id role_id user_name w).1
  forward_updated :
      (env : Env) (lookup : Resolver) (port_ids : ℕ → ℕ) (d : ForwardUpdateDto) (user_id : ℕ)
      (role_id : ℤ)
      → PanelStep same_name w (update_forward env lookup port_ids d user_id role_id w).1
  forward_paused :
      (env : Env) (id user_id : ℕ) (role_id : ℤ)
      → PanelStep same_name w (pause_forward env id user_id role_id w).1
  forward_resumed :
      (env : Env) (id user_id : ℕ) (role_id : ℤ)
      → PanelStep same_name w (resume_forward env id user_id role_id w).1
  forward_deleted :
      (env : Env) (id user_id : ℕ) (role_id : ℤ)
      → PanelStep same_name w (delete_forward env id user_id role_id w).1
  forward_forced_out :
      (env : Env) (id : ℕ) → PanelStep same_name w (force_delete_forward env id w).1
  user_deleted : (env : Env) (id : ℕ) → PanelStep same_name w (delete_user env id w).1
  permission_removed : (env : Env) (id : ℕ) → PanelStep same_name w (remove_user_tunnel env id w).1
  node_reconciled :
      (env : Env) (node_id : ℕ) → PanelStep same_name w (reconcile_gost env node_id w).world

pub data Reach (same_name : Text → Text → Bool) (start : World) : World → Type 0 where
  here : Reach same_name start start
  next :
      {w w' : World} → Reach same_name start w → PanelStep same_name w w' → Reach same_name start w'

module _ {same_name : Text → Text → Bool} where
  pub PanelStep-IsSound : {w w' : World} → PanelStep same_name w w' → IsSound w.db → IsSound w'.db
  PanelStep-IsSound {w} (node_created env id secret names d) =
      create_node-IsSound env id secret names d w
  PanelStep-IsSound {w} (node_updated env d) = update_node-IsSound env d w
  PanelStep-IsSound {w} (protocol_set env d) = set_node_protocol-IsSound env d w
  PanelStep-IsSound {w} (node_deleted env id) = delete_node-IsSound env id w
  PanelStep-IsSound {w} (tunnel_created env id d) = create_tunnel-IsSound env same_name id d w
  PanelStep-IsSound {w} (tunnel_updated env d) = update_tunnel-IsSound env same_name d w
  PanelStep-IsSound {w} (tunnel_deleted id) = delete_tunnel-IsSound id w
  PanelStep-IsSound {w} (route_created env id hop_ids d fresh) =
      create_route-IsSound env same_name id hop_ids d w fresh
  PanelStep-IsSound {w} (route_updated env hop_ids d) =
      update_route-IsSound env same_name hop_ids d w
  PanelStep-IsSound {w} (route_deleted id) = delete_route-IsSound id w
  PanelStep-IsSound {w} (forward_created env lookup id port_ids d user_id role_id user_name fresh) =
      create_forward-IsSound env lookup id port_ids d user_id role_id user_name w fresh
  PanelStep-IsSound {w} (forward_updated env lookup port_ids d user_id role_id) =
      update_forward-IsSound env lookup port_ids d user_id role_id w
  PanelStep-IsSound {w} (forward_paused env id user_id role_id) =
      pause_forward-IsSound env id user_id role_id w
  PanelStep-IsSound {w} (forward_resumed env id user_id role_id) =
      resume_forward-IsSound env id user_id role_id w
  PanelStep-IsSound {w} (forward_deleted env id user_id role_id) =
      delete_forward-IsSound env id user_id role_id w
  PanelStep-IsSound {w} (forward_forced_out env id) = force_delete_forward-IsSound env id w
  PanelStep-IsSound {w} (user_deleted env id) = delete_user-IsSound env id w
  PanelStep-IsSound {w} (permission_removed env id) = remove_user_tunnel-IsSound env id w
  PanelStep-IsSound {w} (node_reconciled env node_id) = reconcile_gost-IsSound env node_id w

  -- If in a database each forward is on a tunnel or a route that exists, each tunnel has its nodes,
  -- and two different ones where it is between nodes, each hop's route exists, and each route has two
  -- hops or more, no node twice, then that is so after any number of creations, changes and deletions
  -- of nodes, tunnels, routes and forwards, of pauses and resumptions of forwards, of deletions of
  -- users, of removals of permissions and of limiter and forward phases of a node's reconciliation. A
  -- new route or forward must get an id that none has. Nothing is said of the node of a hop and of
  -- the forward of a relay port.
  pub Reach-IsSound : {start w : World} → Reach same_name start w → IsSound start.db → IsSound w.db
  Reach-IsSound here s = s
  Reach-IsSound (next run step) s = PanelStep-IsSound step (Reach-IsSound run s)
