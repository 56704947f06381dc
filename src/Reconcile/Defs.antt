-- ===== src/Reconcile/Defs.antt =====
-- go-backend/service/reconcile.go: reconcileLimiters, reconcileForwards, reconcileRouteForwards and
-- the part of ReconcileNode that runs them (`reconcile_gost`). Its Xray phases and its deletion of
-- orphan services are not part of a run here, and neither is the lock of a node.
use flux_panel_plus.Prelude.{
  ℕ, eq_ℤ, Bool, true, false, not, ◌&&◌, ◌||◌, Option, none, some, List, [], ◌∷◌, ◌++◌, ◌==◌, ltb,
  if◌then◌else◌, ◌+◌,
}
use flux_panel_plus.Prelude.Text.{Text, codes, text_eq}
use flux_panel_plus.Prelude.Table.{find_where, for_each}
use flux_panel_plus.Model.{
  SpeedLimit, UserTunnel, Tunnel, Forward, Node, Route, RouteHop, ForwardRoutePort,
}
use flux_panel_plus.Model.Database.{Db}
use flux_panel_plus.Response.{Error, Result, ok, err}
use flux_panel_plus.Gost.Names.{build_service_name}
use flux_panel_plus.Gost.Commands.{
  World, Env, add_limiters_command, pause_service_command, pause_service_multi_ip,
  pause_remote_service,
}
use flux_panel_plus.Ports.Defs.{tunnel_forward}
use flux_panel_plus.Pause.Defs.{
  active, paused, failed, is_multi_ip, get_user_tunnel, update_forward_status,
}
use flux_panel_plus.Forwards.Steps.{
  get_required_nodes, load_route_with_hops, load_forward_route_ports,
}
use flux_panel_plus.Create.Handler.{listening_on}
use flux_panel_plus.Topology.Limits.{get_speed_limit, decimal_ℤ}
use flux_panel_plus.Reconcile.Gentle.{
  gentle_sync_gost_services, gentle_sync_route_on_node, set_route_paused_on_node,
}

pub data SyncError : Type 0 where
  limiter_error : ℕ → Text → SyncError
  tunnel_error forward_error route_forward_error route_pause_error : ℕ → Error → SyncError

-- `ReconcileResult`, the fields of the modelled phases.
pub record Tally : Type 0 where
  pub limiters : ℕ
  pub forwards : ℕ
  pub errors : List SyncError

-- What a run changes: the world, and what it reports.
pub record Run : Type 0 where
  pub world : World
  pub tally : Tally

abbrev pub started : World → Run
started w = record { world = w; tally = record { limiters = 0; forwards = 0; errors = [] } }

abbrev pub report : SyncError → Tally → Tally
report e t = record t { errors = t.errors ++ e ∷ [] }

abbrev pub report_err : (Error → SyncError) → Result {0} Unit → Tally → Tally
report_err e (ok u) t = t
report_err e (err x) t = report (e x) t

-- The limiter of a permission, where it is above zero.
abbrev pub positive_limiter : UserTunnel → Option ℕ
positive_limiter ut = elim ut.speed_id [ none ↦ none | some s ↦ if ltb 0 s then some s else none ]

abbrev pub limiter_of_permission : Option UserTunnel → Option ℕ
limiter_of_permission none = none
limiter_of_permission (some ut) = positive_limiter ut

-- `seen[id]`
abbrev pub is_seen : ℕ → List ℕ → Bool
is_seen id [] = false
is_seen id (s ∷ seen) = s == id || is_seen id seen

-- A count that is above zero.
abbrev pub any_row {ℓ} : {A : Type ℓ} → (A → Bool) → List A → Bool
any_row p [] = false
any_row p (r ∷ rs) = p r || any_row p rs

module _ (env : Env) (node_id : ℕ) where
  unfoldable pub send_found : ℕ → Option SpeedLimit → Run → Run
  unfolding add_limiters_command
  send_found id none r = r
  send_found id (some limit) r =
      let (msg, w) = add_limiters_command env node_id id (decimal_ℤ limit.speed) r.world in
      let tally =
        if text_eq msg (codes "OK") then r.tally else report (limiter_error id msg) r.tally in
      record { world = w; tally = record tally { limiters = tally.limiters + 1 } }

  unfoldable pub send_limiter : ℕ → Run → Run
  unfolding get_speed_limit send_found
  send_limiter id r = send_found id (get_speed_limit r.world.db id) r

  -- A limiter that an earlier permission named was sent.
  unfoldable pub send_once : Option ℕ → List ℕ × Run → List ℕ × Run
  unfolding send_limiter
  send_once none (seen, r) = (seen, r)
  send_once (some id) (seen, r) =
      if is_seen id seen then (seen, r) else (id ∷ seen, send_limiter id r)

  unfoldable pub reconcile_limiter : UserTunnel → List ℕ × Run → List ℕ × Run
  unfolding send_once
  reconcile_limiter ut = send_once (positive_limiter ut)

  unfoldable pub reconcile_limiters_of : Tunnel → List ℕ × Run → List ℕ × Run
  unfolding reconcile_limiter
  reconcile_limiters_of t (seen, r) =
      for_each reconcile_limiter (find_where (λ ut. ut.tunnel_id == t.id) r.world.db.user_tunnels)
        (seen, r)

  unfoldable pub reconcile_limiters : Run → Run
  unfolding reconcile_limiters_of
  reconcile_limiters r =
      (for_each reconcile_limiters_of (find_where (λ t. t.in_node_id == node_id) r.world.db.tunnels)
        ([], r)).1

  abbrev pub touches : Tunnel → Bool
  touches t = t.in_node_id == node_id || t.out_node_id == node_id

  -- A forward whose services were sent is no longer failed.
  unfoldable pub settle : (Error → SyncError) → Forward → Result {0} Unit × World → Tally → Run
  unfolding update_forward_status
  settle e f (res, w) t = elim res [
    | ok u ↦ record {
      world = if eq_ℤ f.status failed then update_forward_status f.id active w else w;
      tally = record t { forwards = t.forwards + 1 };
    }
    | err x ↦
        let t' = report (e x) t in
        record { world = w; tally = record t' { forwards = t'.forwards + 1 } }
  ]

  -- A paused forward is paused again on this node.
  unfoldable pub pause_here : Forward → Tunnel → Option Node → Text → World → World
  unfolding pause_service_command pause_service_multi_ip pause_remote_service
  pause_here f t out name w =
      let w' =
        if t.in_node_id == node_id
        then (if is_multi_ip f.listen_ip
            then (pause_service_multi_ip env node_id name f.listen_ip w).1
            else (pause_service_command env node_id name w).1)
        else w in
      elim out [
        | none ↦ w'
        | some o ↦
            if eq_ℤ t.type tunnel_forward && (t.out_node_id == node_id)
            then (pause_remote_service env node_id name w').1
            else w'
      ]

  unfoldable pub reconcile_forward : Tunnel → Node → Option Node → Forward → Run → Run
  unfolding get_user_tunnel build_service_name gentle_sync_gost_services settle pause_here
  reconcile_forward t in_node out f r =
      let ut = get_user_tunnel r.world.db f.user_id f.tunnel_id in
      let name = build_service_name f.id f.user_id ut in
      let r' =
        settle (forward_error f.id) f
          (gentle_sync_gost_services env f (listening_on f.listen_ip t) (limiter_of_permission ut)
            name in_node out r.world)
          r.tally in
      if eq_ℤ f.status paused then record r' { world = pause_here f t out name r'.world } else r'

  unfoldable pub reconcile_on : Tunnel → Result (Node × Option Node) → Run → Run
  unfolding reconcile_forward
  reconcile_on t (err e) r = record r { tally = report (tunnel_error t.id e) r.tally }
  reconcile_on t (ok (in_node, out)) r =
      for_each (reconcile_forward t in_node out)
        (find_where (λ f. f.tunnel_id == t.id) r.world.db.forwards) r

  unfoldable pub reconcile_tunnel : Tunnel → Run → Run
  unfolding get_required_nodes reconcile_on
  reconcile_tunnel t r = reconcile_on t (get_required_nodes r.world.db t) r

  unfoldable pub reconcile_forwards : Run → Run
  unfolding reconcile_tunnel
  reconcile_forwards r = for_each reconcile_tunnel (find_where touches r.world.db.tunnels) r

  abbrev pub is_routed_here : Db → Forward → Bool
  is_routed_here db f =
      not (f.route_id == 0)
      && any_row (λ (h : RouteHop). (h.route_id == f.route_id) && (h.node_id == node_id))
          db.route_hops

  unfoldable pub send_route_forward :
      Forward → Route → List RouteHop → List ForwardRoutePort → Run → Run
  unfolding build_service_name gentle_sync_route_on_node settle set_route_paused_on_node
  send_route_forward f route hops ports r =
      let name = build_service_name f.id f.user_id none in
      let r' =
        settle (route_forward_error f.id) f
          (gentle_sync_route_on_node env node_id f route ports none name hops r.world) r.tally in
      if eq_ℤ f.status paused
      then (let (res, w) = set_route_paused_on_node env node_id name hops ports true r'.world in
          record { world = w; tally = report_err (route_pause_error f.id) res r'.tally })
      else r'

  unfoldable pub send_ported :
      Forward → Route → List RouteHop → Result (List ForwardRoutePort) → Run → Run
  unfolding send_route_forward
  send_ported f route hops (err e) r = record r {
    tally = report (route_forward_error f.id e) r.tally;
  }
  send_ported f route hops (ok ports) r = send_route_forward f route hops ports r

  unfoldable pub send_routed : Forward → Result (Route × List RouteHop) → Run → Run
  unfolding load_forward_route_ports send_ported
  send_routed f (err e) r = record r { tally = report (route_forward_error f.id e) r.tally }
  send_routed f (ok (route, hops)) r =
      send_ported f route hops (load_forward_route_ports r.world.db f.id) r

  unfoldable pub reconcile_route_forward : Forward → Run → Run
  unfolding load_route_with_hops send_routed
  reconcile_route_forward f r = send_routed f (load_route_with_hops r.world.db f.route_id) r

  unfoldable pub reconcile_route_forwards : Run → Run
  unfolding reconcile_route_forward
  reconcile_route_forwards r =
      for_each reconcile_route_forward (find_where (is_routed_here r.world.db) r.world.db.forwards)
        r

  abbrev pub is_tunneled_here : Db → Forward → Bool
  is_tunneled_here db f = any_row (λ (t : Tunnel). (t.id == f.tunnel_id) && touches t) db.tunnels

  -- The phases of `ReconcileNode` that send limiters and forwards.
  unfoldable pub reconcile_gost : World → Run
  unfolding reconcile_limiters reconcile_forwards reconcile_route_forwards
  reconcile_gost w =
      let r =
        if any_row (is_tunneled_here w.db) w.db.forwards
        then reconcile_forwards (reconcile_limiters (started w))
        else started w in
      if any_row (is_routed_here w.db) w.db.forwards then reconcile_route_forwards r else r
