-- ===== src/Reconcile/Invariant.antt =====
-- What these phases of a reconciliation keep: where a property outlives each addition and each hot update that is
-- sent, and each forward that is turned from failed to active, it outlives the whole run.
use flux_panel_plus.Prelude.{
  ℕ, eq_ℤ, ◌≡◌, Bool, true, false, inl, inr, Option, none, some, List, [], ◌∷◌, ◌==◌, if◌then◌else◌,
  All, Bool-cases,
}
use flux_panel_plus.Prelude.Table.{find_where, for_each}
use flux_panel_plus.Model.{
  SpeedLimit, UserTunnel, Tunnel, Forward, Node, Route, RouteHop, ForwardRoutePort,
}
use flux_panel_plus.Response.{Error, Result, ok, err}
use flux_panel_plus.Gost.Names.{build_service_name}
use flux_panel_plus.Gost.Commands.{World, Env, Command, send_msg}
use flux_panel_plus.Pause.Defs.{active, paused, failed, get_user_tunnel, update_forward_status}
use flux_panel_plus.Create.Handler.{listening_on}
use flux_panel_plus.Forwards.Steps.{
  get_required_nodes, load_route_with_hops, load_forward_route_ports,
}
use flux_panel_plus.Topology.Limits.{get_speed_limit, decimal_ℤ}
use flux_panel_plus.Reconcile.Gentle.{gentle_sync_gost_services, gentle_sync_route_on_node}
use flux_panel_plus.Reconcile.Quiet.{
  is_gentle, gentle_sync_gost_services-Keeps, gentle_sync_route-Keeps,
  set_route_paused_on_node-Keeps, pause_here-Good, add_limiters-Keeps,
}
use flux_panel_plus.Reconcile.Defs.{
  SyncError, Tally, Run, started, forward_error, route_forward_error, positive_limiter,
  limiter_of_permission, is_seen, any_row, send_found, send_limiter, send_once, reconcile_limiter,
  reconcile_limiters_of, reconcile_limiters, touches, settle, pause_here, reconcile_forward,
  reconcile_on, reconcile_tunnel, reconcile_forwards, is_routed_here, is_tunneled_here,
  send_route_forward, send_ported, send_routed, reconcile_route_forward, reconcile_route_forwards,
  reconcile_gost,
}

-- An invariant of a loop over rows that satisfy a condition.
for_each-Keeps {ℓ κ} :
    {A : Type ℓ} {S : Type κ} (I : S → Type 0) (P : A → Type 0) (body : A → S → S) (rs : List A)
    → ((a : A) (s : S) → P a → I s → I (body a s))
    → All P rs
    → (s : S) → I s
    → I (for_each body rs s)
for_each-Keeps I P body [] h a s i = i
for_each-Keeps I P body (r ∷ rs) h a s i = for_each-Keeps I P body rs h a.1 (body r s) (h r s a.0 i)

-- The same over any rows.
for_all-Keeps {ℓ κ} :
    {A : Type ℓ} {S : Type κ} (I : S → Type 0) (body : A → S → S) (rs : List A)
    → ((a : A) (s : S) → I s → I (body a s))
    → (s : S) → I s
    → I (for_each body rs s)
for_all-Keeps I body [] h s i = i
for_all-Keeps I body (r ∷ rs) h s i = for_all-Keeps I body rs h (body r s) (h r s i)

module _ (env : Env) (node_id : ℕ) where
  module _ (Good : World → Type 0)
      (quiet : (n : ℕ) (c : Command)
        → is_gentle c ≡ true
        → (w : World) → Good w
        → Good (send_msg env n c w).1) where
    abbrev IsGood : Run → Type 0
    IsGood r = Good r.world

    send_found-Good :
        (id : ℕ) (limit : Option SpeedLimit) (r : Run)
        → IsGood r
        → IsGood (send_found env node_id id limit r)
    unfolding send_found
    send_found-Good id none r g = g
    send_found-Good id (some limit) r g =
        add_limiters-Keeps env Good quiet node_id id (decimal_ℤ limit.speed) r.world g

    send_limiter-Good : (id : ℕ) (r : Run) → IsGood r → IsGood (send_limiter env node_id id r)
    unfolding send_limiter
    send_limiter-Good id r g = send_found-Good id (get_speed_limit r.world.db id) r g

    send_once-Good :
        (id : Option ℕ) (s : List ℕ × Run) → IsGood s.1 → IsGood (send_once env node_id id s).1
    unfolding send_once
    send_once-Good none s g = g
    send_once-Good (some k) s g = elim (Bool-cases (is_seen k s.0)) [
      | inl t ↦ rw t g
      | inr n ↦ rw n (send_limiter-Good k s.1 g)
    ]

    limiter-Good :
        (ut : UserTunnel) (s : List ℕ × Run)
        → IsGood s.1
        → IsGood (reconcile_limiter env node_id ut s).1
    unfolding reconcile_limiter
    limiter-Good ut s g = send_once-Good (positive_limiter ut) s g

    limiters_of-Good :
        (t : Tunnel) (s : List ℕ × Run)
        → IsGood s.1
        → IsGood (reconcile_limiters_of env node_id t s).1
    unfolding reconcile_limiters_of
    limiters_of-Good t s g =
        for_all-Keeps (λ s. IsGood s.1) (reconcile_limiter env node_id)
          (find_where (λ ut. ut.tunnel_id == t.id) s.1.world.db.user_tunnels) limiter-Good s g

    limiters-Good : (r : Run) → IsGood r → IsGood (reconcile_limiters env node_id r)
    unfolding reconcile_limiters
    limiters-Good r g =
        for_all-Keeps (λ s. IsGood s.1) (reconcile_limiters_of env node_id)
          (find_where (λ t. t.in_node_id == node_id) r.world.db.tunnels) limiters_of-Good ([], r) g

    -- What an active forward may be, and what that is of use for.
    module _ (P : Forward → Type 0)
        (settles : (f : Forward) (w : World)
          → P f
          → eq_ℤ f.status failed ≡ true
          → Good w
          → Good (update_forward_status f.id active w))
        (found : (p : Forward → Bool) (w : World)
          → Good w
          → All P (find_where p w.db.forwards)) where
      settle-Good :
          (e : Error → SyncError) (f : Forward) (res : Result {0} Unit × World) (t : Tally)
          → P f
          → Good res.1
          → IsGood (settle env node_id e f res t)
      unfolding settle
      settle-Good e f (ok u, w) t p g = elim (Bool-cases (eq_ℤ f.status failed)) [
        | inl h ↦ rw h (settles f w p h g)
        | inr n ↦ rw n g
      ]
      settle-Good e f (err x, w) t p g = g

      either-Good : (b : Bool) (x y : Run) → IsGood x → IsGood y → IsGood (if b then x else y)
      either-Good true x y g h = g
      either-Good false x y g h = h

      forward-Good :
          (t : Tunnel) (i : Node) (o : Option Node) (f : Forward) (r : Run)
          → P f
          → IsGood r
          → IsGood (reconcile_forward env node_id t i o f r)
      unfolding reconcile_forward
      forward-Good t i o f r p g =
          let ut = get_user_tunnel r.world.db f.user_id f.tunnel_id in
          let name = build_service_name f.id f.user_id ut in
          let t' = listening_on f.listen_ip t in
          let limiter = limiter_of_permission ut in
          let r' =
            settle env node_id (forward_error f.id) f
              (gentle_sync_gost_services env f t' limiter name i o r.world) r.tally in
          let settled : IsGood r' =
            settle-Good (forward_error f.id) f
              (gentle_sync_gost_services env f t' limiter name i o r.world) r.tally p
              (gentle_sync_gost_services-Keeps env Good quiet f t' limiter name i o r.world g) in
          either-Good (eq_ℤ f.status paused)
            (record r' { world = pause_here env node_id f t o name r'.world }) r'
            (pause_here-Good env Good quiet node_id name f t o r'.world settled) settled

      on-Good :
          (t : Tunnel) (nodes : Result (Node × Option Node)) (r : Run)
          → IsGood r
          → IsGood (reconcile_on env node_id t nodes r)
      unfolding reconcile_on
      on-Good t (err e) r g = g
      on-Good t (ok (i, o)) r g =
          for_each-Keeps IsGood P (reconcile_forward env node_id t i o)
            (find_where (λ f. f.tunnel_id == t.id) r.world.db.forwards) (forward-Good t i o)
            (found (λ f. f.tunnel_id == t.id) r.world g) r g

      tunnel-Good : (t : Tunnel) (r : Run) → IsGood r → IsGood (reconcile_tunnel env node_id t r)
      unfolding reconcile_tunnel
      tunnel-Good t r g = on-Good t (get_required_nodes r.world.db t) r g

      forwards-Good : (r : Run) → IsGood r → IsGood (reconcile_forwards env node_id r)
      unfolding reconcile_forwards
      forwards-Good r g =
          for_all-Keeps IsGood (reconcile_tunnel env node_id)
            (find_where (touches env node_id) r.world.db.tunnels) tunnel-Good r g

      send_route-Good :
          (f : Forward) (route : Route) (hops : List RouteHop) (ports : List ForwardRoutePort)
          (r : Run)
          → P f
          → IsGood r
          → IsGood (send_route_forward env node_id f route hops ports r)
      unfolding send_route_forward
      send_route-Good f route hops ports r p g =
          let name = build_service_name f.id f.user_id none in
          let sync = gentle_sync_route_on_node env node_id f route ports none name hops in
          let r' = settle env node_id (route_forward_error f.id) f (sync r.world) r.tally in
          let settled : IsGood r' =
            settle-Good (route_forward_error f.id) f (sync r.world) r.tally p (
              gentle_sync_route-Keeps env Good quiet node_id f route ports none name hops r.world
                g) in
          elim (Bool-cases (eq_ℤ f.status paused)) [
            | inl h ↦ rw h (
                set_route_paused_on_node-Keeps env Good quiet node_id name hops ports r'.world
                  settled)
            | inr n ↦ rw n settled
          ]

      ported-Good :
          (f : Forward) (route : Route) (hops : List RouteHop)
          (ports : Result (List ForwardRoutePort)) (r : Run)
          → P f
          → IsGood r
          → IsGood (send_ported env node_id f route hops ports r)
      unfolding send_ported
      ported-Good f route hops (err e) r p g = g
      ported-Good f route hops (ok ports) r p g = send_route-Good f route hops ports r p g

      routed-Good :
          (f : Forward) (route : Result (Route × List RouteHop)) (r : Run)
          → P f
          → IsGood r
          → IsGood (send_routed env node_id f route r)
      unfolding send_routed
      routed-Good f (err e) r p g = g
      routed-Good f (ok (route, hops)) r p g =
          ported-Good f route hops (load_forward_route_ports r.world.db f.id) r p g

      route_forward-Good :
          (f : Forward) (r : Run)
          → P f
          → IsGood r
          → IsGood (reconcile_route_forward env node_id f r)
      unfolding reconcile_route_forward
      route_forward-Good f r p g = routed-Good f (load_route_with_hops r.world.db f.route_id) r p g

      route_forwards-Good : (r : Run) → IsGood r → IsGood (reconcile_route_forwards env node_id r)
      unfolding reconcile_route_forwards
      route_forwards-Good r g =
          for_each-Keeps IsGood P (reconcile_route_forward env node_id)
            (find_where (is_routed_here env node_id r.world.db) r.world.db.forwards)
            route_forward-Good (found (is_routed_here env node_id r.world.db) r.world g) r g

      pub reconcile_gost-Good : (w : World) → Good w → Good (reconcile_gost env node_id w).world
      unfolding reconcile_gost
      reconcile_gost-Good w g =
          let tunneled = any_row (is_tunneled_here env node_id w.db) w.db.forwards in
          let sent = reconcile_forwards env node_id (reconcile_limiters env node_id (started w)) in
          let r = if tunneled then sent else started w in
          let good : IsGood r =
            either-Good tunneled sent (started w)
              (forwards-Good (reconcile_limiters env node_id (started w))
                (limiters-Good (started w) g))
              g in
          either-Good (any_row (is_routed_here env node_id w.db) w.db.forwards)
            (reconcile_route_forwards env node_id r) r (route_forwards-Good r good) good
