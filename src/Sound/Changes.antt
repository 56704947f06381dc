-- ===== src/Sound/Changes.antt =====
-- A forward that is changed, or deleted by force, keeps the tables sound.
use flux_panel_plus.Prelude.{
  ℕ, ℤ, ◌≡◌, refl, sym, subst, Bool, true, false, not, Option, none, some, ◌++◌, arith, ◌==◌,
  if◌then◌else◌,
}
use flux_panel_plus.Prelude.Table.{first_where, delete_where, by_id}
use flux_panel_plus.Model.{Forward, Tunnel}
use flux_panel_plus.Model.Database.{Db}
use flux_panel_plus.Response.{or_error, forward_not_found}
use flux_panel_plus.Gost.Commands.{World, Env}
use flux_panel_plus.Pause.Defs.{failed, set_status, get_tunnel}
use flux_panel_plus.Forwards.Routes.{cleanup_route_forward_services}
use flux_panel_plus.Forwards.Commands.{cleanup_route-KeepsDb}
use flux_panel_plus.Create.Route.{bind_ports}
use flux_panel_plus.Address.Defs.{Resolver}
use flux_panel_plus.Update.Services.{delete_old_gost_services}
use flux_panel_plus.Update.Quiet.{delete_old_gost_services-db}
use flux_panel_plus.Update.Handler.{
  ForwardUpdateDto, update_row, updated_forward, set_moved, set_updated,
}
use flux_panel_plus.Update.Route.{set_route_updated, updated_route_forward, requested_route}
use flux_panel_plus.Update.Entry.{update_forward, cleanup_forward, force_delete_forward}
use flux_panel_plus.Update.Relates.{Preorder, Relates, query-Relates}
use flux_panel_plus.Update.KeptTunnel.{Allows}
use flux_panel_plus.Update.Kept.{AllowsUpdate, update_forward-Relates}
use flux_panel_plus.Sound.Defs.{has_tunnel, has_route, has_target, IsSound, sound}
use flux_panel_plus.Sound.Forwards.{
  found-has_tunnel, loaded-has_route, update_forwards-IsSound, delete_forwards-IsSound,
}

-- Sound, and with the tunnels and the routes that were there at the start.
abbrev Extends : Db → Db → Type 0
Extends start db =
    ((k : ℕ) → has_tunnel start k ≡ true → has_tunnel db k ≡ true)
    × ((k : ℕ) → has_route start k ≡ true → has_route db k ≡ true)
    × IsSound db

abbrev extends : Db → Preorder
extends start = record {
  R = λ a b. Extends start a → Extends start b;
  reflexive = λ db s. s;
  transitive = λ a b c h k s. k (h s);
}

module _ (env : Env) (lookup : Resolver) (port_ids : ℕ → ℕ) (d : ForwardUpdateDto)
    (start : Db) where
  row-Extends :
      (db : Db) (id : ℕ) (g : Forward → Forward)
      → ((f : Forward) → Extends start db → has_target db f ≡ true → has_target db (g f) ≡ true)
      → Extends start db
      → Extends start (update_row id g db)
  row-Extends db id g keep s =
      (s.0, s.1, update_forwards-IsSound db id g db.route_ports (λ f. keep f s) s.2)

  Allows-extends :
      (u : Forward)
      → u.tunnel_id ≡ d.tunnel_id
      → has_tunnel start d.tunnel_id ≡ true
      → Allows (extends start) u
  Allows-extends u e there = record {
    fails = λ db. row-Extends db u.id (set_status failed) (λ r s h. h);
    moves = λ db.
        row-Extends db u.id (set_moved u) (λ r s h. ground (arith, h, s.0 d.tunnel_id there, e));
    updates = λ db.
        row-Extends db u.id (set_updated u) (λ r s h. ground (arith, h, s.0 d.tunnel_id there, e));
  }

  AllowsUpdate-extends : (f : Forward) → AllowsUpdate (extends start) env port_ids d f start
  AllowsUpdate-extends f = record {
    on_tunnel = λ t found ports.
        Allows-extends (updated_forward env.now d f ports) refl
          (found-has_tunnel start d.tunnel_id found);
    fails = λ db. row-Extends db f.id (set_status failed) (λ r s h. h);
    on_route = λ route hops ports found given db s.
        let u = updated_route_forward env.now d f (requested_route d f) ports in
        let bound = bind_ports env.now port_ids f.id route.id 0 ports.1 in
        let there =
          s.1 (requested_route d f) (loaded-has_route start (requested_route d f) found) in
        (
          s.0,
          s.1,
          update_forwards-IsSound db f.id (set_route_updated u)
              (delete_where (λ p. p.forward_id == f.id) db.route_ports ++ bound)
              (λ r h. ground (arith, given, there)) s.2,
        );
  }

module _ (env : Env) (lookup : Resolver) (port_ids : ℕ → ℕ) (d : ForwardUpdateDto) where
  -- A forward that is moved to a tunnel or a route has it.
  pub update_forward-IsSound :
      (user_id : ℕ) (role_id : ℤ)
      → Relates sound (update_forward env lookup port_ids d user_id role_id)
  update_forward-IsSound user_id role_id w s =
      let after =
        update_forward-Relates (extends w.db) env lookup port_ids d user_id role_id w
          (λ f found. AllowsUpdate-extends env lookup port_ids d w.db f)
          ((λ k h. h), (λ k h. h), s) in
      after.2

cleanup-db :
    (env : Env) (f : Forward) (w : World) (b : Bool) (o : Option Tunnel)
    → (if b
        then (cleanup_route_forward_services env f w).1
        else elim o [ none ↦ w | some t ↦ delete_old_gost_services env f t w ]).db
      ≡ w.db
cleanup-db env f w true o = cleanup_route-KeepsDb env f w
cleanup-db env f w false none = refl
cleanup-db env f w false (some t) = delete_old_gost_services-db env f t w

cleanup_forward-db : (env : Env) (f : Forward) (w : World) → (cleanup_forward env f w).db ≡ w.db
unfolding cleanup_forward
cleanup_forward-db env f w =
    cleanup-db env f w (not (f.route_id == 0)) (get_tunnel w.db f.tunnel_id)

pub force_delete_forward-IsSound :
    (env : Env) (id : ℕ) → Relates sound (force_delete_forward env id)
unfolding force_delete_forward
force_delete_forward-IsSound env id =
    query-Relates sound
      (λ db.
        or_error (first_where (by_id (λ (f : Forward). f.id) id) db.forwards) forward_not_found)
      _
      (λ f w s.
        let kept = cleanup_forward env f w in
        delete_forwards-IsSound kept.db id
          (delete_where (λ p. p.forward_id == id) kept.db.route_ports)
          (subst IsSound (sym (cleanup_forward-db env f w)) s))
