-- ===== src/Update/Framed.antt =====
-- Updating a forward touches nothing but the forward, and keeps its owner and what it was billed.
use flux_panel_plus.Prelude.{ℕ, suc, ℤ, ◌≡◌, refl, List, [], ◌∷◌, ◌++◌, arith, subst, ap}
use flux_panel_plus.Model.{Forward, Route, ForwardRoutePort}
use flux_panel_plus.Model.Database.{Db}
use flux_panel_plus.Response.{or_error, forward_not_found}
use flux_panel_plus.Gost.Commands.{World, Env}
use flux_panel_plus.Forwards.Commits.{found_id}
use flux_panel_plus.Create.Route.{bind_ports}
use flux_panel_plus.Address.Defs.{Resolver}
use flux_panel_plus.Update.Handler.{
  ForwardUpdateDto, update_row, updated_forward, set_moved, set_updated,
}
use flux_panel_plus.Pause.Defs.{failed, set_status}
use flux_panel_plus.Update.Route.{updated_route_forward, set_route_updated, requested_route}
use flux_panel_plus.Update.Entry.{update_forward}
use flux_panel_plus.Update.Frame.{SameAccount, other_ports, Frame, frame}
use flux_panel_plus.Update.KeptTunnel.{Allows}
use flux_panel_plus.Update.Kept.{replaced, AllowsUpdate, update_forward-Relates}

row-Frame :
    (id k : ℕ) (g : Forward → Forward) (db : Db)
    → k ≡ id
    → ((f : Forward) → SameAccount f (g f))
    → Frame id db (update_row k g db)
row-Frame id k g db e keep =
    subst (λ i. Frame i db (update_row k g db)) e (g, db.route_ports, keep, refl, refl)

-- The ports that are bound to a forward are no other's.
others-none :
    (now : ℤ) (ids : ℕ → ℕ) (id route_id i : ℕ) (ports : List ForwardRoutePort)
    → other_ports id (bind_ports now ids id route_id i ports) ≡ []
others-none now ids id route_id i [] = refl
others-none now ids id route_id i (p ∷ ports) =
    ground (arith, others-none now ids id route_id (suc i) ports)

others-replace :
    (id : ℕ) (old new : List ForwardRoutePort)
    → other_ports id new ≡ []
    → other_ports id (other_ports id old ++ new) ≡ other_ports id old
others-replace id [] new h = h
others-replace id (p ∷ old) new h = ground (arith, others-replace id old new h)

module _ (env : Env) (lookup : Resolver) (port_ids : ℕ → ℕ) (d : ForwardUpdateDto) where
  Allows-frame : (u : Forward) → u.id ≡ d.id → Allows (frame d.id) u
  Allows-frame u e = record {
    fails = λ db.
        row-Frame d.id u.id (set_status failed) db e
          (λ f. (refl, refl, refl, refl, refl, refl, refl));
    moves = λ db.
        row-Frame d.id u.id (set_moved u) db e (λ f. (refl, refl, refl, refl, refl, refl, refl));
    updates = λ db.
        row-Frame d.id u.id (set_updated u) db e (λ f. (refl, refl, refl, refl, refl, refl, refl));
  }

  replaced-Frame :
      (f : Forward) (route : Route) (ports : ℕ × List ForwardRoutePort) (db : Db)
      → Frame f.id db (replaced env port_ids d f route ports db)
  replaced-Frame f route ports db =
      let bound = bind_ports env.now port_ids f.id route.id 0 ports.1 in
      (
        set_route_updated (updated_route_forward env.now d f (requested_route d f) ports),
        other_ports f.id db.route_ports ++ bound,
        λ r. (refl, refl, refl, refl, refl, refl, refl),
        others-replace f.id db.route_ports bound
            (others-none env.now port_ids f.id route.id 0 ports.1),
        refl,
      )

  AllowsUpdate-frame :
      (f : Forward) (start : Db) → f.id ≡ d.id → AllowsUpdate (frame d.id) env port_ids d f start
  AllowsUpdate-frame f start e = record {
    on_tunnel = λ t found ports. Allows-frame (updated_forward env.now d f ports) refl;
    fails = λ db.
        row-Frame d.id f.id (set_status failed) db e
          (λ r. (refl, refl, refl, refl, refl, refl, refl));
    on_route = λ route hops ports found given db.
        subst (λ k. Frame k db (replaced env port_ids d f route ports db)) e
          (replaced-Frame f route ports db);
  }

  -- However an update of a forward ends, on a tunnel or on a route, it changes nothing of the
  -- database but the forward's row and the forward's own route ports, and of the row neither the id,
  -- the owner and the owner's name, nor the counted traffic, the time of creation and the place in
  -- the order.
  pub update_forward-Frame :
      (user_id : ℕ) (role_id : ℤ) (w : World)
      → Frame d.id w.db (update_forward env lookup port_ids d user_id role_id w).1.db
  update_forward-Frame user_id role_id w =
      update_forward-Relates (frame d.id) env lookup port_ids d user_id role_id w (λ f found.
        AllowsUpdate-frame f w.db
          (found_id w.db d.id user_id role_id (ap (λ o. or_error o forward_not_found) found)))
