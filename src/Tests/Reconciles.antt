-- ===== src/Tests/Reconciles.antt =====
-- A node of the small panel that reconnects: one forward is paused, another has failed.
use flux_panel_plus.Prelude.{◌≡◌, refl, [], ◌∷◌, map, length}
use flux_panel_plus.Prelude.Table.{find_where, by_id}
use flux_panel_plus.Model.{Forward}
use flux_panel_plus.Gost.Commands.{World}
use flux_panel_plus.Pause.Defs.{active, paused, failed}
use flux_panel_plus.Reconcile.Defs.{reconcile_gost}
use flux_panel_plus.Reconcile.Kept.{reconcile_gost-Kept, AddsGentle, reconcile_gost-AddsGentle}
use flux_panel_plus.Tests.Rows.{forward, sample, world, online}

abbrev reconnecting : World
reconnecting = record world {
  db = record sample {
    forwards =
        record forward { status = paused }
        ∷ record forward { id = 2; in_port = 1001; out_port = 2001; status = failed }
        ∷ [];
  };
}

-- The failed one is active, the paused one still paused: a chain, a remote service and a main service
-- for each, and a pause.
reconcile_gost_test :
    let r = reconcile_gost online 5 reconnecting in
    (map (λ (f : Forward). f.status) r.world.db.forwards ≡ paused ∷ active ∷ [])
    × (length r.world.sent ≡ 7)
    × (r.tally.forwards ≡ 2)
    × (r.tally.errors ≡ [])
unfolding reconcile_gost
reconcile_gost_test = (refl, refl, refl, refl)

reconcile_gost-Kept_example :
    let db = (reconcile_gost online 5 reconnecting).world.db in
    (db ≡ record (reconnecting.db) { forwards = db.forwards })
    × (find_where (by_id (λ (f : Forward). f.id) 1) db.forwards
        ≡ find_where (by_id (λ (f : Forward). f.id) 1) reconnecting.db.forwards)
reconcile_gost-Kept_example = reconcile_gost-Kept online 5 1 reconnecting (refl, tt)

reconcile_gost-AddsGentle_example :
    AddsGentle reconnecting (reconcile_gost online 5 reconnecting).world
reconcile_gost-AddsGentle_example = reconcile_gost-AddsGentle online 5 reconnecting
