-- ===== src/Tests/Updates.antt =====
-- Changes of the small panel.
use flux_panel_plus.Prelude.{◌+◌, pos, ◌≡◌, refl, some, [], ◌∷◌}
use flux_panel_plus.Prelude.Text.{codes, text_eq, split, parse_decimal}
use flux_panel_plus.Prelude.Table.{first_where, by_id}
use flux_panel_plus.Model.{Forward}
use flux_panel_plus.Response.{ok}
use flux_panel_plus.Gost.Commands.{World}
use flux_panel_plus.Pause.Defs.{active, paused, get_tunnel}
use flux_panel_plus.Forwards.Steps.{
  validate_forward_exists, check_user_enabled, permission_for, get_required_nodes,
}
use flux_panel_plus.Address.Defs.{validate_remote_addr}
use flux_panel_plus.Update.Entry.{update_forward}
use flux_panel_plus.Update.Frame.{Frame}
use flux_panel_plus.Update.Framed.{update_forward-Frame}
use flux_panel_plus.Update.Rename.{rename_request, update_forward-reactivates}
use flux_panel_plus.Topology.Routes.{RouteDto, create_route}
use flux_panel_plus.Sound.Defs.{IsSound}
use flux_panel_plus.Sound.Steps.{Reach, here, next, route_created, forward_updated, Reach-IsSound}
use flux_panel_plus.Tests.Rows.{pass, tunnel, forward, node, sample, world, online}
use flux_panel_plus.Tests.Addresses.{unresolved}

-- Alice's forward, paused.
abbrev stopped : Forward
stopped = record forward { status = paused }

abbrev idle : World
idle = record world { db = record sample { forwards = stopped ∷ [] } }

update_forward-Frame_example :
    Frame 1 sample
      (update_forward online unresolved
        (λ i. i)
        (rename_request forward (codes "new"))
        7
        (pos 1)
        world).1.db
update_forward-Frame_example =
    update_forward-Frame online unresolved (λ i. i) (rename_request forward (codes "new")) 7 (pos 1)
      world

update_forward-reactivates_example :
    let (r, w') =
      update_forward online unresolved
        (λ i. i)
        (rename_request stopped (codes "new"))
        7
        (pos 1)
        idle in
    (r ≡ ok tt)
    × (w'.sent ≡ [])
    × ((g : Forward) × (first_where (by_id (λ (r : Forward). r.id) 1) w'.db.forwards ≡ some g)
        × (g.name ≡ codes "new")
        × (g.status ≡ active))
unfolding check_user_enabled validate_remote_addr validate_forward_exists get_tunnel permission_for
    get_required_nodes split parse_decimal
update_forward-reactivates_example =
    update_forward-reactivates online unresolved (λ i. i) stopped (codes "new") 7 (pos 1) idle
      {t = tunnel} {ut = some pass} {i = node 5 1000 1002} {o = some (node 6 2000 2002)} refl refl
      refl refl refl refl refl refl

sample-IsSound : IsSound sample
sample-IsSound = record {
  tunnel_nodes = (refl, tt);
  tunnel_exits = (refl, tt);
  forward_targets = (refl, tt);
  hop_routes = tt;
  route_paths = tt;
}

abbrev new_route : RouteDto
new_route = record {
  name = codes "via";
  node_ids = 6 ∷ 5 ∷ [];
  protocol = [];
  tcp_listen_addr = [];
  udp_listen_addr = [];
  interface_name = [];
}

abbrev with_route : World
with_route = (create_route online text_eq 4 (λ i. i + 1) new_route world).1

-- A route is made, the tunnel is in use and stays, and the forward gets a new name.
abbrev run :
    Reach text_eq world
      (update_forward online unresolved
        (λ i. i)
        (rename_request forward (codes "new"))
        7
        (pos 1)
        with_route).1
run =
    next (next here (route_created online 4 (λ i. i + 1) new_route refl))
      (forward_updated online unresolved (λ i. i) (rename_request forward (codes "new")) 7 (pos 1))

Reach-IsSound_example :
    IsSound
      (update_forward online unresolved
        (λ i. i)
        (rename_request forward (codes "new"))
        7
        (pos 1)
        with_route).1.db
Reach-IsSound_example = Reach-IsSound run sample-IsSound
