-- ===== src/Tests/Routes.antt =====
-- A route between the two nodes of the small panel.
use flux_panel_plus.Prelude.{◌+◌, pos, ◌≡◌, refl, true, none, List, [], ◌∷◌, ◌++◌}
use flux_panel_plus.Prelude.Text.{codes}
use flux_panel_plus.Model.{Forward}
use flux_panel_plus.Model.Database.{Db}
use flux_panel_plus.Gost.Commands.{World, Sent}
use flux_panel_plus.Actions.{is_ok}
use flux_panel_plus.Create.Handler.{ForwardDto}
use flux_panel_plus.Create.RouteServices.{create_route_gost_services}
use flux_panel_plus.Create.RoutePath.{Leads, create_route_gost_services-Leads}
use flux_panel_plus.Create.Route.{create_route_forward}
use flux_panel_plus.Create.RouteOutcome.{RouteOutcome, create_route_forward-Outcome}
use flux_panel_plus.Tests.Rows.{forward, sample, world, online}
use flux_panel_plus.Tests.Ports.{route, hop, relay}

abbrev relayed : Forward
relayed = record forward { tunnel_id = 0; route_id = 4 }

create_route_gost_services-Leads_example :
    let w' =
      (create_route_gost_services online relayed route
        (relay ∷ [])
        none
        (codes "1_7_0")
        (hop 0 5 ∷ hop 1 6 ∷ [])
        world).1 in
    (cs : List Sent) × (w'.sent ≡ [] ++ cs)
    × Leads online relayed route (relay ∷ []) none (codes "1_7_0") cs (hop 0 5) (hop 1 6) []
unfolding create_route_gost_services
create_route_gost_services-Leads_example =
    create_route_gost_services-Leads online relayed route (relay ∷ []) none (codes "1_7_0")
      (hop 0 5) (hop 1 6) [] world refl refl

abbrev with_route : Db
with_route = record sample { routes = route ∷ []; route_hops = hop 0 5 ∷ hop 1 6 ∷ [] }

abbrev on_route : World
on_route = record { db = with_route; sent = [] }

abbrev request : ForwardDto
request = record {
  name = codes "relay";
  tunnel_id = 0;
  route_id = 4;
  remote_addr = codes "198.51.100.1:80";
  strategy = codes "fifo";
  in_port = none;
  listen_ip = [];
  interface_name = [];
}

creation_succeeds :
    is_ok (create_route_forward online 2 (λ i. i + 1) request 7 (pos 0) (codes "admin") on_route).0
    ≡ true
unfolding create_route_forward
creation_succeeds = refl

create_route_forward-Outcome_example :
    RouteOutcome online 2
      (λ i. i + 1)
      request
      7
      (pos 0)
      (codes "admin")
      on_route
      (create_route_forward online 2 (λ i. i + 1) request 7 (pos 0) (codes "admin") on_route)
create_route_forward-Outcome_example =
    create_route_forward-Outcome online 2 (λ i. i + 1) request 7 (pos 0) (codes "admin") on_route
      refl
