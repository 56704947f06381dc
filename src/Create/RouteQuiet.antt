-- ===== src/Create/RouteQuiet.antt =====
-- Creating the services of a route leaves the database as it is.
use flux_panel_plus.Prelude.{ℕ, suc, ◌≡◌, refl, Option, List, [], ◌∷◌, ◌==◌, length}
use flux_panel_plus.Prelude.Text.{Text}
use flux_panel_plus.Model.{Forward, Route, RouteHop, ForwardRoutePort}
use flux_panel_plus.Response.{invalid_route_deployment}
use flux_panel_plus.Gost.Commands.{World, Env}
use flux_panel_plus.Gost.RouteCommands.{
  add_route_chain, add_route_entry_service, add_route_relay_service, add_route_terminal_service,
}
use flux_panel_plus.Pause.Exact.{send_msg-db}
use flux_panel_plus.Forwards.Commands.{cleanup_route-KeepsDb}
use flux_panel_plus.Actions.{Action, KeepsDb, then-KeepsDb, if-KeepsDb, ◌>>◌, expect_ok, fail}
use flux_panel_plus.Create.Services.{expect_or_undo}
use flux_panel_plus.Create.Quiet.{expect_or_undo-KeepsDb}
use flux_panel_plus.Create.RouteServices.{
  last_hop, undo_route, terminal_command, segment_command, relay_command, entry_command,
  deploy_relays, deploy_route, create_route_gost_services,
}

module _ (env : Env) (f : Forward) (route : Route) (ports : List ForwardRoutePort)
    (limiter : Option ℕ) (name : Text) where
  undo_route-db : (w : World) → (undo_route env f route ports limiter name w).db ≡ w.db
  unfolding undo_route
  undo_route-db w = cleanup_route-KeepsDb env f w

  abbrev segment : ℕ → RouteHop → RouteHop → Action {0} Unit
  segment i source next =
      expect_or_undo (segment_command env f route ports limiter name i source next)
        (undo_route env f route ports limiter name)

  abbrev relay : ℕ → RouteHop → Action {0} Unit
  relay i source =
      expect_or_undo (relay_command env f route ports limiter name i source)
        (undo_route env f route ports limiter name)

  abbrev main : RouteHop → Action {0} Unit
  main entry =
      expect_or_undo (entry_command env f route ports limiter name entry)
        (undo_route env f route ports limiter name)

  segment-KeepsDb : (i : ℕ) (source next : RouteHop) → KeepsDb (segment i source next)
  unfolding segment_command add_route_chain
  segment-KeepsDb i source next =
      expect_or_undo-KeepsDb (segment_command env f route ports limiter name i source next)
        (undo_route env f route ports limiter name) (send_msg-db env source.node_id _) undo_route-db

  relay-KeepsDb : (i : ℕ) (source : RouteHop) → KeepsDb (relay i source)
  unfolding relay_command add_route_relay_service
  relay-KeepsDb i source =
      expect_or_undo-KeepsDb (relay_command env f route ports limiter name i source)
        (undo_route env f route ports limiter name) (send_msg-db env source.node_id _) undo_route-db

  main-KeepsDb : (entry : RouteHop) → KeepsDb (main entry)
  unfolding entry_command add_route_entry_service
  main-KeepsDb entry =
      expect_or_undo-KeepsDb (entry_command env f route ports limiter name entry)
        (undo_route env f route ports limiter name) (send_msg-db env entry.node_id _) undo_route-db

  deploy_relays-KeepsDb :
      (i : ℕ) (hops : List RouteHop) → KeepsDb (deploy_relays env f route ports limiter name i hops)
  unfolding deploy_relays
  deploy_relays-KeepsDb i [] = λ w. refl
  deploy_relays-KeepsDb i (last ∷ []) = λ w. refl
  deploy_relays-KeepsDb i (source ∷ next ∷ hops) =
      then-KeepsDb (deploy_relays env f route ports limiter name (suc i) (next ∷ hops))
        (segment i source next >> relay i source) (deploy_relays-KeepsDb (suc i) (next ∷ hops))
        (then-KeepsDb (segment i source next) (relay i source) (segment-KeepsDb i source next)
          (relay-KeepsDb i source))

  terminal-KeepsDb :
      (hop : RouteHop) → KeepsDb (expect_ok (terminal_command env f route ports limiter name hop))
  unfolding terminal_command add_route_terminal_service
  terminal-KeepsDb hop w = send_msg-db env hop.node_id _ w

  deploy_route-KeepsDb :
      (entry hop : RouteHop) (hops : List RouteHop)
      → KeepsDb (deploy_route env f route ports limiter name entry hop hops)
  unfolding deploy_route
  deploy_route-KeepsDb entry hop hops =
      let terminal =
        expect_ok (terminal_command env f route ports limiter name (last_hop hop hops)) in
      let relays = deploy_relays env f route ports limiter name 1 (hop ∷ hops) in
      let first = segment 0 entry hop >> main entry in
      then-KeepsDb terminal (relays >> first) (terminal-KeepsDb (last_hop hop hops)) (
        then-KeepsDb relays first (deploy_relays-KeepsDb 1 (hop ∷ hops)) (
          then-KeepsDb (segment 0 entry hop) (main entry) (segment-KeepsDb 0 entry hop)
            (main-KeepsDb entry)))

  pub create_route_gost_services-KeepsDb :
      (hops : List RouteHop)
      → KeepsDb (create_route_gost_services env f route ports limiter name hops)
  unfolding create_route_gost_services
  create_route_gost_services-KeepsDb [] = λ w. refl
  create_route_gost_services-KeepsDb (entry ∷ []) = λ w. refl
  create_route_gost_services-KeepsDb (entry ∷ hop ∷ hops) =
      if-KeepsDb (length ports == length (hop ∷ hops))
        (deploy_route env f route ports limiter name entry hop hops) (fail invalid_route_deployment)
        (deploy_route-KeepsDb entry hop hops) (λ w. refl)
