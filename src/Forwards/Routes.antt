-- ===== src/Forwards/Routes.antt =====
-- go-backend/service/forward.go: cleanupRouteForwardServices, setRouteForwardServicesPaused, and the
-- handlers of a forward on a route.
use flux_panel_plus.Prelude.{
  ℕ, suc, pos, eq_ℤ, Bool, true, false, not, none, List, [], ◌∷◌, ◌==◌, if◌then◌else◌,
}
use flux_panel_plus.Prelude.Text.{Text}
use flux_panel_plus.Prelude.Table.{delete_where}
use flux_panel_plus.Model.{Forward, Route, RouteHop, ForwardRoutePort}
use flux_panel_plus.Model.Database.{Db}
use flux_panel_plus.Response.{Result, ok, err, refuse_if, route_disabled}
use flux_panel_plus.Gost.Names.{build_service_name}
use flux_panel_plus.Gost.Commands.{World, Env}
use flux_panel_plus.Gost.RouteCommands.{
  route_chain_name, route_relay_service_name, entry_service_names, delete_route_chain,
  delete_route_services, pause_route_services, resume_route_services,
}
use flux_panel_plus.Pause.Defs.{active, paused}
use flux_panel_plus.Forwards.Steps.{
  load_route_with_hops, load_forward_route_ports, route_ports_of, set_forward_status,
  delete_forward_row,
}
use flux_panel_plus.Actions.{
  Action, ◌>>=◌, ◌>>◌, return, query, expect_ok, expect_gone, change, for_rows,
}

-- The hops of a route, or none where it cannot be loaded.
abbrev pub hops_or_none : Result (Route × List RouteHop) → List RouteHop
hops_or_none (err e) = []
hops_or_none (ok (route, hops)) = hops

abbrev pub delete_route_row : ℕ → Db → Db
delete_route_row id db =
    delete_forward_row id
      (record db { route_ports = delete_where (λ p. p.forward_id == id) db.route_ports })

module _ (env : Env) where
  -- A command for a node that may be gone: it is skipped where the node is offline.
  abbrev pub if_online : ℕ → (World → Text × World) → Action {0} Unit
  if_online node_id c = if env.is_node_online node_id then expect_gone c else return tt

  unfoldable pub delete_chains_from : Text → ℕ → List RouteHop → Action {0} Unit
  unfolding delete_route_chain
  delete_chains_from name i [] = return tt
  delete_chains_from name i (last ∷ []) = return tt
  delete_chains_from name i (hop ∷ next ∷ hops) =
      if_online hop.node_id (delete_route_chain env hop.node_id (route_chain_name name i))
      >> delete_chains_from name (suc i) (next ∷ hops)

  unfoldable pub cleanup_hops : Text → List RouteHop → Action {0} Unit
  unfolding delete_route_services delete_chains_from
  cleanup_hops name [] = return tt
  cleanup_hops name (entry ∷ hops) =
      if_online entry.node_id (delete_route_services env entry.node_id (entry_service_names name))
      >> delete_chains_from name 0 (entry ∷ hops)

  abbrev pub cleanup_port : Text → ForwardRoutePort → Action {0} Unit
  cleanup_port name p =
      if_online p.node_id
        (delete_route_services env p.node_id (route_relay_service_name name p.hop_order ∷ []))

  -- `cleanupRouteForwardServices` behind its queries.
  unfoldable pub cleanup_route_services :
      Text → List RouteHop → List ForwardRoutePort → Action {0} Unit
  unfolding cleanup_hops delete_route_services
  cleanup_route_services name hops ports =
      cleanup_hops name hops >> for_rows (cleanup_port name) ports

  unfoldable pub cleanup_route_forward_services : Forward → Action {0} Unit
  unfolding cleanup_route_services load_route_with_hops route_ports_of build_service_name
  cleanup_route_forward_services f = if f.route_id == 0 then return tt else do
    hops ← query (λ db. ok (hops_or_none (load_route_with_hops db f.route_id)))
    ports ← query (λ db. ok (route_ports_of db f.id))
    cleanup_route_services (build_service_name f.id f.user_id none) hops ports

  unfoldable pub send_route_services : Bool → ℕ → List Text → World → Text × World
  unfolding pause_route_services resume_route_services
  send_route_services true node_id services = pause_route_services env node_id services
  send_route_services false node_id services = resume_route_services env node_id services

  -- The first hop; a route that was loaded has one.
  abbrev pub send_entry : Bool → Text → List RouteHop → Action {0} Unit
  send_entry pausing name [] = return tt
  send_entry pausing name (entry ∷ hops) =
      expect_ok (send_route_services pausing entry.node_id (entry_service_names name))

  abbrev pub send_port : Bool → Text → ForwardRoutePort → Action {0} Unit
  send_port pausing name p =
      expect_ok
        (send_route_services pausing p.node_id (route_relay_service_name name p.hop_order ∷ []))

  unfoldable pub set_route_forward_services_paused : Forward → Bool → Action {0} Unit
  unfolding load_route_with_hops load_forward_route_ports build_service_name send_route_services
  set_route_forward_services_paused f pausing = do
    (route, hops) ← query (λ db. load_route_with_hops db f.route_id)
    ports ← query (λ db. load_forward_route_ports db f.id)
    let name = build_service_name f.id f.user_id none
    send_entry pausing name hops
    for_rows (send_port pausing name) ports

  unfoldable pub delete_route_forward : Forward → Action {0} Unit
  unfolding cleanup_route_forward_services
  delete_route_forward f = cleanup_route_forward_services f >> change (delete_route_row f.id)

  unfoldable pub pause_route_forward : Forward → Action {0} Unit
  unfolding set_route_forward_services_paused
  pause_route_forward f =
      set_route_forward_services_paused f true >> change (set_forward_status env.now f.id paused)

  unfoldable pub resume_route_forward : Forward → Action {0} Unit
  unfolding set_route_forward_services_paused load_route_with_hops
  resume_route_forward f = do
    (route, hops) ← query (λ db. load_route_with_hops db f.route_id)
    query (λ db. refuse_if (not (eq_ℤ route.status (pos 1))) route_disabled)
    set_route_forward_services_paused f false
    change (set_forward_status env.now f.id active)
