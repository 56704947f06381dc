-- ===== src/Create/RoutePath.antt =====
-- The services of a route lead from its entry, hop by hop, to the forward's addresses.
use flux_panel_plus.Prelude.{
  ℕ, suc, ◌≡◌, refl, false, Option, none, some, List, [], ◌∷◌, ◌++◌, ◌==◌, length, Bool-cases, inl,
  inr,
}
use flux_panel_plus.Prelude.Text.{Text, is_empty, decimal}
use flux_panel_plus.Model.{Forward, Route, RouteHop, ForwardRoutePort}
use flux_panel_plus.Response.{ok}
use flux_panel_plus.Gost.Names.{format_listen_addr}
use flux_panel_plus.Gost.Services.{Forwarder, Service, Chain, non_empty, build_forwarder}
use flux_panel_plus.Gost.RouteServices.{
  build_route_entry_services, build_route_relay_service, build_exact_chain_data,
}
use flux_panel_plus.Gost.Commands.{World, Env, Sent, Command, add_service, add_chains}
use flux_panel_plus.Gost.RouteCommands.{
  route_chain_name, route_relay_service_name, add_route_chain, add_route_entry_service,
  add_route_relay_service, add_route_terminal_service,
}
use flux_panel_plus.Actions.{◌>>◌, expect_ok}
use flux_panel_plus.Create.Services.{expect_or_undo}
use flux_panel_plus.Create.Sends.{
  Sends, Has, Has-left, Has-right, expect_or_undo-Sends, expect_ok-Sends, then-Sends, return-Sends,
}
use flux_panel_plus.Create.RouteServices.{
  route_port_by_hop, last_hop, undo_route, terminal_command, segment_command, relay_command,
  listen_address, entry_command, deploy_relays, deploy_route, create_route_gost_services,
}

abbrev pub to_node : ℕ → Command → Sent
to_node node_id c = record { node_id = node_id; command = c }

-- A service on the port of the hop has been sent to the hop's node, and its traffic goes on through
-- the other hops, in their order, to the target.
pub data Serves (sent : List Sent) (target : Forwarder)
    : RouteHop → List RouteHop → ℕ → Type 0 where
  ends :
      (hop : RouteHop) (port : ℕ) (s : Service)
      → Has (to_node hop.node_id (add_service (s ∷ []))) sent
      → s.addr ≡ b':' ∷ decimal port
      → s.handler.chain ≡ none
      → s.forwarder ≡ some target
      → Serves sent target hop [] port
  passes :
      (hop next : RouteHop) (hops : List RouteHop) (port next_port : ℕ) (s : Service) (c : Chain)
      → Has (to_node hop.node_id (add_service (s ∷ []))) sent
      → s.addr ≡ b':' ∷ decimal port
      → s.handler.chain ≡ some c.name
      → Has (to_node hop.node_id (add_chains c)) sent
      → c.addr ≡ format_listen_addr next.node_ip next_port
      → Serves sent target next hops next_port
      → Serves sent target hop (next ∷ hops) port

non_empty_append : (s : Text) (c : ℕ) (t : Text) → non_empty (s ++ c ∷ t) ≡ some (s ++ c ∷ t)
non_empty_append [] c t = refl
non_empty_append (d ∷ s) c t = refl

module _ (env : Env) (f : Forward) (route : Route) (ports : List ForwardRoutePort)
    (limiter : Option ℕ) (name : Text) where
  abbrev pub hop_port : RouteHop → ℕ
  hop_port hop = route_port_by_hop ports hop.hop_order

  abbrev terminal_sent : RouteHop → Sent
  terminal_sent hop = to_node hop.node_id (
      add_service (
        build_route_relay_service (route_relay_service_name name hop.hop_order) (hop_port hop) []
          route.protocol f.interface_name f.remote_addr f.strategy
        ∷ []))

  abbrev segment_chain : ℕ → RouteHop → Chain
  segment_chain i next =
      build_exact_chain_data (route_chain_name name i)
        (format_listen_addr next.node_ip (hop_port next)) route.protocol route.interface_name

  abbrev relay_sent : ℕ → RouteHop → Sent
  relay_sent i source = to_node source.node_id (
      add_service (
        build_route_relay_service (route_relay_service_name name source.hop_order) (hop_port source)
          (route_chain_name name i) route.protocol route.interface_name [] []
        ∷ []))

  abbrev pair_sent : ℕ → RouteHop → RouteHop → List Sent
  pair_sent i source next =
      to_node source.node_id (add_chains (segment_chain i next)) ∷ relay_sent i source ∷ []

  abbrev relays_sent : ℕ → List RouteHop → List Sent
  relays_sent i [] = []
  relays_sent i (last ∷ []) = []
  relays_sent i (source ∷ next ∷ hops) =
      relays_sent (suc i) (next ∷ hops) ++ pair_sent i source next

  abbrev pub entry_sent : Text → RouteHop → Sent
  entry_sent chain entry = to_node entry.node_id (
      add_service (
        build_route_entry_services name f.in_port limiter
          (listen_address env f route ports limiter name) chain route.interface_name))

  deploy_relays-Sends :
      (i : ℕ) (hops : List RouteHop)
      → Sends (relays_sent i hops) (deploy_relays env f route ports limiter name i hops)
  unfolding deploy_relays segment_command relay_command add_route_chain add_route_relay_service
  deploy_relays-Sends i [] = return-Sends
  deploy_relays-Sends i (last ∷ []) = return-Sends
  deploy_relays-Sends i (source ∷ next ∷ hops) =
      let undo = undo_route env f route ports limiter name in
      let segment = segment_command env f route ports limiter name i source next in
      let relay = relay_command env f route ports limiter name i source in
      then-Sends (deploy_relays env f route ports limiter name (suc i) (next ∷ hops))
        (expect_or_undo segment undo >> expect_or_undo relay undo)
        (relays_sent (suc i) (next ∷ hops)) (pair_sent i source next)
        (deploy_relays-Sends (suc i) (next ∷ hops))
        (then-Sends (expect_or_undo segment undo) (expect_or_undo relay undo)
          (to_node source.node_id (add_chains (segment_chain i next)) ∷ [])
          (relay_sent i source ∷ []) (expect_or_undo-Sends env source.node_id _ undo)
          (expect_or_undo-Sends env source.node_id _ undo))

  route_sent : RouteHop → RouteHop → List RouteHop → List Sent
  route_sent entry hop hops =
      (terminal_sent (last_hop hop hops) ∷ [])
      ++ (relays_sent 1 (hop ∷ hops)
          ++ ((to_node entry.node_id (add_chains (segment_chain 0 hop)) ∷ [])
              ++ entry_sent (route_chain_name name 0) entry ∷ []))

  deploy_route-Sends :
      (entry hop : RouteHop) (hops : List RouteHop)
      → Sends
          (route_sent entry hop hops)
          (deploy_route env f route ports limiter name entry hop hops)
  unfolding route_sent deploy_route terminal_command segment_command entry_command
      add_route_terminal_service add_route_chain add_route_entry_service
  deploy_route-Sends entry hop hops =
      let undo = undo_route env f route ports limiter name in
      let last = last_hop hop hops in
      let terminal = terminal_command env f route ports limiter name last in
      let relays = deploy_relays env f route ports limiter name 1 (hop ∷ hops) in
      let chain =
        expect_or_undo (segment_command env f route ports limiter name 0 entry hop) undo in
      let main = expect_or_undo (entry_command env f route ports limiter name entry) undo in
      let chain_sent : List Sent = to_node entry.node_id (add_chains (segment_chain 0 hop)) ∷ [] in
      let main_sent : List Sent = entry_sent (route_chain_name name 0) entry ∷ [] in
      then-Sends (expect_ok terminal) (relays >> (chain >> main)) (terminal_sent last ∷ [])
        (relays_sent 1 (hop ∷ hops) ++ (chain_sent ++ main_sent))
        (expect_ok-Sends env last.node_id _)
        (then-Sends relays (chain >> main) (relays_sent 1 (hop ∷ hops)) (chain_sent ++ main_sent)
          (deploy_relays-Sends 1 (hop ∷ hops))
          (then-Sends chain main chain_sent main_sent
            (expect_or_undo-Sends env entry.node_id _ undo)
            (expect_or_undo-Sends env entry.node_id _ undo)))

  abbrev pub target : Forwarder
  target = build_forwarder f.remote_addr f.strategy

  relays-Serves :
      (sent : List Sent) (i : ℕ) (hop : RouteHop) (hops : List RouteHop)
      → is_empty f.remote_addr ≡ false
      → Has (terminal_sent (last_hop hop hops)) sent
      → ((c : Sent) → Has c (relays_sent i (hop ∷ hops)) → Has c sent)
      → Serves sent target hop hops (hop_port hop)
  unfolding build_route_relay_service build_exact_chain_data
  relays-Serves sent i hop [] addr last incl = ends hop (hop_port hop) _ last refl refl (rw addr)
  relays-Serves sent i hop (next ∷ hops) addr last incl =
      let pair = pair_sent i hop next in
      let rest = relays_sent (suc i) (next ∷ hops) in
      passes hop next hops (hop_port hop) (hop_port next) _ (segment_chain i next)
        (incl (relay_sent i hop) (Has-right (relay_sent i hop) rest pair (inr (inl refl)))) refl
        (non_empty_append name b'_' _) (incl _ (Has-right _ rest pair (inl refl))) refl
        (relays-Serves sent (suc i) next hops addr last (λ c h. incl c (Has-left c rest pair h)))

  -- The entry's services use a chain that was sent to the entry, and the chain leads to the next hop.
  abbrev pub Leads : List Sent → RouteHop → RouteHop → List RouteHop → Type 0
  Leads sent entry hop hops =
      (c : Chain) × Has (entry_sent c.name entry) sent
      × Has (to_node entry.node_id (add_chains c)) sent
      × (c.addr ≡ format_listen_addr hop.node_ip (hop_port hop))
      × Serves sent target hop hops (hop_port hop)

  route_sent-Leads :
      (entry hop : RouteHop) (hops : List RouteHop)
      → is_empty f.remote_addr ≡ false
      → Leads (route_sent entry hop hops) entry hop hops
  unfolding route_sent build_exact_chain_data
  route_sent-Leads entry hop hops addr =
      let relays = relays_sent 1 (hop ∷ hops) in
      let chain = to_node entry.node_id (add_chains (segment_chain 0 hop)) in
      let last = terminal_sent (last_hop hop hops) in
      let main = entry_sent (route_chain_name name 0) entry in
      let ends = chain ∷ main ∷ [] in
      (
        segment_chain 0 hop,
        inr (Has-right main relays ends (inr (inl refl))),
        inr (Has-right chain relays ends (inl refl)),
        refl,
        relays-Serves (last ∷ (relays ++ ends)) 1 hop hops addr (inl refl)
            (λ c h. inr (Has-left c relays ends h)),
      )

  -- If the services of a route are created with success, for a forward with an address to go to, then
  -- among the commands that this sent are the entry's services on the forward's port, and with them a
  -- way: each hop has a chain that leads to the next hop's address, at a port where that hop has been
  -- given a service, through all hops in their order, and the last hop's service forwards to the
  -- forward's addresses.
  pub create_route_gost_services-Leads :
      (entry hop : RouteHop) (hops : List RouteHop) (w : World)
      → is_empty f.remote_addr ≡ false
      → let (r, w') =
          create_route_gost_services env f route ports limiter name (entry ∷ hop ∷ hops) w in
        r ≡ ok tt → (cs : List Sent) × (w'.sent ≡ w.sent ++ cs) × Leads cs entry hop hops
  unfolding create_route_gost_services
  create_route_gost_services-Leads entry hop hops w addr =
      elim (Bool-cases (length ports == length (hop ∷ hops))) [
        | inl t ↦ rw t (λ h. (
          route_sent entry hop hops,
          deploy_route-Sends entry hop hops w h,
          route_sent-Leads entry hop hops addr,
        ))
        | inr n ↦ rw n (λ h. absurd (cc))
      ]
