-- ===== src/Reconcile/Quiet.antt =====
-- What the commands of a reconciliation keep: what each addition and each hot update keeps.
use flux_panel_plus.Prelude.{
  ℕ, suc, eq_ℤ, ◌≡◌, refl, Bool, true, false, not, ◌||◌, ◌&&◌, inl, inr, Option, none, some, List,
  [], ◌∷◌, ◌++◌, ◌==◌, length, leb, if◌then◌else◌, Bool-cases,
}
use flux_panel_plus.Prelude.Text.{Text}
use flux_panel_plus.Model.{Tunnel, Forward, Node, Route, RouteHop, ForwardRoutePort}
use flux_panel_plus.Response.{Result, ok, err, invalid_route_deployment}
use flux_panel_plus.Gost.Names.{format_listen_addr}
use flux_panel_plus.Gost.Commands.{
  World, Env, Command, is_gost_success, send_msg, update_forwarder_command, update_remote_forwarder,
  pause_service_command, pause_service_multi_ip, pause_remote_service, add_limiters_command,
  add_limiters, add_service, update_forwarder, pause_service, add_chains, update_chains,
}
use flux_panel_plus.Gost.RouteCommands.{
  add_route_chain, add_route_entry_service, add_route_relay_service, add_route_terminal_service,
  route_chain_name, update_route_chain, pause_route_services,
}
use flux_panel_plus.Ports.Defs.{tunnel_forward}
use flux_panel_plus.Pause.Defs.{is_multi_ip}
use flux_panel_plus.Forwards.Routes.{send_route_services}
use flux_panel_plus.Create.Services.{chain_command, remote_command, main_command}
use flux_panel_plus.Create.RouteServices.{
  route_port_by_hop, terminal_command, segment_command, relay_command, entry_command,
}
use flux_panel_plus.Update.Handler.{port_forward}
use flux_panel_plus.Actions.{Action, after, ◌>>◌, return, fail, expect_ok}
use flux_panel_plus.Reconcile.Gentle.{
  already_exists, add_or, gentle_remote, gentle_main, gentle_sync_gost_services,
  add_or_update_route_chain, gentle_hop, gentle_from, gentle_sync_route_on_node, send_some,
  entry_here, relays_here, set_route_paused_on_node,
}
use flux_panel_plus.Reconcile.Defs.{pause_here}

-- Neither a removal, a restart nor a resumption of what runs on a node.
unfoldable pub is_gentle : Command → Bool
is_gentle (add_limiters name limits) = true
is_gentle (add_service services) = true
is_gentle (update_forwarder forwarders) = true
is_gentle (pause_service names) = true
is_gentle (add_chains chain) = true
is_gentle (update_chains name chain) = true
is_gentle c = false

module _ (env : Env) (Good : World → Type 0)
    (quiet : (n : ℕ) (c : Command)
      → is_gentle c ≡ true
      → (w : World) → Good w
      → Good (send_msg env n c w).1) where
  abbrev Keeps {ℓ} : {A : Type ℓ} → (World → A × World) → Type 0
  Keeps m = (w : World) → Good w → Good (m w).1

  if-Keeps {ℓ} :
      {A : Type ℓ} (b : Bool) (m n : World → A × World)
      → Keeps m
      → Keeps n
      → Keeps (if b then m else n)
  if-Keeps true m n h k = h
  if-Keeps false m n h k = k

  after-Keeps :
      (n : Action {0} Unit) (r : Result {0} Unit × World)
      → Keeps n
      → Good r.1
      → Good (after (λ u. n) r).1
  after-Keeps n (ok u, w) k g = k w g
  after-Keeps n (err e, w) k g = g

  then-Keeps : (m n : Action {0} Unit) → Keeps m → Keeps n → Keeps (m >> n)
  then-Keeps m n h k w g = after-Keeps n (m w) k (h w g)

  add_or-Keeps :
      (add : World → Text × World) (there : Action {0} Unit)
      → Keeps add
      → Keeps there
      → Keeps (add_or add there)
  add_or-Keeps add there h k w g = elim (Bool-cases (is_gost_success (add w).0)) [
    | inl t ↦ rw t (h w g)
    | inr n ↦ rw n (elim (Bool-cases (already_exists (add w).0)) [
      | inl t ↦ rw t (k (add w).1 (h w g))
      | inr m ↦ rw m (h w g)
    ])
  ]

  module _ (f : Forward) (tunnel : Tunnel) (limiter : Option ℕ) (name : Text) where
    chain-Keeps :
        (i : Node) → Keeps (add_or (chain_command env f tunnel limiter name i) (return tt))
    unfolding chain_command is_gentle
    chain-Keeps i =
        add_or-Keeps (chain_command env f tunnel limiter name i) (return tt) (quiet i.id _ refl)
          (λ w g. g)

    gentle_remote-Keeps : (o : Option Node) → Keeps (gentle_remote env f tunnel limiter name o)
    unfolding gentle_remote remote_command update_remote_forwarder is_gentle
    gentle_remote-Keeps none = λ w g. g
    gentle_remote-Keeps (some o) =
        add_or-Keeps (remote_command env f tunnel limiter name o)
          (expect_ok (update_remote_forwarder env o.id name f.remote_addr f.strategy))
          (quiet o.id _ refl) (quiet o.id _ refl)

    gentle_main-Keeps : (i : Node) → Keeps (gentle_main env f tunnel limiter name i)
    unfolding gentle_main main_command update_forwarder_command is_gentle
    gentle_main-Keeps i =
        let update = expect_ok (update_forwarder_command env i.id name f.remote_addr f.strategy) in
        let there = if eq_ℤ tunnel.type port_forward then update else return tt in
        add_or-Keeps (main_command env f tunnel limiter name i) there (quiet i.id _ refl) (
          if-Keeps (eq_ℤ tunnel.type port_forward) update (return tt) (quiet i.id _ refl)
            (λ w g. g))

    pub gentle_sync_gost_services-Keeps :
        (i : Node) (o : Option Node)
        → Keeps (gentle_sync_gost_services env f tunnel limiter name i o)
    unfolding gentle_sync_gost_services is_gentle
    gentle_sync_gost_services-Keeps i o =
        let chain = add_or (chain_command env f tunnel limiter name i) (return tt) in
        let remote = gentle_remote env f tunnel limiter name o in
        then-Keeps (if eq_ℤ tunnel.type tunnel_forward then chain >> remote else return tt)
          (gentle_main env f tunnel limiter name i)
          (if-Keeps (eq_ℤ tunnel.type tunnel_forward) (chain >> remote) (return tt)
            (then-Keeps chain remote (chain-Keeps i) (gentle_remote-Keeps o)) (λ w g. g))
          (gentle_main-Keeps i)

  module _ (node_id : ℕ) (f : Forward) (route : Route) (ports : List ForwardRoutePort)
      (limiter : Option ℕ) (name : Text) where
    chain_there-Keeps :
        (i : ℕ) (hop next : RouteHop)
        → Keeps (add_or_update_route_chain env node_id f route ports limiter name i hop next)
    unfolding add_or_update_route_chain segment_command add_route_chain update_route_chain is_gentle
    chain_there-Keeps i hop next =
        let update = expect_ok (
          update_route_chain env node_id (route_chain_name name i)
            (format_listen_addr next.node_ip (route_port_by_hop ports next.hop_order))
            route.protocol route.interface_name) in
        add_or-Keeps (segment_command env f route ports limiter name i hop next) update
          (quiet hop.node_id _ refl) (quiet node_id _ refl)

    gentle_hop-Keeps :
        (i : ℕ) (hop : RouteHop) → Keeps (gentle_hop env node_id f route ports limiter name i hop)
    unfolding gentle_hop entry_command relay_command add_route_entry_service add_route_relay_service
        is_gentle
    gentle_hop-Keeps i hop =
        let entry = entry_command env f route ports limiter name hop in
        let relay = relay_command env f route ports limiter name i hop in
        if-Keeps (i == 0) (add_or entry (return tt)) (add_or relay (return tt))
          (add_or-Keeps entry (return tt) (quiet hop.node_id _ refl) (λ w g. g))
          (add_or-Keeps relay (return tt) (quiet hop.node_id _ refl) (λ w g. g))

    gentle_from-Keeps :
        (i : ℕ) (hops : List RouteHop)
        → Keeps (gentle_from env node_id f route ports limiter name i hops)
    unfolding gentle_from terminal_command add_route_terminal_service is_gentle
    gentle_from-Keeps i [] = λ w g. g
    gentle_from-Keeps i (hop ∷ []) =
        let terminal = terminal_command env f route ports limiter name hop in
        if-Keeps (hop.node_id == node_id) (add_or terminal (return tt)) (return tt)
          (add_or-Keeps terminal (return tt) (quiet hop.node_id _ refl) (λ w g. g)) (λ w g. g)
    gentle_from-Keeps i (hop ∷ next ∷ hops) =
        let chain = add_or_update_route_chain env node_id f route ports limiter name i hop next in
        let service = gentle_hop env node_id f route ports limiter name i hop in
        let rest = gentle_from env node_id f route ports limiter name (suc i) (next ∷ hops) in
        if-Keeps (hop.node_id == node_id) (chain >> service) rest
          (then-Keeps chain service (chain_there-Keeps i hop next) (gentle_hop-Keeps i hop))
          (gentle_from-Keeps (suc i) (next ∷ hops))

    pub gentle_sync_route-Keeps :
        (hops : List RouteHop)
        → Keeps (gentle_sync_route_on_node env node_id f route ports limiter name hops)
    unfolding gentle_sync_route_on_node is_gentle
    gentle_sync_route-Keeps hops =
        if-Keeps (not (leb 2 (length hops)) || not (suc (length ports) == length hops))
          (fail invalid_route_deployment)
          (gentle_from env node_id f route ports limiter name 0 hops) (λ w g. g)
          (gentle_from-Keeps 0 hops)

  module _ (node_id : ℕ) (name : Text) where
    send_some-Keeps : (services : List Text) → Keeps (send_some env node_id name true services)
    unfolding send_route_services pause_route_services is_gentle
    send_some-Keeps [] = λ w g. g
    send_some-Keeps (s ∷ services) = quiet node_id _ refl

    pub set_route_paused_on_node-Keeps :
        (hops : List RouteHop) (ports : List ForwardRoutePort)
        → Keeps (set_route_paused_on_node env node_id name hops ports true)
    unfolding set_route_paused_on_node is_gentle
    set_route_paused_on_node-Keeps hops ports =
        send_some-Keeps (entry_here env node_id name hops ++ relays_here env node_id name ports)

    choose-Good : (b : Bool) (x y : World) → Good x → Good y → Good (if b then x else y)
    choose-Good true x y g h = g
    choose-Good false x y g h = h

    pub pause_here-Good :
        (f : Forward) (t : Tunnel) (o : Option Node) (w : World)
        → Good w
        → Good (pause_here env node_id f t o name w)
    unfolding pause_here pause_service_command pause_service_multi_ip pause_remote_service is_gentle
    pause_here-Good f t o w g =
        let several = (pause_service_multi_ip env node_id name f.listen_ip w).1 in
        let single = (pause_service_command env node_id name w).1 in
        let stopped = if is_multi_ip f.listen_ip then several else single in
        let here = if t.in_node_id == node_id then stopped else w in
        let good : Good here =
          choose-Good (t.in_node_id == node_id) stopped w
            (choose-Good (is_multi_ip f.listen_ip) several single (quiet node_id _ refl w g)
              (quiet node_id _ refl w g))
            g in
        elim o as (λ k. Good (pause_here env node_id f t k name w)) [
          | none ↦ good
          | some out ↦
              choose-Good (eq_ℤ t.type tunnel_forward && (t.out_node_id == node_id))
                (pause_remote_service env node_id name here).1 here (quiet node_id _ refl here good)
                good
        ]

  pub add_limiters-Keeps :
      (node_id id : ℕ) (speed : Text) → Keeps (add_limiters_command env node_id id speed)
  unfolding add_limiters_command is_gentle
  add_limiters-Keeps node_id id speed = quiet node_id _ refl
