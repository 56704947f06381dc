-- ===== src/Forwards/Commands.antt =====
-- The steps of the handlers that send commands leave the database as it is.
use flux_panel_plus.Prelude.{
  ℕ, eq_ℤ, ◌≡◌, refl, Bool, true, false, Option, none, some, List, [], ◌∷◌, arith, ◌==◌,
  if◌then◌else◌, suc,
}
use flux_panel_plus.Prelude.Text.{Text}
use flux_panel_plus.Model.{Tunnel, Forward, Node, RouteHop, ForwardRoutePort}
use flux_panel_plus.Gost.Names.{build_service_name}
use flux_panel_plus.Gost.Commands.{
  World, Env, delete_service_command, delete_service_multi_ip, delete_chains_command,
}
use flux_panel_plus.Gost.RouteCommands.{
  route_chain_name, route_relay_service_name, entry_service_names, delete_route_chain,
  delete_route_services,
}
use flux_panel_plus.Pause.Exact.{send_msg-db}
use flux_panel_plus.Ports.Defs.{tunnel_forward}
use flux_panel_plus.Forwards.Steps.{
  set_in_service, delete_in_service, set_remote_service, on_out_node, set_gost_services,
  delete_remote, delete_gost_services_with_ip, load_route_with_hops, load_forward_route_ports,
  route_ports_of,
}
use flux_panel_plus.Forwards.Routes.{
  hops_or_none, if_online, delete_chains_from, cleanup_hops, cleanup_port, cleanup_route_services,
  cleanup_route_forward_services, send_route_services, send_entry, send_port,
  set_route_forward_services_paused,
}
use flux_panel_plus.Actions.{
  query, return, expect_ok, expect_gone, for_rows, KeepsDb, bind-KeepsDb, for_rows-KeepsDb,
  if-KeepsDb, ◌>>◌,
}

module _ (env : Env) where
  set_in_service-KeepsDb :
      (pausing : Bool) (n : ℕ) (name ip : Text)
      → KeepsDb (expect_ok (set_in_service env pausing n name ip))
  unfolding set_in_service
  set_in_service-KeepsDb true n name ip w = ground (arith, send_msg-db env n)
  set_in_service-KeepsDb false n name ip w = ground (arith, send_msg-db env n)

  on_out_node-KeepsDb :
      (pausing : Bool) (t : Tunnel) (o : Option Node) (name : Text)
      → KeepsDb (on_out_node env t o (λ id. set_remote_service env pausing id name))
  unfolding on_out_node set_remote_service
  on_out_node-KeepsDb pausing t none name w = refl
  on_out_node-KeepsDb true t (some n) name w = ground (arith, send_msg-db env n.id)
  on_out_node-KeepsDb false t (some n) name w = ground (arith, send_msg-db env n.id)

  pub set_gost_services-KeepsDb :
      (pausing : Bool) (t : Tunnel) (i : Node) (o : Option Node) (name ip : Text)
      → KeepsDb (set_gost_services env pausing t i o name ip)
  unfolding set_gost_services
  set_gost_services-KeepsDb pausing t i o name ip =
      bind-KeepsDb (expect_ok (set_in_service env pausing i.id name ip))
        (λ u. on_out_node env t o (λ id. set_remote_service env pausing id name))
        (set_in_service-KeepsDb pausing i.id name ip) (λ u. on_out_node-KeepsDb pausing t o name)

  delete_remote-KeepsDb : (o : Option Node) (name : Text) → KeepsDb (delete_remote env o name)
  unfolding delete_remote
  delete_remote-KeepsDb none name w = refl
  delete_remote-KeepsDb (some n) name w = send_msg-db env n.id _ w

  expect_gone-KeepsDb :
      (c : World → Text × World) → ((w : World) → (c w).1.db ≡ w.db) → KeepsDb (expect_gone c)
  expect_gone-KeepsDb c h w = h w

  if_online-KeepsDb :
      (n : ℕ) (c : World → Text × World)
      → ((w : World) → (c w).1.db ≡ w.db)
      → KeepsDb (if_online env n c)
  if_online-KeepsDb n c h =
      if-KeepsDb (env.is_node_online n) (expect_gone c) (return tt) h (λ w. refl)

  delete_in-db :
      (n : ℕ) (name ip : Text) (w : World) → (delete_in_service env n name ip w).1.db ≡ w.db
  unfolding delete_in_service delete_service_multi_ip delete_service_command
  delete_in-db n name ip w = ground (arith, send_msg-db env n)

  delete_chains-db :
      (n : ℕ) (name : Text) (w : World) → (delete_chains_command env n name w).1.db ≡ w.db
  unfolding delete_chains_command
  delete_chains-db n name w = send_msg-db env n _ w

  delete_route_chain-db :
      (n : ℕ) (chain : Text) (w : World) → (delete_route_chain env n chain w).1.db ≡ w.db
  unfolding delete_route_chain
  delete_route_chain-db n chain w = send_msg-db env n _ w

  delete_route_services-db :
      (n : ℕ) (names : List Text) (w : World) → (delete_route_services env n names w).1.db ≡ w.db
  unfolding delete_route_services
  delete_route_services-db n names w = send_msg-db env n _ w

  send_route_services-db :
      (pausing : Bool) (n : ℕ) (names : List Text) (w : World)
      → (send_route_services env pausing n names w).1.db ≡ w.db
  unfolding send_route_services
  send_route_services-db true n names w = send_msg-db env n _ w
  send_route_services-db false n names w = send_msg-db env n _ w

  pub delete_gost_services-KeepsDb :
      (t : Tunnel) (i : Node) (o : Option Node) (name ip : Text)
      → KeepsDb (delete_gost_services_with_ip env t i o name ip)
  unfolding delete_gost_services_with_ip
  delete_gost_services-KeepsDb t i o name ip =
      let chains = expect_gone (delete_chains_command env i.id name) >> delete_remote env o name in
      bind-KeepsDb (expect_gone (delete_in_service env i.id name ip))
        (λ u. if eq_ℤ t.type tunnel_forward then chains else return tt) (delete_in-db i.id name ip)
        (λ u.
          if-KeepsDb (eq_ℤ t.type tunnel_forward) chains (return tt)
            (bind-KeepsDb (expect_gone (delete_chains_command env i.id name))
              (λ v. delete_remote env o name) (delete_chains-db i.id name)
              (λ v. delete_remote-KeepsDb o name))
            (λ w. refl))

  delete_chains_from-KeepsDb :
      (name : Text) (i : ℕ) (hops : List RouteHop) → KeepsDb (delete_chains_from env name i hops)
  unfolding delete_chains_from
  delete_chains_from-KeepsDb name i [] = λ w. refl
  delete_chains_from-KeepsDb name i (last ∷ []) = λ w. refl
  delete_chains_from-KeepsDb name i (hop ∷ next ∷ hops) =
      let c = delete_route_chain env hop.node_id (route_chain_name name i) in
      bind-KeepsDb (if_online env hop.node_id c)
        (λ u. delete_chains_from env name (suc i) (next ∷ hops))
        (if_online-KeepsDb hop.node_id c
          (delete_route_chain-db hop.node_id (route_chain_name name i)))
        (λ u. delete_chains_from-KeepsDb name (suc i) (next ∷ hops))

  cleanup_hops-KeepsDb : (name : Text) (hops : List RouteHop) → KeepsDb (cleanup_hops env name hops)
  unfolding cleanup_hops
  cleanup_hops-KeepsDb name [] = λ w. refl
  cleanup_hops-KeepsDb name (entry ∷ hops) =
      let c = delete_route_services env entry.node_id (entry_service_names name) in
      bind-KeepsDb (if_online env entry.node_id c)
        (λ u. delete_chains_from env name 0 (entry ∷ hops))
        (if_online-KeepsDb entry.node_id c
          (delete_route_services-db entry.node_id (entry_service_names name)))
        (λ u. delete_chains_from-KeepsDb name 0 (entry ∷ hops))

  cleanup_port-KeepsDb : (name : Text) (p : ForwardRoutePort) → KeepsDb (cleanup_port env name p)
  cleanup_port-KeepsDb name p =
      let names = route_relay_service_name name p.hop_order ∷ [] in
      if_online-KeepsDb p.node_id (delete_route_services env p.node_id names)
        (delete_route_services-db p.node_id names)

  cleanup_services-KeepsDb :
      (name : Text) (hops : List RouteHop) (ports : List ForwardRoutePort)
      → KeepsDb (cleanup_route_services env name hops ports)
  unfolding cleanup_route_services
  cleanup_services-KeepsDb name hops ports =
      bind-KeepsDb (cleanup_hops env name hops) (λ u. for_rows (cleanup_port env name) ports)
        (cleanup_hops-KeepsDb name hops)
        (λ u. for_rows-KeepsDb (cleanup_port env name) ports (cleanup_port-KeepsDb name))

  pub cleanup_route-KeepsDb : (f : Forward) → KeepsDb (cleanup_route_forward_services env f)
  unfolding cleanup_route_forward_services
  cleanup_route-KeepsDb f =
      if-KeepsDb (f.route_id == 0) (return tt)
        (λ w.
          cleanup_route_services env (build_service_name f.id f.user_id none)
            (hops_or_none (load_route_with_hops w.db f.route_id)) (route_ports_of w.db f.id) w)
        (λ w. refl)
        (λ w.
          cleanup_services-KeepsDb (build_service_name f.id f.user_id none)
            (hops_or_none (load_route_with_hops w.db f.route_id)) (route_ports_of w.db f.id) w)

  send_port-KeepsDb :
      (pausing : Bool) (name : Text) (p : ForwardRoutePort) → KeepsDb (send_port env pausing name p)
  send_port-KeepsDb pausing name p =
      send_route_services-db pausing p.node_id (route_relay_service_name name p.hop_order ∷ [])

  send_entry-KeepsDb :
      (pausing : Bool) (name : Text) (hops : List RouteHop)
      → KeepsDb (send_entry env pausing name hops)
  send_entry-KeepsDb pausing name [] = λ w. refl
  send_entry-KeepsDb pausing name (entry ∷ hops) =
      send_route_services-db pausing entry.node_id (entry_service_names name)

  pub set_route_paused-KeepsDb :
      (f : Forward) (pausing : Bool) → KeepsDb (set_route_forward_services_paused env f pausing)
  unfolding set_route_forward_services_paused
  set_route_paused-KeepsDb f pausing =
      let name = build_service_name f.id f.user_id none in
      bind-KeepsDb (query (λ db. load_route_with_hops db f.route_id)) _ (λ w. refl)
        (λ loaded.
          bind-KeepsDb (query (λ db. load_forward_route_ports db f.id)) _ (λ w. refl)
            (λ ports.
              bind-KeepsDb (send_entry env pausing name loaded.1)
                (λ u. for_rows (send_port env pausing name) ports)
                (send_entry-KeepsDb pausing name loaded.1)
                (λ u.
                  for_rows-KeepsDb (send_port env pausing name) ports
                    (send_port-KeepsDb pausing name))))
