-- ===== src/Gost/RouteServices.antt =====
-- go-backend/pkg/gost.go, the builders for the services and chains of a route.
use flux_panel_plus.Prelude.{ℕ, false, Option, none, some, List, [], ◌∷◌, ◌++◌, if◌then◌else◌}
use flux_panel_plus.Prelude.Text.{Text, codes, text_eq, is_empty, decimal}
use flux_panel_plus.Gost.Names.{format_listen_addr}
use flux_panel_plus.Gost.Services.{
  Service, Chain, non_empty, limiter_text, listener_for, build_forwarder,
}

-- The loop's body: the service for one protocol.
unfoldable pub route_entry_service : Text → ℕ → Option ℕ → Text → Text → Text → Text → Service
unfolding format_listen_addr
route_entry_service name in_port limiter listen_addr chain interface_name protocol = record {
  name = name ++ b'_' ∷ protocol;
  addr = format_listen_addr listen_addr in_port;
  interface = non_empty interface_name;
  limiter = limiter_text limiter;
  handler = record { type = protocol; chain = some chain; sniffing = false };
  listener = listener_for protocol;
  forwarder = none;
}

unfoldable pub build_route_entry_services : Text → ℕ → Option ℕ → Text → Text → Text → List Service
unfolding route_entry_service
build_route_entry_services name in_port limiter listen_addr chain interface_name =
    route_entry_service name in_port limiter listen_addr chain interface_name (codes "tcp")
    ∷ route_entry_service name in_port limiter listen_addr chain interface_name (codes "udp")
    ∷ []

-- A relay passes on to its chain; the last one has no chain, but the addresses to forward to.
unfoldable pub build_route_relay_service : Text → ℕ → Text → Text → Text → Text → Text → Service
unfolding build_forwarder
build_route_relay_service name relay_port chain protocol interface_name remote_addr strategy =
    record {
      name = name;
      addr = b':' ∷ decimal relay_port;
      interface = non_empty interface_name;
      limiter = none;
      handler = record { type = codes "relay"; chain = non_empty chain; sniffing = false };
      listener = record { type = protocol; keep_alive = false };
      forwarder =
          if is_empty remote_addr then none else some (build_forwarder remote_addr strategy);
    }

unfoldable pub build_exact_chain_data : Text → Text → Text → Text → Chain
build_exact_chain_data chain remote_addr protocol interface_name = record {
  name = chain;
  hop_name = codes "hop-" ++ chain;
  node_name = codes "node-" ++ chain;
  addr = remote_addr;
  dialer = protocol;
  keep_alive = text_eq protocol (codes "quic");
  interface = non_empty interface_name;
}
