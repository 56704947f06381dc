-- ===== src/Gost/Services.antt =====
-- go-backend/pkg/gost.go, the builders: the JSON objects for services, forwarders and chains, as
-- records of the keys that they set. A key that is set on some branches only is an Option.
use flux_panel_plus.Prelude.{
  ℕ, ℤ, pos, eq_ℤ, suc, ◌+◌, Bool, true, false, not, ◌&&◌, ◌||◌, Option, none, some, List, [], ◌∷◌,
  ◌++◌, length, leb, ◌==◌, if◌then◌else◌,
}
use flux_panel_plus.Prelude.Text.{
  Text, codes, text_eq, is_empty, split, trim_space, decimal, all_digits,
}
use flux_panel_plus.Gost.Names.{
  split_listen_ips, suffixed_name, tls_name, chains_name, format_listen_addr,
}
use flux_panel_plus.Model.{Tunnel}

pub record Forwarder : Type 0 where
  pub nodes : List (Text × Text)
  pub strategy : Text

pub record Handler : Type 0 where
  pub type : Text
  pub chain : Option Text
  pub sniffing : Bool

pub record Listener : Type 0 where
  pub type : Text
  pub keep_alive : Bool

pub record Service : Type 0 where
  pub name : Text
  pub addr : Text
  pub interface : Option Text
  pub limiter : Option Text
  pub handler : Handler
  pub listener : Listener
  pub forwarder : Option Forwarder

pub record Chain : Type 0 where
  pub name : Text
  pub hop_name : Text
  pub node_name : Text
  pub addr : Text
  pub dialer : Text
  pub keep_alive : Bool
  pub interface : Option Text

abbrev pub non_empty : Text → Option Text
non_empty [] = none
non_empty (c ∷ s) = some (c ∷ s)

-- `fmt.Sprintf("node_%d", i+1)` and the trimmed address, for each part.
pub forwarder_nodes : ℕ → List Text → List (Text × Text)
forwarder_nodes i [] = []
forwarder_nodes i (a ∷ parts) =
    (codes "node_" ++ decimal (i + 1), trim_space a) ∷ forwarder_nodes (suc i) parts

unfoldable pub build_forwarder : Text → Text → Forwarder
unfolding forwarder_nodes
build_forwarder remote_addr strategy = record {
  nodes = forwarder_nodes 0 (split b',' remote_addr);
  strategy = if is_empty strategy then codes "fifo" else strategy;
}

-- `applyHandlerSniffing`: only a tcp handler of a sniffing node is marked.
abbrev pub apply_handler_sniffing : Handler → Text → Bool → Handler
apply_handler_sniffing h protocol sniff =
    if not sniff || not (text_eq protocol (codes "tcp")) then h else record h { sniffing = true }

abbrev pub limiter_text : Option ℕ → Option Text
limiter_text none = none
limiter_text (some l) = some (decimal l)

abbrev pub listener_for : Text → Listener
listener_for protocol = record { type = protocol; keep_alive = text_eq protocol (codes "udp") }

abbrev handler_for : Text → Bool → Bool → Text → Handler
handler_for protocol sniff direct chain =
    apply_handler_sniffing
      (record { type = protocol; chain = if direct then none else some chain; sniffing = false })
      protocol sniff

-- What the two builders share: everything but the listen address and the chain's name.
abbrev service_of : Text → Text → Text → Text → Option ℕ → Text → ℤ → Text → Text → Bool → Service
service_of name addr chain protocol limiter remote_addr fwd_type strategy interface_name sniff =
    record {
      name = name ++ b'_' ∷ protocol;
      addr = addr;
      interface = non_empty interface_name;
      limiter = limiter_text limiter;
      handler = handler_for protocol sniff (eq_ℤ fwd_type (pos 1)) chain;
      listener = listener_for protocol;
      forwarder =
          if eq_ℤ fwd_type (pos 1) then some (build_forwarder remote_addr strategy) else none;
    }

unfoldable pub build_service_config :
    Text → ℕ → Option ℕ → Text → Text → ℤ → Tunnel → Text → Text → Bool → Service
build_service_config name in_port limiter remote_addr protocol fwd_type tunnel strategy
      interface_name sniff =
    service_of name
      (format_listen_addr
        (if text_eq protocol (codes "tcp") then tunnel.tcp_listen_addr else tunnel.udp_listen_addr)
        in_port)
      (chains_name name) protocol limiter remote_addr fwd_type strategy interface_name sniff

-- The text before and behind the last occurrence of a byte.
abbrev pub split_last : ℕ → Text → Option (Text × Text)
split_last c [] = none
split_last c (d ∷ s) = elim (split_last c s) [
  | some (a, b) ↦ some (d ∷ a, b)
  | none ↦ if c == d then some ([], s) else none
]

-- A chain is named without the `_N` of its listen address.
unfoldable pub strip_suffix : Text → Text
strip_suffix name = elim (split_last b'_' name) [
  | none ↦ name
  | some (base, suffix) ↦ if not (is_empty base) && all_digits suffix then base else name
]

unfoldable pub build_service_config_with_ip :
    Text → ℕ → Option ℕ → Text → Text → ℤ → Text → Text → Text → Bool → Service
unfolding strip_suffix
build_service_config_with_ip name in_port limiter remote_addr protocol fwd_type strategy
      interface_name listen_ip sniff =
    service_of name (format_listen_addr listen_ip in_port) (chains_name (strip_suffix name))
      protocol limiter remote_addr fwd_type strategy interface_name sniff

-- The loop of `buildServices` over several listen addresses, from the index i on.
unfoldable pub build_services_per_ip :
    Text → ℕ → Option ℕ → Text → ℤ → Text → Text → Bool → ℕ → List Text → List Service
unfolding build_service_config_with_ip
build_services_per_ip name in_port limiter remote_addr fwd_type strategy interface_name sniff i [] =
    []
build_services_per_ip name in_port limiter remote_addr fwd_type strategy interface_name sniff i
      (ip ∷ ips) =
    let service = λ (protocol : Text).
      build_service_config_with_ip (suffixed_name name i) in_port limiter remote_addr protocol
        fwd_type strategy interface_name (trim_space ip) sniff in
    service (codes "tcp")
    ∷ service (codes "udp")
    ∷ build_services_per_ip name in_port limiter remote_addr fwd_type strategy interface_name sniff
        (suc i) ips

unfoldable pub build_services :
    Text → ℕ → Option ℕ → Text → ℤ → Tunnel → Text → Text → Bool → List Service
unfolding build_service_config build_services_per_ip split_listen_ips
build_services name in_port limiter remote_addr fwd_type tunnel strategy interface_name sniff =
    let ips = split_listen_ips tunnel.tcp_listen_addr in
    let service = λ (protocol : Text).
      build_service_config name in_port limiter remote_addr protocol fwd_type tunnel strategy
        interface_name sniff in
    if leb (length ips) 1
    then service (codes "tcp") ∷ service (codes "udp") ∷ []
    else build_services_per_ip name in_port limiter remote_addr fwd_type strategy interface_name
        sniff 0 ips

unfoldable pub build_remote_service : Text → ℕ → Text → Text → Text → Text → Service
unfolding build_forwarder
build_remote_service name out_port remote_addr protocol strategy interface_name = record {
  name = tls_name name;
  addr = b':' ∷ decimal out_port;
  interface = non_empty interface_name;
  limiter = none;
  handler = record { type = codes "relay"; chain = none; sniffing = false };
  listener = record { type = protocol; keep_alive = false };
  forwarder = some (build_forwarder remote_addr strategy);
}

unfoldable pub build_chain_data : Text → Text → Text → Text → Chain
build_chain_data name remote_addr protocol interface_name = record {
  name = chains_name name;
  hop_name = codes "hop-" ++ name;
  node_name = codes "node-" ++ name;
  addr = remote_addr;
  dialer = protocol;
  keep_alive = text_eq protocol (codes "quic");
  interface = non_empty interface_name;
}
