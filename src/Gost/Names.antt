-- ===== src/Gost/Names.antt =====
-- go-backend/pkg/gost.go (splitListenIPs, buildMultiIPServiceNames, formatListenAddr) and
-- go-backend/service/forward.go (buildServiceName): how GOST services are named.
use flux_panel_plus.Prelude.{
  ℕ, suc, Option, none, some, List, [], ◌∷◌, ◌++◌, length, leb, if◌then◌else◌,
}
use flux_panel_plus.Prelude.Text.{Text, codes, is_empty, has_char, split, trim_space, decimal}
use flux_panel_plus.Model.{UserTunnel}

-- The parts of `strings.Split` that are not blank, trimmed.
pub trimmed_parts : List Text → List Text
trimmed_parts [] = []
trimmed_parts (p ∷ ps) =
    if is_empty (trim_space p) then trimmed_parts ps else trim_space p ∷ trimmed_parts ps

-- `if len(result) == 0 { return []string{listenAddr} }`
abbrev pub or_whole : Text → List Text → List Text
or_whole s [] = s ∷ []
or_whole s (p ∷ ps) = p ∷ ps

unfoldable pub split_listen_ips : Text → List Text
unfolding trimmed_parts
split_listen_ips s = if has_char b',' s then or_whole s (trimmed_parts (split b',' s)) else s ∷ []

abbrev pub tcp_name : Text → Text
tcp_name name = name ++ codes "_tcp"

abbrev pub udp_name : Text → Text
udp_name name = name ++ codes "_udp"

abbrev pub tls_name : Text → Text
tls_name name = name ++ codes "_tls"

abbrev pub chains_name : Text → Text
chains_name name = name ++ codes "_chains"

-- `fmt.Sprintf("%s_%d", name, i)`
abbrev pub suffixed_name : Text → ℕ → Text
suffixed_name name i = name ++ b'_' ∷ decimal i

-- `for i := range ips`, from the index i on.
unfoldable pub suffixed_service_names : Text → ℕ → List Text → List Text
suffixed_service_names name i [] = []
suffixed_service_names name i (ip ∷ ips) =
    tcp_name (suffixed_name name i)
    ∷ udp_name (suffixed_name name i)
    ∷ suffixed_service_names name (suc i) ips

unfoldable pub build_multi_ip_service_names : Text → Text → List Text
unfolding split_listen_ips suffixed_service_names
build_multi_ip_service_names name listen_ip =
    let ips = split_listen_ips listen_ip in
    if leb (length ips) 1
    then tcp_name name ∷ udp_name name ∷ []
    else suffixed_service_names name 0 ips

-- `fmt.Sprintf("[%s]:%d", ip, port)` around an IPv6 address. `formatRemoteAddr` has the same body.
unfoldable pub format_listen_addr : Text → ℕ → Text
format_listen_addr ip port =
    if has_char b':' ip
    then b'[' ∷ (ip ++ b']' ∷ b':' ∷ decimal port)
    else ip ++ b':' ∷ decimal port

abbrev pub user_tunnel_id : Option UserTunnel → ℕ
user_tunnel_id none = 0
user_tunnel_id (some ut) = ut.id

-- `fmt.Sprintf("%d_%d_%d", forwardId, userId, userTunnelId)`
abbrev pub service_name : ℕ → ℕ → ℕ → Text
service_name forward_id user_id ut_id =
    decimal forward_id ++ b'_' ∷ (decimal user_id ++ b'_' ∷ decimal ut_id)

unfoldable pub build_service_name : ℕ → ℕ → Option UserTunnel → Text
build_service_name forward_id user_id ut = service_name forward_id user_id (user_tunnel_id ut)
