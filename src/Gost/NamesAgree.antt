-- ===== src/Gost/NamesAgree.antt =====
-- The names and the chains of the services that a forward is created with.
use flux_panel_plus.Prelude.{
  ℕ, ℤ, pos, eq_ℤ, suc, ◌≡◌, refl, Bool, false, Option, none, some, List, [], ◌∷◌, ◌++◌, map, arith,
  All, if◌then◌else◌,
}
use flux_panel_plus.Prelude.Text.{
  Text, codes, trim_space, decimal, has_char, decimal_digits, all_digits-decimal,
}
use flux_panel_plus.Gost.Names.{
  split_listen_ips, suffixed_name, suffixed_service_names, build_multi_ip_service_names,
  chains_name,
}
use flux_panel_plus.Gost.Services.{
  Service, build_services, build_services_per_ip, build_service_config,
  build_service_config_with_ip, strip_suffix, split_last,
}
use flux_panel_plus.Model.{Tunnel}

abbrev pub service_names : List Service → List Text
service_names = map (λ (s : Service). s.name)

module _ (name : Text) (in_port : ℕ) (limiter : Option ℕ) (remote_addr : Text) (fwd_type : ℤ) where
  service_names_per_ip :
      (strategy interface_name : Text) (sniff : Bool) (i : ℕ) (ips : List Text)
      → service_names (
          build_services_per_ip name in_port limiter remote_addr fwd_type strategy interface_name
            sniff i ips)
        ≡ suffixed_service_names name i ips
  unfolding build_services_per_ip suffixed_service_names
  service_names_per_ip strategy interface_name sniff i [] = refl
  service_names_per_ip strategy interface_name sniff i (ip ∷ ips) =
      cc (service_names_per_ip strategy interface_name sniff (suc i) ips)

  -- The services that a forward is created with have the names that are built for the listen address
  -- of the tunnel, for one address and for several.
  pub service_names-build_services :
      (tunnel : Tunnel) (strategy interface_name : Text) (sniff : Bool)
      → service_names (
          build_services name in_port limiter remote_addr fwd_type tunnel strategy interface_name
            sniff)
        ≡ build_multi_ip_service_names name tunnel.tcp_listen_addr
  unfolding build_services build_multi_ip_service_names
  service_names-build_services tunnel strategy interface_name sniff = ground (
    arith,
    service_names_per_ip strategy interface_name sniff 0 (split_listen_ips tunnel.tcp_listen_addr),
  )

split_last_plain : (c : ℕ) (s : Text) → has_char c s ≡ false → split_last c s ≡ none
split_last_plain c [] h = refl
split_last_plain c (d ∷ s) h = ground (arith, split_last_plain c s)

split_last-append :
    (c : ℕ) (a b : Text) → has_char c b ≡ false → split_last c (a ++ c ∷ b) ≡ some (a, b)
split_last-append c [] b h = ground (arith, split_last_plain c b h)
split_last-append c (d ∷ a) b h = ground (arith, split_last-append c a b h)

-- The chain of a service for one of several listen addresses is the one for the whole forward.
strip_suffix-suffixed :
    (c : ℕ) (name : Text) (i : ℕ) → strip_suffix (suffixed_name (c ∷ name) i) ≡ c ∷ name
unfolding strip_suffix
strip_suffix-suffixed c name i =
    rw (split_last-append b'_' (c ∷ name) (decimal i) (decimal_digits b'_' i refl), strip_suffix)
      (ground (arith, all_digits-decimal i))

-- The chain that a service's handler goes through.
abbrev pub ChainIs : Option Text → Service → Type 0
ChainIs chain s = s.handler.chain ≡ chain

abbrev pub expected_chain : ℤ → Text → Option Text
expected_chain fwd_type name = if eq_ℤ fwd_type (pos 1) then none else some (chains_name name)

module _ (c : ℕ) (name : Text) (in_port : ℕ) (limiter : Option ℕ) (remote_addr : Text)
    (fwd_type : ℤ) (strategy interface_name : Text) (sniff : Bool) where
  with_ip_ChainIs :
      (i : ℕ) (protocol ip : Text)
      → ChainIs (expected_chain fwd_type (c ∷ name)) (
          build_service_config_with_ip
            (suffixed_name (c ∷ name) i)
            in_port
            limiter
            remote_addr
            protocol
            fwd_type
            strategy
            interface_name
            ip
            sniff)
  unfolding build_service_config_with_ip
  with_ip_ChainIs i protocol ip = ground (arith, strip_suffix-suffixed c name i)

  per_ip_ChainIs :
      (i : ℕ) (ips : List Text)
      → All (ChainIs (expected_chain fwd_type (c ∷ name))) (
          build_services_per_ip
            (c ∷ name)
            in_port
            limiter
            remote_addr
            fwd_type
            strategy
            interface_name
            sniff
            i
            ips)
  unfolding build_services_per_ip
  per_ip_ChainIs i [] = tt
  per_ip_ChainIs i (ip ∷ ips) = (
    with_ip_ChainIs i (codes "tcp") (trim_space ip),
    (with_ip_ChainIs i (codes "udp") (trim_space ip), per_ip_ChainIs (suc i) ips),
  )

  single_ChainIs :
      (tunnel : Tunnel) (protocol : Text)
      → ChainIs (expected_chain fwd_type (c ∷ name)) (
          build_service_config
            (c ∷ name)
            in_port
            limiter
            remote_addr
            protocol
            fwd_type
            tunnel
            strategy
            interface_name
            sniff)
  unfolding build_service_config
  single_ChainIs tunnel protocol = ground arith

  -- Every service that is built under a non-empty name has no chain if the tunnel is a port
  -- forward, and else the chain that `buildChainData` gives that name.
  pub build_services-ChainIs :
      (tunnel : Tunnel)
      → All (ChainIs (expected_chain fwd_type (c ∷ name))) (
          build_services
            (c ∷ name)
            in_port
            limiter
            remote_addr
            fwd_type
            tunnel
            strategy
            interface_name
            sniff)
  unfolding build_services
  build_services-ChainIs tunnel = ground (
    arith,
    single_ChainIs tunnel (codes "tcp"),
    single_ChainIs tunnel (codes "udp"),
    per_ip_ChainIs 0 (split_listen_ips tunnel.tcp_listen_addr),
  )
