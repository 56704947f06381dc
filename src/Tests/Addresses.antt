-- ===== src/Tests/Addresses.antt =====
-- Remote addresses.
use flux_panel_plus.Prelude.{pos, ◌≡◌, ◌↔◌, refl, none, All, arith}
use flux_panel_plus.Prelude.Text.{Text, codes, split}
use flux_panel_plus.Response.{ok, err, private_address}
use flux_panel_plus.Address.Defs.{
  Resolver, format_remote_addr, extract_ip_from_address, extract_port_from_address,
  validate_remote_addr,
}
use flux_panel_plus.Address.Private.{PartIsPublic, validate_remote_addr_iff}
use flux_panel_plus.Address.RoundTrip.{extract-format_remote_addr}

-- No name resolves.
abbrev pub unresolved : Resolver
unresolved name = none

loopback_refused :
    validate_remote_addr unresolved (codes "192.0.2.1:80,127.0.0.1:22") (pos 1)
    ≡ err private_address
unfolding validate_remote_addr split flux_panel_plus.Prelude.Text.parse_decimal
loopback_refused = refl

mapped_refused :
    validate_remote_addr unresolved (codes "[::ffff:10.0.0.1]:22") (pos 1) ≡ err private_address
unfolding validate_remote_addr split flux_panel_plus.Prelude.Text.parse_decimal
mapped_refused = refl

validate_remote_addr_iff_example :
    (validate_remote_addr unresolved (codes "192.0.2.1:80") (pos 1) ≡ ok tt)
    ↔ All (PartIsPublic unresolved) (split b',' (codes "192.0.2.1:80"))
validate_remote_addr_iff_example =
    validate_remote_addr_iff unresolved (codes "192.0.2.1:80") (pos 1) refl

extract-format_remote_addr_example :
    (extract_ip_from_address (format_remote_addr (codes "2001:db8::1") 443) ≡ codes "2001:db8::1")
    × (extract_port_from_address (format_remote_addr (codes "2001:db8::1") 443) ≡ pos 443)
extract-format_remote_addr_example =
    extract-format_remote_addr b'2' (codes "001:db8::1") 443 refl refl (omega arith)
