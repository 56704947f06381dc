-- ===== src/Address/Defs.antt =====
-- go-backend/service/forward.go: isPrivateIP, validateRemoteAddr, formatRemoteAddr,
-- extractIpFromAddress and extractPortFromAddress. What the resolver knows of a name is a parameter;
-- the addresses that it gives are read back as they are printed.
use flux_panel_plus.Prelude.{
  ℕ, ℤ, pos, negsuc, ◌-◌, add64, mul64, Bool, true, false, not, ◌||◌, Option, none, some, List, [],
  ◌∷◌, ◌++◌, ◌==◌, if◌then◌else◌,
}
use flux_panel_plus.Prelude.Text.{Text, is_empty, has_char, split, trim_space, decimal, is_digit}
use flux_panel_plus.Response.{Result, ok, err, private_address}
use flux_panel_plus.Gost.Services.{split_last}
use flux_panel_plus.Permissions.Defs.{is_admin}
use flux_panel_plus.Address.Ip.{Ip, parse_ip, in_private_range}

-- An IPv6 address stands in brackets.
unfoldable pub format_remote_addr : Text → ℕ → Text
format_remote_addr ip port =
    if has_char b':' ip
    then b'[' ∷ (ip ++ b']' ∷ b':' ∷ decimal port)
    else ip ++ b':' ∷ decimal port

abbrev private_or_none : Option Ip → Bool
private_or_none none = false
private_or_none (some ip) = in_private_range ip

unfoldable pub is_private_ip : Text → Bool
unfolding parse_ip in_private_range
is_private_ip s = private_or_none (parse_ip s)

-- The text before and behind the first occurrence of a byte.
abbrev pub split_first : ℕ → Text → Option (Text × Text)
split_first c [] = none
split_first c (d ∷ s) =
    if c == d
    then some ([], s)
    else elim (split_first c s) [ none ↦ none | some (a, b) ↦ some (d ∷ a, b) ]

-- `address[:lastColon]`, if there is something before the colon.
abbrev pub before_last_colon : Text → Option (Text × Text) → Text
before_last_colon s none = s
before_last_colon s (some (a, b)) = if is_empty a then s else a

abbrev pub bracketed_host : Text → Option (Text × Text) → Text
bracketed_host s none = before_last_colon s (split_last b':' s)
bracketed_host s (some (a, b)) = if is_empty a then before_last_colon s (split_last b':' s) else a

-- The cases of a trimmed address.
abbrev pub host_of : Text → Text
host_of [] = []
host_of (c ∷ s) =
    if c == b'['
    then bracketed_host (c ∷ s) (split_first b']' s)
    else before_last_colon (c ∷ s) (split_last b':' (c ∷ s))

unfoldable pub extract_ip_from_address : Text → Text
unfolding trim_space
extract_ip_from_address address = host_of (trim_space address)

-- The loop over the digits of a port, in an int64.
unfoldable pub scan_port : ℤ → Text → ℤ
scan_port port [] = port
scan_port port (c ∷ s) =
    if is_digit c then scan_port (add64 (mul64 port (pos 10)) (pos (c - b'0'))) s else negsuc 0

-- There must be something before the last colon, and behind it.
abbrev pub port_behind_last_colon : Option (Text × Text) → ℤ
port_behind_last_colon none = negsuc 0
port_behind_last_colon (some (a, b)) =
    if is_empty a || is_empty b then negsuc 0 else scan_port (pos 0) b

abbrev pub bracketed_port : Text → Option (Text × Text) → ℤ
bracketed_port s none = port_behind_last_colon (split_last b':' s)
bracketed_port s (some (a, [])) = port_behind_last_colon (split_last b':' s)
bracketed_port s (some (a, c ∷ b)) =
    if is_empty a || not (c == b':')
    then port_behind_last_colon (split_last b':' s)
    else scan_port (pos 0) b

abbrev pub port_of : Text → ℤ
port_of [] = negsuc 0
port_of (c ∷ s) =
    if c == b'['
    then bracketed_port (c ∷ s) (split_first b']' s)
    else port_behind_last_colon (split_last b':' (c ∷ s))

unfoldable pub extract_port_from_address : Text → ℤ
unfolding trim_space scan_port
extract_port_from_address address = port_of (trim_space address)

-- `net.LookupIP`, or none for an error.
abbrev pub Resolver : Type 0
Resolver = Text → Option (List Ip)

abbrev pub any_private : List Ip → Bool
any_private [] = false
any_private (ip ∷ ips) = in_private_range ip || any_private ips

abbrev pub resolves_privately : Option (List Ip) → Bool
resolves_privately none = false
resolves_privately (some ips) = any_private ips

-- A name is resolved, a literal address is not.
abbrev pub is_refused_host : Resolver → Text → Bool
is_refused_host lookup host =
    is_private_ip host
    || elim (parse_ip host) [ some ip ↦ false | none ↦ resolves_privately (lookup host) ]

unfoldable pub has_refused_part : Resolver → List Text → Bool
unfolding extract_ip_from_address is_private_ip parse_ip in_private_range trim_space
has_refused_part lookup [] = false
has_refused_part lookup (part ∷ parts) =
    let host = extract_ip_from_address (trim_space part) in
    let rest = has_refused_part lookup parts in
    if is_empty host then rest else if is_refused_host lookup host then true else rest

unfoldable pub validate_remote_addr : Resolver → Text → ℤ → Result {0} Unit
unfolding has_refused_part
validate_remote_addr lookup remote_addr role_id =
    if is_admin role_id
    then ok tt
    else if has_refused_part lookup (split b',' remote_addr)
    then err private_address
    else ok tt
