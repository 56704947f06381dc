-- ===== src/Address/Ip.antt =====
-- IP addresses as the Go standard library reads them (net.ParseIP), and isPrivateIP of
-- go-backend/service/forward.go behind the reading of its argument.
use flux_panel_plus.Prelude.{
  ℕ, zero, suc, ◌+◌, ◌-◌, ◌*◌, ◌/◌, ◌%◌, Bool, true, false, not, ◌&&◌, ◌||◌, Option, none, some,
  List, [], ◌∷◌, ◌++◌, length, ltb, leb, ◌==◌, if◌then◌else◌, ◌>>=◌,
}
use flux_panel_plus.Prelude.Text.{Text, split, has_char, is_empty, is_digit, parse_decimal}

-- An address of four bytes, also where it is written as an IPv6 address, or of sixteen.
pub data Ip : Type 0 where
  v4 : (a b c d : ℕ) → Ip
  v6 : (bytes : List ℕ) → Ip

-- A field of a dotted address: up to 255, without leading zeros.
abbrev octet_value : Option ℕ → Option ℕ
octet_value none = none
octet_value (some n) = if leb n 255 then some n else none

abbrev octet : Text → Option ℕ
octet [] = none
octet (c ∷ []) = octet_value (parse_decimal (c ∷ []))
octet (c ∷ d ∷ s) = if c == b'0' then none else octet_value (parse_decimal (c ∷ d ∷ s))

-- The fields, if there are four.
abbrev four_octets : List Text → Option (List ℕ)
four_octets (a ∷ b ∷ c ∷ d ∷ []) = do
  a' ← octet a
  b' ← octet b
  c' ← octet c
  d' ← octet d
  some (a' ∷ b' ∷ c' ∷ d' ∷ [])
four_octets parts = none

unfoldable pub parse_ipv4_fields : Text → Option (List ℕ)
parse_ipv4_fields s = four_octets (split b'.' s)

abbrev hex_value : ℕ → Option ℕ
hex_value c =
    if is_digit c
    then some (c - b'0')
    else if leb b'a' c && leb c b'f'
    then some (c - b'a' + 10)
    else if leb b'A' c && leb c b'F'
    then some (c - b'A' + 10)
    else none

-- The hexadecimal digits at the front, with their number, and what follows them.
abbrev scan_hex : ℕ → ℕ → Text → ℕ × ℕ × Text
scan_hex acc off [] = (acc, off, [])
scan_hex acc off (c ∷ s) = elim (hex_value c) [
  | none ↦ (acc, off, c ∷ s)
  | some d ↦ scan_hex (acc * 16 + d) (suc off) s
]

abbrev starts_with : ℕ → Text → Bool
starts_with c [] = false
starts_with c (d ∷ s) = c == d

abbrev zeros : ℕ → List ℕ
zeros zero = []
zeros (suc n) = 0 ∷ zeros n

-- The bytes before and behind the `::`, or all bytes where there is none.
abbrev Fields : Type 0
Fields = List ℕ × Option (List ℕ)

abbrev add_bytes : List ℕ → Fields → Fields
add_bytes bs (front, none) = (front ++ bs, none)
add_bytes bs (front, some back) = (front, some (back ++ bs))

abbrev count_bytes : Fields → ℕ
count_bytes (front, none) = length front
count_bytes (front, some back) = length front + length back

abbrev has_ellipsis : Fields → Bool
has_ellipsis (front, none) = false
has_ellipsis (front, some back) = true

-- The address, where nothing is left to read.
abbrev finish_ipv6 : Fields → Option (List ℕ)
finish_ipv6 (front, none) = if length front == 16 then some front else none
finish_ipv6 (front, some back) =
    if ltb (length front + length back) 16
    then some (front ++ (zeros (16 - (length front + length back)) ++ back))
    else none

abbrev trailing_ipv4 : Fields → Option (List ℕ) → Option (List ℕ)
trailing_ipv4 fs none = none
trailing_ipv4 fs (some bs) =
    if (not (has_ellipsis fs) && not (count_bytes fs == 12)) || ltb 12 (count_bytes fs)
    then none
    else finish_ipv6 (add_bytes bs fs)

-- What follows a field: the end, or a colon and another field, or the `::`.
abbrev after_field : (Fields → Text → Option (List ℕ)) → Fields → Text → Option (List ℕ)
after_field more fs [] = finish_ipv6 fs
after_field more fs (c ∷ []) = none
after_field more fs (c ∷ d ∷ t) =
    if not (c == b':')
    then none
    else if not (d == b':')
    then more fs (d ∷ t)
    else if has_ellipsis fs
    then none
    else if is_empty t
    then finish_ipv6 (fs.0, some [])
    else more (fs.0, some []) t

-- The loop over the fields, with the number of fields that still have room.
abbrev ipv6_fields : ℕ → Fields → Text → Option (List ℕ)
ipv6_fields zero fs s = none
ipv6_fields (suc rounds) fs s =
    let more = ipv6_fields rounds in
    let (acc, off, rest) = scan_hex 0 0 s in
    if off == 0 || ltb 4 off
    then none
    else if starts_with b'.' rest
    then trailing_ipv4 fs (parse_ipv4_fields s)
    else after_field more (add_bytes (acc / 256 ∷ acc % 256 ∷ []) fs) rest

abbrev leading_fields : Text → Option (List ℕ)
leading_fields [] = none
leading_fields (c ∷ []) = none
leading_fields (c ∷ d ∷ t) =
    if (c == b':') && (d == b':')
    then if is_empty t then some (zeros 16) else ipv6_fields 8 ([], some []) t
    else ipv6_fields 8 ([], none) (c ∷ d ∷ t)

unfoldable pub parse_ipv6_bytes : Text → Option (List ℕ)
unfolding parse_ipv4_fields
parse_ipv6_bytes s = leading_fields s

-- What follows a given front.
abbrev behind : List ℕ → List ℕ → Option (List ℕ)
behind [] bs = some bs
behind (p ∷ ps) [] = none
behind (p ∷ ps) (b ∷ bs) = if p == b then behind ps bs else none

-- The front of the sixteen bytes that stand for four.
abbrev mapped_front : List ℕ
mapped_front = zeros 10 ++ 255 ∷ 255 ∷ []

-- The addresses of four bytes are told apart (`To4`).
abbrev of_four : List ℕ → List ℕ → Ip
of_four (a ∷ b ∷ c ∷ d ∷ []) bs = v4 a b c d
of_four other bs = v6 bs

abbrev of_sixteen : List ℕ → Ip
of_sixteen bs = elim (behind mapped_front bs) [ none ↦ v6 bs | some rest ↦ of_four rest bs ]

abbrev to_ip : (List ℕ → Ip) → Option (List ℕ) → Option Ip
to_ip f none = none
to_ip f (some bs) = some (f bs)

-- The first dot or colon decides how the text is read; an address with a zone is refused.
abbrev by_first_mark : Text → Text → Option Ip
by_first_mark s [] = none
by_first_mark s (c ∷ t) =
    if c == b'.'
    then to_ip (λ bs. of_four bs bs) (parse_ipv4_fields s)
    else if c == b':'
    then to_ip of_sixteen (parse_ipv6_bytes s)
    else if c == b'%'
    then none
    else by_first_mark s t

-- `net.ParseIP`
unfoldable pub parse_ip : Text → Option Ip
unfolding parse_ipv4_fields parse_ipv6_bytes
parse_ip s = if has_char b'%' s then none else by_first_mark s s

abbrev is_loopback : List ℕ → Bool
is_loopback bs = elim (behind (zeros 15) bs) [
  | none ↦ false
  | some rest ↦ elim rest [ last ∷ more ↦ last == 1 && is_empty more | [] ↦ false ]
]

-- The ranges of `isPrivateIP`: 127.0.0.0/8, 10.0.0.0/8, 172.16.0.0/12, 192.168.0.0/16 and
-- 169.254.0.0/16; ::1/128, fc00::/7 and fe80::/10.
unfoldable pub in_private_range : Ip → Bool
in_private_range (v4 a b c d) =
    a == 127
    || a == 10
    || (a == 172 && b / 16 == 1)
    || (a == 192 && b == 168)
    || (a == 169 && b == 254)
in_private_range (v6 []) = false
in_private_range (v6 (a ∷ [])) = false
in_private_range (v6 (a ∷ b ∷ bs)) =
    is_loopback (a ∷ b ∷ bs) || a / 2 == 126 || (a == 254 && b / 64 == 2)
