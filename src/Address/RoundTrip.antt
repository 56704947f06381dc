-- ===== src/Address/RoundTrip.antt =====
-- An address that is printed is taken apart into the same host and port.
use flux_panel_plus.Prelude.{
  ℕ, pos, ◌+◌, ◌-◌, ◌*◌, ◌^◌, ◌≤◌, ◌<◌, ◌≡◌, refl, ap, ◌≢◌, true, false, none, some, [], ◌∷◌, ◌++◌,
  append_assoc, subst, arith, ◌==◌, Bool-cases, inl, inr, add64, mul64, wrap64_id, ◌+ℤ◌, ◌*ℤ◌,
}
use flux_panel_plus.Prelude.Text.{
  Text, is_empty, has_char, has_char-append, is_space, trim_right, keep_or_drop, trim_space,
  decimal, decimal_digits, is_digit, all_digits, all_digits-decimal, scan, parse_decimal,
  parse-decimal,
}
use flux_panel_plus.Gost.Services.{split_last}
use flux_panel_plus.Address.Defs.{
  format_remote_addr, split_first, host_of, extract_ip_from_address, scan_port, port_of,
  extract_port_from_address,
}

split_last-none : (c : ℕ) (s : Text) → has_char c s ≡ false → split_last c s ≡ none
split_last-none c [] h = refl
split_last-none c (d ∷ s) h = ground (arith, split_last-none c s)

split_last_at :
    (c : ℕ) (p s : Text) → has_char c s ≡ false → split_last c (p ++ c ∷ s) ≡ some (p, s)
split_last_at c [] s h = rw (split_last-none c s h) (ground arith)
split_last_at c (d ∷ p) s h = rw (split_last_at c p s h)

split_first-none : (c : ℕ) (s : Text) → has_char c s ≡ false → split_first c s ≡ none
split_first-none c [] h = refl
split_first-none c (d ∷ s) h = ground (arith, split_first-none c s)

split_first_at :
    (c : ℕ) (p s : Text) → has_char c p ≡ false → split_first c (p ++ c ∷ s) ≡ some (p, s)
split_first_at c [] s h = ground arith
split_first_at c (d ∷ p) s h = ground (arith, split_first_at c p s)

trim_right-digits : (s : Text) → all_digits s ≡ true → trim_right s ≡ s
trim_right-digits [] h = refl
trim_right-digits (c ∷ []) h = ground arith
trim_right-digits (c ∷ d ∷ s) h =
    ap (keep_or_drop c) (trim_right-digits (d ∷ s) (ground (arith, h)))

-- A text that ends in a digit has no space behind it.
trim_right-append :
    (s : Text) (d : ℕ) (t : Text) → all_digits (d ∷ t) ≡ true → trim_right (s ++ d ∷ t) ≡ s ++ d ∷ t
trim_right-append [] d t h = trim_right-digits (d ∷ t) h
trim_right-append (c ∷ []) d t h = ap (keep_or_drop c) (trim_right-digits (d ∷ t) h)
trim_right-append (c ∷ e ∷ s) d t h = ap (keep_or_drop c) (trim_right-append (e ∷ s) d t h)

trim_space-port :
    (c : ℕ) (s t : Text)
    → is_space c ≡ false
    → t ≢ []
    → all_digits t ≡ true
    → trim_space (c ∷ (s ++ t)) ≡ c ∷ (s ++ t)
unfolding trim_space
trim_space-port c s [] space h digits = absurd (h refl)
trim_space-port c s (d ∷ t) space h digits = rw space (trim_right-append (c ∷ s) d t digits)

decimal-ne-nil : (n : ℕ) → decimal n ≢ []
unfolding parse_decimal
decimal-ne-nil n e = cc (parse-decimal n, ap parse_decimal e)

empty_eq : (s : Text) → is_empty s ≡ true → s ≡ []
empty_eq [] h = refl
empty_eq (c ∷ s) h = cc

scan_grows : (n : ℕ) (s : Text) {m : ℕ} → scan n s ≡ some m → n ≤ m
scan_grows n [] h = ground arith
scan_grows n (c ∷ s) {m} h = ground (arith, scan_grows (n * 10 + (c - b'0')) s {m = m})

times_ten : (n : ℕ) → pos n *ℤ pos 10 ≡ pos (n * 10)
unfolding ◌*ℤ◌
times_ten n = ground arith

plus_pos : (n d : ℕ) → pos n +ℤ pos d ≡ pos (n + d)
unfolding ◌+ℤ◌
plus_pos n d = ground arith

next_digit :
    (n d : ℕ) → n * 10 + d < 2 ^ 63 → add64 (mul64 (pos n) (pos 10)) (pos d) ≡ pos (n * 10 + d)
unfolding add64 mul64
next_digit n d h = rw (times_ten n) (
    rw (wrap64_id (pos (n * 10)) (omega arith))
      (rw (plus_pos (n * 10) d) (wrap64_id (pos (n * 10 + d)) (omega arith))))

-- On a number below 2 ^ 63 the digits are read without wrapping around.
scan_port-scan :
    (n : ℕ) (s : Text) {m : ℕ} → scan n s ≡ some m → m < 2 ^ 63 → scan_port (pos n) s ≡ pos m
unfolding scan_port
scan_port-scan n [] h small = ground arith
scan_port-scan n (c ∷ s) {m} h small = elim (Bool-cases (is_digit c)) [
  | inr no_digit ↦ absurd (ground (arith, no_digit, h))
  | inl digit ↦
      let d = c - b'0' in
      let rest : scan (n * 10 + d) s ≡ some m = ground (arith, digit, h) in
      let below : n * 10 + d ≤ m = scan_grows (n * 10 + d) s rest in
      rw (digit, next_digit n d (omega arith)) (scan_port-scan (n * 10 + d) s rest small)
]

scan_decimal : (s : Text) {n : ℕ} → s ≢ [] → parse_decimal s ≡ some n → scan 0 s ≡ some n
unfolding parse_decimal
scan_decimal [] e h = absurd (e refl)
scan_decimal (c ∷ s) e h = h

scan_port-decimal : (port : ℕ) → port < 2 ^ 63 → scan_port (pos 0) (decimal port) ≡ pos port
scan_port-decimal port h =
    scan_port-scan 0 (decimal port)
      (scan_decimal (decimal port) (decimal-ne-nil port) (parse-decimal port)) h

module _ (c : ℕ) (s : Text) (port : ℕ) (no_bracket : has_char b']' (c ∷ s) ≡ false) where
  abbrev ip : Text
  ip = c ∷ s

  abbrev bracketed : Text
  bracketed = b'[' ∷ (ip ++ b']' ∷ b':' ∷ decimal port)

  abbrev plain : Text
  plain = ip ++ b':' ∷ decimal port

  no_colon : has_char b':' (decimal port) ≡ false
  no_colon = decimal_digits b':' port refl

  found_bracket :
      split_first b']' (ip ++ b']' ∷ b':' ∷ decimal port) ≡ some (ip, b':' ∷ decimal port)
  found_bracket = split_first_at b']' ip (b':' ∷ decimal port) no_bracket

  no_bracket_in_plain : split_first b']' (s ++ b':' ∷ decimal port) ≡ none
  no_bracket_in_plain = split_first-none b']' (s ++ b':' ∷ decimal port) (
      ground (
        arith,
        no_bracket,
        has_char-append b']' s (b':' ∷ decimal port),
        decimal_digits b']' port refl,
      ))

  found_colon : split_last b':' plain ≡ some (ip, decimal port)
  found_colon = split_last_at b':' ip (decimal port) no_colon

  host-bracketed : host_of bracketed ≡ ip
  host-bracketed = rw found_bracket

  host-plain : host_of plain ≡ ip
  host-plain = elim (Bool-cases (c == b'[')) [
    | inl e ↦ rw (e, no_bracket_in_plain, found_colon)
    | inr n ↦ rw (n, found_colon)
  ]

  port-bracketed : port < 2 ^ 63 → port_of bracketed ≡ pos port
  port-bracketed small = rw found_bracket (scan_port-decimal port small)

  is_empty-decimal : is_empty (decimal port) ≡ false
  is_empty-decimal = elim (Bool-cases (is_empty (decimal port))) [
    | inl e ↦ absurd (decimal-ne-nil port (empty_eq (decimal port) e))
    | inr n ↦ n
  ]

  port-plain : port < 2 ^ 63 → port_of plain ≡ pos port
  port-plain small = elim (Bool-cases (c == b'[')) [
    | inl e ↦
        rw (e, no_bracket_in_plain, found_colon, is_empty-decimal) (scan_port-decimal port small)
    | inr n ↦ rw (n, found_colon, is_empty-decimal) (scan_port-decimal port small)
  ]

  trim-bracketed : trim_space bracketed ≡ bracketed
  trim-bracketed =
      let front : Text = ip ++ b']' ∷ b':' ∷ [] in
      subst (λ (t : Text). trim_space (b'[' ∷ t) ≡ b'[' ∷ t)
        (append_assoc ip (b']' ∷ b':' ∷ []) (decimal port))
        (trim_space-port b'[' front (decimal port) refl (decimal-ne-nil port)
          (all_digits-decimal port))

  trim-plain : is_space c ≡ false → trim_space plain ≡ plain
  trim-plain space =
      subst (λ (t : Text). trim_space (c ∷ t) ≡ c ∷ t) (append_assoc s (b':' ∷ []) (decimal port))
        (trim_space-port c (s ++ b':' ∷ []) (decimal port) space (decimal-ne-nil port)
          (all_digits-decimal port))

  -- An address that is printed from a host and a port is taken apart into the same host and port. The
  -- host is not empty, does not begin with a space and holds no closing bracket; the port is below
  -- 2 ^ 63.
  pub extract-format_remote_addr :
      is_space c ≡ false
      → port < 2 ^ 63
      → (extract_ip_from_address (format_remote_addr (c ∷ s) port) ≡ c ∷ s)
        × (extract_port_from_address (format_remote_addr (c ∷ s) port) ≡ pos port)
  unfolding extract_ip_from_address extract_port_from_address format_remote_addr
  extract-format_remote_addr space small = elim (Bool-cases (has_char b':' ip)) [
    | inl colon ↦ rw (colon, trim-bracketed) (host-bracketed, port-bracketed small)
    | inr four ↦ rw (four, trim-plain space) (host-plain, port-plain small)
  ]
