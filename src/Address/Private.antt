-- ===== src/Address/Private.antt =====
-- Which remote addresses a user may forward to.
use flux_panel_plus.Prelude.{
  ℤ, ◌≡◌, ◌↔◌, ◌⊎◌, refl, ap, ◌∙◌, false, none, some, List, [], ◌∷◌, arith, All, Bool-cases,
  Option-cases, inl, inr,
}
use flux_panel_plus.Prelude.Text.{Text, is_empty, split, trim_space}
use flux_panel_plus.Response.{ok}
use flux_panel_plus.Permissions.Defs.{is_admin}
use flux_panel_plus.Address.Ip.{Ip, parse_ip, in_private_range}
use flux_panel_plus.Address.Defs.{
  is_private_ip, extract_ip_from_address, Resolver, any_private, is_refused_host, has_refused_part,
  validate_remote_addr,
}

abbrev pub Among : Ip → List Ip → Type 0
Among ip [] = ⊥
Among ip (x ∷ xs) = (ip ≡ x) ⊎ Among ip xs

-- A host stands for the address that it spells, and a name for the addresses that it resolves to.
abbrev pub StandsFor : Resolver → Text → Ip → Type 0
StandsFor lookup host ip =
    (parse_ip host ≡ some ip)
    ⊎ ((ips : List Ip) × (parse_ip host ≡ none) × (lookup host ≡ some ips) × Among ip ips)

abbrev pub IsPublic : Resolver → Text → Type 0
IsPublic lookup host = (ip : Ip) → StandsFor lookup host ip → in_private_range ip ≡ false

any_private-none :
    (ips : List Ip)
    → any_private ips ≡ false
    → (ip : Ip) → Among ip ips
    → in_private_range ip ≡ false
any_private-none [] h ip m = absurd m
any_private-none (x ∷ xs) h ip (inl e) = ap in_private_range e ∙ ground arith
any_private-none (x ∷ xs) h ip (inr m) = any_private-none xs (ground arith) ip m

none-any_private :
    (ips : List Ip)
    → ((ip : Ip) → Among ip ips → in_private_range ip ≡ false)
    → any_private ips ≡ false
none-any_private [] h = refl
none-any_private (x ∷ xs) h = rw (h x (inl refl)) (none-any_private xs (λ ip m. h ip (inr m)))

module _ (lookup : Resolver) where
  refused-IsPublic : (host : Text) → is_refused_host lookup host ≡ false → IsPublic lookup host
  unfolding is_private_ip
  refused-IsPublic host h ip (inl e) = ground (arith, e, h)
  refused-IsPublic host h ip (inr (ips, e, l, m)) =
      any_private-none ips (ground (arith, e, l, h)) ip m

  IsPublic-refused : (host : Text) → IsPublic lookup host → is_refused_host lookup host ≡ false
  unfolding is_private_ip
  IsPublic-refused host h = elim (Option-cases (parse_ip host)) [
    | inr (ip, e) ↦ rw e (ground (arith, h ip (inl e)))
    | inl e ↦ elim (Option-cases (lookup host)) [
      | inl l ↦ rw (e, l)
      | inr (ips, l) ↦ rw (e, l) (none-any_private ips (λ ip m. h ip (inr (ips, e, l, m))))
    ]
  ]

  abbrev pub host_in : Text → Text
  host_in part = extract_ip_from_address (trim_space part)

  abbrev pub PartIsPublic : Text → Type 0
  PartIsPublic part = is_empty (host_in part) ≡ false → IsPublic lookup (host_in part)

  parts-ArePublic :
      (parts : List Text) → has_refused_part lookup parts ≡ false → All PartIsPublic parts
  unfolding has_refused_part
  parts-ArePublic [] h = tt
  parts-ArePublic (part ∷ parts) h =
      let host = host_in part in
      (λ e. refused-IsPublic host (ground (arith, e, h)), parts-ArePublic parts (ground (arith, h)))

  ArePublic-parts :
      (parts : List Text) → All PartIsPublic parts → has_refused_part lookup parts ≡ false
  unfolding has_refused_part
  ArePublic-parts [] h = refl
  ArePublic-parts (part ∷ parts) h =
      let rest = ArePublic-parts parts h.1 in
      elim (Bool-cases (is_empty (host_in part))) [
        | inl e ↦ rw e rest
        | inr n ↦ rw (n, IsPublic-refused (host_in part) (h.0 n)) rest
      ]

  -- For a user who is no administrator, a remote address is accepted exactly when no address that the
  -- host of one of its parts stands for is in a private range: neither the address that the host
  -- spells nor, for a name, one that it resolves to. Parts without a host are not looked at.
  pub validate_remote_addr_iff :
      (remote_addr : Text) (role_id : ℤ)
      → is_admin role_id ≡ false
      → ((validate_remote_addr lookup remote_addr role_id ≡ ok tt)
          ↔ All PartIsPublic (split b',' remote_addr))
  unfolding validate_remote_addr
  validate_remote_addr_iff remote_addr role_id user =
      let parts = split b',' remote_addr in
      (
        λ h. parts-ArePublic parts (ground (arith, user, h)),
        λ h. rw (user, ArePublic-parts parts h),
      )
