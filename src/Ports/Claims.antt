-- ===== src/Ports/Claims.antt =====
-- What it means that two forwards contend for a port of a node, and that allocation never makes
-- them: a specification apart from the code's maps of used ports.
use flux_panel_plus.Prelude.{
  ℕ, ◌+◌, ◌<◌, ◌≡◌, refl, ap, ◌⊎◌, inl, inr, Bool, false, not, ◌&&◌, ◌||◌, Option, none, some, List,
  [], ◌∷◌, ◌++◌, map, arith, leb, ◌==◌, Option-cases,
}
use flux_panel_plus.Prelude.Table.{
  first_where, find_where, count_where, count_where-cong, by_id, has_id, Distinct,
}
use flux_panel_plus.Model.{Tunnel, Forward, ForwardRoutePort}
use flux_panel_plus.Model.Database.{Db}
use flux_panel_plus.Response.{ok}
use flux_panel_plus.Ports.Defs.{
  mem, collect, in_tunnel_ids, out_tunnel_ids, entry_route_ids, get_all_used_ports_on_node,
  get_node_by_id, allocate_port_for_node, is_in_port_available, allocate_in_port, allocate_out_port,
  tunnel_forward,
}
use flux_panel_plus.Ports.FirstFit.{allocate_port_sound}

-- A tunnel's row, as a forward refers to it.
abbrev pub tunnel_of : Db → ℕ → Option Tunnel
tunnel_of db id = first_where (by_id (λ (t : Tunnel). t.id) id) db.tunnels

abbrev on_tunnel : (Tunnel → Bool) → Option Tunnel → Bool
on_tunnel p none = false
on_tunnel p (some t) = p t

-- The forward listens on this port of this node, as the entry of its tunnel.
abbrev pub claims_in : Db → ℕ → ℕ → Forward → Bool
claims_in db node_id port f =
    on_tunnel (λ t. t.in_node_id == node_id) (tunnel_of db f.tunnel_id) && (f.in_port == port)

abbrev pub claims_out : Db → ℕ → ℕ → Forward → Bool
claims_out db node_id port f =
    on_tunnel (λ t. t.out_node_id == node_id) (tunnel_of db f.tunnel_id) && (f.out_port == port)

-- The same at the first hop of its route.
abbrev pub claims_entry : Db → ℕ → ℕ → Forward → Bool
claims_entry db node_id port f = mem f.route_id (entry_route_ids db node_id) && (f.in_port == port)

abbrev pub claims_relay : ℕ → ℕ → ForwardRoutePort → Bool
claims_relay node_id port p = (p.node_id == node_id) && (p.relay_port == port)

-- How many listeners the database puts on a port of a node.
unfoldable pub claims : Db → ℕ → ℕ → ℕ
claims db node_id port =
    count_where (claims_in db node_id port) db.forwards
    + count_where (claims_out db node_id port) db.forwards
    + count_where (claims_entry db node_id port) db.forwards
    + count_where (claims_relay node_id port) db.route_ports

mem-append : (k : ℕ) (xs ys : List ℕ) → mem k (xs ++ ys) ≡ (mem k xs || mem k ys)
mem-append k [] ys = refl
mem-append k (x ∷ xs) ys = ground (arith, mem-append k xs ys)

mem-collect {ℓ} :
    {A : Type ℓ} (p : A → Bool) (port : A → ℕ) (k : ℕ) (rows : List A)
    → 0 < k
    → mem k (collect p port rows) ≡ leb 1 (count_where (λ r. p r && (port r == k)) rows)
mem-collect p port k [] h = refl
mem-collect p port k (r ∷ rows) h = ground (arith, mem-collect p port k rows h)

mem-absent :
    (p : Tunnel → Bool) (k : ℕ) (rows : List Tunnel)
    → has_id (λ t. t.id) k rows ≡ false
    → mem k (map (λ t. t.id) (find_where p rows)) ≡ false
mem-absent p k [] h = refl
mem-absent p k (r ∷ rows) h = ground (arith, mem-absent p k rows)

-- On distinct ids, an id is among those of the rows that a query finds if its row satisfies it.
mem-find :
    (p : Tunnel → Bool) (k : ℕ) (rows : List Tunnel)
    → Distinct (λ t. t.id) rows
    → (mem k (map (λ t. t.id) (find_where p rows))
        ≡ on_tunnel p (first_where (by_id (λ t. t.id) k) rows))
mem-find p k [] d = refl
mem-find p k (r ∷ rows) d =
    ground (arith, mem-absent p r.id rows d.0, mem-absent p k rows, mem-find p k rows d.1)

or_counts : (a b c d : ℕ) → (leb 1 a || (leb 1 b || (leb 1 c || leb 1 d))) ≡ leb 1 (a + b + c + d)
or_counts a b c d = ground arith

module _ (db : Db) (node_id port : ℕ) (pk : Distinct (λ (t : Tunnel). t.id) db.tunnels)
    (h : 0 < port) where
  in_claims :
      mem port (
        collect
          (λ f. mem f.tunnel_id (in_tunnel_ids db node_id) && not false)
          (λ (f : Forward). f.in_port)
          db.forwards)
      ≡ leb 1 (count_where (claims_in db node_id port) db.forwards)
  in_claims = rw (mem-collect _ (λ (f : Forward). f.in_port) port db.forwards h) (
      ap (leb 1) (
        count_where-cong _ (claims_in db node_id port) db.forwards
          λ r. ground (arith, mem-find (λ t. t.in_node_id == node_id) r.tunnel_id db.tunnels pk)))

  out_claims :
      mem port (
        collect
          (λ f. mem f.tunnel_id (out_tunnel_ids db node_id) && not false)
          (λ (f : Forward). f.out_port)
          db.forwards)
      ≡ leb 1 (count_where (claims_out db node_id port) db.forwards)
  out_claims = rw (mem-collect _ (λ (f : Forward). f.out_port) port db.forwards h) (
      ap (leb 1) (
        count_where-cong _ (claims_out db node_id port) db.forwards
          λ r. ground (arith, mem-find (λ t. t.out_node_id == node_id) r.tunnel_id db.tunnels pk)))

  entry_claims :
      mem port (
        collect
          (λ f. mem f.route_id (entry_route_ids db node_id) && not false)
          (λ (f : Forward). f.in_port)
          db.forwards)
      ≡ leb 1 (count_where (claims_entry db node_id port) db.forwards)
  entry_claims =
      rw (mem-collect _ (λ (f : Forward). f.in_port) port db.forwards h) (
        ap (leb 1)
          (count_where-cong _ (claims_entry db node_id port) db.forwards λ r. ground arith))

  relay_claims :
      mem port (
        collect
          (λ p. (p.node_id == node_id) && not false)
          (λ (p : ForwardRoutePort). p.relay_port)
          db.route_ports)
      ≡ leb 1 (count_where (claims_relay node_id port) db.route_ports)
  relay_claims =
      rw (mem-collect _ (λ (p : ForwardRoutePort). p.relay_port) port db.route_ports h) (
        ap (leb 1)
          (count_where-cong _ (claims_relay node_id port) db.route_ports λ r. ground arith))

  -- With distinct tunnel ids, a port other than 0 is in the set of used ports of a node, nothing
  -- excluded, exactly when some row of the database claims it.
  pub used_iff_claimed :
      mem port (get_all_used_ports_on_node db node_id none) ≡ leb 1 (claims db node_id port)
  unfolding get_all_used_ports_on_node claims
  used_iff_claimed =
      rw
        (
          mem-append port _ _,
          mem-append port _ _,
          mem-append port _ _,
          in_claims,
          out_claims,
          entry_claims,
          relay_claims,
        )
        (or_counts _ _ _ _)

-- A port that is allocated is free on its node.
allocated_free :
    (db : Db) (node_id : ℕ) (exclude : Option ℕ) (port : ℕ)
    → allocate_port_for_node db node_id exclude ≡ some port
    → mem port (get_all_used_ports_on_node db node_id exclude) ≡ false
unfolding allocate_port_for_node
allocated_free db node_id exclude port h = elim (Option-cases (get_node_by_id db node_id)) [
  | inl e ↦ absurd (no_node e)
  | inr (node, e) ↦ (allocate_port_sound db node_id exclude node {port = port} e h).2
]
  where
    no_node : get_node_by_id db node_id ≡ none → ⊥
    no_node e = ground (arith, e)

pub allocate_in_port_free :
    (db : Db) (t : Tunnel) (specified exclude : Option ℕ) (port : ℕ)
    → allocate_in_port db t specified exclude ≡ ok port
    → mem port (get_all_used_ports_on_node db t.in_node_id exclude) ≡ false
unfolding allocate_in_port is_in_port_available
allocate_in_port_free db t none exclude port h =
    ground (arith, allocated_free db t.in_node_id exclude port)
allocate_in_port_free db t (some p) exclude port h = ground arith

pub allocate_out_port_free :
    (db : Db) (t : Tunnel) (exclude : Option ℕ) (port : ℕ)
    → allocate_out_port db t exclude ≡ ok port
    → (port ≡ 0)
      ⊎ ((t.type ≡ tunnel_forward)
          × (mem port (get_all_used_ports_on_node db t.out_node_id exclude) ≡ false))
unfolding allocate_out_port
allocate_out_port_free db t exclude port h =
    ground (arith, allocated_free db t.out_node_id exclude port)
