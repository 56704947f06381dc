-- ===== src/Ports/RouteDistinct.antt =====
-- The ports of one route forward are free, and no two hops share one on a node.
use flux_panel_plus.Prelude.{
  ℕ, ◌≡◌, ◌≢◌, refl, true, false, not, Option, none, some, List, [], ◌∷◌, map, arith, All,
  Option-cases, inl, inr,
}
use flux_panel_plus.Model.{Route, RouteHop, ForwardRoutePort}
use flux_panel_plus.Model.Database.{Db}
use flux_panel_plus.Response.{ok, Result-cases}
use flux_panel_plus.Ports.Defs.{mem, get_node_by_id, get_all_used_ports_on_node, rounds}
use flux_panel_plus.Ports.FirstFit.{first_free_sound}
use flux_panel_plus.Ports.Routes.{
  Reserved, is_reserved, is_route_port_available, allocate_route_port_for_node,
  allocate_relay_ports, allocate_entry_port, allocate_route_forward_ports,
}

abbrev pub listeners : List ForwardRoutePort → Reserved
listeners = map (λ (p : ForwardRoutePort). (p.node_id, p.relay_port))

-- No pair occurs twice.
abbrev pub AllDistinct : Reserved → Type 0
AllDistinct [] = Unit
AllDistinct ((n, p) ∷ rest) = (is_reserved n p rest ≡ false) × AllDistinct rest

-- The port is not in use on the node, other forwards considered.
abbrev pub IsFree : Db → Option ℕ → ℕ × ℕ → Type 0
IsFree db exclude (n, p) = mem p (get_all_used_ports_on_node db n exclude) ≡ false

-- Nothing of the first list is in the second.
abbrev Avoids : Reserved → Reserved → Type 0
Avoids [] taken = Unit
Avoids ((n, p) ∷ rest) taken = (is_reserved n p taken ≡ false) × Avoids rest taken

available-IsFree :
    (db : Db) (node_id port : ℕ) (exclude : Option ℕ) (reserved : Reserved)
    → is_route_port_available db node_id port exclude reserved ≡ true
    → IsFree db exclude (node_id, port) × (is_reserved node_id port reserved ≡ false)
unfolding is_route_port_available
available-IsFree db node_id port exclude reserved h = ground arith

allocated_available :
    (db : Db) (node_id port : ℕ) (exclude : Option ℕ) (reserved : Reserved)
    → allocate_route_port_for_node db node_id exclude reserved ≡ some port
    → is_route_port_available db node_id port exclude reserved ≡ true
unfolding allocate_route_port_for_node
allocated_available db node_id port exclude reserved h =
    elim (Option-cases (get_node_by_id db node_id)) [
      | inl e ↦ absurd (no_node e)
      | inr (node, e) ↦ ground (
        arith,
        first_free_sound (λ p. not (is_route_port_available db node_id p exclude reserved))
            (rounds node) node.port_sta {q = port},
      )
    ]
  where
    no_node : get_node_by_id db node_id ≡ none → ⊥
    no_node e = ground (arith, e)

Avoids-more :
    (n p : ℕ) (ps taken : Reserved)
    → Avoids ps ((n, p) ∷ taken)
    → (is_reserved n p ps ≡ false) × Avoids ps taken
Avoids-more n p [] taken h = (refl, tt)
Avoids-more n p (q ∷ ps) taken h = ground (arith, Avoids-more n p ps taken h.1)

-- What a successful round of the loop has done.
relay_step :
    (db : Db) (route : Route) (exclude : Option ℕ) (reserved : Reserved) (hop : RouteHop)
    (hops : List RouteHop) (q : ForwardRoutePort) (ports : List ForwardRoutePort)
    → allocate_relay_ports db route exclude reserved (hop ∷ hops) ≡ ok (q ∷ ports)
    → (q.node_id ≡ hop.node_id)
      × (allocate_route_port_for_node db hop.node_id exclude reserved ≡ some q.relay_port)
      × (allocate_relay_ports db route exclude ((hop.node_id, q.relay_port) ∷ reserved) hops
          ≡ ok ports)
unfolding allocate_relay_ports
relay_step db route exclude reserved hop hops q ports h =
    elim (Option-cases (allocate_route_port_for_node db hop.node_id exclude reserved)) [
      | inl e ↦ absurd (ground (arith, e))
      | inr (port, e) ↦
          elim (Result-cases
            (allocate_relay_ports db route exclude ((hop.node_id, port) ∷ reserved) hops)) [
              | inl (ps, r) ↦ (ground arith, ground arith, ground arith)
              | inr (x, r) ↦ absurd (ground (arith, e, r))
            ]
    ]

relay_nonempty :
    (db : Db) (route : Route) (exclude : Option ℕ) (reserved : Reserved) (hop : RouteHop)
    (hops : List RouteHop)
    → allocate_relay_ports db route exclude reserved (hop ∷ hops) ≢ ok []
unfolding allocate_relay_ports
relay_nonempty db route exclude reserved hop hops h =
    elim (Option-cases (allocate_route_port_for_node db hop.node_id exclude reserved)) [
      | inl e ↦ ground (arith, e)
      | inr (port, e) ↦
          elim (Result-cases
            (allocate_relay_ports db route exclude ((hop.node_id, port) ∷ reserved) hops)) [
              | inl (ps, r) ↦ ground (arith, e, r)
              | inr (x, r) ↦ ground (arith, e, r)
            ]
    ]

abbrev RelaysDistinct : Db → Option ℕ → Reserved → List RouteHop → List ForwardRoutePort → Type 0
RelaysDistinct db exclude reserved hops ports =
    AllDistinct (listeners ports)
    × All (IsFree db exclude) (listeners ports)
    × Avoids (listeners ports) reserved
    × (map (λ (p : ForwardRoutePort). p.node_id) ports ≡ map (λ (h : RouteHop). h.node_id) hops)

relay_ports_distinct :
    (db : Db) (route : Route) (exclude : Option ℕ) (reserved : Reserved) (hops : List RouteHop)
    (ports : List ForwardRoutePort)
    → allocate_relay_ports db route exclude reserved hops ≡ ok ports
    → RelaysDistinct db exclude reserved hops ports
relay_ports_distinct db route exclude reserved [] [] h = (tt, tt, tt, refl)
relay_ports_distinct db route exclude reserved [] (q ∷ ports) h =
    absurd (unfold allocate_relay_ports in ground arith)
relay_ports_distinct db route exclude reserved (hop ∷ hops) [] h =
    absurd (relay_nonempty db route exclude reserved hop hops h)
relay_ports_distinct db route exclude reserved (hop ∷ hops) (q ∷ ports) h =
    let (same, alloc, rest) = relay_step db route exclude reserved hop hops q ports h in
    let free =
      available-IsFree db hop.node_id q.relay_port exclude reserved
        (allocated_available db hop.node_id q.relay_port exclude reserved alloc) in
    let ih =
      relay_ports_distinct db route exclude ((hop.node_id, q.relay_port) ∷ reserved) hops ports
        rest in
    let avoided = Avoids-more hop.node_id q.relay_port (listeners ports) reserved ih.2 in
    (
      (rw same avoided.0, ih.0),
      (rw same free.0, ih.1),
      (rw same free.1, avoided.1),
      cc (same, ih.3),
    )

allocate_entry-IsFree :
    (db : Db) (node_id : ℕ) (specified exclude : Option ℕ) (port : ℕ)
    → allocate_entry_port db node_id specified exclude ≡ ok port
    → IsFree db exclude (node_id, port)
unfolding allocate_entry_port
allocate_entry-IsFree db node_id (some p) exclude port h =
    ground (arith, available-IsFree db node_id p exclude [])
allocate_entry-IsFree db node_id none exclude port h =
    elim (Option-cases (allocate_route_port_for_node db node_id exclude [])) [
      | inl e ↦ absurd (ground (arith, e))
      | inr (q, e) ↦ ground (
        arith,
        available-IsFree db node_id q exclude [],
        allocated_available db node_id q exclude [] e,
      )
    ]

route_parts :
    (db : Db) (route : Route) (entry hop : RouteHop) (hops : List RouteHop)
    (specified exclude : Option ℕ) (in_port : ℕ) (ports : List ForwardRoutePort)
    → allocate_route_forward_ports db route (entry ∷ hop ∷ hops) specified exclude
      ≡ ok (in_port, ports)
    → (allocate_entry_port db entry.node_id specified exclude ≡ ok in_port)
      × (allocate_relay_ports db route exclude ((entry.node_id, in_port) ∷ []) (hop ∷ hops)
          ≡ ok ports)
unfolding allocate_route_forward_ports
route_parts db route entry hop hops specified exclude in_port ports h =
    elim (Result-cases (allocate_entry_port db entry.node_id specified exclude)) [
      | inr (x, e) ↦ absurd (ground (arith, e))
      | inl (p, e) ↦
          elim (Result-cases
            (allocate_relay_ports db route exclude ((entry.node_id, p) ∷ []) (hop ∷ hops))) [
              | inl (ps, r) ↦ (ground arith, ground arith)
              | inr (x, r) ↦ absurd (ground (arith, e, r))
            ]
    ]

-- When the ports of a route forward are allocated, each hop after the entry gets a port on its own
-- node, no two listeners share a port on a node, and every port was free on its node.
pub route_ports_distinct :
    (db : Db) (route : Route) (entry hop : RouteHop) (hops : List RouteHop)
    (specified exclude : Option ℕ) (in_port : ℕ) (ports : List ForwardRoutePort)
    → allocate_route_forward_ports db route (entry ∷ hop ∷ hops) specified exclude
      ≡ ok (in_port, ports)
    → AllDistinct ((entry.node_id, in_port) ∷ listeners ports)
      × All (IsFree db exclude) ((entry.node_id, in_port) ∷ listeners ports)
      × (map (λ (p : ForwardRoutePort). p.node_id) ports
          ≡ map (λ (h : RouteHop). h.node_id) (hop ∷ hops))
route_ports_distinct db route entry hop hops specified exclude in_port ports h =
    let (first, rest) = route_parts db route entry hop hops specified exclude in_port ports h in
    let all_relays =
      relay_ports_distinct db route exclude ((entry.node_id, in_port) ∷ []) (hop ∷ hops) ports
        rest in
    (
      ((Avoids-more entry.node_id in_port (listeners ports) [] all_relays.2).0, all_relays.0),
      (allocate_entry-IsFree db entry.node_id specified exclude in_port first, all_relays.1),
      all_relays.3,
    )
