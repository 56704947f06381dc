-- ===== src/Topology/Routes.antt =====
-- go-backend/service/route.go: CreateRoute, UpdateRoute, DeleteRoute and what they call. The ids that
-- the database gives the new rows are arguments.
use flux_panel_plus.Prelude.{
  ℕ, suc, ℤ, pos, leb_ℤ, add64, Bool, not, ◌&&◌, Option, none, some, List, [], ◌∷◌, ◌++◌, ◌==◌, ltb,
  length, if◌then◌else◌,
}
use flux_panel_plus.Prelude.Text.{Text, codes}
use flux_panel_plus.Prelude.Table.{first_where, count_where, update_where, delete_where, by_id}
use flux_panel_plus.Model.{Node, Route, RouteHop}
use flux_panel_plus.Model.Database.{Db}
use flux_panel_plus.Response.{
  Result, ok, err, refuse_if, or_error, route_needs_two_nodes, route_node_invalid,
  route_nodes_not_unique, route_node_not_found, route_name_taken, route_not_found, route_in_use,
}
use flux_panel_plus.Gost.Commands.{Env}
use flux_panel_plus.Ports.Defs.{get_node_by_id, mem}
use flux_panel_plus.Topology.Tunnels.{or_text}
use flux_panel_plus.Actions.{Action, ◌>>=◌, ◌>>◌, query, change}

pub record RouteDto : Type 0 where
  pub name : Text
  pub node_ids : List ℕ
  pub protocol : Text
  pub tcp_listen_addr : Text
  pub udp_listen_addr : Text
  pub interface_name : Text

pub record RouteUpdateDto : Type 0 where
  pub id : ℕ
  pub name : Text
  pub node_ids : List ℕ
  pub protocol : Text
  pub tcp_listen_addr : Text
  pub udp_listen_addr : Text
  pub interface_name : Text
  pub status : Option ℤ

abbrev cons_node : Node → Result (List Node) → Result (List Node)
cons_node n (ok ns) = ok (n ∷ ns)
cons_node n (err e) = err e

-- The loop, with the ids that were seen.
unfoldable pub route_nodes : Db → List ℕ → List ℕ → Result (List Node)
unfolding get_node_by_id
route_nodes db seen [] = ok []
route_nodes db seen (id ∷ ids) =
    let rest = route_nodes db (id ∷ seen) ids in
    if id == 0
    then err route_node_invalid
    else if mem id seen
    then err route_nodes_not_unique
    else elim (get_node_by_id db id) [
      | none ↦ err route_node_not_found
      | some node ↦ cons_node node rest
    ]

unfoldable pub validate_route_nodes : Db → List ℕ → Result (List Node)
unfolding route_nodes
validate_route_nodes db ids =
    if ltb (length ids) 2 then err route_needs_two_nodes else route_nodes db [] ids

unfoldable pub normalize_route_protocol : Text → Text
normalize_route_protocol protocol = or_text (codes "tls") protocol

abbrev max_route_inx_from : ℤ → List Route → ℤ
max_route_inx_from m [] = m
max_route_inx_from m (r ∷ rs) = max_route_inx_from (if leb_ℤ m r.inx then r.inx else m) rs

-- `COALESCE(MAX(inx), 0)`
abbrev pub max_route_inx : List Route → ℤ
max_route_inx [] = pos 0
max_route_inx (r ∷ rs) = max_route_inx_from r.inx rs

unfoldable pub new_route : ℤ → Db → ℕ → RouteDto → Route
unfolding normalize_route_protocol
new_route now db id d = record {
  id = id;
  name = d.name;
  protocol = normalize_route_protocol d.protocol;
  tcp_listen_addr = or_text (codes "::") d.tcp_listen_addr;
  udp_listen_addr = or_text (codes "::") d.udp_listen_addr;
  interface_name = d.interface_name;
  created_time = now;
  updated_time = now;
  status = pos 1;
  inx = add64 (max_route_inx db.routes) (pos 1);
}

abbrev pub new_hop : ℤ → ℕ → ℕ → ℕ → Node → RouteHop
new_hop now id route_id order node = record {
  id = id;
  route_id = route_id;
  hop_order = order;
  node_id = node.id;
  node_ip = node.server_ip;
  created_time = now;
  updated_time = now;
}

-- `for i, node := range nodes`, from the index i on.
abbrev pub new_hops : ℤ → (ℕ → ℕ) → ℕ → ℕ → List Node → List RouteHop
new_hops now ids route_id i [] = []
new_hops now ids route_id i (node ∷ nodes) =
    new_hop now (ids i) route_id i node ∷ new_hops now ids route_id (suc i) nodes

abbrev pub add_route : Route → List RouteHop → Db → Db
add_route r hops db = record db { routes = db.routes ++ r ∷ []; route_hops = db.route_hops ++ hops }

abbrev pub on_route : ℕ → RouteHop → Bool
on_route id h = h.route_id == id

abbrev pub or_status : ℤ → Option ℤ → ℤ
or_status old none = old
or_status old (some status) = status

-- The columns that change while forwards are on the route.
abbrev pub rename_route : ℤ → RouteUpdateDto → Route → Route
rename_route now d r = record r {
  name = d.name;
  updated_time = now;
  status = or_status r.status d.status;
}

unfoldable pub set_route : ℤ → RouteUpdateDto → Route → Route
unfolding normalize_route_protocol
set_route now d r = record r {
  name = d.name;
  protocol = normalize_route_protocol d.protocol;
  tcp_listen_addr = or_text (codes "::") d.tcp_listen_addr;
  udp_listen_addr = or_text (codes "::") d.udp_listen_addr;
  interface_name = d.interface_name;
  updated_time = now;
  status = or_status r.status d.status;
}

abbrev pub update_route_row : ℕ → (Route → Route) → Db → Db
update_route_row id g db = record db {
  routes = update_where (by_id (λ (r : Route). r.id) id) g db.routes;
}

-- The transaction: the hops are replaced.
abbrev pub replace_hops : ℕ → (Route → Route) → List RouteHop → Db → Db
replace_hops id g hops db = record db {
  routes = update_where (by_id (λ (r : Route). r.id) id) g db.routes;
  route_hops = delete_where (on_route id) db.route_hops ++ hops;
}

abbrev pub delete_route_rows : ℕ → Db → Db
delete_route_rows id db = record db {
  route_hops = delete_where (on_route id) db.route_hops;
  routes = delete_where (by_id (λ (r : Route). r.id) id) db.routes;
}

abbrev pub route_has_forwards : Db → ℕ → Bool
route_has_forwards db id = ltb 0 (count_where (λ f. f.route_id == id) db.forwards)

abbrev pub get_route : Db → ℕ → Option Route
get_route db id = first_where (by_id (λ (r : Route). r.id) id) db.routes

module _ (env : Env) (same_name : Text → Text → Bool) where
  unfoldable pub create_route : ℕ → (ℕ → ℕ) → RouteDto → Action Route
  unfolding validate_route_nodes new_route
  create_route id hop_ids d = do
    nodes ← query (λ db. validate_route_nodes db d.node_ids)
    query (λ db.
        refuse_if (ltb 0 (count_where (λ (r : Route). same_name r.name d.name) db.routes))
          route_name_taken)
    r ← query (λ db. ok (new_route env.now db id d))
    change (add_route r (new_hops env.now hop_ids id 0 nodes))
    λ w. (ok r, w)

  unfoldable pub replace_route_hops : (ℕ → ℕ) → RouteUpdateDto → Action {0} Unit
  unfolding validate_route_nodes set_route
  replace_route_hops hop_ids d = do
    nodes ← query (λ db. validate_route_nodes db d.node_ids)
    change (replace_hops d.id (set_route env.now d) (new_hops env.now hop_ids d.id 0 nodes))

  -- With forwards on it, a route keeps its hops.
  unfoldable pub update_route : (ℕ → ℕ) → RouteUpdateDto → Action {0} Unit
  unfolding replace_route_hops
  update_route hop_ids d = do
    query (λ db. or_error (get_route db d.id) route_not_found)
    query (λ db.
        refuse_if
          (ltb 0
            (count_where (λ (r : Route). same_name r.name d.name && not (r.id == d.id)) db.routes))
          route_name_taken)
    used ← query (λ db. ok (route_has_forwards db d.id))
    if used
        then change (update_route_row d.id (rename_route env.now d))
        else replace_route_hops hop_ids d

unfoldable pub delete_route : ℕ → Action {0} Unit
delete_route id = do
  query (λ db. or_error (get_route db id) route_not_found)
  query (λ db. refuse_if (route_has_forwards db id) route_in_use)
  change (delete_route_rows id)
