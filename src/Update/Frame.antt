-- ===== src/Update/Frame.antt =====
-- Changes of one forward's row and route ports only, that keep whose it is and what it has
-- been billed.
use flux_panel_plus.Prelude.{ℕ, ◌≡◌, refl, sym, ap, ◌∙◌, List, [], ◌∷◌, arith, ◌==◌}
use flux_panel_plus.Prelude.Table.{update_where, delete_where, by_id}
use flux_panel_plus.Model.{Forward, ForwardRoutePort}
use flux_panel_plus.Model.Database.{Db}
use flux_panel_plus.Update.Relates.{Preorder}

-- The columns that no change of a forward sets.
abbrev pub SameAccount : Forward → Forward → Type 0
SameAccount f g =
    (g.id ≡ f.id)
    × (g.user_id ≡ f.user_id)
    × (g.user_name ≡ f.user_name)
    × (g.in_flow ≡ f.in_flow)
    × (g.out_flow ≡ f.out_flow)
    × (g.created_time ≡ f.created_time)
    × (g.inx ≡ f.inx)

-- The route ports of the other forwards.
abbrev pub other_ports : ℕ → List ForwardRoutePort → List ForwardRoutePort
other_ports id = delete_where (λ (p : ForwardRoutePort). p.forward_id == id)

abbrev pub framed : ℕ → (Forward → Forward) → List ForwardRoutePort → Db → Db
framed id g ports db = record db {
  forwards = update_where (by_id (λ (f : Forward). f.id) id) g db.forwards;
  route_ports = ports;
}

-- From one database to the next only the forward's row and its route ports have changed.
abbrev pub Frame : ℕ → Db → Db → Type 0
Frame id db db' =
    (g : Forward → Forward) × (ports : List ForwardRoutePort) × ((f : Forward)
      → SameAccount f (g f))
    × (other_ports id ports ≡ other_ports id db.route_ports)
    × (db' ≡ framed id g ports db)

update_where_id :
    (id : ℕ) (rows : List Forward)
    → update_where (by_id (λ (f : Forward). f.id) id) (λ f. f) rows ≡ rows
update_where_id id [] = refl
update_where_id id (f ∷ rows) = ground (arith, update_where_id id rows)

update_where_then :
    (id : ℕ) (g h : Forward → Forward) (rows : List Forward)
    → ((f : Forward) → (g f).id ≡ f.id)
    → (update_where
          (by_id (λ (f : Forward). f.id) id)
          h
          (update_where (by_id (λ (f : Forward). f.id) id) g rows)
        ≡ update_where (by_id (λ (f : Forward). f.id) id) (λ f. h (g f)) rows)
update_where_then id g h [] e = refl
update_where_then id g h (f ∷ rows) e = ground (arith, e f, update_where_then id g h rows e)

pub Frame-refl : (id : ℕ) (db : Db) → Frame id db db
Frame-refl id db = (
  λ f. f,
  db.route_ports,
  λ f. (refl, refl, refl, refl, refl, refl, refl),
  refl,
  sym (ap (λ rows. record db { forwards = rows }) (update_where_id id db.forwards)),
)

pub Frame-trans : (id : ℕ) (a b c : Db) → Frame id a b → Frame id b c → Frame id a c
Frame-trans id a b c (g, ports, keep, others, e) (h, ports', keep', others', e') = (
  λ f. h (g f),
  ports',
  λ f. ground (arith, keep f, keep' (g f)),
  others' ∙ ap (λ (x : Db). other_ports id x.route_ports) e ∙ others,
  e'
      ∙ ap (framed id h ports') e
      ∙ ap (λ rows. record a { forwards = rows; route_ports = ports' })
          (update_where_then id g h a.forwards (λ f. (keep f).0)),
)

-- Frames compose.
abbrev pub frame : ℕ → Preorder
frame id = record { R = Frame id; reflexive = Frame-refl id; transitive = Frame-trans id }
