-- ===== src/Reconcile/Kept.antt =====
-- What the limiter and forward phases of a reconciliation leave as it is in the database, and which
-- commands they send.
use flux_panel_plus.Prelude.{
  ℕ, eq_ℤ, ◌≡◌, refl, sym, ap, ◌∙◌, subst, Bool, true, false, inl, inr, List, [], ◌∷◌, ◌==◌, ◌++◌,
  append_assoc, append-nil, All-append, if◌then◌else◌, All, Bool-cases, arith,
}
use flux_panel_plus.Prelude.Table.{find_where, update_where, by_id}
use flux_panel_plus.Model.{Forward}
use flux_panel_plus.Model.Database.{Db}
use flux_panel_plus.Gost.Commands.{World, Env, Command, Sent, send_msg}
use flux_panel_plus.Pause.Defs.{active, failed, set_status, update_forward_status}
use flux_panel_plus.Pause.Exact.{send_msg-db}
use flux_panel_plus.Sound.Defs.{IsSound}
use flux_panel_plus.Sound.Forwards.{update_forwards-IsSound}
use flux_panel_plus.Reconcile.Defs.{reconcile_gost}
use flux_panel_plus.Reconcile.Quiet.{is_gentle}
use flux_panel_plus.Reconcile.Invariant.{reconcile_gost-Good}

-- A property of the database does not see what is sent.
silent :
    (env : Env) (Good : Db → Type 0) (n : ℕ) (c : Command)
    → is_gentle c ≡ true
    → (w : World) → Good w.db
    → Good (send_msg env n c w).1.db
silent env Good n c h w g = subst Good (sym (send_msg-db env n c w)) g

abbrev is_failed : Forward → Bool
is_failed f = eq_ℤ f.status failed

-- Not a failed row of the id.
abbrev Spared : ℕ → Forward → Type 0
Spared k f = (f.id == k) ≡ true → is_failed f ≡ false

keep_spared :
    (b : Bool) (P : Forward → Type 0) (f : Forward) (fs : List Forward)
    → P f
    → All P fs
    → All P (if b then f ∷ fs else fs)
keep_spared true P f fs p a = (p, a)
keep_spared false P f fs p a = a

head_spared :
    (b : Bool) (f : Forward) (fs : List Forward)
    → All (λ f. is_failed f ≡ false) (if b then f ∷ fs else fs)
    → b ≡ true
    → is_failed f ≡ false
head_spared true f fs a e = a.0
head_spared false f fs a e = ground (arith, e)

tail_spared :
    (b : Bool) (f : Forward) (fs : List Forward)
    → All (λ f. is_failed f ≡ false) (if b then f ∷ fs else fs)
    → All (λ f. is_failed f ≡ false) fs
tail_spared true f fs a = a.1
tail_spared false f fs a = a

found-Spared :
    (k : ℕ) (p : Forward → Bool) (fs : List Forward)
    → All (λ f. is_failed f ≡ false) (find_where (by_id (λ (f : Forward). f.id) k) fs)
    → All (Spared k) (find_where p fs)
found-Spared k p [] a = tt
found-Spared k p (f ∷ fs) a =
    keep_spared (p f) (Spared k) f (find_where p fs)
      (head_spared (f.id == k) f (find_where (by_id (λ (f : Forward). f.id) k) fs) a)
      (found-Spared k p fs
        (tail_spared (f.id == k) f (find_where (by_id (λ (f : Forward). f.id) k) fs) a))

found_after_update :
    (k j : ℕ) (g : Forward → Forward) (fs : List Forward)
    → (j == k) ≡ false
    → ((f : Forward) → (g f).id ≡ f.id)
    → find_where
        (by_id (λ (f : Forward). f.id) k)
        (update_where (by_id (λ (f : Forward). f.id) j) g fs)
      ≡ find_where (by_id (λ (f : Forward). f.id) k) fs
found_after_update k j g [] n h = refl
found_after_update k j g (f ∷ fs) n h = ground (arith, n, h f, found_after_update k j g fs n h)

module _ (start : Db) (k : ℕ) (rows : List Forward)
    (spared : All (λ f. is_failed f ≡ false) rows) where
  abbrev Kept : Db → Type 0
  Kept db =
      (db ≡ record start { forwards = db.forwards })
      × (find_where (by_id (λ (f : Forward). f.id) k) db.forwards ≡ rows)

  settles :
      (f : Forward) (w : World)
      → Spared k f
      → is_failed f ≡ true
      → Kept w.db
      → Kept (update_forward_status f.id active w).db
  unfolding update_forward_status
  settles f w p h (frame, found) =
      let other : (f.id == k) ≡ false = ground (arith, p, h) in
      (
        ap
            (λ (db : Db). record db {
              forwards =
                  update_where (by_id (λ (f : Forward). f.id) f.id) (set_status active)
                    w.db.forwards;
            })
            frame,
        found_after_update k f.id (set_status active) w.db.forwards other (λ f. refl) ∙ found,
      )

-- The limiter and forward phases of a node's reconciliation change nothing in the database but rows of
-- forwards, and of them they leave those of any id whose rows are not failed as they are.
pub reconcile_gost-Kept :
    (env : Env) (node_id k : ℕ) (w : World)
    → All
        (λ (f : Forward). eq_ℤ f.status failed ≡ false)
        (find_where (by_id (λ (f : Forward). f.id) k) w.db.forwards)
    → let db = (reconcile_gost env node_id w).world.db in
      (db ≡ record (w.db) { forwards = db.forwards })
      × (find_where (by_id (λ (f : Forward). f.id) k) db.forwards
          ≡ find_where (by_id (λ (f : Forward). f.id) k) w.db.forwards)
reconcile_gost-Kept env node_id k w spared =
    let rows = find_where (by_id (λ (f : Forward). f.id) k) w.db.forwards in
    reconcile_gost-Good env node_id (λ v. Kept w.db k rows spared v.db)
      (silent env (Kept w.db k rows spared)) (Spared k) (settles w.db k rows spared)
      (λ p v good.
        found-Spared k p v.db.forwards
          (subst (All (λ (f : Forward). is_failed f ≡ false)) (sym good.1) spared))
      w (refl, refl)

every_row : (fs : List Forward) → All (λ (f : Forward). Unit {0}) fs
every_row [] = tt
every_row (f ∷ fs) = (tt, every_row fs)

settled-IsSound :
    (f : Forward) (w : World)
    → Unit {0}
    → is_failed f ≡ true
    → IsSound w.db
    → IsSound (update_forward_status f.id active w).db
unfolding update_forward_status
settled-IsSound f w u h s =
    update_forwards-IsSound w.db f.id (set_status active) w.db.route_ports (λ f h. h) s

pub reconcile_gost-IsSound :
    (env : Env) (node_id : ℕ) (w : World)
    → IsSound w.db
    → IsSound (reconcile_gost env node_id w).world.db
reconcile_gost-IsSound env node_id =
    reconcile_gost-Good env node_id (λ w. IsSound w.db) (silent env IsSound) (λ f. Unit)
      settled-IsSound (λ p w s. every_row (find_where p w.db.forwards))

-- Commands that follow others, each gentle.
abbrev pub AddsGentle : World → World → Type 0
AddsGentle start w =
    (new : List Sent) × (w.sent ≡ start.sent ++ new) × All (λ s. is_gentle s.command ≡ true) new

append-AddsGentle :
    (env : Env) (start : World) (n : ℕ) (c : Command)
    → is_gentle c ≡ true
    → (w : World) → AddsGentle start w
    → AddsGentle start (send_msg env n c w).1
unfolding send_msg
append-AddsGentle env start n c h w (new, e, a) =
    let s : Sent = record { node_id = n; command = c } in
    elim (Bool-cases (env.is_node_online n)) [
      | inl on ↦ rw on (
        new ++ s ∷ [],
        ap (λ l. l ++ s ∷ []) e ∙ append_assoc start.sent new (s ∷ []),
        All-append (λ (s : Sent). is_gentle s.command ≡ true) new (s ∷ []) a (h, tt),
      )
      | inr off ↦ rw off (new, e, a)
    ]

-- The limiter and forward phases of a node's reconciliation send nothing but additions, hot updates of
-- targets and chains, and pauses: they neither delete, replace nor resume a service.
pub reconcile_gost-AddsGentle :
    (env : Env) (node_id : ℕ) (w : World) → AddsGentle w (reconcile_gost env node_id w).world
unfolding update_forward_status
reconcile_gost-AddsGentle env node_id w =
    reconcile_gost-Good env node_id (AddsGentle w) (append-AddsGentle env w) (λ f. Unit)
      (λ f v u h g. g) (λ p v s. every_row (find_where p v.db.forwards)) w
      ([], sym (append-nil w.sent), tt)
