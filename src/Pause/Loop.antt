-- ===== src/Pause/Loop.antt =====
-- A loop over the forwards that a query found, whose body pauses a row where it is to be paused.
use flux_panel_plus.Prelude.{
  ◌≡◌, refl, ap, ◌∙◌, Bool, ◌&&◌, List, [], ◌∷◌, arith, if◌then◌else◌, Bool-cases, inl, inr,
}
use flux_panel_plus.Prelude.Table.{
  find_where, find_where-find, update_where, update_each, update_each-find, by_id, for_each,
  Distinct,
}
use flux_panel_plus.Model.{Forward}
use flux_panel_plus.Model.Database.{Db}
use flux_panel_plus.Gost.Commands.{World}
use flux_panel_plus.Pause.Defs.{paused, set_status}

abbrev pub with_forwards : Db → List Forward → Db
with_forwards db fs = record db { forwards = fs }

-- The update of one row by its key.
abbrev pub pause_row : Forward → List Forward → List Forward
pause_row f rows = update_where (by_id (λ (g : Forward). g.id) f.id) (set_status paused) rows

module _ (body : Forward → World → World) (needs : Db → Forward → Bool)
    (body-db : (f : Forward) (w : World)
      → (body f w).db
        ≡ (if needs w.db f then with_forwards w.db (pause_row f w.db.forwards) else w.db))
    (needs-with_forwards : (db : Db) (fs : List Forward) (f : Forward)
      → needs (with_forwards db fs) f ≡ needs db f) where
  -- The loop is an update by key for each row that is to be paused.
  loop-db :
      (db : Db) (ss rows : List Forward) (w : World)
      → w.db ≡ with_forwards db rows
      → (for_each body ss w).db
        ≡ with_forwards db
            (update_each (λ f. f.id) (set_status paused) (find_where (needs db) ss) rows)
  loop-db db [] rows w e = e
  loop-db db (f ∷ ss) rows w e = elim (Bool-cases (needs db f)) [
    | inl t ↦
        loop-db db ss (pause_row f rows) (body f w)
          (body-db f w ∙ ground (arith, e, t, needs-with_forwards db rows f, ap (λ d. needs d f) e))
        ∙ ground (arith, t)
    | inr n ↦
        loop-db db ss rows (body f w)
          (body-db f w ∙ ground (arith, e, n, needs-with_forwards db rows f, ap (λ d. needs d f) e))
        ∙ ground (arith, n)
  ]

  -- On distinct ids, the loop over the rows that satisfy a condition pauses those of them that are to
  -- be paused.
  pub loop_found-db :
      (db : Db) (p : Forward → Bool) (rows : List Forward) (w : World)
      → Distinct (λ (f : Forward). f.id) rows
      → w.db ≡ with_forwards db rows
      → (for_each body (find_where p rows) w).db
        ≡ with_forwards db (update_where (λ f. p f && needs db f) (set_status paused) rows)
  loop_found-db db p rows w d e =
      loop-db db (find_where p rows) rows w e
      ∙ ap (with_forwards db) (
          ap (λ ss. update_each (λ (f : Forward). f.id) (set_status paused) ss rows)
            (find_where-find p (needs db) rows)
          ∙ update_each-find (λ (f : Forward). f.id) (λ f. p f && needs db f) (set_status paused)
              rows (λ f. refl) (λ f. refl) d)
