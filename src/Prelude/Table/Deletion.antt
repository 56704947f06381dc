-- ===== src/Prelude/Table/Deletion.antt =====
-- The deletion of rows by their keys, one after the other.
use flux_panel_plus.Prelude.Tests.{◌==◌}
use Prim.Native.Nat.{ℕ}
use mathlib.Core.Path.{◌≡◌, refl, sym, ◌∙◌}
use mathlib.Core.Bool.{Bool, false, ◌||◌}
use mathlib.Core.List.{List, [], ◌∷◌}
use native.Mathlib.Omega.{arith}
use flux_panel_plus.Prelude.Table.Queries.{find_where, delete_where}
use flux_panel_plus.Prelude.Table.Keys.{by_id, has_id, Distinct}

module _ {ℓ} {A : Type ℓ} (key : A → ℕ) where
  -- One deletion by key for each row of a list that was read before.
  abbrev pub delete_each : List A → List A → List A
  delete_each [] rows = rows
  delete_each (s ∷ ss) rows = delete_each ss (delete_where (by_id key (key s)) rows)

  delete_where_none :
      (p : A → Bool) (rows : List A) → ((r : A) → p r ≡ false) → delete_where p rows ≡ rows
  delete_where_none p [] h = refl
  delete_where_none p (r ∷ rows) h = ground (arith, h r, delete_where_none p rows h)

  delete_where_twice :
      (k : ℕ) (ss rows : List A)
      → delete_where (λ r. has_id key (key r) ss) (delete_where (by_id key k) rows)
        ≡ delete_where (λ r. k == key r || has_id key (key r) ss) rows
  delete_where_twice k ss [] = refl
  delete_where_twice k ss (r ∷ rows) = ground (arith, delete_where_twice k ss rows)

  delete_each-delete :
      (ss rows : List A) → delete_each ss rows ≡ delete_where (λ r. has_id key (key r) ss) rows
  delete_each-delete [] rows = sym (delete_where_none (λ r. false) rows (λ r. refl))
  delete_each-delete (s ∷ ss) rows =
      delete_each-delete ss (delete_where (by_id key (key s)) rows)
      ∙ delete_where_twice (key s) ss rows

  has_id_found_in :
      (p : A → Bool) (k : ℕ) (rs : List A)
      → has_id key k rs ≡ false
      → has_id key k (find_where p rs) ≡ false
  has_id_found_in p k [] h = refl
  has_id_found_in p k (r ∷ rs) h = ground (arith, has_id_found_in p k rs)

  skip_first :
      (x : A) (ss rows : List A)
      → has_id key (key x) rows ≡ false
      → delete_where (λ r. has_id key (key r) (x ∷ ss)) rows
        ≡ delete_where (λ r. has_id key (key r) ss) rows
  skip_first x ss [] h = refl
  skip_first x ss (r ∷ rows) h = ground (arith, skip_first x ss rows)

  delete_found :
      (p : A → Bool) (rows : List A)
      → Distinct key rows
      → delete_where (λ r. has_id key (key r) (find_where p rows)) rows ≡ delete_where p rows
  delete_found p [] d = refl
  delete_found p (x ∷ rows) d = ground (
    arith,
    has_id_found_in p (key x) rows d.0,
    skip_first x (find_where p rows) rows d.0,
    delete_found p rows d.1,
  )

  -- On distinct keys, deleting the rows that a query returned deletes those that satisfy it.
  pub delete_each-find :
      (p : A → Bool) (rows : List A)
      → Distinct key rows
      → delete_each (find_where p rows) rows ≡ delete_where p rows
  delete_each-find p rows d = delete_each-delete (find_where p rows) rows ∙ delete_found p rows d
