-- ===== src/Tests/OneRow.antt =====
-- A table that holds one row at most, for the tests of the repositories over SQL.
use service_order_os_service.Prelude.{
  ℕ, Bool, true, false, String, Option, none, some, List, [], ◌∷◌, arith, ◌≡◌, refl, ◌==◌, eq_iff,
  if◌then◌else◌,
}
use service_order_os_service.Exec.{Exec, Exn, ok, err, other_error}
use service_order_os_service.Sql.Table.{Table}

module _ {R : Type 0} (key : R → String) where
  unfoldable pub row_at : String → Option R → Option R
  row_at k none = none
  row_at k (some r) = if key r == k then some r else none

  unfoldable pub rows_where : (R → Bool) → Option R → List R
  rows_where p none = []
  rows_where p (some r) = if p r then r ∷ [] else []

  unfoldable pub put : R → Exec (Option R) (Unit {0})
  put r none = (ok tt, some r)
  put r (some r') = (err (other_error "The table is full"), some r')

  unfoldable pub change : String → (R → R) → Exec (Option R) (Unit {0})
  change k f none = (ok tt, none)
  change k f (some r) = (ok tt, some (if key r == k then f r else r))

  unfoldable pub remove : String → Exec (Option R) ℕ
  remove k none = (ok 0, none)
  remove k (some r) = if key r == k then (ok 1, none) else (ok 0, some r)

  pub row_at-key : (k : String) (t : Option R) (r : R) → row_at k t ≡ some r → key r ≡ k
  unfolding row_at
  row_at-key k none r h = absurd (ground arith)
  row_at-key k (some r') r h = ground (arith, eq_iff (key r') k)

  pub rows_key :
      (k : String) (t : Option R)
      → rows_where (λ r. key r == k) t ≡ (elim (row_at k t) [ none ↦ [] | some r ↦ r ∷ [] ])
  unfolding row_at rows_where
  rows_key k none = refl
  rows_key k (some r) = ground arith

  pub rows_first :
      (p : R → Bool) (t : Option R) (r : R) (rs : List R)
      → rows_where p t ≡ r ∷ rs
      → (row_at (key r) t ≡ some r) × (p r ≡ true)
  unfolding row_at rows_where
  rows_first p none r rs h = absurd (ground arith)
  rows_first p (some r') r rs h = ground (arith, eq_iff (key r') (key r))

  pub rows_none :
      (p : R → Bool) (t : Option R) (k : String) (r : R)
      → rows_where p t ≡ []
      → row_at k t ≡ some r
      → p r ≡ false
  unfolding row_at rows_where
  rows_none p none k r h e = absurd (ground arith)
  rows_none p (some r') k r h e = ground arith

  pub put_lem :
      (r : R) (j : String) (s t : Option R)
      → put r s ≡ (ok tt, t)
      → row_at j t ≡ (if key r == j then some r else row_at j s)
  unfolding row_at put
  put_lem r j none t h = ground arith
  put_lem r j (some r') t h = absurd (ground arith)

  pub put_atomic : (r : R) (x : Exn) (s t : Option R) → put r s ≡ (err x, t) → t ≡ s
  unfolding put
  put_atomic r x none t h = absurd (ground arith)
  put_atomic r x (some r') t h = ground arith

  pub change_lem :
      (k j : String) (f : R → R) (s t : Option R)
      → ((r : R) → key r ≡ k → key (f r) ≡ k)
      → change k f s ≡ (ok tt, t)
      → row_at j t
        ≡ (if k == j then (elim (row_at k s) [ none ↦ none | some r ↦ some (f r) ]) else row_at j s)
  unfolding row_at change
  change_lem k j f none t kept h = ground arith
  change_lem k j f (some r) t kept h =
      ground (arith, kept r, eq_iff (key r) k, eq_iff (key r) j, eq_iff k j, eq_iff (key (f r)) j)

  pub change_atomic :
      (k : String) (f : R → R) (x : Exn) (s t : Option R) → change k f s ≡ (err x, t) → t ≡ s
  unfolding change
  change_atomic k f x none t h = absurd (ground arith)
  change_atomic k f x (some r) t h = absurd (ground arith)

  pub remove_lem :
      (k j : String) (n : ℕ) (s t : Option R)
      → remove k s ≡ (ok n, t)
      → (row_at j t ≡ (if k == j then none else row_at j s))
        × (n ≡ (elim (row_at k s) [ none ↦ 0 | some r ↦ 1 ]))
  unfolding row_at remove
  remove_lem k j n none t h = ground arith
  remove_lem k j n (some r) t h = ground (arith, eq_iff (key r) k, eq_iff (key r) j, eq_iff k j)

  abbrev pub one_row : Table (Option R) R key
  one_row = record {
    at = row_at;
    select = rows_where;
    insert = put;
    update = change;
    delete = remove;
    at-key = row_at-key;
    select_key = rows_key;
    select_first = rows_first;
    select_none = rows_none;
    at-insert = put_lem;
    insert_atomic = put_atomic;
    at-update = change_lem;
    update_atomic = change_atomic;
    at-delete = remove_lem;
  }
