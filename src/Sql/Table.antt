-- ===== src/Sql/Table.antt =====
-- A table of a database as the repositories of src/infrastructure/repositories use it, each call in a
-- session of its own that commits at its end. SQLAlchemy and the database are a parameter.
use service_order_os_service.Prelude.{
  ℕ, Bool, true, false, String, Option, none, some, List, [], ◌∷◌, ◌≡◌, ◌==◌, if◌then◌else◌,
}
use service_order_os_service.Exec.{Exec, Exn, ok, err}

-- `at` is the committed row under a primary key; reads answer, writes may raise, which rolls back.
pub record Table (T R : Type 0) (key : R → String) : Type 0 where
  pub at : String → T → Option R
  -- `select(table).where(test)`
  pub select : (R → Bool) → T → List R
  pub insert : R → Exec T (Unit {0})
  -- `update().where(key == k).values(...)`, the values as a function of the row
  pub update : String → (R → R) → Exec T (Unit {0})
  -- `delete().where(key == k)`, with its row count
  pub delete : String → Exec T ℕ
  pub at-key : (k : String) (t : T) (r : R) → at k t ≡ some r → key r ≡ k
  pub select_key :
      (k : String) (t : T)
      → select (λ r. key r == k) t ≡ (elim (at k t) [ none ↦ [] | some r ↦ r ∷ [] ])
  pub select_first :
      (p : R → Bool) (t : T) (r : R) (rs : List R)
      → select p t ≡ r ∷ rs
      → (at (key r) t ≡ some r) × (p r ≡ true)
  pub select_none :
      (p : R → Bool) (t : T) (k : String) (r : R) → select p t ≡ [] → at k t ≡ some r → p r ≡ false
  pub at-insert :
      (r : R) (j : String) (s t : T)
      → insert r s ≡ (ok tt, t)
      → at j t ≡ (if key r == j then some r else at j s)
  pub insert_atomic : (r : R) (x : Exn) (s t : T) → insert r s ≡ (err x, t) → t ≡ s
  pub at-update :
      (k j : String) (f : R → R) (s t : T)
      → ((r : R) → key r ≡ k → key (f r) ≡ k)
      → update k f s ≡ (ok tt, t)
      → at j t ≡ (if k == j then (elim (at k s) [ none ↦ none | some r ↦ some (f r) ]) else at j s)
  pub update_atomic :
      (k : String) (f : R → R) (x : Exn) (s t : T) → update k f s ≡ (err x, t) → t ≡ s
  pub at-delete :
      (k j : String) (n : ℕ) (s t : T)
      → delete k s ≡ (ok n, t)
      → (at j t ≡ (if k == j then none else at j s))
        × (n ≡ (elim (at k s) [ none ↦ 0 | some r ↦ 1 ]))
