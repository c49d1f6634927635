-- ===== src/Sql/Customers/Laws.antt =====
-- What `SqlAlchemyCustomerRepository` gives after it has written.
use service_order_os_service.Prelude.{
  ℕ, eqb, not, is_some, Bool, false, String, Option, none, some, [], arith, ◌≡◌, inl, inr, refl,
  ◌==◌, eq_refl, Option-cases, if◌then◌else◌,
}
use service_order_os_service.Exec.{Result, ok, err, is_ok}
use service_order_os_service.Domain.Event.{Instant}
use service_order_os_service.Domain.Party.{Customer}
use service_order_os_service.Sql.Table.{Table}
use service_order_os_service.Sql.Customers.{
  CustomerRow, to_row, updated_row, from_row, save, update, delete, found_row, get,
}

count_is_some :
    (o : Option CustomerRow) → not (eqb (elim o [ none ↦ 0 | some r ↦ 1 ]) 0) ≡ is_some o
count_is_some none = refl
count_is_some (some r) = refl

module _ (isoformat : Instant → String) (fromisoformat : String → Result Instant)
    (reads : (at : Instant) → fromisoformat (isoformat at) ≡ ok at) where
  from_row-to_row :
      (c : Customer) → from_row isoformat fromisoformat (to_row isoformat fromisoformat c) ≡ ok c
  unfolding from_row to_row
  from_row-to_row c = rw (reads c.created_at, reads c.updated_at) refl

  module _ {T : Type 0} (table : Table T CustomerRow (λ r. r.customer_id)) where
    -- The customer of a row, where there is one.
    abbrev found : String → Option CustomerRow → Result Customer
    found k none = found_row isoformat fromisoformat table k []
    found k (some r) = from_row isoformat fromisoformat r

    pub get_found :
        (k : String) (s : T) → get isoformat fromisoformat table k s ≡ found k (table.at k s)
    unfolding get found_row
    get_found k s = rw (table.select_key k s) (ground arith)

    -- A customer that was saved is what `get` gives under its identifier; every other identifier gives
    -- what it gave before.
    pub sql_customer_saved :
        (c : Customer) (j : String) (s t : T)
        → save isoformat fromisoformat table c s ≡ (ok tt, t)
        → get isoformat fromisoformat table j t
          ≡ (if c.customer_id == j then ok c else get isoformat fromisoformat table j s)
    unfolding save
    sql_customer_saved c j s t e =
        rw
          (get_found j t, get_found j s, table.at-insert (to_row isoformat fromisoformat c) j s t e)
          (unfold to_row in ground (arith, from_row-to_row c))

    updated_from_row :
        (c old : Customer) (r : CustomerRow)
        → from_row isoformat fromisoformat r ≡ ok old
        → from_row isoformat fromisoformat (updated_row isoformat fromisoformat c r)
          ≡ ok (record c { customer_id = old.customer_id; created_at = old.created_at })
    unfolding from_row updated_row
    updated_from_row c old r h = ground (arith, reads c.updated_at)

    pub read_key :
        (r : CustomerRow) (c : Customer)
        → from_row isoformat fromisoformat r ≡ ok c
        → c.customer_id ≡ r.customer_id
    unfolding from_row
    read_key r c h = ground arith

    updated_key :
        (c : Customer) (r : CustomerRow)
        → r.customer_id ≡ c.customer_id
        → (updated_row isoformat fromisoformat c r).customer_id ≡ c.customer_id
    unfolding updated_row
    updated_key c r h = h

    -- A customer that was updated, and that the table had, is what `get` then gives under its identifier,
    -- but for the time of creation, which stays; every other identifier gives what it gave before.
    pub sql_customer_updated :
        (c old : Customer) (j : String) (s t : T)
        → get isoformat fromisoformat table c.customer_id s ≡ ok old
        → update isoformat fromisoformat table c s ≡ (ok tt, t)
        → get isoformat fromisoformat table j t ≡ (
            if c.customer_id == j
            then ok (record c { created_at = old.created_at })
            else get isoformat fromisoformat table j s)
    unfolding update found_row
    sql_customer_updated c old j s t g e = elim (Option-cases (table.at c.customer_id s)) [
      | inl absent ↦ absurd (ground (arith, get_found c.customer_id s))
      | inr (r, there) ↦
          let after =
            table.at-update c.customer_id j (updated_row isoformat fromisoformat c) s t
              (updated_key c) e in
          let same_id = read_key r old (ground (arith, get_found c.customer_id s)) in
          rw (get_found j t, get_found j s, after)
            (ground (
              arith,
              get_found c.customer_id s,
              same_id,
              table.at-key c.customer_id s r there,
              updated_from_row c old r,
            ))
    ]

    deleted_count :
        (k : String) (b : Bool) (s t : T)
        → delete isoformat fromisoformat table k s ≡ (ok b, t)
        → (n : ℕ) × (table.delete k s ≡ (ok n, t)) × (b ≡ not (eqb n 0))
    unfolding delete
    deleted_count k b s t e = counted (table.delete k s).0 (table.delete k s).1 refl
      where
        counted :
            (r : Result ℕ) (u : T)
            → table.delete k s ≡ (r, u)
            → (n : ℕ) × (table.delete k s ≡ (ok n, t)) × (b ≡ not (eqb n 0))
        counted (ok n) u h = (n, ground arith, ground arith)
        counted (err x) u h = absurd (ground arith)

    -- A deletion that returns says whether the customer was there, and leaves it missing.
    pub sql_customer_deleted :
        (k : String) (b : Bool) (s t : T)
        → delete isoformat fromisoformat table k s ≡ (ok b, t)
        → (b ≡ is_some (table.at k s)) × (is_ok (get isoformat fromisoformat table k t) ≡ false)
    unfolding found_row
    sql_customer_deleted k b s t e =
        let (n, deleted, says) = deleted_count k b s t e in
        let (gone, counted) = table.at-delete k k n s t deleted in
        (
          rw (says, counted) (count_is_some (table.at k s)),
          rw (get_found k t, gone, eq_refl k) refl,
        )
