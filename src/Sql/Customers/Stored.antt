-- ===== src/Sql/Customers/Stored.antt =====
-- src/infrastructure/repositories/sqlalchemy_customer_repository.py as a repository for the use cases.
use service_order_os_service.Prelude.{
  String, arith, ◌≡◌, ap, sym, ◌∙◌, ◌==◌, Option-cases, inl, inr, if◌then◌else◌,
}
use service_order_os_service.Exec.{Result, ok}
use service_order_os_service.Domain.Event.{Instant}
use service_order_os_service.Domain.Party.{Customer}
use service_order_os_service.App.Customers.Stored.{IsStore}
use service_order_os_service.Sql.Table.{Table}
use service_order_os_service.Sql.Customers.{CustomerRow, sql_customers, found_row, get}
use service_order_os_service.Sql.Customers.Laws.{
  sql_customer_saved, sql_customer_updated, get_found, read_key,
}

module _ (isoformat : Instant → String) (fromisoformat : String → Result Instant)
    (reads : (at : Instant) → fromisoformat (isoformat at) ≡ ok at) {T : Type 0}
    (table : Table T CustomerRow (λ r. r.customer_id)) where
  get_named :
      (k : String) (c : Customer) (s : T)
      → get isoformat fromisoformat table k s ≡ ok c
      → c.customer_id ≡ k
  unfolding found_row
  get_named k c s h = elim (Option-cases (table.at k s)) [
    | inl absent ↦
        absurd (ground (arith, absent, h, get_found isoformat fromisoformat reads table k s))
    | inr (r, there) ↦
        read_key isoformat fromisoformat reads table r c
          (ground (arith, there, h, get_found isoformat fromisoformat reads table k s))
        ∙ table.at-key k s r there
  ]

  pub sql_customers-IsStore : IsStore (sql_customers isoformat fromisoformat table) (λ _. Unit)
  sql_customers-IsStore = record {
    named = λ k c s sound h. get_named k c s h;
    get-save = λ c j s t h. sql_customer_saved isoformat fromisoformat reads table c j s t h;
    get-update = λ c old j s t there made h.
        sql_customer_updated isoformat fromisoformat reads table c old j s t there h
        ∙ ap
            (λ at.
              if c.customer_id == j
              then ok (record c { created_at = at })
              else get isoformat fromisoformat table j s)
            (sym made);
    save-Sound = λ c s t sound h. tt;
    update-Sound = λ c s t sound h. tt;
  }
