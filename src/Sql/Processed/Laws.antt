-- ===== src/Sql/Processed/Laws.antt =====
-- The ledger of processed events over SQL as what the event handler asks of one.
use service_order_os_service.Prelude.{
  true, String, is_some, arith, ◌≡◌, ◌==◌, eq_iff, if◌then◌else◌,
}
use service_order_os_service.Exec.{Exn, ok, err}
use service_order_os_service.Domain.Event.{Instant}
use service_order_os_service.App.EventHandler.{ProcessedPort}
use service_order_os_service.Sql.Table.{Table}
use service_order_os_service.Sql.Processed.{
  EventRow, one_or_none, is_processed, mark_unless, mark_processed,
}

module _ {T : Type 0} (table : Table T EventRow (λ r. r.event_id)) (now : Instant) where
  processed_at : (j : String) (s : T) → is_processed table j s ≡ ok (is_some (table.at j s))
  unfolding is_processed one_or_none
  processed_at j s = rw (table.select_key j s) (ground arith)

  -- Marking an event that returns makes it processed, also where it was marked before, and leaves every
  -- other event as it was.
  pub sql_marked :
      (i t c j : String) (r r' : T)
      → mark_processed table now i t c r ≡ (ok tt, r')
      → is_processed table j r' ≡ (if i == j then ok true else is_processed table j r)
  unfolding mark_processed mark_unless
  sql_marked i t c j r r' e =
      rw (processed_at j r', processed_at j r)
        (ground (
          arith,
          processed_at i r,
          eq_iff i j,
          table.at-insert
              (record { event_id = i; event_type = t; correlation_id = c; processed_at = now }) j r
              r',
        ))

  pub sql_mark_atomic :
      (i t c : String) (x : Exn) (r r' : T)
      → mark_processed table now i t c r ≡ (err x, r')
      → r' ≡ r
  unfolding mark_processed mark_unless
  sql_mark_atomic i t c x r r' e = ground (
    arith,
    table.insert_atomic
        (record { event_id = i; event_type = t; correlation_id = c; processed_at = now }) x r r',
  )

  -- With the time at which it marks.
  abbrev pub sql_processed : ProcessedPort T
  sql_processed = record {
    is_processed = is_processed table;
    mark_processed = mark_processed table now;
    processed-mark = sql_marked;
    mark_atomic = sql_mark_atomic;
  }
