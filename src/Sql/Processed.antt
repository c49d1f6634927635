-- ===== src/Sql/Processed.antt =====
-- `SqlAlchemyProcessedEventRepository` of
-- src/infrastructure/repositories/processed_event_repositories.py.
pub mod Laws
use service_order_os_service.Prelude.{
  Bool, true, false, String, Option, none, some, List, [], ◌∷◌, ◌==◌,
}
use service_order_os_service.Exec.{Exec, Result, ok, err, other_error}
use service_order_os_service.Domain.Event.{Instant}
use service_order_os_service.Sql.Table.{Table}

-- The table `processed_events`.
pub record EventRow : Type 0 where
  pub event_id : String
  pub event_type : String
  pub correlation_id : String
  pub processed_at : Instant

-- `scalar_one_or_none() is not None`, which refuses more than one row
unfoldable pub one_or_none : List EventRow → Result Bool
one_or_none [] = ok false
one_or_none (r ∷ []) = ok true
one_or_none (r ∷ r' ∷ rs) =
    err (other_error "Multiple rows were found when one or none was required")

module _ {T : Type 0} (table : Table T EventRow (λ r. r.event_id)) where
  unfoldable pub is_processed : String → T → Result Bool
  unfolding one_or_none
  is_processed event_id s = one_or_none (table.select (λ r. r.event_id == event_id) s)

  -- What `mark_processed` does, given whether the event is processed; `now` is `datetime.now(UTC)`.
  unfoldable pub mark_unless : Result Bool → Instant → String → String → String → Exec T (Unit {0})
  mark_unless (err x) now event_id event_type correlation_id s = (err x, s)
  mark_unless (ok true) now event_id event_type correlation_id s = (ok tt, s)
  mark_unless (ok false) now event_id event_type correlation_id s =
      table.insert
        (record {
          event_id = event_id;
          event_type = event_type;
          correlation_id = correlation_id;
          processed_at = now;
        })
        s

  unfoldable pub mark_processed : Instant → String → String → String → Exec T (Unit {0})
  unfolding mark_unless
  mark_processed now event_id event_type correlation_id s =
      mark_unless (is_processed event_id s) now event_id event_type correlation_id s
