-- ===== src/App/EventHandler.antt =====
-- src/application/event_handlers.py: `ServiceOrderSagaEventHandler`.
pub mod Once
pub mod Ledger
use service_order_os_service.Prelude.{Bool, true, false, String, ◌≡◌, ◌==◌, if◌then◌else◌}
use service_order_os_service.Prelude.Dict.{Dict}
use service_order_os_service.Exec.{Exec, Result, ok, err, Exn, pure, lift, ◌>>=◌, ◌>>◌}
use service_order_os_service.Json.{Json, obj, entries}
use service_order_os_service.Domain.Event.{DomainEvent, Instant}
use service_order_os_service.Domain.Order.Base.{Draw}
use service_order_os_service.Messaging.Contracts.{item}
use service_order_os_service.App.Ports.{OrderPort, PublisherPort, World}
use service_order_os_service.App.Saga.Base.{execute}

-- `ProcessedEventRepositoryPort`
pub record ProcessedPort (R : Type 0) : Type 0 where
  pub is_processed : String → R → Result Bool
  pub mark_processed : String → String → String → Exec R (Unit {0})
  pub processed-mark :
      (i t c j : String) (r r' : R)
      → mark_processed i t c r ≡ (ok tt, r')
      → is_processed j r' ≡ (if i == j then ok true else is_processed j r)
  pub mark_atomic :
      (i t c : String) (x : Exn) (r r' : R) → mark_processed i t c r ≡ (err x, r') → r' ≡ r

-- `if self._processed_events.is_processed(event_id): return "skipped"`
abbrev pub unless : {H : Type 0} → Bool → Exec H String → Exec H String
unless true m h = (ok "skipped", h)
unless false m h = m h

-- What the handler changes.
pub record HandlerState (S P R : Type 0) : Type 0 where
  pub world : World S P
  pub processed : R

module _ {S P R A : Type 0} where
  abbrev pub on_world : Exec (World S P) A → Exec (HandlerState S P R) A
  on_world m h = let (r, w) = m h.world in (r, record h { world = w })

  abbrev pub on_processed : Exec R A → Exec (HandlerState S P R) A
  on_processed m h = let (r, p) = m h.processed in (r, record h { processed = p })

-- The parts of Python that the handler calls: `str`, `datetime.fromisoformat`, and `dict` on a value
-- that is no object.
pub record Readers : Type 0 where
  pub show : Json → String
  pub fromisoformat : String → Result Instant
  pub dict_of_other : Json → Result (Dict Json)

-- `dict(message["payload"])`
unfoldable pub dict_of : Readers → Json → Result (Dict Json)
dict_of py (obj fs) = ok (entries fs)
dict_of py v = py.dict_of_other v

module _ {S P R : Type 0} (py : Readers) (port : OrderPort S) (publisher : PublisherPort P)
    (ledger : ProcessedPort R) where
  -- The handling of an event that has not been processed.
  unfoldable pub handle_new :
      Dict Json → String → String → String → Draw → Draw → Exec (HandlerState S P R) String
  unfolding dict_of
  handle_new message event_id event_type correlation_id d d' = do
    written ← lift (item "occurred_at" message)
    occurred_at ← lift (py.fromisoformat (py.show written))
    value ← lift (item "payload" message)
    payload ← lift (dict_of py value)
    on_world (
        execute port publisher py.show
          (record {
            event_type = event_type;
            correlation_id = correlation_id;
            payload = payload;
            event_id = event_id;
            occurred_at = occurred_at;
          })
          d d')
    on_processed (ledger.mark_processed event_id event_type correlation_id)
    pure "processed"

  -- `handle`
  unfoldable pub handle : Dict Json → Draw → Draw → Exec (HandlerState S P R) String
  handle message d d' = do
    event_id ← lift (item "event_id" message)
    event_type ← lift (item "event_type" message)
    correlation_id ← lift (item "correlation_id" message)
    done ← (λ h. (ledger.is_processed (py.show event_id) h.processed, h))
    unless done
        (handle_new message (py.show event_id) (py.show event_type) (py.show correlation_id) d d')
