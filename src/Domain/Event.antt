-- ===== src/Domain/Event.antt =====
-- src/domain/events.py
use service_order_os_service.Prelude.{ℕ, String, [], ◌∷◌}
use service_order_os_service.Prelude.Dict.{Dict}
use service_order_os_service.Json.{Json, str, obj, of_entries}

-- A `datetime` in UTC, in microseconds. The program only stores it and prints it.
abbrev pub Instant : Type 0
Instant = ℕ

pub record DomainEvent : Type 0 where
  pub event_type : String
  pub correlation_id : String
  pub payload : Dict Json
  pub event_id : String
  pub occurred_at : Instant

-- What a new event draws: `uuid4()` and `datetime.now(UTC)`.
pub record Stamp : Type 0 where
  pub event_id : String
  pub occurred_at : Instant

-- `DomainEvent.to_message`; `isoformat` is that of `datetime`.
unfoldable pub to_message : (Instant → String) → DomainEvent → Dict Json
to_message isoformat e =
    ("event_id", str e.event_id)
    ∷ ("event_type", str e.event_type)
    ∷ ("correlation_id", str e.correlation_id)
    ∷ ("occurred_at", str (isoformat e.occurred_at))
    ∷ ("payload", obj (of_entries e.payload))
    ∷ []
