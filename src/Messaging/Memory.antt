-- ===== src/Messaging/Memory.antt =====
-- src/infrastructure/messaging/in_memory_event_publisher.py
pub mod Laws
use service_order_os_service.Prelude.{String, List, [], ◌∷◌, ◌++◌}
use service_order_os_service.Prelude.Dict.{Dict}
use service_order_os_service.Exec.{Exec, Result, ok, err, pure, lift, modify, gets, ◌>>=◌, ◌>>◌}
use service_order_os_service.Json.{Json}
use service_order_os_service.Domain.Event.{DomainEvent, Instant}
use service_order_os_service.Messaging.Contracts.{event_to_message}
use service_order_os_service.App.Ports.{PublisherPort}

pub record MemoryPublisher : Type 0 where
  pub events : List DomainEvent
  pub messages : List (Dict Json)

abbrev pub new_publisher : MemoryPublisher
new_publisher = record { events = []; messages = [] }

module _ (show : Json → String) (isoformat : Instant → String) where
  -- The event is kept before it is turned into a message, which may raise.
  unfoldable pub publish : DomainEvent → Exec MemoryPublisher (Unit {0})
  publish e = do
    modify (λ p. record p { events = p.events ++ e ∷ [] })
    message ← lift (event_to_message show isoformat e)
    modify (λ p. record p { messages = p.messages ++ message ∷ [] })

  abbrev pub memory_publisher : PublisherPort MemoryPublisher
  memory_publisher = record { publish = publish }

unfoldable pub published_messages : Exec MemoryPublisher (List (Dict Json))
published_messages = gets (λ p. p.messages)

unfoldable pub drain : Exec MemoryPublisher (List (Dict Json))
unfolding published_messages
drain = do
  messages ← published_messages
  modify (λ p. record { events = []; messages = [] })
  pure messages
