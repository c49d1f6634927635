-- ===== src/Messaging/Rabbit.antt =====
-- src/infrastructure/messaging/rabbitmq_event_publisher.py and rabbitmq_blocking_publisher.py.
-- The broker's client (pika) is a parameter.
pub mod Laws
use service_order_os_service.Prelude.{Bool, String, List, [], ◌∷◌, ◌++◌, if◌then◌else◌}
use service_order_os_service.Prelude.Dict.{Dict}
use service_order_os_service.Exec.{Exec, ok, pure, lift, modify, gets, finally, ◌>>=◌, ◌>>◌}
use service_order_os_service.Json.{Json}
use service_order_os_service.Domain.Event.{DomainEvent, Instant}
use service_order_os_service.Messaging.Contracts.{event_to_message}
use service_order_os_service.App.Ports.{PublisherPort}

-- What the program calls of a connection to the broker, over the broker's state.
pub record Broker (C : Type 0) : Type 0 where
  pub connect : String → Exec C (Unit {0})
  pub exchange_declare : String → Exec C (Unit {0})
  pub queue_declare : String → Exec C (Unit {0})
  pub queue_bind : String → String → String → Exec C (Unit {0})
  pub basic_publish : String → String → String → Exec C (Unit {0})
  pub is_open : C → Bool
  pub close : Exec C (Unit {0})

pub record BlockingPublisher (C : Type 0) : Type 0 where
  pub messages : List (Dict Json)
  pub broker : C

-- `RabbitMqEventPublisherSettings`, and the connection's address and queue
pub record Target : Type 0 where
  pub url : String
  pub exchange : String
  pub routing_key : String
  pub queue : String

abbrev on_broker : {C A : Type 0} → Exec C A → Exec (BlockingPublisher C) A
on_broker m p = let (r, c) = m p.broker in (r, record p { broker = c })

-- `dumps` is `json.dumps(message, separators=(",", ":"))`.
module _ (show : Json → String) (isoformat : Instant → String) (dumps : Dict Json → String) where
  module _ {C : Type 0} (b : Broker C) (t : Target) where
    -- `RabbitMqEventPublisher.publish`
    unfoldable pub channel_publish : DomainEvent → Exec C (Unit {0})
    channel_publish e = do
      message ← lift (event_to_message show isoformat e)
      b.basic_publish t.exchange t.routing_key (dumps message)

    -- `_build_publisher`
    unfoldable pub build_publisher : Exec C (Unit {0})
    build_publisher = do
      b.connect t.url
      b.exchange_declare t.exchange
      b.queue_declare t.queue
      b.queue_bind t.exchange t.queue t.routing_key

    -- `RabbitMqBlockingEventPublisher.publish`, under its lock
    unfoldable pub publish : DomainEvent → Exec (BlockingPublisher C) (Unit {0})
    unfolding channel_publish build_publisher
    publish e = do
      on_broker build_publisher
      finally
          (do
            on_broker (channel_publish e)
            message ← lift (event_to_message show isoformat e)
            modify (λ p. record p { messages = p.messages ++ message ∷ [] }))
          (λ p. if b.is_open p.broker then on_broker b.close p else (ok tt, p))

    abbrev pub blocking_publisher : PublisherPort (BlockingPublisher C)
    blocking_publisher = record { publish = publish }

unfoldable pub published_messages : {C : Type 0} → Exec (BlockingPublisher C) (List (Dict Json))
published_messages = gets (λ p. p.messages)

unfoldable pub drain : {C : Type 0} → Exec (BlockingPublisher C) (List (Dict Json))
drain = do
  messages ← gets (λ p. p.messages)
  modify (λ p. record p { messages = [] })
  pure messages
