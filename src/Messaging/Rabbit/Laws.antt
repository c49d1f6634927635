-- ===== src/Messaging/Rabbit/Laws.antt =====
-- `RabbitMqBlockingEventPublisher.publish` of
-- src/infrastructure/messaging/rabbitmq_blocking_publisher.py.
use service_order_os_service.Prelude.{
  true, false, String, [], ◌∷◌, ◌++◌, ◌≡◌, arith, ◌&&◌, if◌then◌else◌,
}
use service_order_os_service.Prelude.Dict.{Dict}
use service_order_os_service.Exec.{is_ok}
use service_order_os_service.Json.{Json}
use service_order_os_service.Domain.Event.{DomainEvent, Instant, to_message}
use service_order_os_service.Messaging.Contracts.{event_to_message_lem}
use service_order_os_service.Messaging.Rabbit.{
  Broker, Target, BlockingPublisher, build_publisher, channel_publish, publish,
}

module _ (show : Json → String) (isoformat : Instant → String) (dumps : Dict Json → String)
    {C : Type 0} (b : Broker C) (t : Target) (e : DomainEvent) (p : BlockingPublisher C) where
  -- Once the connection and its queue are set up, publishing leaves no open connection behind, whether
  -- it returns or raises: where closing a connection, also when that raises, leaves it closed.
  pub publish_closes :
      is_ok (build_publisher show isoformat dumps b t p.broker).0 ≡ true
      → ((c : C) → b.is_open (b.close c).1 ≡ false)
      → b.is_open (publish show isoformat dumps b t e p).1.broker ≡ false
  unfolding publish
  publish_closes built closes =
      let c = (build_publisher show isoformat dumps b t p.broker).1 in
      ground (arith, closes c, closes (channel_publish show isoformat dumps b t e c).1)

  -- The list of published messages grows by the event's message exactly when the set-up and the
  -- publishing over the channel return; else it stays as it was, also where the call raises.
  pub publish_records : (publish show isoformat dumps b t e p).1.messages ≡ (
      if is_ok (build_publisher show isoformat dumps b t p.broker).0
        && is_ok
            (channel_publish show isoformat dumps b t e
              (build_publisher show isoformat dumps b t p.broker).1).0
      then p.messages ++ to_message isoformat e ∷ []
      else p.messages)
  unfolding publish channel_publish
  publish_records = rw (event_to_message_lem show isoformat e) (ground arith)
