-- ===== src/Messaging/Memory/Laws.antt =====
-- The publisher in memory, as what the use cases ask of a publisher.
use Prim.Native.String.{◌++◌ as ◌+++◌}
use service_order_os_service.Prelude.{
  Bool, true, false, String, [], ◌∷◌, ◌++◌, ◌≡◌, refl, arith, ◌==◌, ◌||◌, if◌then◌else◌,
}
use service_order_os_service.Prelude.Dict.{Dict}
use service_order_os_service.Exec.{ok, err, value_error, is_ok}
use service_order_os_service.Json.{Json}
use service_order_os_service.Domain.Event.{DomainEvent, Instant, to_message}
use service_order_os_service.Domain.Order.Base.{ServiceOrder}
use service_order_os_service.App.Saga.Laws.{is_outgoing}
use service_order_os_service.App.Saga.Advance.{Responds}
use service_order_os_service.Memory.Orders
use service_order_os_service.Memory.Orders.{memory_orders}
use service_order_os_service.Messaging.Contracts.{
  event_to_message_lem, contains, contains-of_eq, integration_event_types,
}
use service_order_os_service.Messaging.Memory.{MemoryPublisher, publish, memory_publisher}

-- The error's text.
abbrev pub unsupported : String → String
unsupported t = "Unsupported event type: " +++ t

listed :
    (t u : String)
    → contains integration_event_types u ≡ true
    → (t == u) ≡ true
    → contains integration_event_types t ≡ true
listed t u h e = contains-of_eq integration_event_types t u e h

either : (a b : Bool) {Q : Type 0} → (a ≡ true → Q) → (b ≡ true → Q) → (a || b) ≡ true → Q
either true b p q h = p refl
either false b p q h = q h

outgoing_contained : (t : String) → is_outgoing t ≡ true → contains integration_event_types t ≡ true
unfolding contains
outgoing_contained t =
    either _ _
      (either _ _
        (either _ _
          (either _ _
            (either _ _ (listed t "QUOTE_APPROVED" refl) (listed t "PAYMENT_PENDING" refl))
            (listed t "EXECUTION_REQUESTED" refl))
          (listed t "EXECUTION_STARTED" refl))
        (listed t "OS_COMPLETED" refl))
      (listed t "OS_COMPENSATION_REQUIRED" refl)

module _ (show : Json → String) (isoformat : Instant → String) where
  -- Publishing an event of a type of the contract keeps the event and its message, each after those
  -- that were there; publishing any other keeps the event alone, and raises.
  pub publish_outcome :
      (e : DomainEvent) (p : MemoryPublisher)
      → publish show isoformat e p ≡ (
          if contains integration_event_types e.event_type
          then (
            ok tt,
            record {
              events = p.events ++ e ∷ [];
              messages = p.messages ++ to_message isoformat e ∷ [];
            },
          )
          else (
            err (value_error (unsupported e.event_type)),
            record p { events = p.events ++ e ∷ [] },
          ))
  unfolding publish
  publish_outcome e p = rw (event_to_message_lem show isoformat e) (ground arith)

  save_returns :
      (o : ServiceOrder) (s : Dict ServiceOrder) → is_ok (memory_orders.save o s).0 ≡ true
  unfolding Orders.save
  save_returns o s = refl

  -- The adapters in memory return: every order is saved, and every event that the saga emits is of a
  -- type that the contract lists, so that publishing it returns.
  pub memory-Responds : Responds memory_orders (memory_publisher show isoformat)
  memory-Responds = record {
    saves = λ o s. save_returns o s;
    publishes = λ e p h. rw (publish_outcome e p) (rw (outgoing_contained e.event_type h) refl);
  }
