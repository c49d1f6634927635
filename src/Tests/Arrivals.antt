-- ===== src/Tests/Arrivals.antt =====
-- Sequences of saga events, up to the completion of an order.
use service_order_os_service.Prelude.{String, List, [], ◌∷◌, ◌+◌, ◌≤◌, ◌≡◌, refl}
use service_order_os_service.Prelude.Dict.{lookup}
use service_order_os_service.Exec.{ok}
use service_order_os_service.Json.{str}
use service_order_os_service.Domain.Order.Base.{Status, ServiceOrder}
use service_order_os_service.Domain.Order.Spec.{rank}
use service_order_os_service.App.Saga.Base.{order_id_of}
use service_order_os_service.App.Saga.Complete.{
  Arrival, execute_all, saga_completes, changes, changes_bounded,
}
use service_order_os_service.Memory.Orders
use service_order_os_service.Memory.Orders.{memory_orders}
use service_order_os_service.Memory.Items.{get_item}
use service_order_os_service.Messaging.Memory.{memory_publisher}
use service_order_os_service.Messaging.Memory.Laws.{memory-Responds}
use service_order_os_service.Tests.Data.{plain, iso, draw, approval, quoting, quoting_world}
use service_order_os_service.Tests.Saga.{quoting-IsSound}

-- An event of the quote's approval, under another type.
abbrev arrival : String → String → Arrival
arrival event_type key = record {
  event = record approval { event_type = event_type; payload = (key, str "k-1") ∷ [] };
  first = draw 6 "e-2";
  second = draw 7 "e-3";
}

abbrev arrivals : List Arrival
arrivals =
    arrival "QUOTE_APPROVED" "quote_id"
    ∷ arrival "PAYMENT_PREFERENCE_CREATED" "payment_id"
    ∷ arrival "PAYMENT_CONFIRMED" "payment_id"
    ∷ arrival "EXECUTION_STARTED" "execution_id"
    ∷ arrival "EXECUTION_COMPLETED" "execution_id"
    ∷ []

saga_completes_example :
    (o : ServiceOrder) × (memory_orders.get "os-1"
        (execute_all plain memory_orders (memory_publisher plain iso) arrivals quoting_world).orders
      ≡ ok o)
    × (o.status ≡ Status.completed)
unfolding lookup order_id_of Orders.get get_item
saga_completes_example =
    saga_completes plain memory_orders (memory_publisher plain iso) "os-1" arrivals quoting_world
      quoting quoting-IsSound (memory-Responds plain iso) refl refl
      (
        refl,
        refl,
        refl,
        (refl, refl, refl, (refl, refl, refl, (refl, refl, refl, (refl, refl, refl, tt)))),
      )

changes_bounded_example : changes plain arrivals quoting + rank quoting.status ≤ 7
changes_bounded_example = changes_bounded plain arrivals quoting
