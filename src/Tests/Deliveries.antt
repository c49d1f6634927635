-- ===== src/Tests/Deliveries.antt =====
-- Deliveries of the broker at the worker.
use service_order_os_service.Prelude.{
  Bool, true, false, String, List, [], ◌∷◌, ◌≡◌, refl, ◌==◌, if◌then◌else◌,
}
use service_order_os_service.Prelude.Dict.{Dict, lookup, insert}
use service_order_os_service.Exec.{Result, ok, err, value_error}
use service_order_os_service.Json.{Json, obj, entries, of_entries}
use service_order_os_service.Domain.Order.Base.{ServiceOrder, mark_quote_approved}
use service_order_os_service.App.Saga.Base
use service_order_os_service.App.Saga.Base.{apply, dispatch, order_id_of}
use service_order_os_service.App.EventHandler.{HandlerState, handle, handle_new, dict_of}
use service_order_os_service.Config.Runtime.{WorkerConfig}
use service_order_os_service.Memory.Orders
use service_order_os_service.Memory.Orders.{memory_orders}
use service_order_os_service.Memory.Items.{get_item}
use service_order_os_service.Memory.Processed.{memory_processed, is_processed, mark_processed}
use service_order_os_service.Messaging.Contracts.{
  event_to_message, validate_event_message, contains,
}
use service_order_os_service.Messaging.Memory.{MemoryPublisher, memory_publisher, publish}
use service_order_os_service.Messaging.Worker.{Site, read_message, as_message}
use service_order_os_service.Messaging.Process.{
  Client, Delivery, deliver, main, build_worker, bind_all,
}
use service_order_os_service.Messaging.Process.Laws.{handled, later, redelivered, main_closes}
use service_order_os_service.Tests.Data.{plain, iso, draw, approval_message, readers, handler_state}

-- A connection, by whether it is open.
abbrev client : Client Bool
client = record {
  channel = record { basic_ack = λ tag c. (ok tt, c); basic_nack = λ tag requeue c. (ok tt, c) };
  connect = λ url c. (ok tt, true);
  exchange_declare = λ name c. (ok tt, c);
  queue_declare = λ name c. (ok tt, c);
  queue_bind = λ exchange queue key c. (ok tt, c);
  basic_qos = λ n c. (ok tt, c);
  basic_consume = λ queue c. (ok tt, c);
  stopped = λ c. (ok tt, c);
  is_open = λ c. c;
  close = λ c. (ok tt, false);
}

abbrev loads : String → Result Json
loads body =
    if body == "approval" then ok (obj (of_entries approval_message)) else err (value_error body)

abbrev delivery : String → String → Delivery
delivery tag body = record { tag = tag; body = body; first = draw 6 "e-2"; second = draw 7 "e-3" }

abbrev State : Type 0
State = HandlerState (Dict ServiceOrder) MemoryPublisher (List String)

abbrev site : Site Bool State
site = record { channel = true; handler = handler_state }

-- What follows the first delivery of the approval.
abbrev others : List Delivery
others = delivery "2" "noise" ∷ []

abbrev afterwards : Site Bool State
afterwards =
    later loads client readers memory_orders (memory_publisher plain iso) memory_processed
      (delivery "1" "approval") others site

redelivered_example :
    (deliver readers.show loads client
      (λ d d' m. handle readers memory_orders (memory_publisher plain iso) memory_processed m d d')
      (delivery "3" "approval")
      afterwards).1
    ≡ record { channel = afterwards.channel; handler = afterwards.handler }
unfolding read_message as_message validate_event_message handle handle_new dict_of entries
    Base.execute apply Base.conclude Base.publish_next publish event_to_message Orders.save
    Orders.get get_item insert lookup dispatch is_processed mark_processed order_id_of of_entries
    mark_quote_approved contains
redelivered_example =
    redelivered loads client readers memory_orders (memory_publisher plain iso) memory_processed
      (delivery "1" "approval") others site (delivery "3" "approval")
      (handled loads client readers memory_orders (memory_publisher plain iso) memory_processed
        (delivery "1" "approval") handler_state).1
      "processed" (λ c. refl) refl refl

abbrev config : WorkerConfig
config = record {
  url = "amqp://";
  exchange = "events";
  queue = "os";
  routing_keys = "billing" ∷ [];
}

main_closes_example :
    (main plain loads client
      (λ d d' m. handle readers memory_orders (memory_publisher plain iso) memory_processed m d d')
      config
      others
      site).1.channel
    ≡ false
unfolding build_worker bind_all
main_closes_example =
    main_closes plain loads client
      (λ d d' m. handle readers memory_orders (memory_publisher plain iso) memory_processed m d d')
      config others site refl (λ c. refl)
