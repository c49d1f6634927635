-- ===== src/Tests/Saga.antt =====
-- Orders, the saga and its messages.
use service_order_os_service.Prelude.{
  true, String, some, List, [], ◌∷◌, length, ◌++◌, arith, ◌≡◌, refl, ◌≤◌, eq_iff, subst,
}
use service_order_os_service.Prelude.Dict.{Dict, lookup, insert}
use service_order_os_service.Exec.{ok, is_value_error, key_error}
use service_order_os_service.Json.{str, entries, of_entries}
use service_order_os_service.Domain.Event.{DomainEvent}
use service_order_os_service.Domain.Order.Base.{Status, ServiceOrder, mark_quote_approved}
use service_order_os_service.Domain.Order.Spec.{Action, ahead}
use service_order_os_service.Domain.Order.Methods.{perform, Refines, perform-Refines}
use service_order_os_service.Domain.Order.Safe.{IsTraced}
use service_order_os_service.App.Saga.Base
use service_order_os_service.App.Saga.Base.{apply, order_id_of, dispatch}
use service_order_os_service.App.Saga.Spec.{Kind}
use service_order_os_service.App.Saga.Laws.{is_outgoing, apply_emits}
use service_order_os_service.App.Saga.Execute.{IsSound, execute_others}
use service_order_os_service.App.Saga.Advance.{execute_advances, execute_refuses}
use service_order_os_service.App.System.{Reach, Step, Reach-history}
use service_order_os_service.App.EventHandler.{handle, handle_new, dict_of, HandlerState}
use service_order_os_service.App.EventHandler.Once.{handle_once, handle_failed}
use service_order_os_service.Memory.Orders
use service_order_os_service.Memory.Orders.{memory_orders}
use service_order_os_service.Memory.Items.{get_item}
use service_order_os_service.Memory.Processed.{memory_processed, is_processed, mark_processed}
use service_order_os_service.Messaging.Contracts.{event_to_message, contains}
use service_order_os_service.Messaging.Memory.{MemoryPublisher, memory_publisher, publish}
use service_order_os_service.Messaging.Memory.Laws.{memory-Responds}
use service_order_os_service.Tests.Data.{
  plain, iso, draw, quoting, quoting_world, approval, completion, approval_message, readers,
  handler_state,
}

-- The repository with one order is sound.
pub quoting-IsSound : IsSound memory_orders quoting_world.orders
unfolding Orders.get get_item lookup
quoting-IsSound = record {
  traced = λ j o g. ground (arith, quoting_traced o);
  keyed = λ j o g. ground (arith, eq_iff "os-1" j);
}
  where
    quoting_traced : (o : ServiceOrder) → quoting ≡ o → IsTraced o
    quoting_traced o e = subst IsTraced e (refl, (ahead refl, refl))

approving :
    Step memory_orders
      (memory_publisher plain iso)
      plain
      quoting_world
      (Base.execute memory_orders
        (memory_publisher plain iso)
        plain
        approval
        (draw 6 "e-2")
        (draw 7 "e-3")
        quoting_world).1
approving = Step.handles approval (draw 6 "e-2") (draw 7 "e-3") refl

execute_advances_example :
    (o : ServiceOrder) × ((Base.execute memory_orders
        (memory_publisher plain iso)
        plain
        approval
        (draw 6 "e-2")
        (draw 7 "e-3")
        quoting_world).0
      ≡ ok o)
    × (o.status ≡ Status.quote_approved)
    × (memory_orders.get o.service_order_id
          (Base.execute memory_orders
            (memory_publisher plain iso)
            plain
            approval
            (draw 6 "e-2")
            (draw 7 "e-3")
            quoting_world).1.orders
        ≡ ok o)
unfolding lookup order_id_of Orders.get get_item
execute_advances_example =
    execute_advances memory_orders (memory_publisher plain iso) plain approval (draw 6 "e-2")
      (draw 7 "e-3") quoting_world quoting Kind.quote_approved Status.quote_approved refl refl refl
      refl (memory-Responds plain iso)

execute_refuses_example :
    (is_value_error
        (Base.execute memory_orders
          (memory_publisher plain iso)
          plain
          completion
          (draw 6 "e-2")
          (draw 7 "e-3")
          quoting_world).0
      ≡ true)
    × ((Base.execute memory_orders
          (memory_publisher plain iso)
          plain
          completion
          (draw 6 "e-2")
          (draw 7 "e-3")
          quoting_world).1
        ≡ quoting_world)
unfolding lookup order_id_of Orders.get get_item
execute_refuses_example =
    execute_refuses memory_orders (memory_publisher plain iso) plain completion (draw 6 "e-2")
      (draw 7 "e-3") quoting_world quoting Kind.execution_completed refl refl refl refl

perform-Refines_example :
    Refines
      (some Status.quote_approved)
      "Quote approved"
      (draw 6 "e-2")
      quoting
      (perform (Action.approve_quote "q-1") (draw 6 "e-2") quoting)
perform-Refines_example = perform-Refines (Action.approve_quote "q-1") (draw 6 "e-2") quoting

execute_others_example :
    memory_orders.get "os-2"
      (Base.execute memory_orders
        (memory_publisher plain iso)
        plain
        approval
        (draw 6 "e-2")
        (draw 7 "e-3")
        quoting_world).1.orders
    ≡ memory_orders.get "os-2" quoting_world.orders
unfolding lookup order_id_of
execute_others_example =
    execute_others memory_orders (memory_publisher plain iso) plain approval (draw 6 "e-2")
      (draw 7 "e-3") quoting_world "os-2" quoting-IsSound refl

-- The order once its quote is approved.
abbrev approved : ServiceOrder
approved = record quoting {
  status = Status.quote_approved;
  history =
      quoting.history
      ++ record { status = Status.quote_approved; reason = "Quote approved"; created_at = 6 } ∷ [];
}

approved_stored :
    memory_orders.get "os-1"
      (Base.execute memory_orders
        (memory_publisher plain iso)
        plain
        approval
        (draw 6 "e-2")
        (draw 7 "e-3")
        quoting_world).1.orders
    ≡ ok approved
unfolding Base.execute apply Base.conclude Base.publish_next publish event_to_message Orders.save
    Orders.get get_item insert lookup dispatch order_id_of mark_quote_approved contains
approved_stored = refl

Reach-history_example :
    IsTraced approved × (approved.service_order_id ≡ "os-1") × (length approved.history ≤ 8)
Reach-history_example =
    Reach-history memory_orders (memory_publisher plain iso) plain quoting_world
      (Base.execute memory_orders (memory_publisher plain iso) plain approval (draw 6 "e-2")
        (draw 7 "e-3") quoting_world).1
      "os-1" approved (Reach.next Reach.here approving) quoting-IsSound approved_stored

abbrev approval_event : DomainEvent
approval_event = record {
  event_type = "QUOTE_APPROVED";
  correlation_id = "os-1";
  payload = ("service_order_id", str "os-1") ∷ ("quote_id", str "q-1") ∷ [];
  event_id = "e-2";
  occurred_at = 6;
}

apply_emits_example : (is_outgoing "QUOTE_APPROVED" ≡ true) × ("os-1" ≡ quoting.service_order_id)
unfolding apply dispatch mark_quote_approved lookup
apply_emits_example =
    apply_emits plain approval (draw 6 "e-2") (draw 7 "e-3") quoting {ev = approval_event} refl

-- The handler's state after the message.
abbrev handled_state : HandlerState (Dict ServiceOrder) MemoryPublisher (List String)
handled_state =
    (handle readers memory_orders (memory_publisher plain iso) memory_processed approval_message
      (draw 6 "e-2") (draw 7 "e-3") handler_state).1

handle_once_example :
    handle readers memory_orders
      (memory_publisher plain iso)
      memory_processed
      approval_message
      (draw 8 "e-4")
      (draw 9 "e-5")
      handled_state
    ≡ (ok "skipped", handled_state)
unfolding handle handle_new dict_of entries Base.execute apply Base.conclude Base.publish_next
    publish event_to_message Orders.save Orders.get get_item insert lookup dispatch is_processed
    mark_processed order_id_of of_entries mark_quote_approved contains
handle_once_example =
    handle_once readers memory_orders (memory_publisher plain iso) memory_processed approval_message
      (draw 6 "e-2") (draw 7 "e-3") (draw 8 "e-4") (draw 9 "e-5") handler_state handled_state
      "processed" refl

-- A message without an identifier.
handle_failed_example :
    (handle readers memory_orders
      (memory_publisher plain iso)
      memory_processed
      []
      (draw 6 "e-2")
      (draw 7 "e-3")
      handler_state).1.processed
    ≡ handler_state.processed
unfolding handle lookup
handle_failed_example =
    handle_failed readers memory_orders (memory_publisher plain iso) memory_processed []
      (draw 6 "e-2") (draw 7 "e-3") handler_state (key_error "event_id") refl
