-- ===== src/App/Saga/Base.antt =====
-- `HandleSagaEventUseCase` of src/application/use_cases.py.
use Prim.Native.String.{◌++◌}
use service_order_os_service.Prelude.{Option, none, some, String, ◌==◌, if◌then◌else◌}
use service_order_os_service.Prelude.Dict.{lookup}
use service_order_os_service.Exec.{
  Exec, Result, ok, err, value_error, key_error, pure, raise, lift, ◌>>=◌, ◌>>◌,
}
use service_order_os_service.Json.{Json, truthy}
use service_order_os_service.Domain.Event.{DomainEvent}
use service_order_os_service.Domain.Order.Base.{
  quote_failed, payment_failed, execution_enqueue_failed, execution_failed, ServiceOrder, Draw,
  mark_quote_approved, mark_payment_pending, mark_payment_confirmed, request_execution,
  mark_execution_started, complete, fail,
}
use service_order_os_service.App.Ports.{OrderPort, PublisherPort, World, on_orders, on_events}

-- A call that returns an event, where the caller may return none.
abbrev pub emit : {S A : Type 0} → Exec S A → Exec S (Option A)
emit m = m >>= λ e. pure (some e)

-- `show` is Python's `str` on the values of a payload.
module _ (show : Json → String) where
  -- `str(event.payload[key])`
  unfoldable pub text_at : String → DomainEvent → Result String
  text_at key e = elim (lookup key e.payload) [ none ↦ err (key_error key) | some v ↦ ok (show v) ]

  -- `str(event.payload.get("service_order_id") or event.correlation_id)`
  unfoldable pub order_id_of : DomainEvent → String
  order_id_of e = elim (lookup "service_order_id" e.payload) [
    | none ↦ e.correlation_id
    | some v ↦ if truthy v then show v else e.correlation_id
  ]

  -- The chain of tests of `_apply`, on the event's type. Confirming a payment makes two transitions,
  -- and draws twice.
  unfoldable pub dispatch :
      String → DomainEvent → Draw → Draw → Exec ServiceOrder (Option DomainEvent)
  unfolding text_at
  dispatch kind e d d' o =
      if kind == "QUOTE_CREATED"
      then pure none o
      else if kind == "QUOTE_APPROVED"
      then (do quote_id ← lift (text_at "quote_id" e); emit (mark_quote_approved quote_id d)) o
      else if kind == "PAYMENT_PREFERENCE_CREATED"
      then (do payment_id ← lift (text_at "payment_id" e); emit (mark_payment_pending payment_id d))
          o
      else if kind == "PAYMENT_CONFIRMED"
      then (do
        payment_id ← lift (text_at "payment_id" e)
        mark_payment_confirmed payment_id d
        emit (request_execution d'))
          o
      else if kind == "EXECUTION_STARTED"
      then emit (mark_execution_started d) o
      else if kind == "EXECUTION_COMPLETED"
      then emit (complete d) o
      else if kind == "QUOTE_FAILED"
      then emit (fail quote_failed "Quote creation failed" d) o
      else if kind == "PAYMENT_FAILED"
      then emit (fail payment_failed "Payment failed" d) o
      else if kind == "EXECUTION_ENQUEUE_FAILED"
      then emit (fail execution_enqueue_failed "Execution enqueue failed" d) o
      else if kind == "EXECUTION_FAILED"
      then emit (fail execution_failed "Execution failed" d) o
      else raise (value_error ("Unsupported saga event: " ++ kind)) o

  -- `_apply`
  unfoldable pub apply : DomainEvent → Draw → Draw → Exec ServiceOrder (Option DomainEvent)
  apply e d d' = dispatch e.event_type e d d'

module _ {S P : Type 0} (port : OrderPort S) (publisher : PublisherPort P) where
  -- `if next_event is not None: self._publisher.publish(next_event)`
  unfoldable pub publish_next : Option DomainEvent → Exec (World S P) (Unit {0})
  publish_next none = pure tt
  publish_next (some e) = on_events (publisher.publish e)

  -- What follows `_apply`, on the order as it left it.
  unfoldable pub conclude :
      ServiceOrder → Result (Option DomainEvent) → Exec (World S P) ServiceOrder
  unfolding publish_next
  conclude o (err x) = raise x
  conclude o (ok following) = do on_orders (port.save o); publish_next following; pure o

  module _ (show : Json → String) where
    -- `execute`. The order that `get` returned keeps what `_apply` wrote, also when that raises.
    unfoldable pub execute : DomainEvent → Draw → Draw → Exec (World S P) ServiceOrder
    execute e d d' w = elim (port.get (order_id_of show e) w.orders) [
      | err x ↦ (err x, w)
      | ok o ↦
          let (r, o') = apply show e d d' o in
          conclude o' r (record w { orders = port.written (order_id_of show e) o' w.orders })
    ]
