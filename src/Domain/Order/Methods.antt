-- ===== src/Domain/Order/Methods.antt =====
-- The methods of `ServiceOrder` against the state machine.
use service_order_os_service.Prelude.{arith, ◌≡◌, Option, none, some, String, true, ◌++◌, ◌∷◌, []}
use service_order_os_service.Exec.{Exec, Result, is_ok, is_value_error}
use service_order_os_service.Domain.Event.{DomainEvent}
use service_order_os_service.Domain.Order.Base.{
  Status, is_terminal, ServiceOrder, Draw, request_quote, mark_quote_approved, mark_payment_pending,
  mark_payment_confirmed, request_execution, mark_execution_started, complete, fail,
}
use service_order_os_service.Domain.Order.Spec.{
  Action, ask_quote, approve_quote, await_payment, confirm_payment, ask_execution, start_execution,
  finish, give_up, next,
}

-- The method that an action names.
unfoldable pub perform : Action → Draw → Exec ServiceOrder DomainEvent
unfolding request_quote mark_quote_approved mark_payment_pending mark_payment_confirmed
    request_execution mark_execution_started complete fail
perform ask_quote d = request_quote d
perform (approve_quote quote_id) d = mark_quote_approved quote_id d
perform (await_payment payment_id) d = mark_payment_pending payment_id d
perform (confirm_payment payment_id) d = mark_payment_confirmed payment_id d
perform ask_execution d = request_execution d
perform start_execution d = mark_execution_started d
perform finish d = complete d
perform (give_up target reason) d = fail target reason d

abbrev pub reason_of : Action → String
reason_of ask_quote = "Quote requested"
reason_of (approve_quote quote_id) = "Quote approved"
reason_of (await_payment payment_id) = "Payment preference created"
reason_of (confirm_payment payment_id) = "Payment confirmed"
reason_of ask_execution = "Execution requested"
reason_of start_execution = "Execution started"
reason_of finish = "Execution completed"
reason_of (give_up target reason) = reason

-- The order with its new status and one more entry at the end of its history.
abbrev pub moved : Status → String → Draw → ServiceOrder → ServiceOrder
moved target reason d o = record o {
  status = target;
  history =
      o.history ++ record { status = target; reason = reason; created_at = d.recorded_at } ∷ [];
}

-- What a call may do: move along and return an event of the order, or raise `ValueError` and leave
-- the order alone.
abbrev pub Refines :
    Option Status → String → Draw → ServiceOrder → Result DomainEvent × ServiceOrder → Type 0
Refines none reason d o (r, o') = (is_value_error r ≡ true) × (o' ≡ o)
Refines (some target) reason d o (r, o') = (is_ok r ≡ true) × (o' ≡ moved target reason d o)

-- Every method does what the state machine says: from a status that has a next one for this action
-- it returns, with the new status and one more history entry; from every other status it raises
-- `ValueError` and the order stays as it was.
pub perform-Refines :
    (a : Action) (d : Draw) (o : ServiceOrder)
    → Refines (next a o.status) (reason_of a) d o (perform a d o)
unfolding perform
perform-Refines ask_quote d o = ground arith
perform-Refines (approve_quote q) d o = ground arith
perform-Refines (await_payment p) d o = ground arith
perform-Refines (confirm_payment p) d o = ground arith
perform-Refines ask_execution d o = ground arith
perform-Refines start_execution d o = ground arith
perform-Refines finish d o = ground arith
perform-Refines (give_up t r) d o = ground arith

-- An order at an end stays there: every method raises and changes nothing.
pub perform_terminal :
    (a : Action) (d : Draw) (o : ServiceOrder)
    → is_terminal o.status ≡ true
    → (is_value_error (perform a d o).0 ≡ true) × ((perform a d o).1 ≡ o)
unfolding perform
perform_terminal ask_quote d o h = ground arith
perform_terminal (approve_quote q) d o h = ground arith
perform_terminal _ d o h = ground arith
