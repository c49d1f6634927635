-- ===== src/App/Saga/Spec.antt =====
-- What the saga is to do with an event, described apart from `_apply`.
use service_order_os_service.Prelude.{
  Bool, true, Option, none, some, String, ◌≡◌, is_some, if◌then◌else◌,
}
use service_order_os_service.Prelude.Dict.{lookup}
use service_order_os_service.Exec.{Result, is_ok, is_value_error}
use service_order_os_service.Domain.Event.{DomainEvent}
use service_order_os_service.Domain.Order.Base.{Status, is_terminal, ServiceOrder}

-- The event types that the saga handles.
pub data Kind : Type 0 where
  quote_created quote_approved payment_preference_created payment_confirmed execution_started : Kind
  execution_completed quote_failed payment_failed execution_enqueue_failed execution_failed : Kind

abbrev pub kind_text : Kind → String
kind_text Kind.quote_created = "QUOTE_CREATED"
kind_text Kind.quote_approved = "QUOTE_APPROVED"
kind_text Kind.payment_preference_created = "PAYMENT_PREFERENCE_CREATED"
kind_text Kind.payment_confirmed = "PAYMENT_CONFIRMED"
kind_text Kind.execution_started = "EXECUTION_STARTED"
kind_text Kind.execution_completed = "EXECUTION_COMPLETED"
kind_text Kind.quote_failed = "QUOTE_FAILED"
kind_text Kind.payment_failed = "PAYMENT_FAILED"
kind_text Kind.execution_enqueue_failed = "EXECUTION_ENQUEUE_FAILED"
kind_text Kind.execution_failed = "EXECUTION_FAILED"

-- The key that an event of the kind must carry, if any.
abbrev pub needed_key : Kind → Option String
needed_key Kind.quote_approved = some "quote_id"
needed_key Kind.payment_preference_created = some "payment_id"
needed_key Kind.payment_confirmed = some "payment_id"
needed_key _ = none

abbrev pub carries : Option String → DomainEvent → Bool
carries none e = true
carries (some key) e = is_some (lookup key e.payload)

-- Where an event takes an order, or `none` where it is refused.
abbrev pub saga_next : Kind → Status → Option Status
saga_next Kind.quote_created s = some s
saga_next Kind.quote_approved Status.quote_requested = some Status.quote_approved
saga_next Kind.payment_preference_created Status.quote_approved = some Status.payment_pending
saga_next Kind.payment_confirmed Status.payment_pending = some Status.execution_requested
saga_next Kind.execution_started Status.execution_requested = some Status.execution_in_progress
saga_next Kind.execution_completed Status.execution_in_progress = some Status.completed
saga_next Kind.quote_failed s = if is_terminal s then none else some Status.quote_failed
saga_next Kind.payment_failed s = if is_terminal s then none else some Status.payment_failed
saga_next Kind.execution_enqueue_failed s =
    if is_terminal s then none else some Status.execution_enqueue_failed
saga_next Kind.execution_failed s = if is_terminal s then none else some Status.execution_failed
saga_next _ _ = none

abbrev pub Lands :
    Option Status → ServiceOrder → Result (Option DomainEvent) × ServiceOrder → Type 0
Lands none o (r, o') = (is_value_error r ≡ true) × (o' ≡ o)
Lands (some target) o (r, o') = (is_ok r ≡ true) × (o'.status ≡ target)
