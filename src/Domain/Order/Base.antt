-- ===== src/Domain/Order/Base.antt =====
-- src/domain/service_order.py: the service order and its methods. `uuid4()` and
-- `datetime.now(UTC)` are drawn outside: a method takes what it draws as a `Draw`.
use service_order_os_service.Prelude.{
  Bool, true, false, not, List, [], ◌∷◌, ◌++◌, String, if◌then◌else◌,
}
use service_order_os_service.Prelude.Dict.{Dict}
use service_order_os_service.Text.{is_blank}
use service_order_os_service.Exec.{
  Exec, Result, value_error, ok, err, gets, modify, raise_if, ◌>>=◌, ◌>>◌,
}
use service_order_os_service.Json.{Json, str}
use service_order_os_service.Domain.Event.{Instant, DomainEvent, Stamp}

pub data Status : Type 0 where
  opened quote_requested quote_failed quote_approved payment_pending : Status
  payment_confirmed payment_failed execution_requested execution_enqueue_failed : Status
  execution_in_progress execution_failed completed : Status

-- The text of the enumeration's member.
unfoldable pub value : Status → String
value opened = "OPENED"
value quote_requested = "QUOTE_REQUESTED"
value quote_failed = "QUOTE_FAILED"
value quote_approved = "QUOTE_APPROVED"
value payment_pending = "PAYMENT_PENDING"
value payment_confirmed = "PAYMENT_CONFIRMED"
value payment_failed = "PAYMENT_FAILED"
value execution_requested = "EXECUTION_REQUESTED"
value execution_enqueue_failed = "EXECUTION_ENQUEUE_FAILED"
value execution_in_progress = "EXECUTION_IN_PROGRESS"
value execution_failed = "EXECUTION_FAILED"
value completed = "COMPLETED"

-- `a == b` on members
abbrev pub same : Status → Status → Bool
same opened opened = true
same quote_requested quote_requested = true
same quote_failed quote_failed = true
same quote_approved quote_approved = true
same payment_pending payment_pending = true
same payment_confirmed payment_confirmed = true
same payment_failed payment_failed = true
same execution_requested execution_requested = true
same execution_enqueue_failed execution_enqueue_failed = true
same execution_in_progress execution_in_progress = true
same execution_failed execution_failed = true
same completed completed = true
same _ _ = false

-- `status in TERMINAL_STATUSES`
abbrev pub is_terminal : Status → Bool
is_terminal quote_failed = true
is_terminal payment_failed = true
is_terminal execution_enqueue_failed = true
is_terminal execution_failed = true
is_terminal completed = true
is_terminal _ = false

-- `status in TERMINAL_STATUSES - {COMPLETED}`
abbrev pub is_failure : Status → Bool
is_failure completed = false
is_failure s = is_terminal s

pub record HistoryEntry : Type 0 where
  pub status : Status
  pub reason : String
  pub created_at : Instant

pub record ServiceOrder : Type 0 where
  pub customer_id : String
  pub vehicle_id : String
  pub description : String
  pub service_order_id : String
  pub status : Status
  pub history : List HistoryEntry

-- What one transition draws: the time of its history entry, and its event's id and time.
pub record Draw : Type 0 where
  pub recorded_at : Instant
  pub stamp : Stamp

unfoldable pub append_record : Status → String → Instant → ServiceOrder → ServiceOrder
append_record s reason at o = record o {
  history = o.history ++ record { status = s; reason = reason; created_at = at } ∷ [];
}

-- `ServiceOrder.open`, with the identifier and the time that it draws
unfoldable pub open_order : String → String → String → String → Instant → Result ServiceOrder
unfolding append_record
open_order customer vehicle text new_id at =
    if is_blank customer
    then err (value_error "Customer id is required")
    else if is_blank vehicle
    then err (value_error "Vehicle id is required")
    else if is_blank text
    then err (value_error "Description is required")
    else ok (
        append_record opened "Service order opened" at (record {
          customer_id = customer;
          vehicle_id = vehicle;
          description = text;
          service_order_id = new_id;
          status = opened;
          history = [];
        }))

-- `_transition`
unfoldable pub transition : Status → String → Instant → Exec ServiceOrder (Unit {0})
unfolding append_record
transition target reason at = do
  raise_if (is_terminal (← gets (λ o. o.status)))
      (value_error "Terminal service orders cannot change status")
  modify (λ o. append_record target reason at (record o { status = target }))

-- `_event`, whose payload names the order itself
unfoldable pub event : String → Stamp → (ServiceOrder → Dict Json) → Exec ServiceOrder DomainEvent
event kind stamp body = gets λ o. record {
  event_type = kind;
  correlation_id = o.service_order_id;
  payload = body o;
  event_id = stamp.event_id;
  occurred_at = stamp.occurred_at;
}

-- `if self.status != required: raise ValueError(message)`
abbrev require_status : Status → String → Exec ServiceOrder (Unit {0})
require_status required message = do
  raise_if (not (same (← gets (λ o. o.status)) required)) (value_error message)

unfoldable pub request_quote : Draw → Exec ServiceOrder DomainEvent
unfolding transition event
request_quote d = do
  transition quote_requested "Quote requested" d.recorded_at
  event "OS_OPENED" d.stamp λ o.
      ("service_order_id", str o.service_order_id)
      ∷ ("customer_id", str o.customer_id)
      ∷ ("vehicle_id", str o.vehicle_id)
      ∷ ("description", str o.description)
      ∷ []

unfoldable pub mark_quote_approved : String → Draw → Exec ServiceOrder DomainEvent
unfolding transition event
mark_quote_approved quote_id d = do
  require_status quote_requested "Quote can only be approved after it is requested"
  transition quote_approved "Quote approved" d.recorded_at
  event "QUOTE_APPROVED" d.stamp
      λ o. ("service_order_id", str o.service_order_id) ∷ ("quote_id", str quote_id) ∷ []

unfoldable pub mark_payment_pending : String → Draw → Exec ServiceOrder DomainEvent
unfolding transition event
mark_payment_pending payment_id d = do
  require_status quote_approved "Payment can only start after quote approval"
  transition payment_pending "Payment preference created" d.recorded_at
  event "PAYMENT_PENDING" d.stamp
      λ o. ("service_order_id", str o.service_order_id) ∷ ("payment_id", str payment_id) ∷ []

unfoldable pub request_execution : Draw → Exec ServiceOrder DomainEvent
unfolding transition event
request_execution d = do
  require_status payment_confirmed "Execution can only be requested after payment confirmation"
  transition execution_requested "Execution requested" d.recorded_at
  event "EXECUTION_REQUESTED" d.stamp λ o. ("service_order_id", str o.service_order_id) ∷ []

unfoldable pub mark_payment_confirmed : String → Draw → Exec ServiceOrder DomainEvent
unfolding transition event
mark_payment_confirmed payment_id d = do
  require_status payment_pending "Payment can only be confirmed after it is pending"
  transition payment_confirmed "Payment confirmed" d.recorded_at
  event "PAYMENT_CONFIRMED" d.stamp
      λ o. ("service_order_id", str o.service_order_id) ∷ ("payment_id", str payment_id) ∷ []

unfoldable pub mark_execution_started : Draw → Exec ServiceOrder DomainEvent
unfolding transition event
mark_execution_started d = do
  require_status execution_requested "Execution can only start after it is requested"
  transition execution_in_progress "Execution started" d.recorded_at
  event "EXECUTION_STARTED" d.stamp λ o. ("service_order_id", str o.service_order_id) ∷ []

unfoldable pub complete : Draw → Exec ServiceOrder DomainEvent
unfolding transition event
complete d = do
  require_status execution_in_progress
      "Service order can only complete while execution is in progress"
  transition completed "Execution completed" d.recorded_at
  event "OS_COMPLETED" d.stamp λ o. ("service_order_id", str o.service_order_id) ∷ []

unfoldable pub fail : Status → String → Draw → Exec ServiceOrder DomainEvent
unfolding transition event
fail target reason d = do
  raise_if (not (is_failure target)) (value_error "Failure status must be a terminal failure")
  transition target reason d.recorded_at
  event "OS_COMPENSATION_REQUIRED" d.stamp λ o.
      ("service_order_id", str o.service_order_id)
      ∷ ("status", str (value target))
      ∷ ("reason", str reason)
      ∷ []
