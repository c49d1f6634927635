-- ===== src/Messaging/Contracts.antt =====
-- src/infrastructure/messaging/event_contracts.py
use Prim.Native.String.{◌++◌}
use service_order_os_service.Prelude.{
  Bool-cases, inl, inr, subst, sym, eq_iff, Bool, true, none, some, is_some, String, List, [], ◌∷◌,
  ◌==◌, any, ◌≡◌, if◌then◌else◌,
}
use service_order_os_service.Prelude.Dict.{Dict, lookup}
use service_order_os_service.Exec.{and_then, Result, ok, err, value_error, key_error, other_error}
use service_order_os_service.Json.{Json, str, arr, obj}
use service_order_os_service.Domain.Event.{DomainEvent, Instant, to_message}

abbrev pub integration_event_types : List String
integration_event_types =
    "OS_OPENED" ∷ "QUOTE_CREATED" ∷ "QUOTE_APPROVED" ∷ "PAYMENT_PREFERENCE_CREATED"
    ∷ "PAYMENT_PENDING" ∷ "PAYMENT_CONFIRMED" ∷ "EXECUTION_REQUESTED" ∷ "EXECUTION_STARTED"
    ∷ "EXECUTION_COMPLETED" ∷ "QUOTE_FAILED" ∷ "PAYMENT_FAILED" ∷ "EXECUTION_ENQUEUE_FAILED"
    ∷ "EXECUTION_FAILED" ∷ "OS_COMPLETED" ∷ "OS_COMPENSATION_REQUIRED" ∷ []

-- `required_fields`, as `sorted` orders them
abbrev pub required_fields : List String
required_fields = "correlation_id" ∷ "event_id" ∷ "event_type" ∷ "occurred_at" ∷ "payload" ∷ []

-- `required_fields - set(message)`, sorted
unfoldable pub missing : List String → Dict Json → List String
unfolding lookup
missing [] m = []
missing (f ∷ fs) m = let rest = missing fs m in if is_some (lookup f m) then rest else f ∷ rest

-- The text of a list of names.
names_from : List String → String
names_from [] = "]"
names_from (f ∷ []) = "'" ++ (f ++ "']")
names_from (f ∷ fs) = "'" ++ (f ++ ("', " ++ names_from fs))

pub names_text : List String → String
unfolding names_from
names_text fs = "[" ++ names_from fs

unfoldable pub contains : List String → String → Bool
contains types t = any (λ u. u == t) types

-- `message["event_type"] not in INTEGRATION_EVENT_TYPES`; a list or an object is not hashable.
unfoldable pub check_type : (Json → String) → Json → Result (Unit {0})
check_type show (str t) =
    if contains integration_event_types t
    then ok tt
    else err (value_error ("Unsupported event type: " ++ t))
check_type show (arr xs) = err (other_error "unhashable type: 'list'")
check_type show (obj fs) = err (other_error "unhashable type: 'dict'")
check_type show v = err (value_error ("Unsupported event type: " ++ show v))

-- `isinstance(message["payload"], dict)`
unfoldable pub check_payload : Json → Result (Unit {0})
check_payload (obj fs) = ok tt
check_payload v = err (value_error "Event payload must be an object")

-- `message[key]`
abbrev pub item : String → Dict Json → Result Json
item key m = elim (lookup key m) [ none ↦ err (key_error key) | some v ↦ ok v ]

unfoldable pub validate_event_message : (Json → String) → Dict Json → Result (Unit {0})
unfolding missing check_type check_payload
validate_event_message show m = elim (missing required_fields m) [
  | [] ↦
      and_then (item "event_type" m)
        λ t. and_then (check_type show t) λ _. and_then (item "payload" m) check_payload
  | f ∷ fs ↦ err (value_error ("Event message is missing fields: " ++ names_text (f ∷ fs)))
]

-- `event_to_message`
unfoldable pub event_to_message :
    (Json → String) → (Instant → String) → DomainEvent → Result (Dict Json)
unfolding to_message validate_event_message
event_to_message show isoformat e =
    and_then (validate_event_message show (to_message isoformat e)) λ _. ok (to_message isoformat e)

-- An event becomes a message exactly when its type is one of the contract's, whatever else it holds.
pub event_to_message_lem :
    (show : Json → String) (isoformat : Instant → String) (e : DomainEvent)
    → event_to_message show isoformat e ≡ (
        if contains integration_event_types e.event_type
        then ok (to_message isoformat e)
        else err (value_error ("Unsupported event type: " ++ e.event_type)))
unfolding event_to_message lookup
event_to_message_lem show isoformat e =
    elim (Bool-cases (contains integration_event_types e.event_type)) [
      | inl known ↦ rw known
      | inr unknown ↦ rw unknown
    ]

-- A text that equals a listed one is listed.
pub contains-of_eq :
    (types : List String) (t u : String)
    → (t == u) ≡ true
    → contains types u ≡ true
    → contains types t ≡ true
contains-of_eq types t u e h = subst (λ v. contains types v ≡ true) (sym ((eq_iff t u).0 e)) h
