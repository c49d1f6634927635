-- ===== src/Domain/Order/Spec.antt =====
-- The state machine of src/domain/service_order.py, described apart from the code: which status
-- may follow which, how far a status has come, and what each method is to do.
use service_order_os_service.Prelude.{
  ℕ, true, false, not, Option, none, some, String, List, [], ◌∷◌, ◌≡◌, ◌||◌, if◌then◌else◌,
}
use service_order_os_service.Domain.Order.Base.{
  Status, opened, quote_requested, quote_approved, payment_pending, payment_confirmed,
  execution_requested, execution_in_progress, completed, is_terminal, is_failure, HistoryEntry,
}

-- The status that comes next on the way to completion.
abbrev pub forward : Status → Option Status
forward opened = some quote_requested
forward quote_requested = some quote_approved
forward quote_approved = some payment_pending
forward payment_pending = some payment_confirmed
forward payment_confirmed = some execution_requested
forward execution_requested = some execution_in_progress
forward execution_in_progress = some completed
forward _ = none

-- How many steps of the happy path lie behind a status; every end has rank 7.
abbrev pub rank : Status → ℕ
rank opened = 0
rank quote_requested = 1
rank quote_approved = 2
rank payment_pending = 3
rank payment_confirmed = 4
rank execution_requested = 5
rank execution_in_progress = 6
rank _ = 7

-- The saga may take an order from one status to another: a step forward, or from a status that is
-- not an end to a failure.
pub data Edge (a b : Status) : Type 0 where
  ahead : forward a ≡ some b → Edge a b
  failed : is_terminal a ≡ false → is_failure b ≡ true → Edge a b

-- A history from `a` to `b`, each entry an edge from the one before.
abbrev pub Trace : Status → List HistoryEntry → Status → Type 0
Trace a [] b = a ≡ b
Trace a (e ∷ h) b = Edge a e.status × Trace e.status h b

-- The history begins with `opened` and leads by edges to the order's status.
abbrev pub HasTrace : List HistoryEntry → Status → Type 0
HasTrace [] s = ⊥
HasTrace (e ∷ h) s = (e.status ≡ opened) × Trace opened h s

-- The methods, as data.
pub data Action : Type 0 where
  ask_quote : Action
  approve_quote : String → Action
  await_payment : String → Action
  confirm_payment : String → Action
  ask_execution : Action
  start_execution : Action
  finish : Action
  give_up : Status → String → Action

-- Where the action leads from a status, or `none` where it is refused.
abbrev pub next : Action → Status → Option Status
next ask_quote s = if is_terminal s then none else some quote_requested
next (approve_quote quote_id) quote_requested = some quote_approved
next (await_payment payment_id) quote_approved = some payment_pending
next (confirm_payment payment_id) payment_pending = some payment_confirmed
next ask_execution payment_confirmed = some execution_requested
next start_execution execution_requested = some execution_in_progress
next finish execution_in_progress = some completed
next (give_up target reason) s =
    if is_terminal s || not (is_failure target) then none else some target
next _ _ = none
