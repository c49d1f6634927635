-- ===== src/App/Saga/Laws.antt =====
-- `HandleSagaEventUseCase._apply` of src/application/use_cases.py on every event.
use service_order_os_service.Prelude.{
  Bool, true, false, Option, none, some, String, arith, ◌≡◌, refl, ◌==◌, ◌||◌, if◌then◌else◌,
}
use service_order_os_service.Exec.{Exec, Result, ok, err, Exn, value_error, pure, lift, ◌>>=◌}
use Prim.Native.String.{◌++◌}
use service_order_os_service.Json.{Json}
use service_order_os_service.Domain.Event.{DomainEvent}
use service_order_os_service.Domain.Order.Base.{
  ServiceOrder, Draw, request_quote, mark_quote_approved, mark_payment_pending,
  mark_payment_confirmed, request_execution, mark_execution_started, complete, fail,
}
use service_order_os_service.Domain.Order.Safe.{
  Safe, SameOrder, IsTraced, Safe-pure, Safe-lift, Safe-bind, mark_quote_approved-Safe,
  mark_payment_pending-Safe, mark_payment_confirmed-Safe, request_execution-Safe,
  mark_execution_started-Safe, complete-Safe, fail-Safe,
}
use service_order_os_service.App.Saga.Spec.{Kind, kind_text}
use service_order_os_service.App.Saga.Base.{apply, dispatch, emit, text_at}

module _ {T : Type 0} (Q : T → Type 0) where
  if_rule : (b : Bool) (x y : T) → Q x → Q y → Q (if b then x else y)
  if_rule true x y p q = p
  if_rule false x y p q = q

-- The types of the events that the saga publishes.
abbrev pub is_outgoing : String → Bool
is_outgoing t =
    t == "QUOTE_APPROVED"
    || t == "PAYMENT_PENDING"
    || t == "EXECUTION_REQUESTED"
    || t == "EXECUTION_STARTED"
    || t == "OS_COMPLETED"
    || t == "OS_COMPENSATION_REQUIRED"

module _ (o : ServiceOrder) where
  -- An event that is to be published is of a known type, and names the order.
  abbrev pub Emits : Result (Option DomainEvent) × ServiceOrder → Type 0
  Emits (ok (some ev), o') =
      (is_outgoing ev.event_type ≡ true) × (ev.correlation_id ≡ o.service_order_id)
  Emits _ = Unit

  -- A raise leaves the order as it was.
  abbrev pub Atomic : Result (Option DomainEvent) × ServiceOrder → Type 0
  Atomic (ok r, o') = Unit
  Atomic (err x, o') = o' ≡ o

  Atomic-err :
      (t : Result (Option DomainEvent) × ServiceOrder) {x : Exn} → Atomic t → t.0 ≡ err x → t.1 ≡ o
  Atomic-err (ok r, o') a h = cc
  Atomic-err (err x, o') a h = a

  Emits-some :
      (t : Result (Option DomainEvent) × ServiceOrder) {ev : DomainEvent}
      → Emits t
      → t.0 ≡ ok (some ev)
      → (is_outgoing ev.event_type ≡ true) × (ev.correlation_id ≡ o.service_order_id)
  Emits-some (ok (some ev'), o') a h = ground arith
  Emits-some (ok none, o') a h = cc
  Emits-some (err x, o') a h = cc

module _ (show : Json → String) (e : DomainEvent) (d d' : Draw) (o : ServiceOrder) where
  -- What holds of the outcome for each kind of event, and of the refusal of any other, holds of
  -- every outcome.
  pub apply_cases :
      (Q : Result (Option DomainEvent) × ServiceOrder → Type 0)
      → ((k : Kind) → Q (dispatch show (kind_text k) e d d' o))
      → Q (err (value_error ("Unsupported saga event: " ++ e.event_type)), o)
      → Q (apply show e d d' o)
  unfolding apply dispatch
  apply_cases Q each other = if_rule Q _ _ _ (each Kind.quote_created) (
      if_rule Q _ _ _ (each Kind.quote_approved) (
        if_rule Q _ _ _ (each Kind.payment_preference_created) (
          if_rule Q _ _ _ (each Kind.payment_confirmed) (
            if_rule Q _ _ _ (each Kind.execution_started) (
              if_rule Q _ _ _ (each Kind.execution_completed) (
                if_rule Q _ _ _ (each Kind.quote_failed) (
                  if_rule Q _ _ _ (each Kind.payment_failed) (
                    if_rule Q _ _ _ (each Kind.execution_enqueue_failed)
                      (if_rule Q _ _ _ (each Kind.execution_failed) other)))))))))

  kind-Emits : (k : Kind) → Emits o (dispatch show (kind_text k) e d d' o)
  unfolding dispatch request_quote mark_quote_approved mark_payment_pending mark_payment_confirmed
      request_execution mark_execution_started complete fail
  kind-Emits Kind.quote_created = ground arith
  kind-Emits _ = ground arith

  kind-Atomic : (k : Kind) → Atomic o (dispatch show (kind_text k) e d d' o)
  unfolding dispatch request_quote mark_quote_approved mark_payment_pending mark_payment_confirmed
      request_execution mark_execution_started complete fail
  kind-Atomic Kind.quote_created = ground arith
  kind-Atomic _ = ground arith

  -- The event that is published next is of a type that the saga publishes, and names the order.
  pub apply_emits :
      {ev : DomainEvent}
      → (apply show e d d' o).0 ≡ ok (some ev)
      → (is_outgoing ev.event_type ≡ true) × (ev.correlation_id ≡ o.service_order_id)
  apply_emits h = Emits-some o (apply show e d d' o) (apply_cases (Emits o) kind-Emits tt) h

  -- An event that is refused leaves the order as it was.
  pub apply_atomic : {x : Exn} → (apply show e d d' o).0 ≡ err x → (apply show e d d' o).1 ≡ o
  apply_atomic h = Atomic-err o (apply show e d d' o) (apply_cases (Atomic o) kind-Atomic refl) h

Safe-emit : (m : Exec ServiceOrder DomainEvent) → Safe m → Safe (emit m)
Safe-emit m s = Safe-bind m (λ ev. pure (some ev)) s (λ ev. Safe-pure (some ev))

module _ (show : Json → String) (e : DomainEvent) (d d' : Draw) where
  with_text :
      {A : Type 0} (key : String) (f : String → Exec ServiceOrder A)
      → ((t : String) → Safe (f t))
      → Safe (lift (text_at show key e) >>= f)
  with_text key f sf = Safe-bind (lift (text_at show key e)) f (Safe-lift (text_at show key e)) sf

  kind-Safe : (k : Kind) → Safe (dispatch show (kind_text k) e d d')
  unfolding dispatch
  kind-Safe Kind.quote_created = Safe-pure none
  kind-Safe Kind.quote_approved =
      with_text "quote_id" _ (λ q. Safe-emit _ (mark_quote_approved-Safe q d))
  kind-Safe Kind.payment_preference_created =
      with_text "payment_id" _ (λ p. Safe-emit _ (mark_payment_pending-Safe p d))
  kind-Safe Kind.payment_confirmed = with_text "payment_id" _ λ p.
      Safe-bind _ _ (mark_payment_confirmed-Safe p d)
        (λ ev. Safe-emit _ (request_execution-Safe d'))
  kind-Safe Kind.execution_started = Safe-emit _ (mark_execution_started-Safe d)
  kind-Safe Kind.execution_completed = Safe-emit _ (complete-Safe d)
  kind-Safe Kind.quote_failed = Safe-emit _ (fail-Safe _ _ d)
  kind-Safe Kind.payment_failed = Safe-emit _ (fail-Safe _ _ d)
  kind-Safe Kind.execution_enqueue_failed = Safe-emit _ (fail-Safe _ _ d)
  kind-Safe Kind.execution_failed = Safe-emit _ (fail-Safe _ _ d)

  -- After any event, handled or refused, the identity is the same and the trace goes on.
  pub apply-Safe : Safe (apply show e d d')
  apply-Safe = record {
    keeps = λ o.
        apply_cases show e d d' o (λ t. SameOrder o t.1) (λ k. (kind-Safe k).keeps o)
          (refl, refl, refl, refl);
    traces = λ o h. apply_cases show e d d' o (λ t. IsTraced t.1) (λ k. (kind-Safe k).traces o h) h;
  }
