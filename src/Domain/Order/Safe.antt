-- ===== src/Domain/Order/Safe.antt =====
-- Actions on a service order that keep its trace and its identity, one rule for each way to build one.
use service_order_os_service.Prelude.{true, false, some, String, arith, ◌≡◌, refl, [], ◌∷◌, ◌++◌}
use service_order_os_service.Exec.{Exec, Result, ok, err, Exn, pure, raise, lift, after, ◌>>=◌}
use service_order_os_service.Domain.Event.{Instant}
use service_order_os_service.Domain.Order.Base.{
  Status, quote_approved, payment_pending, payment_confirmed, execution_requested,
  execution_in_progress, completed, is_terminal, is_failure, ServiceOrder, Draw,
  mark_quote_approved, mark_payment_pending, mark_payment_confirmed, request_execution,
  mark_execution_started, complete, fail,
}
use service_order_os_service.Domain.Order.Spec.{Edge, ahead, failed, forward, HasTrace}
use service_order_os_service.Domain.Order.History.{HasTrace-snoc}

-- The fields that no method writes.
abbrev pub SameOrder : ServiceOrder → ServiceOrder → Type 0
SameOrder o o' =
    (o'.service_order_id ≡ o.service_order_id)
    × (o'.customer_id ≡ o.customer_id)
    × (o'.vehicle_id ≡ o.vehicle_id)
    × (o'.description ≡ o.description)

pub SameOrder-trans : (o p q : ServiceOrder) → SameOrder o p → SameOrder p q → SameOrder o q
SameOrder-trans o p q h k = ground arith

abbrev pub IsTraced : ServiceOrder → Type 0
IsTraced o = HasTrace o.history o.status

pub record Safe {A : Type 0} (m : Exec ServiceOrder A) : Type 0 where
  pub keeps : (o : ServiceOrder) → SameOrder o (m o).1
  pub traces : (o : ServiceOrder) → IsTraced o → IsTraced (m o).1

module _ {A : Type 0} where
  pub Safe-pure : (a : A) → Safe (pure {S = ServiceOrder} a)
  Safe-pure a = record { keeps = λ o. (refl, refl, refl, refl); traces = λ o h. h }

  pub Safe-raise : (e : Exn) → Safe (raise {S = ServiceOrder} {A = A} e)
  Safe-raise e = record { keeps = λ o. (refl, refl, refl, refl); traces = λ o h. h }

  pub Safe-lift : (r : Result A) → Safe (lift {S = ServiceOrder} r)
  Safe-lift r = record { keeps = λ o. (refl, refl, refl, refl); traces = λ o h. h }

module _ {A B : Type 0} where
  Safe-after :
      (r : Result A) (f : A → Exec ServiceOrder B) → ((a : A) → Safe (f a)) → Safe (after r f)
  Safe-after (ok a) f sf = record { keeps = (sf a).keeps; traces = (sf a).traces }
  Safe-after (err e) f sf = record { keeps = λ o. (refl, refl, refl, refl); traces = λ o h. h }

  pub Safe-bind :
      (m : Exec ServiceOrder A) (f : A → Exec ServiceOrder B)
      → Safe m
      → ((a : A) → Safe (f a))
      → Safe (m >>= f)
  Safe-bind m f sm sf = record {
    keeps = λ o.
        let (r, o') = m o in
        SameOrder-trans o o' (after r f o').1 (sm.keeps o) ((Safe-after r f sf).keeps o');
    traces = λ o h. let (r, o') = m o in (Safe-after r f sf).traces o' (sm.traces o h);
  }

-- An entry whose status is an edge away.
step :
    (o : ServiceOrder) (target : Status) (reason : String) (at : Instant)
    → IsTraced o
    → Edge o.status target
    → HasTrace
        (o.history ++ record { status = target; reason = reason; created_at = at } ∷ [])
        target
step o target reason at h edge =
    HasTrace-snoc o.status o.history (record { status = target; reason = reason; created_at = at })
      h edge

ahead_step :
    (o : ServiceOrder) (target : Status) (reason : String) (at : Instant)
    → IsTraced o
    → forward o.status ≡ some target
    → HasTrace
        (o.history ++ record { status = target; reason = reason; created_at = at } ∷ [])
        target
ahead_step o target reason at h p = step o target reason at h (ahead p)

failed_step :
    (o : ServiceOrder) (target : Status) (reason : String) (at : Instant)
    → IsTraced o
    → is_terminal o.status ≡ false
    → is_failure target ≡ true
    → HasTrace
        (o.history ++ record { status = target; reason = reason; created_at = at } ∷ [])
        target
failed_step o target reason at h p q = step o target reason at h (failed p q)

pub mark_quote_approved-Safe : (q : String) (d : Draw) → Safe (mark_quote_approved q d)
unfolding mark_quote_approved
mark_quote_approved-Safe q d = record {
  keeps = λ o. ground arith;
  traces = λ o h. ground (arith, ahead_step o quote_approved "Quote approved" d.recorded_at h);
}

pub mark_payment_pending-Safe : (p : String) (d : Draw) → Safe (mark_payment_pending p d)
unfolding mark_payment_pending
mark_payment_pending-Safe p d = record {
  keeps = λ o. ground arith;
  traces = λ o h.
      ground (arith, ahead_step o payment_pending "Payment preference created" d.recorded_at h);
}

pub mark_payment_confirmed-Safe : (p : String) (d : Draw) → Safe (mark_payment_confirmed p d)
unfolding mark_payment_confirmed
mark_payment_confirmed-Safe p d = record {
  keeps = λ o. ground arith;
  traces =
      λ o h. ground (arith, ahead_step o payment_confirmed "Payment confirmed" d.recorded_at h);
}

pub request_execution-Safe : (d : Draw) → Safe (request_execution d)
unfolding request_execution
request_execution-Safe d = record {
  keeps = λ o. ground arith;
  traces =
      λ o h. ground (arith, ahead_step o execution_requested "Execution requested" d.recorded_at h);
}

pub mark_execution_started-Safe : (d : Draw) → Safe (mark_execution_started d)
unfolding mark_execution_started
mark_execution_started-Safe d = record {
  keeps = λ o. ground arith;
  traces =
      λ o h. ground (arith, ahead_step o execution_in_progress "Execution started" d.recorded_at h);
}

pub complete-Safe : (d : Draw) → Safe (complete d)
unfolding complete
complete-Safe d = record {
  keeps = λ o. ground arith;
  traces = λ o h. ground (arith, ahead_step o completed "Execution completed" d.recorded_at h);
}

pub fail-Safe : (target : Status) (reason : String) (d : Draw) → Safe (fail target reason d)
unfolding fail
fail-Safe target reason d = record {
  keeps = λ o. ground arith;
  traces = λ o h. ground (arith, failed_step o target reason d.recorded_at h);
}

pub ruleset safe_rules = (
  Safe-pure, Safe-raise, Safe-lift, Safe-bind, mark_quote_approved-Safe, mark_payment_pending-Safe,
  mark_payment_confirmed-Safe, request_execution-Safe, mark_execution_started-Safe, complete-Safe,
  fail-Safe,
)
