-- ===== src/App/Saga/Effect.antt =====
-- What `_apply` does to a service order.
use service_order_os_service.Prelude.{subst, sym, true, String, arith, ◌≡◌}
use service_order_os_service.Json.{Json}
use service_order_os_service.Domain.Event.{DomainEvent}
use service_order_os_service.Domain.Order.Base.{
  ServiceOrder, Draw, request_quote, mark_quote_approved, mark_payment_pending,
  mark_payment_confirmed, request_execution, mark_execution_started, complete, fail,
}
use service_order_os_service.App.Saga.Spec.{Kind, kind_text, needed_key, carries, saga_next, Lands}
use service_order_os_service.App.Saga.Base.{apply, dispatch}

module _ (show : Json → String) where
  dispatch-Lands :
      (k : Kind) (e : DomainEvent) (d d' : Draw) (o : ServiceOrder)
      → carries (needed_key k) e ≡ true
      → Lands (saga_next k o.status) o (dispatch show (kind_text k) e d d' o)
  unfolding dispatch request_quote mark_quote_approved mark_payment_pending mark_payment_confirmed
      request_execution mark_execution_started complete fail
  dispatch-Lands Kind.quote_created e d d' o c = ground arith
  dispatch-Lands _ e d d' o c = ground arith

  pub apply-Lands :
      (k : Kind) (e : DomainEvent) (d d' : Draw) (o : ServiceOrder)
      → e.event_type ≡ kind_text k
      → carries (needed_key k) e ≡ true
      → Lands (saga_next k o.status) o (apply show e d d' o)
  unfolding apply
  apply-Lands k e d d' o h c =
      subst (λ t. Lands (saga_next k o.status) o (dispatch show t e d d' o)) (sym h)
        (dispatch-Lands k e d d' o c)
