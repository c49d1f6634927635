-- ===== src/Http/ServiceOrders/Laws.antt =====
-- The routes of src/presentation/api/routes/service_order_routes.py.
use service_order_os_service.Prelude.{
  true, false, String, none, some, arith, ◌≡◌, refl, ◌==◌, eq_iff, [], ◌∷◌, Option-cases, inl, inr,
  if◌then◌else◌,
}
use service_order_os_service.Prelude.Dict.{Dict, lookup, KeysDiffer, lookup-update}
use service_order_os_service.Exec.{Result, ok, err}
use service_order_os_service.Json.{Json, str, truthy}
use service_order_os_service.Domain.Event.{Instant, Stamp}
use service_order_os_service.Domain.Order.Base.{ServiceOrder}
use service_order_os_service.Domain.Party.{AuthenticatedPrincipal, is_customer}
use service_order_os_service.App.Ports.{OrderPort, PublisherPort, World}
use service_order_os_service.App.Saga.Base.{order_id_of}
use service_order_os_service.App.Opening.{OpenDraw, Registry}
use service_order_os_service.Http.Reply.{returned, http_error}
use service_order_os_service.Http.ServiceOrders.{
  OpenServiceOrderRequest, SagaEventRequest, is_own, open_service_order, get_service_order,
  show_order, event_of, service_order_to_response,
}

module _ {S P : Type 0} (show : Json → String) (isoformat : Instant → String)
    (repr : String → String) (port : OrderPort S) (publisher : PublisherPort P)
    (registry : Registry) where
  -- A customer who asks to open an order for somebody else gets 403, and nothing changes.
  pub open_for_other :
      (p : AuthenticatedPrincipal) (payload : OpenServiceOrderRequest) (d : OpenDraw)
      (w : World S P)
      → is_customer p ≡ true
      → is_own p payload.customer_id ≡ false
      → open_service_order show isoformat repr port publisher registry p payload d w
        ≡ (http_error 403 "Customer token cannot create service orders for another customer", w)
  unfolding open_service_order
  open_for_other p payload d w c o = rw (c, o)

  -- What a customer is shown is an order of that customer: the one that the repository has under the
  -- identifier asked for.
  pub get_shows_own :
      (p : AuthenticatedPrincipal) (id : String) (w : World S P) (body : Dict Json)
      → is_customer p ≡ true
      → get_service_order show isoformat repr port publisher registry p id w ≡ returned body
      → (o : ServiceOrder) × (port.get id w.orders ≡ ok o)
        × (p.customer_id ≡ some o.customer_id)
        × (body ≡ service_order_to_response isoformat o)
  unfolding get_service_order show_order
  get_shows_own p id w body c h = found (port.get id w.orders) refl
    where
      found :
          (r : Result ServiceOrder)
          → port.get id w.orders ≡ r
          → (o : ServiceOrder) × (port.get id w.orders ≡ ok o)
            × (p.customer_id ≡ some o.customer_id)
            × (body ≡ service_order_to_response isoformat o)
      found (err x) e = absurd (ground arith)
      found (ok o) e = elim (Option-cases p.customer_id) [
        | inl absent ↦ absurd (ground arith)
        | inr (c', e') ↦
            (o, e, ground (arith, eq_iff o.customer_id c'), ground (arith, eq_iff o.customer_id c'))
      ]

  -- The order that a request to /service-orders/{id}/events changes is named by the path only where the
  -- body's payload names none: a true "service_order_id" of the payload wins over every path, and the
  -- correlation identifier over a false one.
  pub event_target :
      (id : String) (request : SagaEventRequest) (stamp : Stamp)
      → ((t : String) → show (str t) ≡ t)
      → KeysDiffer request.payload
      → (id == "") ≡ false
      → order_id_of show (event_of show isoformat repr port publisher registry id request stamp)
        ≡ (elim (lookup "service_order_id" request.payload) [
          | none ↦ id
          | some v ↦ if truthy v then show v else request.correlation_id
        ])
  unfolding order_id_of event_of
  event_target id request stamp shows differ named =
      rw
        (
          lookup-update "service_order_id" (("service_order_id", str id) ∷ []) request.payload
              differ,
          order_id_of,
        )
        (unfold lookup truthy in ground (arith, shows id))
