-- ===== src/Http/ServiceOrders.antt =====
-- src/presentation/api/routes/service_order_routes.py
pub mod Laws
use service_order_os_service.Prelude.{
  Bool, true, false, not, ◌&&◌, String, Option, none, some, List, [], ◌∷◌, ◌==◌, if◌then◌else◌,
}
use service_order_os_service.Prelude.Dict.{Dict, update}
use service_order_os_service.Exec.{Result, ok, err}
use service_order_os_service.Json.{Json, Items, nil, cons, str, arr, obj, of_entries}
use service_order_os_service.Domain.Event.{DomainEvent, Instant, Stamp}
use service_order_os_service.Domain.Order.Base.{HistoryEntry, ServiceOrder, Draw, value}
use service_order_os_service.Domain.Party.{AuthenticatedPrincipal, is_admin, is_customer}
use service_order_os_service.App.Ports.{OrderPort, PublisherPort, World}
use service_order_os_service.App.Opening
use service_order_os_service.App.Opening.{OpenServiceOrderCommand, OpenDraw, Registry}
use service_order_os_service.App.Saga.Base
use service_order_os_service.Http.Auth.{for_admin}
use service_order_os_service.Http.Reply.{Reply, returned, http_error, catching, catching_key}

pub record OpenServiceOrderRequest : Type 0 where
  pub customer_id : String
  pub vehicle_id : String
  pub description : String

pub record SagaEventRequest : Type 0 where
  pub event_type : String
  pub correlation_id : String
  pub payload : Dict Json

module _ (isoformat : Instant → String) where
  unfoldable pub history_to_response : HistoryEntry → Dict Json
  history_to_response e =
      ("status", str (value e.status))
      ∷ ("reason", str e.reason)
      ∷ ("created_at", str (isoformat e.created_at))
      ∷ []

  unfoldable pub history_items : List HistoryEntry → Items
  history_items [] = nil
  history_items (e ∷ h) = cons (obj (of_entries (history_to_response e))) (history_items h)

  unfoldable pub service_order_to_response : ServiceOrder → Dict Json
  service_order_to_response o =
      ("service_order_id", str o.service_order_id)
      ∷ ("customer_id", str o.customer_id)
      ∷ ("vehicle_id", str o.vehicle_id)
      ∷ ("description", str o.description)
      ∷ ("status", str (value o.status))
      ∷ ("history", arr (history_items o.history))
      ∷ []

-- `payload.customer_id != principal.customer_id`
abbrev pub is_own : AuthenticatedPrincipal → String → Bool
is_own p id = elim (p.customer_id) [ none ↦ false | some c ↦ id == c ]

-- `str(principal.customer_id)` for a customer, and the request's identifier for an administrator
abbrev pub acting_customer : AuthenticatedPrincipal → OpenServiceOrderRequest → String
acting_customer p payload =
    if is_customer p
    then elim (p.customer_id) [ none ↦ "None" | some c ↦ c ]
    else payload.customer_id

-- The answer to an order, as its response.
abbrev pub respond : (Instant → String) → Reply ServiceOrder → Reply (Dict Json)
respond isoformat (returned o) = returned (service_order_to_response isoformat o)
respond isoformat (http_error code detail) = http_error code detail
respond isoformat (Reply.crashed e) = Reply.crashed e

module _ {S P : Type 0} (show : Json → String) (isoformat : Instant → String)
    (repr : String → String) (port : OrderPort S) (publisher : PublisherPort P)
    (registry : Registry) where
  -- The call of the use case, for a customer's identifier.
  unfoldable pub open_for :
      String → OpenServiceOrderRequest → OpenDraw → World S P → Reply (Dict Json) × World S P
  open_for customer_id payload d w =
      let (r, w') =
        Opening.execute port publisher registry
          (record {
            customer_id = customer_id;
            vehicle_id = payload.vehicle_id;
            description = payload.description;
          })
          d w in
      (respond isoformat (catching repr 400 r), w')

  -- `open_service_order`, for a caller whom `require_customer_or_admin_principal` lets pass
  unfoldable pub open_service_order :
      AuthenticatedPrincipal
      → OpenServiceOrderRequest
      → OpenDraw
      → World S P
      → Reply (Dict Json) × World S P
  open_service_order principal payload d w =
      if is_customer principal && not (is_own principal payload.customer_id)
      then (http_error 403 "Customer token cannot create service orders for another customer", w)
      else open_for (acting_customer principal payload) payload d w

  -- What `get_service_order` answers with an order that it found.
  unfoldable pub show_order : AuthenticatedPrincipal → ServiceOrder → Reply (Dict Json)
  show_order principal o =
      if is_customer principal && not (is_own principal o.customer_id)
      then http_error 403 "Customer token cannot access another customer's service order"
      else returned (service_order_to_response isoformat o)

  -- `get_service_order`, for a caller whom `require_customer_or_admin_principal` lets pass
  unfoldable pub get_service_order : AuthenticatedPrincipal → String → World S P → Reply (Dict Json)
  get_service_order principal id w = elim (catching_key repr (port.get id w.orders)) [
    | returned o ↦ show_order principal o
    | http_error code detail ↦ http_error code detail
    | Reply.crashed e ↦ Reply.crashed e
  ]

  -- The event of a request: the path's identifier is a default that the body's payload overrides.
  unfoldable pub event_of : String → SagaEventRequest → Stamp → DomainEvent
  event_of id payload stamp = record {
    event_type = payload.event_type;
    correlation_id = payload.correlation_id;
    payload = update (("service_order_id", str id) ∷ []) payload.payload;
    event_id = stamp.event_id;
    occurred_at = stamp.occurred_at;
  }

  -- `handle_saga_event`
  unfoldable pub handle_saga_event :
      AuthenticatedPrincipal
      → String
      → SagaEventRequest
      → Stamp
      → Draw
      → Draw
      → World S P
      → Reply (Dict Json) × World S P
  unfolding event_of
  handle_saga_event principal id payload stamp d d' = for_admin principal λ w.
      let (r, w') = Base.execute port publisher show (event_of id payload stamp) d d' w in
      (respond isoformat (catching repr 400 r), w')
