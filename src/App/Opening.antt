-- ===== src/App/Opening.antt =====
-- `OpenServiceOrderUseCase` of src/application/use_cases.py.
pub mod Laws
use service_order_os_service.Prelude.{Bool, not, String, Option, none, some, ◌==◌}
use service_order_os_service.Exec.{
  Exec, Result, ok, err, Exn, value_error, pure, lift, raise_if, ◌>>=◌, ◌>>◌,
}
use service_order_os_service.Domain.Event.{Instant, DomainEvent}
use service_order_os_service.Domain.Order.Base.{ServiceOrder, Draw, open_order, request_quote}
use service_order_os_service.Domain.Party.{Customer, Vehicle}
use service_order_os_service.App.Ports.{OrderPort, PublisherPort, World, on_orders, on_events}

pub record OpenServiceOrderCommand : Type 0 where
  pub customer_id : String
  pub vehicle_id : String
  pub description : String

-- `get` of the repositories of customers and of vehicles, which may both be left out.
pub record Registry : Type 0 where
  pub customers : Option (String → Result Customer)
  pub vehicles : Option (String → Result Vehicle)

-- What a new order draws: its identifier, the time of its first entry, and what its quote draws.
pub record OpenDraw : Type 0 where
  pub id : String
  pub opened_at : Instant
  pub quote : Draw

abbrev pub checked :
    {S : Type 0}
    → (String → Result Customer)
    → (String → Result Vehicle)
    → String
    → String
    → Exec S (Unit {0})
checked customers vehicles customer_id vehicle_id = do
  customer ← lift (customers customer_id)
  raise_if (not customer.is_active) (value_error "Customer is inactive")
  vehicle ← lift (vehicles vehicle_id)
  raise_if (not (vehicle.customer_id == customer.customer_id))
      (value_error "Vehicle does not belong to the informed customer")

-- `_ensure_customer_vehicle_are_valid`
unfoldable pub ensure_valid :
    {S : Type 0}
    → Option (String → Result Customer)
    → Option (String → Result Vehicle)
    → String
    → String
    → Exec S (Unit {0})
ensure_valid (some customers) (some vehicles) customer_id vehicle_id =
    checked customers vehicles customer_id vehicle_id
ensure_valid _ _ customer_id vehicle_id = pure tt

module _ {S P : Type 0} (port : OrderPort S) (publisher : PublisherPort P)
    (registry : Registry) where
  -- `service_order.request_quote()`, on the order that was just opened: the event and the order after it.
  unfoldable pub quoted : ServiceOrder → Draw → Result (DomainEvent × ServiceOrder)
  quoted o d = let (r, o') = request_quote d o in elim r [ ok e ↦ ok (e, o') | err x ↦ err x ]

  -- `execute`
  unfoldable pub execute : OpenServiceOrderCommand → OpenDraw → Exec (World S P) ServiceOrder
  unfolding ensure_valid quoted
  execute cmd d = do
    ensure_valid registry.customers registry.vehicles cmd.customer_id cmd.vehicle_id
    fresh ← lift (open_order cmd.customer_id cmd.vehicle_id cmd.description d.id d.opened_at)
    (e, o) ← lift (quoted fresh d.quote)
    on_orders (port.save o)
    on_events (publisher.publish e)
    pure o
