-- ===== src/App/Opening/Laws.antt =====
-- `OpenServiceOrderUseCase.execute` of src/application/use_cases.py over any repository and publisher.
use service_order_os_service.Prelude.{
  Bool, true, false, not, ◌&&◌, String, Option, none, some, arith, ◌≡◌, refl, eq_refl, eq_iff, [],
  ◌∷◌, Bool-cases, inl, inr, if◌then◌else◌,
}
use service_order_os_service.Text.{is_blank}
use service_order_os_service.Exec.{Result, ok, err, is_ok}
use service_order_os_service.Json.{str}
use service_order_os_service.Domain.Event.{DomainEvent}
use service_order_os_service.Domain.Order.Base.{
  opened, quote_requested, ServiceOrder, open_order, request_quote,
}
use service_order_os_service.Domain.Order.Spec.{ahead}
use service_order_os_service.Domain.Order.Safe.{IsTraced}
use service_order_os_service.Domain.Party.{Customer, Vehicle}
use service_order_os_service.App.Ports.{OrderPort, PublisherPort, World}
use service_order_os_service.App.Saga.Execute.{IsSound, save-IsSound}
use service_order_os_service.App.Opening.{
  OpenServiceOrderCommand, Registry, OpenDraw, ensure_valid, quoted, execute,
}

-- The order as opening leaves it: two entries, opened and quote requested.
abbrev pub opened_order : OpenServiceOrderCommand → OpenDraw → ServiceOrder
opened_order cmd d = record {
  customer_id = cmd.customer_id;
  vehicle_id = cmd.vehicle_id;
  description = cmd.description;
  service_order_id = d.id;
  status = quote_requested;
  history =
      record { status = opened; reason = "Service order opened"; created_at = d.opened_at }
      ∷ record {
        status = quote_requested;
        reason = "Quote requested";
        created_at = d.quote.recorded_at;
      }
      ∷ [];
}

-- The event that opening publishes.
abbrev pub opening_event : OpenServiceOrderCommand → OpenDraw → DomainEvent
opening_event cmd d = record {
  event_type = "OS_OPENED";
  correlation_id = d.id;
  payload =
      ("service_order_id", str d.id)
      ∷ ("customer_id", str cmd.customer_id)
      ∷ ("vehicle_id", str cmd.vehicle_id)
      ∷ ("description", str cmd.description)
      ∷ [];
  event_id = d.quote.stamp.event_id;
  occurred_at = d.quote.stamp.occurred_at;
}

opened_order-IsTraced :
    (cmd : OpenServiceOrderCommand) (d : OpenDraw) → IsTraced (opened_order cmd d)
opened_order-IsTraced cmd d = (refl, (ahead refl, refl))

-- The registry of the running service, which has both repositories.
abbrev pub both : (String → Result Customer) → (String → Result Vehicle) → Registry
both customers vehicles = record { customers = some customers; vehicles = some vehicles }

-- A registered customer that is active and owns the vehicle.
pub record IsEntitled (customers : String → Result Customer) (vehicles : String → Result Vehicle)
    (cmd : OpenServiceOrderCommand) : Type 0 where
  pub customer : Customer
  pub vehicle : Vehicle
  pub known : customers cmd.customer_id ≡ ok customer
  pub active : customer.is_active ≡ true
  pub registered : vehicles cmd.vehicle_id ≡ ok vehicle
  pub owned : vehicle.customer_id ≡ customer.customer_id

module _ {S : Type 0} (customers : String → Result Customer) (vehicles : String → Result Vehicle)
    (cmd : OpenServiceOrderCommand) (s : S) where
  ensure_valid-IsEntitled :
      (ensure_valid (some customers) (some vehicles) cmd.customer_id cmd.vehicle_id s).0 ≡ ok tt
      → IsEntitled customers vehicles cmd
  unfolding ensure_valid
  ensure_valid-IsEntitled h = by_customer (customers cmd.customer_id) refl
    where
      by_vehicle :
          (c : Customer)
          → customers cmd.customer_id ≡ ok c
          → (r : Result Vehicle) → vehicles cmd.vehicle_id ≡ r
          → IsEntitled customers vehicles cmd
      by_vehicle c e (ok v) p = record {
        customer = c;
        vehicle = v;
        known = e;
        active = ground arith;
        registered = p;
        owned = ground (arith, eq_iff v.customer_id c.customer_id);
      }
      by_vehicle c e (err x) p = absurd (ground arith)

      by_customer :
          (r : Result Customer) → customers cmd.customer_id ≡ r → IsEntitled customers vehicles cmd
      by_customer (ok c) e = by_vehicle c e (vehicles cmd.vehicle_id) refl
      by_customer (err x) e = absurd (ground arith)

module _ {S : Type 0} (cmd : OpenServiceOrderCommand) (s : S) where
  ensure_valid-keeps :
      (cs : Option (String → Result Customer)) (vs : Option (String → Result Vehicle))
      → (ensure_valid cs vs cmd.customer_id cmd.vehicle_id s).1 ≡ s
  unfolding ensure_valid
  ensure_valid-keeps none vs = refl
  ensure_valid-keeps (some f) none = refl
  ensure_valid-keeps (some f) (some g) = ground arith

abbrev pub has_blank : OpenServiceOrderCommand → Bool
has_blank cmd =
    if is_blank cmd.customer_id
    then true
    else if is_blank cmd.vehicle_id
    then true
    else is_blank cmd.description

module _ {S P : Type 0} (port : OrderPort S) (publisher : PublisherPort P) (registry : Registry)
    (cmd : OpenServiceOrderCommand) (d : OpenDraw) (w : World S P) where
  -- The repository after the call: as it was, or with the opened order saved.
  pub execute_orders : (execute port publisher registry cmd d w).1.orders ≡ (
      if is_ok
          (ensure_valid {S = World S P} registry.customers registry.vehicles cmd.customer_id
            cmd.vehicle_id w).0
        && not (has_blank cmd)
      then (port.save (opened_order cmd d) w.orders).1
      else w.orders)
  unfolding execute open_order request_quote quoted
  execute_orders =
      ground (arith, ensure_valid-keeps {S = World S P} cmd w registry.customers registry.vehicles)

  -- Opening keeps a repository sound, whether the call returns or raises.
  pub execute-IsSound :
      IsSound port w.orders → IsSound port (execute port publisher registry cmd d w).1.orders
  execute-IsSound v =
      rw execute_orders
        (elim (Bool-cases (
          is_ok
            (ensure_valid {S = World S P} registry.customers registry.vehicles cmd.customer_id
              cmd.vehicle_id w).0
          && not (has_blank cmd))) [
            | inr refused ↦ rw refused v
            | inl passed ↦ rw passed (
                save-IsSound port (opened_order cmd d) w.orders (opened_order-IsTraced cmd d) v
                  (port.save (opened_order cmd d) w.orders).0 _ refl)
          ])

  execute_returns :
      (o : ServiceOrder)
      → (execute port publisher registry cmd d w).0 ≡ ok o
      → ((ensure_valid {S = World S P} registry.customers registry.vehicles cmd.customer_id
            cmd.vehicle_id w).0
          ≡ ok tt)
        × (has_blank cmd ≡ false)
        × (o ≡ opened_order cmd d)
        × ((port.save (opened_order cmd d) w.orders).0 ≡ ok tt)
  unfolding execute open_order request_quote quoted
  execute_returns o h =
      ground (arith, ensure_valid-keeps {S = World S P} cmd w registry.customers registry.vehicles)

module _ {S P : Type 0} (port : OrderPort S) (publisher : PublisherPort P)
    (customers : String → Result Customer) (vehicles : String → Result Vehicle)
    (cmd : OpenServiceOrderCommand) (d : OpenDraw) (w : World S P) where
  -- Where opening is given both a repository of customers and one of vehicles, an order that it returns
  -- is for a registered active customer and a vehicle of that customer, with no blank text; it is the
  -- order that waits for its quote, with both steps in its history, and the repository of orders gives
  -- it under its identifier.
  pub execute_opens :
      (o : ServiceOrder)
      → (execute port publisher (both customers vehicles) cmd d w).0 ≡ ok o
      → IsEntitled customers vehicles cmd
        × (has_blank cmd ≡ false)
        × (o ≡ opened_order cmd d)
        × (port.get d.id (execute port publisher (both customers vehicles) cmd d w).1.orders ≡ ok o)
  execute_opens o h =
      let known : Registry = both customers vehicles in
      let t = execute_returns port publisher known cmd d w o h in
      (
        ensure_valid-IsEntitled customers vehicles cmd w t.0,
        t.1,
        t.2,
        rw (execute_orders port publisher known cmd d w) (
            ground (
              arith,
              eq_refl d.id,
              t.0,
              t.1,
              t.2,
              t.3,
              port.get-save (opened_order cmd d) d.id w.orders
                  (port.save (opened_order cmd d) w.orders).1,
            )),
      )

  -- Where opening is given both a repository of customers and one of vehicles, and saving orders and
  -- publishing OS_OPENED events return, a command without blank texts, for a registered active customer
  -- and a vehicle of that customer, opens its order, which is returned with both history entries and
  -- waits for its quote.
  pub entitled_opens :
      IsEntitled customers vehicles cmd
      → has_blank cmd ≡ false
      → ((o : ServiceOrder) (s : S) → is_ok (port.save o s).0 ≡ true)
      → ((ev : DomainEvent) (p : P)
          → ev.event_type ≡ "OS_OPENED"
          → is_ok (publisher.publish ev p).0 ≡ true)
      → (execute port publisher (both customers vehicles) cmd d w).0 ≡ ok (opened_order cmd d)
  unfolding execute open_order request_quote quoted ensure_valid
  entitled_opens h named saves publishes =
      rw (h.known, h.active, h.registered, h.owned, eq_refl h.customer.customer_id)
        (ground (
          arith,
          saves (opened_order cmd d) w.orders,
          publishes (opening_event cmd d) w.events refl,
        ))
