-- ===== src/App/Vehicles.antt =====
-- The use cases for vehicles, src/application/use_cases.py.
pub mod Unique
pub mod Stored
use service_order_os_service.Prelude.{
  ℕ, Bool, true, false, not, String, Option, none, some, is_some, List, ◌==◌,
}
use service_order_os_service.Exec.{
  Exec, Result, ok, err, Exn, value_error, pure, lift, raise_if, ◌>>=◌, ◌>>◌,
}
use service_order_os_service.Domain.Event.{Instant}
use service_order_os_service.Domain.Party.{Customer, Vehicle, Birth}
use service_order_os_service.App.PartyPorts.{CustomerPort, VehiclePort}
use service_order_os_service.App.Customers.{asks}

pub record CreateVehicleCommand : Type 0 where
  pub customer_id : String
  pub brand : String
  pub model : String
  pub year : ℕ
  pub plate : String

pub record UpdateVehicleCommand : Type 0 where
  pub vehicle_id : String
  pub customer_id : String
  pub brand : String
  pub model : String
  pub year : ℕ
  pub plate : String

-- `Vehicle(...)` of the creation, and the fields that an update writes.
abbrev pub new_vehicle : CreateVehicleCommand → Birth → Vehicle
new_vehicle cmd b = record {
  customer_id = cmd.customer_id;
  brand = cmd.brand;
  model = cmd.model;
  year = cmd.year;
  plate = cmd.plate;
  vehicle_id = b.id;
  created_at = b.created_at;
  updated_at = b.updated_at;
}

abbrev pub revised : UpdateVehicleCommand → Instant → Vehicle → Vehicle
revised cmd now v = record v {
  customer_id = cmd.customer_id;
  brand = cmd.brand;
  model = cmd.model;
  year = cmd.year;
  plate = cmd.plate;
  updated_at = now;
}

-- A vehicle other than the one with this identifier.
abbrev pub is_other : String → Option Vehicle → Bool
is_other id none = false
is_other id (some v) = not (v.vehicle_id == id)

-- The customers are only read here: their repository's state is an argument.
module _ {S C : Type 0} (port : VehiclePort S) (customer_port : CustomerPort C)
    (customers : C) where
  -- `CreateVehicleUseCase.execute`
  unfoldable pub create : CreateVehicleCommand → Birth → Exec S Vehicle
  create cmd b = do
    lift (customer_port.get cmd.customer_id customers)
    other ← asks (port.find_by_plate cmd.plate)
    raise_if (is_some other) (value_error "Vehicle plate already registered")
    port.save (new_vehicle cmd b)
    pure (new_vehicle cmd b)

  -- The check of an update: a new plate of another vehicle is refused.
  unfoldable pub check_plate : UpdateVehicleCommand → Vehicle → Exec S (Unit {0})
  check_plate cmd v s = elim (cmd.plate == v.plate) [
    | true ↦ (ok tt, s)
    | false ↦
        (do
          other ← asks (port.find_by_plate cmd.plate)
          raise_if (is_other cmd.vehicle_id other) (value_error "Vehicle plate already registered"))
          s
  ]

  -- `UpdateVehicleUseCase.execute`
  unfoldable pub update : UpdateVehicleCommand → Instant → Exec S Vehicle
  update cmd now = do
    vehicle ← asks (port.get cmd.vehicle_id)
    lift (customer_port.get cmd.customer_id customers)
    check_plate cmd vehicle
    port.update (revised cmd now vehicle)
    pure (revised cmd now vehicle)

module _ {S : Type 0} (port : VehiclePort S) where
  -- `ListVehiclesUseCase.execute`, `GetVehicleUseCase.execute` and `DeleteVehicleUseCase.execute`
  unfoldable pub list : Option String → Exec S (List Vehicle)
  list customer_id = asks (port.list customer_id)

  unfoldable pub get : String → Exec S Vehicle
  get vehicle_id = asks (port.get vehicle_id)

  unfoldable pub delete : String → Exec S Bool
  delete vehicle_id = port.delete vehicle_id
