-- ===== src/Memory/Vehicles.antt =====
-- src/infrastructure/repositories/in_memory_vehicle_repository.py
pub mod Stored
use service_order_os_service.Prelude.{
  Bool, String, Option, none, some, is_some, List, [], ◌∷◌, ◌==◌, if◌then◌else◌,
}
use service_order_os_service.Prelude.Dict.{Dict, lookup, insert, erase, values}
use service_order_os_service.Prelude.Unique.{find}
use service_order_os_service.Exec.{Exec, Result, ok, modify}
use service_order_os_service.Memory.Items.{get_item}
use service_order_os_service.App.PartyPorts.{VehiclePort}
use service_order_os_service.Domain.Party.{Vehicle}

unfoldable pub save : Vehicle → Exec (Dict Vehicle) (Unit {0})
save v = modify (insert v.vehicle_id v)

unfoldable pub update : Vehicle → Exec (Dict Vehicle) (Unit {0})
update v = modify (insert v.vehicle_id v)

unfoldable pub delete : String → Exec (Dict Vehicle) Bool
delete k items = (ok (is_some (lookup k items)), erase k items)

unfoldable pub get : String → Dict Vehicle → Result Vehicle
unfolding get_item
get = get_item "Vehicle not found: "

-- The vehicles of one customer, in order.
unfoldable pub of_customer : String → List Vehicle → List Vehicle
of_customer owner [] = []
of_customer owner (v ∷ vs) =
    let rest = of_customer owner vs in if v.customer_id == owner then v ∷ rest else rest

unfoldable pub list : Option String → Dict Vehicle → List Vehicle
unfolding of_customer
list none items = values items
list (some owner) items = of_customer owner (values items)

abbrev pub has_plate : String → Vehicle → Bool
has_plate plate v = v.plate == plate

unfoldable pub find_by_plate : String → Dict Vehicle → Option Vehicle
find_by_plate plate items = find (has_plate plate) (values items)

abbrev pub memory_vehicles : VehiclePort (Dict Vehicle)
memory_vehicles = record {
  save = save;
  update = update;
  delete = delete;
  get = get;
  list = λ o s. ok (list o s);
  find_by_plate = λ t s. ok (find_by_plate t s);
}
