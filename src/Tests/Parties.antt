-- ===== src/Tests/Parties.antt =====
-- Customers, vehicles, administrators, and the opening of an order.
use service_order_os_service.Prelude.{
  true, false, String, none, some, [], ◌∷◌, arith, ◌≡◌, refl, eq_iff,
}
use service_order_os_service.Prelude.Dict.{Dict, lookup}
use service_order_os_service.Exec.{Result, ok, is_ok}
use service_order_os_service.Text.{strip}
use service_order_os_service.Domain.Event.{DomainEvent}
use service_order_os_service.Domain.Order.Base.{ServiceOrder}
use service_order_os_service.Domain.Party.{Customer, Vehicle, Birth}
use service_order_os_service.App.Customers
use service_order_os_service.App.Customers.{CreateCustomerCommand, UpdateCustomerCommand}
use service_order_os_service.App.Customers.Unique
use service_order_os_service.App.Customers.Keeps.{create_customer-IsValid}
use service_order_os_service.App.Customers.Update.{update_customer-IsValid}
use service_order_os_service.App.Vehicles
use service_order_os_service.App.Vehicles.{CreateVehicleCommand, UpdateVehicleCommand}
use service_order_os_service.App.Vehicles.Unique as VehicleUnique
use service_order_os_service.App.Vehicles.Unique.{create_vehicle-IsValid, update_vehicle-IsValid}
use service_order_os_service.App.Opening
use service_order_os_service.App.Opening.Laws.{
  IsEntitled, has_blank, opened_order, both, execute_opens, entitled_opens,
}
use service_order_os_service.Memory.Orders
use service_order_os_service.Memory.Orders.{memory_orders}
use service_order_os_service.Memory.Customers as CustomerStore
use service_order_os_service.Memory.Customers.{memory_customers}
use service_order_os_service.Memory.Vehicles as VehicleStore
use service_order_os_service.Memory.Vehicles.{memory_vehicles}
use service_order_os_service.Memory.Items.{get_item}
use service_order_os_service.Messaging.Contracts.{contains}
use service_order_os_service.Messaging.Memory.{MemoryPublisher, memory_publisher}
use service_order_os_service.Messaging.Memory.Laws.{publish_outcome}
use service_order_os_service.Tests.Data.{
  plain, iso, same_case, ana, car, command, opening, empty_world,
}

abbrev ana_only : Dict Customer
ana_only = ("c-1", ana) ∷ []

ana-IsValid : Unique.IsValid same_case ana_only
unfolding lookup
ana-IsValid = record {
  distinct = (refl, tt);
  keyed = λ j c g. ground (arith, eq_iff "c-1" j);
  emails = record { unique = λ i j a b t p q r s. ground (arith, eq_iff "c-1" i, eq_iff "c-1" j) };
  documents = record {
    unique = λ i j a b t p q r s. ground (arith, eq_iff "c-1" i, eq_iff "c-1" j);
  };
}

abbrev bia : CreateCustomerCommand
bia = record {
  name = "Bia";
  cpf_cnpj = none;
  email = "bia@example.com";
  phone = "12";
  is_active = true;
}

abbrev birth : Birth
birth = record { id = "c-2"; created_at = 5; updated_at = 5 }

create_customer-IsValid_example :
    Unique.IsValid same_case (Customers.create (memory_customers same_case) bia birth ana_only).1
unfolding lookup
create_customer-IsValid_example =
    create_customer-IsValid same_case bia birth ana_only ana-IsValid refl

abbrev renamed : UpdateCustomerCommand
renamed = record {
  customer_id = "c-1";
  name = "Ana Lima";
  cpf_cnpj = some "52998224725";
  email = "lima@example.com";
  phone = "11";
  is_active = true;
}

update_customer-IsValid_example :
    Unique.IsValid same_case (Customers.update (memory_customers same_case) renamed 6 ana_only).1
update_customer-IsValid_example = update_customer-IsValid same_case renamed 6 ana_only ana-IsValid

abbrev car_only : Dict Vehicle
car_only = ("v-1", car) ∷ []

car-IsValid : VehicleUnique.IsValid car_only
unfolding lookup
car-IsValid = record {
  distinct = (refl, tt);
  keyed = λ j v g. ground (arith, eq_iff "v-1" j);
  plates = record { unique = λ i j a b t p q r s. ground (arith, eq_iff "v-1" i, eq_iff "v-1" j) };
}

abbrev second_car : CreateVehicleCommand
second_car = record {
  customer_id = "c-1";
  brand = "Fiat";
  model = "Argo";
  year = 2020;
  plate = "DEF4567";
}

abbrev replated : UpdateVehicleCommand
replated = record {
  vehicle_id = "v-1";
  customer_id = "c-1";
  brand = "Fiat";
  model = "Uno";
  year = 2010;
  plate = "GHI7890";
}

update_vehicle-IsValid_example :
    VehicleUnique.IsValid
      (Vehicles.update memory_vehicles (memory_customers same_case) ana_only replated 6 car_only).1
update_vehicle-IsValid_example =
    update_vehicle-IsValid (memory_customers same_case) ana_only replated 6 car_only car-IsValid

-- The reads of the running service.
abbrev customer_of : String → Result Customer
customer_of k = (memory_customers same_case).get k ana_only

abbrev vehicle_of : String → Result Vehicle
vehicle_of k = memory_vehicles.get k car_only

ana-IsEntitled : IsEntitled customer_of vehicle_of command
unfolding CustomerStore.get VehicleStore.get get_item lookup
ana-IsEntitled = record {
  customer = ana;
  vehicle = car;
  known = refl;
  active = refl;
  registered = refl;
  owned = refl;
}

saves : (o : ServiceOrder) (s : Dict ServiceOrder) → is_ok (memory_orders.save o s).0 ≡ true
unfolding Orders.save
saves o s = refl

publishes :
    (e : DomainEvent) (p : MemoryPublisher)
    → e.event_type ≡ "OS_OPENED"
    → is_ok ((memory_publisher plain iso).publish e p).0 ≡ true
unfolding contains
publishes e p h = rw (publish_outcome plain iso e p, h)

opens_now :
    (Opening.execute memory_orders
      (memory_publisher plain iso)
      (both customer_of vehicle_of)
      command
      opening
      empty_world).0
    ≡ ok (opened_order command opening)
unfolding strip
opens_now =
    entitled_opens memory_orders (memory_publisher plain iso) customer_of vehicle_of command opening
      empty_world ana-IsEntitled refl saves publishes

entitled_opens_example :
    (Opening.execute memory_orders
      (memory_publisher plain iso)
      (both customer_of vehicle_of)
      command
      opening
      empty_world).0
    ≡ ok (opened_order command opening)
unfolding strip
entitled_opens_example =
    entitled_opens memory_orders (memory_publisher plain iso) customer_of vehicle_of command opening
      empty_world ana-IsEntitled refl saves publishes

execute_opens_example :
    IsEntitled customer_of vehicle_of command
    × (has_blank command ≡ false)
    × (opened_order command opening ≡ opened_order command opening)
    × (memory_orders.get "os-1"
          (Opening.execute memory_orders
            (memory_publisher plain iso)
            (both customer_of vehicle_of)
            command
            opening
            empty_world).1.orders
        ≡ ok (opened_order command opening))
execute_opens_example =
    execute_opens memory_orders (memory_publisher plain iso) customer_of vehicle_of command opening
      empty_world (opened_order command opening) opens_now
