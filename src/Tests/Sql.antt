-- ===== src/Tests/Sql.antt =====
-- Repositories over SQL, on a table of one row.
use Prim.Native.String.{[], ◌∷◌}
use service_order_os_service.Prelude.{
  ℕ, zero, suc, String, Option, none, some, true, ◌≡◌, refl, ap, ◌==◌, if◌then◌else◌,
}
use service_order_os_service.Exec.{ok, err, value_error}
use service_order_os_service.Domain.Party.{Customer, Vehicle}
use service_order_os_service.Sql.Orders
use service_order_os_service.Sql.Orders.{OrderRow, Codec, to_row}
use service_order_os_service.Sql.Orders.Laws.{IsCodec, sql_get-save}
use service_order_os_service.Sql.Customers
use service_order_os_service.Sql.Customers.{CustomerRow}
use service_order_os_service.App.PartyPorts.{CustomerPort, VehiclePort}
use service_order_os_service.App.Customers.{
  UpdateCustomerCommand, update, check_document, check_email,
}
use service_order_os_service.App.Customers.Stored.{IsStore, updated_is_stored}
use service_order_os_service.Sql.Customers.Stored.{sql_customers-IsStore}
use service_order_os_service.App.Vehicles.{CreateVehicleCommand, create, new_vehicle}
use service_order_os_service.App.Vehicles.Stored.{created_vehicle_is_stored}
use service_order_os_service.Sql.Vehicles
use service_order_os_service.Sql.Vehicles.{VehicleRow, VehicleCodec}
use service_order_os_service.Sql.Vehicles.Laws
use service_order_os_service.Sql.Vehicles.Stored.{sql_vehicles-IsStore}
use service_order_os_service.Tests.OneRow.{put, one_row, row_at, rows_where, change}
use service_order_os_service.Tests.Data.{plain, quoting, done, ana}

-- Times as tallies.
unfoldable tally : ℕ → String
tally zero = ""
tally (suc n) = "|" ∷ tally n

unfoldable strokes : String → ℕ
strokes [] = zero
strokes (c ∷ t) = suc (strokes t)

strokes-tally : (n : ℕ) → strokes (tally n) ≡ n
unfolding strokes tally
strokes-tally zero = refl
strokes-tally (suc n) = ap suc (strokes-tally n)

abbrev codec : Codec
codec = record {
  show = plain;
  loads = λ t. err (value_error t);
  isoformat = tally;
  fromisoformat = λ t. ok (strokes t);
}

codec-IsCodec : IsCodec codec
codec-IsCodec = record { shows = λ t. refl; reads = λ at. ap ok (strokes-tally at) }

abbrev order_key : OrderRow → String
order_key r = r.service_order_id

-- The order's row, from when it waited for its quote.
abbrev stored : Option OrderRow
stored = some (to_row codec quoting)

sql_get-save_example :
    Orders.get codec (one_row order_key) "os-1" (some (to_row codec done)) ≡ ok done
unfolding Orders.save Orders.upsert rows_where change to_row
sql_get-save_example =
    sql_get-save codec codec-IsCodec (one_row order_key) done "os-1" stored
      (some (to_row codec done)) refl

abbrev customer_key : CustomerRow → String
customer_key r = r.customer_id

abbrev ana_row : CustomerRow
ana_row = Customers.to_row tally (λ t. ok (strokes t)) ana

abbrev customers : CustomerPort (Option CustomerRow)
customers = Customers.sql_customers tally (λ t. ok (strokes t)) (one_row customer_key)

sql_customers-IsStore_example : IsStore customers (λ _. Unit)
sql_customers-IsStore_example =
    sql_customers-IsStore tally (λ t. ok (strokes t)) (λ at. ap ok (strokes-tally at))
      (one_row customer_key)

-- A new telephone.
abbrev moving : UpdateCustomerCommand
moving = record {
  customer_id = "c-1";
  name = "Ana";
  cpf_cnpj = some "52998224725";
  email = "ana@example.com";
  phone = "22";
  is_active = true;
}

abbrev moved : Customer
moved = record ana { phone = "22"; updated_at = 9 }

abbrev moved_row : Option CustomerRow
moved_row = some (Customers.to_row tally (λ t. ok (strokes t)) moved)

updated_is_stored_example :
    (moved.customer_id ≡ "c-1")
    × ((j : String)
        → customers.get j moved_row
          ≡ (if moving.customer_id == j then ok moved else customers.get j (some ana_row)))
    × Unit {0}
unfolding update check_document check_email Customers.get Customers.found_row Customers.from_row
    Customers.update Customers.updated_row Customers.to_row row_at rows_where change tally strokes
updated_is_stored_example =
    updated_is_stored customers (λ _. Unit)
      (sql_customers-IsStore tally (λ t. ok (strokes t)) (λ at. ap ok (strokes-tally at))
        (one_row customer_key))
      moving 9 moved (some ana_row) moved_row tt refl

abbrev vehicle_codec : VehicleCodec
vehicle_codec = record {
  year_text = tally;
  year_of = λ t. ok (strokes t);
  isoformat = tally;
  fromisoformat = λ t. ok (strokes t);
}

vehicle_codec-IsCodec : Laws.IsCodec vehicle_codec
vehicle_codec-IsCodec = record {
  years = λ y. ap ok (strokes-tally y);
  times = λ at. ap ok (strokes-tally at);
}

abbrev vehicles : VehiclePort (Option VehicleRow)
vehicles = Vehicles.sql_vehicles vehicle_codec (one_row λ r. r.vehicle_id)

abbrev buying : CreateVehicleCommand
buying = record { customer_id = "c-1"; brand = "Ford"; model = "Ka"; year = 3; plate = "ABC1D23" }

abbrev bought : Vehicle
bought = new_vehicle buying (record { id = "v-1"; created_at = 4; updated_at = 4 })

abbrev bought_row : Option VehicleRow
bought_row = some (Vehicles.to_row vehicle_codec bought)

created_vehicle_is_stored_example :
    ((owner : Customer) × (customers.get bought.customer_id (some ana_row) ≡ ok owner))
    × ((j : String)
        → vehicles.get j bought_row
          ≡ (if bought.vehicle_id == j then ok bought else vehicles.get j none))
    × Unit {0}
unfolding create Customers.get Customers.found_row Customers.from_row Customers.to_row
    Vehicles.find_by_plate Vehicles.first_row Vehicles.save Vehicles.to_row row_at rows_where put
    tally strokes
created_vehicle_is_stored_example =
    created_vehicle_is_stored vehicles customers (some ana_row) (λ _. Unit)
      (sql_vehicles-IsStore vehicle_codec vehicle_codec-IsCodec (one_row λ r. r.vehicle_id)) buying
      (record { id = "v-1"; created_at = 4; updated_at = 4 }) bought none bought_row tt refl
