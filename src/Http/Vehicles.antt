-- ===== src/Http/Vehicles.antt =====
-- src/presentation/api/routes/vehicle_routes.py
pub mod Laws
use Prim.Native.String.{◌++◌}
use service_order_os_service.Prelude.{
  ℕ, ◌/◌, ◌%◌, Bool, true, false, String, Option, none, some, List, [], ◌∷◌, map, if◌then◌else◌,
}
use service_order_os_service.Prelude.Dict.{Dict}
use service_order_os_service.Exec.{Exec, Result, ok, err, value_error}
use service_order_os_service.Json.{Json, number, str}
use service_order_os_service.Domain.Event.{Instant}
use service_order_os_service.Domain.Party.{Vehicle, Birth, AuthenticatedPrincipal}
use service_order_os_service.Domain.Validation.{digit_text, is_valid_br_plate, normalize_plate}
use service_order_os_service.App.PartyPorts.{VehiclePort, CustomerPort}
use service_order_os_service.App.Vehicles
use service_order_os_service.App.Vehicles.{CreateVehicleCommand, UpdateVehicleCommand}
use service_order_os_service.Http.Customers.{success, deleted_reply}
use service_order_os_service.Http.Reply.{
  Reply, returned, http_error, catching, catching_key, uncaught,
}
use service_order_os_service.Http.Auth.{for_admin, answer}

-- `VehicleRequest`, once its fields are checked
pub record VehicleRequest : Type 0 where
  pub customer_id : String
  pub brand : String
  pub model : String
  pub year : ℕ
  pub plate : String

-- `VehicleRequest.validate_plate`
unfoldable pub validate_plate : String → Result String
validate_plate value =
    if is_valid_br_plate value
    then ok (normalize_plate value)
    else err (value_error "Invalid vehicle plate")

-- `str` of a year, which has four digits
unfoldable pub year_text : ℕ → String
year_text y =
    digit_text (y / 1000)
    ++ (digit_text (y / 100 % 10) ++ (digit_text (y / 10 % 10) ++ digit_text (y % 10)))

unfoldable pub vehicle_to_response : Vehicle → Dict Json
vehicle_to_response v =
    ("vehicle_id", str v.vehicle_id)
    ∷ ("customer_id", str v.customer_id)
    ∷ ("brand", str v.brand)
    ∷ ("model", str v.model)
    ∷ ("year", number false (year_text v.year))
    ∷ ("plate", str v.plate)
    ∷ []

-- The commands of a request.
abbrev pub create_command : VehicleRequest → CreateVehicleCommand
create_command payload = record {
  customer_id = payload.customer_id;
  brand = payload.brand;
  model = payload.model;
  year = payload.year;
  plate = payload.plate;
}

abbrev pub update_command : String → VehicleRequest → UpdateVehicleCommand
update_command id payload = record {
  vehicle_id = id;
  customer_id = payload.customer_id;
  brand = payload.brand;
  model = payload.model;
  year = payload.year;
  plate = payload.plate;
}

module _ {S C : Type 0} (repr : String → String) (port : VehiclePort S)
    (customer_port : CustomerPort C) (customers : C) where
  unfoldable pub create_vehicle :
      AuthenticatedPrincipal → VehicleRequest → Birth → S → Reply (Dict Json) × S
  create_vehicle principal payload b = for_admin principal (
      answer (λ r. catching repr 409 r) vehicle_to_response
        (Vehicles.create port customer_port customers (create_command payload) b))

  unfoldable pub update_vehicle :
      AuthenticatedPrincipal → String → VehicleRequest → Instant → S → Reply (Dict Json) × S
  update_vehicle principal id payload now = for_admin principal (
      answer (λ r. catching repr 409 r) (λ v. success)
        (Vehicles.update port customer_port customers (update_command id payload) now))

module _ {S : Type 0} (repr : String → String) (port : VehiclePort S) where
  unfoldable pub list_vehicles :
      AuthenticatedPrincipal → Option String → S → Reply (List (Dict Json)) × S
  list_vehicles principal customer_id =
      for_admin principal
        (answer (λ r. uncaught r) (map vehicle_to_response) (Vehicles.list port customer_id))

  unfoldable pub get_vehicle : AuthenticatedPrincipal → String → S → Reply (Dict Json) × S
  get_vehicle principal id =
      for_admin principal
        (answer (λ r. catching_key repr r) vehicle_to_response (Vehicles.get port id))

  unfoldable pub delete_vehicle : AuthenticatedPrincipal → String → S → Reply (Dict Json) × S
  delete_vehicle principal id =
      for_admin principal
        λ s. let (r, s') = Vehicles.delete port id s in (deleted_reply (uncaught r), s')
