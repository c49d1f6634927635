-- ===== src/App/PartyPorts.antt =====
-- src/application/ports.py: the repositories of customers, vehicles and administrators, and the
-- services that administrators need, over the state that the adapter keeps.
use service_order_os_service.Prelude.{Bool, String, Option, List}
use service_order_os_service.Prelude.Dict.{Dict}
use service_order_os_service.Exec.{Exec, Result}
use service_order_os_service.Json.{Json}
use service_order_os_service.Domain.Party.{Customer, Vehicle, AdminUser}

pub record CustomerPort (S : Type 0) : Type 0 where
  pub save : Customer → Exec S (Unit {0})
  pub update : Customer → Exec S (Unit {0})
  pub delete : String → Exec S Bool
  pub get : String → S → Result Customer
  pub list : S → Result (List Customer)
  pub find_by_cpf_cnpj : String → S → Result (Option Customer)
  pub find_by_email : String → S → Result (Option Customer)

pub record VehiclePort (S : Type 0) : Type 0 where
  pub save : Vehicle → Exec S (Unit {0})
  pub update : Vehicle → Exec S (Unit {0})
  pub delete : String → Exec S Bool
  pub get : String → S → Result Vehicle
  pub list : Option String → S → Result (List Vehicle)
  pub find_by_plate : String → S → Result (Option Vehicle)

pub record AdminUserPort (S : Type 0) : Type 0 where
  pub save : AdminUser → Exec S (Unit {0})
  pub find_by_email : String → S → Result (Option AdminUser)

pub record PasswordHasher : Type 0 where
  pub hash_password : String → String
  pub verify_password : String → String → Bool

-- `create_token` reads the clock; the time is an argument of the adapter.
pub record AdminJwtService : Type 0 where
  pub create_token : String → String → String
  pub verify_token : String → Option (Dict Json)
