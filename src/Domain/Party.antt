-- ===== src/Domain/Party.antt =====
-- src/domain/customer.py, src/domain/vehicle.py, src/domain/admin_user.py and src/domain/auth.py.
use service_order_os_service.Prelude.{ℕ, Bool, String, Option, ◌==◌}
use service_order_os_service.Prelude.Dict.{Dict}
use service_order_os_service.Json.{Json}
use service_order_os_service.Domain.Event.{Instant}

pub record Customer : Type 0 where
  pub name : String
  pub email : String
  pub phone : String
  pub cpf_cnpj : Option String
  pub is_active : Bool
  pub customer_id : String
  pub created_at : Instant
  pub updated_at : Instant

-- `year` is an `int` that the routes hold between 1900 and 2100.
pub record Vehicle : Type 0 where
  pub customer_id : String
  pub brand : String
  pub model : String
  pub year : ℕ
  pub plate : String
  pub vehicle_id : String
  pub created_at : Instant
  pub updated_at : Instant

pub record AdminUser : Type 0 where
  pub email : String
  pub password_hash : String
  pub user_id : String
  pub created_at : Instant

-- What a new entity draws: `uuid4()`, and `datetime.now(UTC)` for each of its two times.
pub record Birth : Type 0 where
  pub id : String
  pub created_at : Instant
  pub updated_at : Instant

pub record AuthenticatedPrincipal : Type 0 where
  pub subject : String
  pub role : String
  pub customer_id : Option String
  pub issuer : Option Json
  pub claims : Dict Json

abbrev pub is_admin : AuthenticatedPrincipal → Bool
is_admin p = p.role == "admin"

abbrev pub is_customer : AuthenticatedPrincipal → Bool
is_customer p = p.role == "customer"
