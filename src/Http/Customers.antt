-- ===== src/Http/Customers.antt =====
-- src/presentation/api/routes/customer_routes.py
pub mod Laws
use service_order_os_service.Prelude.{
  Bool, true, false, String, Option, none, some, List, [], ◌∷◌, map, if◌then◌else◌,
}
use service_order_os_service.Prelude.Dict.{Dict}
use service_order_os_service.Exec.{Exec, Result, ok, err, value_error}
use service_order_os_service.Json.{Json, null, bool, str}
use service_order_os_service.Domain.Event.{Instant}
use service_order_os_service.Domain.Party.{Customer, Birth, AuthenticatedPrincipal}
use service_order_os_service.Domain.Validation.{Decimals, is_valid_cpf_cnpj, normalize_digits}
use service_order_os_service.App.PartyPorts.{CustomerPort}
use service_order_os_service.App.Customers
use service_order_os_service.App.Customers.{CreateCustomerCommand, UpdateCustomerCommand}
use service_order_os_service.Http.Reply.{
  Reply, returned, http_error, catching, catching_key, catching_value, uncaught,
}
use service_order_os_service.Http.Auth.{for_admin, answer}

-- `CustomerRequest`, once its fields are checked
pub record CustomerRequest : Type 0 where
  pub name : String
  pub cpf_cnpj : Option String
  pub email : String
  pub phone : String
  pub is_active : Bool

-- `CustomerRequest.validate_cpf_cnpj`
unfoldable pub validate_cpf_cnpj : Decimals → Option String → Result (Option String)
validate_cpf_cnpj py none = ok none
validate_cpf_cnpj py (some value) =
    if is_valid_cpf_cnpj py value
    then ok (some (normalize_digits py value))
    else err (value_error "Invalid CPF/CNPJ")

-- `None` as null
abbrev pub optional_text : Option String → Json
optional_text none = null
optional_text (some t) = str t

unfoldable pub customer_to_response : Customer → Dict Json
customer_to_response c =
    ("customer_id", str c.customer_id)
    ∷ ("name", str c.name)
    ∷ ("cpf_cnpj", optional_text c.cpf_cnpj)
    ∷ ("email", str c.email)
    ∷ ("phone", str c.phone)
    ∷ ("is_active", bool c.is_active)
    ∷ []

-- `{"success": True}`
abbrev pub success : Dict Json
success = ("success", bool true) ∷ []

-- The commands of a request.
abbrev pub create_command : CustomerRequest → CreateCustomerCommand
create_command payload = record {
  name = payload.name;
  cpf_cnpj = payload.cpf_cnpj;
  email = payload.email;
  phone = payload.phone;
  is_active = payload.is_active;
}

abbrev pub update_command : String → CustomerRequest → UpdateCustomerCommand
update_command id payload = record {
  customer_id = id;
  name = payload.name;
  cpf_cnpj = payload.cpf_cnpj;
  email = payload.email;
  phone = payload.phone;
  is_active = payload.is_active;
}

-- `if not deleted: raise HTTPException(404)`
abbrev pub deleted_reply : Reply Bool → Reply (Dict Json)
deleted_reply (returned true) = returned success
deleted_reply (returned false) = http_error 404 "Not found"
deleted_reply (http_error code detail) = http_error code detail
deleted_reply (Reply.crashed e) = Reply.crashed e

module _ {S : Type 0} (repr : String → String) (port : CustomerPort S) where
  unfoldable pub create_customer :
      AuthenticatedPrincipal → CustomerRequest → Birth → S → Reply (Dict Json) × S
  create_customer principal payload b = for_admin principal (
      answer (λ r. catching_value 409 r) customer_to_response
        (Customers.create port (create_command payload) b))

  unfoldable pub list_customers : AuthenticatedPrincipal → S → Reply (List (Dict Json)) × S
  list_customers principal =
      for_admin principal
        (answer (λ r. uncaught r) (map customer_to_response) (Customers.list port))

  unfoldable pub get_customer : AuthenticatedPrincipal → String → S → Reply (Dict Json) × S
  get_customer principal id =
      for_admin principal
        (answer (λ r. catching_key repr r) customer_to_response (Customers.get port id))

  unfoldable pub update_customer :
      AuthenticatedPrincipal → String → CustomerRequest → Instant → S → Reply (Dict Json) × S
  update_customer principal id payload now = for_admin principal (
      answer (λ r. catching repr 409 r) (λ c. success)
        (Customers.update port (update_command id payload) now))

  unfoldable pub delete_customer : AuthenticatedPrincipal → String → S → Reply (Dict Json) × S
  delete_customer principal id =
      for_admin principal
        λ s. let (r, s') = Customers.delete port id s in (deleted_reply (uncaught r), s')
