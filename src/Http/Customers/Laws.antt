-- ===== src/Http/Customers/Laws.antt =====
-- Customers through the routes.
use service_order_os_service.Prelude.{true, String, some, arith, ◌≡◌}
use service_order_os_service.Exec.{ok}
use service_order_os_service.Domain.Validation.{Decimals, is_valid_cpf_cnpj, normalize_digits}
use service_order_os_service.Domain.Validation.Digits.{
  is_valid_cpf_cnpj-normalize, normalize_digits_idem,
}
use service_order_os_service.Prelude.{eq_refl}
use service_order_os_service.Prelude.Dict.{Dict, lookup-insert}
use service_order_os_service.Json.{Json}
use service_order_os_service.Domain.Party.{Customer, Birth, AuthenticatedPrincipal}
use service_order_os_service.App.Customers
use service_order_os_service.App.Customers.{new_customer}
use service_order_os_service.App.Customers.Keeps.{create_outcome}
use service_order_os_service.Memory.Items.{get_item}
use service_order_os_service.Memory.Customers as Store
use service_order_os_service.Memory.Customers.{memory_customers}
use service_order_os_service.Http.Reply.{returned}
use service_order_os_service.Http.Auth.{require_admin_principal}
use service_order_os_service.Http.Customers.{
  CustomerRequest, validate_cpf_cnpj, create_command, create_customer, get_customer,
}

-- A document that the request's check lets pass is valid, is its own digits, and passes again as it is.
pub validated_document :
    (py : Decimals) (value t : String)
    → validate_cpf_cnpj py (some value) ≡ ok (some t)
    → (is_valid_cpf_cnpj py t ≡ true)
      × (normalize_digits py t ≡ t)
      × (validate_cpf_cnpj py (some t) ≡ ok (some t))
unfolding validate_cpf_cnpj
validated_document py value t h =
    ground (arith, is_valid_cpf_cnpj-normalize py value, normalize_digits_idem py value)

module _ (repr casefold : String → String) where
  -- A customer whose creation over the repository in memory was answered with a body is answered with the
  -- same body when asked for by its identifier, and asking changes nothing.
  pub get_after_create :
      (p : AuthenticatedPrincipal) (payload : CustomerRequest) (b : Birth) (d d' : Dict Customer)
      (body : Dict Json)
      → create_customer repr (memory_customers casefold) p payload b d ≡ (returned body, d')
      → get_customer repr (memory_customers casefold) p b.id d' ≡ (returned body, d')
  unfolding create_customer get_customer require_admin_principal Customers.get Store.get get_item
  get_after_create p payload b d d' body h = ground (
    arith,
    create_outcome casefold (create_command payload) b d,
    lookup-insert b.id b.id (new_customer (create_command payload) b) d,
    eq_refl b.id,
  )
