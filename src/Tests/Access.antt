-- ===== src/Tests/Access.antt =====
-- Tokens, routes and deliveries.
use service_order_os_service.Prelude.{
  true, false, String, none, some, List, [], ◌∷◌, arith, ◌≡◌, refl, ◌==◌,
}
use service_order_os_service.Prelude.Dict.{Dict, lookup}
use service_order_os_service.Exec.{Exec, Result, ok, err, value_error}
use service_order_os_service.Json.{Json, str, number, truthy, obj, of_entries, entries}
use service_order_os_service.Domain.Order.Base.{ServiceOrder}
use service_order_os_service.Domain.Party.{AuthenticatedPrincipal}
use service_order_os_service.App.Saga.Base.{order_id_of}
use service_order_os_service.App.Opening.{Registry}
use service_order_os_service.Http.Auth.{
  Jwt, JwtSettings, resolve_principal, verify_customer_token, verify_admin_token, has_role, is_text,
  create_token, require_admin_principal,
}
use service_order_os_service.Http.Auth.Laws.{admin_needs_own_key, created_token_resolves}
use service_order_os_service.Http.ServiceOrders.{
  SagaEventRequest, service_order_to_response, get_service_order, show_order, event_of,
}
use service_order_os_service.Http.ServiceOrders.Laws.{get_shows_own, event_target}
use service_order_os_service.Memory.Orders
use service_order_os_service.Memory.Orders.{memory_orders}
use service_order_os_service.Memory.Items.{get_item}
use service_order_os_service.Messaging.Contracts.{
  contains, missing, check_type, check_payload, validate_event_message,
}
use service_order_os_service.Messaging.Memory.{memory_publisher}
use service_order_os_service.Messaging.Worker.{
  Channel, Site, read_message, as_message, handle_delivery,
}
use service_order_os_service.Messaging.Worker.Laws.{delivery_settled}
use service_order_os_service.Tests.Data.{plain, iso, quoting, quoting_world, approval_message}

abbrev settings : JwtSettings
settings = record {
  jwt_secret = "own";
  jwt_algorithm = "HS256";
  jwt_issuer = "os";
  customer_jwt_secret = "theirs";
  customer_jwt_algorithm = "HS256";
  customer_jwt_issuer = "customers";
}

abbrev root_claims : Dict Json
root_claims =
    ("user_id", str "u-1")
    ∷ ("email", str "root@example.com")
    ∷ ("role", str "admin")
    ∷ ("iss", str "os")
    ∷ ("exp", number false "9")
    ∷ []

-- A library whose tokens are their keys: only the key "own" signs, and always the same claims.
abbrev jwt : Jwt
jwt = record {
  encode = λ claims key algorithm. key;
  decode =
      λ token key algorithm issuer. elim (token == key) [ true ↦ some root_claims | false ↦ none ];
}

abbrev root : AuthenticatedPrincipal
root = record {
  subject = "u-1";
  role = "admin";
  customer_id = none;
  issuer = some (str "os");
  claims = root_claims;
}

admin_needs_own_key_example :
    (payload : Dict Json) × (jwt.decode "own" settings.jwt_secret settings.jwt_algorithm
        settings.jwt_issuer
      ≡ some payload)
    × (has_role "admin" payload ≡ true)
unfolding resolve_principal verify_customer_token verify_admin_token has_role is_text lookup truthy
    require_admin_principal
admin_needs_own_key_example = admin_needs_own_key plain jwt settings "own" root refl refl

same_claims :
    (t key : String) (claims : Dict Json)
    → (elim (t == key) [ true ↦ some root_claims | false ↦ none ]) ≡ some claims
    → claims ≡ root_claims
same_claims t key claims h = ground arith

created_token_resolves_example :
    (p : AuthenticatedPrincipal) × (resolve_principal plain jwt settings
        (create_token jwt settings (number false "9") "u-1" "root@example.com")
      ≡ some p)
    × (p.role ≡ "admin")
    × (p.subject ≡ "u-1")
unfolding create_token
created_token_resolves_example =
    created_token_resolves plain jwt settings (number false "9") "u-1" "root@example.com"
      (λ t. refl) refl (λ key algorithm issuer claims h. same_claims "own" key claims h) refl

-- The customer of the order.
abbrev ana_principal : AuthenticatedPrincipal
ana_principal = record {
  subject = "c-1";
  role = "customer";
  customer_id = some "c-1";
  issuer = none;
  claims = [];
}

abbrev no_registry : Registry
no_registry = record { customers = none; vehicles = none }

abbrev quoted_text : String → String
quoted_text t = t

get_shows_own_example :
    (o : ServiceOrder) × (memory_orders.get "os-1" quoting_world.orders ≡ ok o)
    × (some "c-1" ≡ some o.customer_id)
    × (service_order_to_response iso quoting ≡ service_order_to_response iso o)
unfolding get_service_order show_order Orders.get get_item lookup
get_shows_own_example =
    get_shows_own plain iso quoted_text memory_orders (memory_publisher plain iso) no_registry
      ana_principal "os-1" quoting_world (service_order_to_response iso quoting) refl refl

-- A body that names another order than the path does.
abbrev stray : SagaEventRequest
stray = record {
  event_type = "QUOTE_APPROVED";
  correlation_id = "os-1";
  payload = ("service_order_id", str "os-2") ∷ [];
}

event_target_example :
    order_id_of plain (
      event_of plain iso quoted_text memory_orders
        (memory_publisher plain iso)
        no_registry
        "os-1"
        stray
        (record { event_id = "m-3"; occurred_at = 5 }))
    ≡ "os-2"
unfolding lookup truthy
event_target_example =
    event_target plain iso quoted_text memory_orders (memory_publisher plain iso) no_registry "os-1"
      stray (record { event_id = "m-3"; occurred_at = 5 }) (λ t. refl) (refl, tt) refl

-- A channel that counts what is settled, and a decoder that reads one body.
abbrev journal : Channel (List String)
journal = record {
  basic_ack = λ tag log. (ok tt, ("ack " ∷ tag ∷ log));
  basic_nack = λ tag requeue log. (ok tt, ("nack " ∷ tag ∷ log));
}

abbrev loads : String → Result Json
loads body = elim (body == "good") [
  | true ↦ ok (obj (of_entries approval_message))
  | false ↦ err (value_error "json")
]

abbrev site : Site (List String) (List String)
site = record { channel = []; handler = [] }

-- A handler that keeps what it was given.
abbrev keeper : Dict Json → Exec (List String) String
keeper message log = (ok "processed", "handled" ∷ log)

delivery_settled_example :
    (handle_delivery plain loads journal keeper "7" "good" site).1
    ≡ (record { channel = "ack " ∷ "7" ∷ []; handler = "handled" ∷ [] })
unfolding read_message of_entries entries validate_event_message missing lookup check_type contains
    check_payload as_message
delivery_settled_example = delivery_settled plain loads journal keeper "7" "good" site (λ c. refl)
