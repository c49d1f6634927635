-- ===== src/Tests/Routes.antt =====
-- The broker's publisher, and a customer through the routes.
use service_order_os_service.Prelude.{Bool, true, false, String, none, [], ◌∷◌, ◌≡◌, refl}
use service_order_os_service.Prelude.Dict.{Dict, insert}
use service_order_os_service.Exec.{ok}
use service_order_os_service.Json.{Json}
use service_order_os_service.Domain.Party.{Customer, Birth, AuthenticatedPrincipal}
use service_order_os_service.Prelude.Dict.{values}
use service_order_os_service.Prelude.Unique.{find}
use service_order_os_service.App.Customers
use service_order_os_service.Memory.Customers as Store
use service_order_os_service.Memory.Customers.{memory_customers}
use service_order_os_service.Messaging.Rabbit.{Broker, Target, BlockingPublisher}
use service_order_os_service.Http.Reply.{returned}
use service_order_os_service.Http.Auth.{require_admin_principal}
use service_order_os_service.Http.Customers.{
  CustomerRequest, create_customer, get_customer, customer_to_response,
}
use service_order_os_service.Http.Customers.Laws.{get_after_create}
use service_order_os_service.Tests.Data.{same_case}

-- A broker that is kept by whether its connection is open.
abbrev line : Broker Bool
line = record {
  connect = λ url c. (ok tt, true);
  exchange_declare = λ x c. (ok tt, c);
  queue_declare = λ q c. (ok tt, c);
  queue_bind = λ x q k c. (ok tt, c);
  basic_publish = λ x k body c. (ok tt, c);
  is_open = λ c. c;
  close = λ c. (ok tt, false);
}

abbrev target : Target
target = record { url = "amqp://"; exchange = "saga"; routing_key = "os"; queue = "os" }

abbrev idle : BlockingPublisher Bool
idle = record { messages = []; broker = false }

abbrev dumps : Dict Json → String
dumps m = "{}"

abbrev root : AuthenticatedPrincipal
root = record { subject = "u-1"; role = "admin"; customer_id = none; issuer = none; claims = [] }

abbrev rui : CustomerRequest
rui = record {
  name = "Rui";
  cpf_cnpj = none;
  email = "rui@example.com";
  phone = "13";
  is_active = true;
}

abbrev rui_birth : Birth
rui_birth = record { id = "c-3"; created_at = 7; updated_at = 7 }

abbrev rui_customer : Customer
rui_customer = record {
  name = "Rui";
  email = "rui@example.com";
  phone = "13";
  cpf_cnpj = none;
  is_active = true;
  customer_id = "c-3";
  created_at = 7;
  updated_at = 7;
}

get_after_create_example :
    get_customer same_case (memory_customers same_case) root "c-3" (("c-3", rui_customer) ∷ [])
    ≡ (returned (customer_to_response rui_customer), ("c-3", rui_customer) ∷ [])
unfolding create_customer require_admin_principal Customers.create Store.save Store.find_by_email
    find values insert
get_after_create_example =
    get_after_create same_case same_case root rui rui_birth [] (("c-3", rui_customer) ∷ [])
      (customer_to_response rui_customer) refl
