-- ===== src/Memory/Customers.antt =====
-- src/infrastructure/repositories/in_memory_customer_repository.py; `casefold` is `str.casefold`.
pub mod Stored
use service_order_os_service.Prelude.{Bool, false, String, Option, none, some, is_some, List, ◌==◌}
use service_order_os_service.Prelude.Dict.{Dict, lookup, insert, erase, values}
use service_order_os_service.Prelude.Unique.{find}
use service_order_os_service.Exec.{Exec, Result, ok, modify}
use service_order_os_service.Memory.Items.{get_item}
use service_order_os_service.App.PartyPorts.{CustomerPort}
use service_order_os_service.Domain.Party.{Customer}

unfoldable pub save : Customer → Exec (Dict Customer) (Unit {0})
save c = modify (insert c.customer_id c)

unfoldable pub update : Customer → Exec (Dict Customer) (Unit {0})
update c = modify (insert c.customer_id c)

-- `self._items.pop(customer_id, None) is not None`
unfoldable pub delete : String → Exec (Dict Customer) Bool
delete k items = (ok (is_some (lookup k items)), erase k items)

unfoldable pub get : String → Dict Customer → Result Customer
unfolding get_item
get = get_item "Customer not found: "

unfoldable pub list : Dict Customer → List Customer
list items = values items

-- `item.cpf_cnpj == cpf_cnpj`
abbrev pub has_document : String → Customer → Bool
has_document text c = elim (c.cpf_cnpj) [ none ↦ false | some t ↦ t == text ]

unfoldable pub find_by_cpf_cnpj : String → Dict Customer → Option Customer
find_by_cpf_cnpj text items = find (has_document text) (values items)

-- `item.email.casefold() == email.casefold()`
abbrev pub has_email : (String → String) → String → Customer → Bool
has_email casefold email c = casefold c.email == casefold email

unfoldable pub find_by_email : (String → String) → String → Dict Customer → Option Customer
find_by_email casefold email items = find (has_email casefold email) (values items)

abbrev pub memory_customers : (String → String) → CustomerPort (Dict Customer)
memory_customers casefold = record {
  save = save;
  update = update;
  delete = delete;
  get = get;
  list = λ s. ok (list s);
  find_by_cpf_cnpj = λ t s. ok (find_by_cpf_cnpj t s);
  find_by_email = λ t s. ok (find_by_email casefold t s);
}
