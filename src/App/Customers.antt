-- ===== src/App/Customers.antt =====
-- The use cases for customers, src/application/use_cases.py.
pub mod Unique
pub mod Update
pub mod Keeps
pub mod Stored
use service_order_os_service.Prelude.{
  Bool, true, false, not, ◌&&◌, String, Option, none, some, is_some, List, ◌==◌,
}
use service_order_os_service.Exec.{
  Exec, Result, ok, err, Exn, value_error, pure, raise_if, ◌>>=◌, ◌>>◌,
}
use service_order_os_service.Domain.Event.{Instant}
use service_order_os_service.Domain.Party.{Customer, Birth}
use service_order_os_service.App.PartyPorts.{CustomerPort}

pub record CreateCustomerCommand : Type 0 where
  pub name : String
  pub cpf_cnpj : Option String
  pub email : String
  pub phone : String
  pub is_active : Bool

pub record UpdateCustomerCommand : Type 0 where
  pub customer_id : String
  pub name : String
  pub cpf_cnpj : Option String
  pub email : String
  pub phone : String
  pub is_active : Bool

-- A read of the repository.
abbrev pub asks : {S A : Type 0} → (S → Result A) → Exec S A
asks f s = (f s, s)

abbrev pub same_option : Option String → Option String → Bool
same_option none none = true
same_option (some a) (some b) = a == b
same_option _ _ = false

-- A customer other than the one with this identifier.
abbrev pub is_other : String → Option Customer → Bool
is_other id none = false
is_other id (some c) = not (c.customer_id == id)

-- `Customer(...)` of the creation, and the fields that an update writes.
abbrev pub new_customer : CreateCustomerCommand → Birth → Customer
new_customer cmd b = record {
  name = cmd.name;
  email = cmd.email;
  phone = cmd.phone;
  cpf_cnpj = cmd.cpf_cnpj;
  is_active = cmd.is_active;
  customer_id = b.id;
  created_at = b.created_at;
  updated_at = b.updated_at;
}

abbrev pub revised : UpdateCustomerCommand → Instant → Customer → Customer
revised cmd now c = record c {
  name = cmd.name;
  cpf_cnpj = cmd.cpf_cnpj;
  email = cmd.email;
  phone = cmd.phone;
  is_active = cmd.is_active;
  updated_at = now;
}

module _ {S : Type 0} (port : CustomerPort S) where
  -- `command.cpf_cnpj and self._repository.find_by_cpf_cnpj(command.cpf_cnpj)`: an empty text or none is
  -- not looked up.
  unfoldable pub find_document : Option String → Exec S (Option Customer)
  find_document none s = (ok none, s)
  find_document (some text) s = elim (text == "") [
    | true ↦ (ok none, s)
    | false ↦ (port.find_by_cpf_cnpj text s, s)
  ]

  -- `CreateCustomerUseCase.execute`
  unfoldable pub create : CreateCustomerCommand → Birth → Exec S Customer
  unfolding find_document
  create cmd b = do
    holder ← find_document cmd.cpf_cnpj
    raise_if (is_some holder) (value_error "CPF/CNPJ already registered")
    other ← asks (port.find_by_email cmd.email)
    raise_if (is_some other) (value_error "Email already registered")
    port.save (new_customer cmd b)
    pure (new_customer cmd b)

  -- The checks of an update: a new document, and then a new email, of another customer are refused.
  unfoldable pub check_document : UpdateCustomerCommand → Customer → Exec S (Unit {0})
  unfolding find_document
  check_document cmd c s = elim (same_option cmd.cpf_cnpj c.cpf_cnpj) [
    | true ↦ (ok tt, s)
    | false ↦
        (do
          other ← find_document cmd.cpf_cnpj
          raise_if (is_other cmd.customer_id other) (value_error "CPF/CNPJ already registered"))
          s
  ]

  unfoldable pub check_email : UpdateCustomerCommand → Customer → Exec S (Unit {0})
  check_email cmd c s = elim (cmd.email == c.email) [
    | true ↦ (ok tt, s)
    | false ↦
        (do
          other ← asks (port.find_by_email cmd.email)
          raise_if (is_other cmd.customer_id other) (value_error "Email already registered"))
          s
  ]

  -- `UpdateCustomerUseCase.execute`
  unfoldable pub update : UpdateCustomerCommand → Instant → Exec S Customer
  update cmd now = do
    customer ← asks (port.get cmd.customer_id)
    check_document cmd customer
    check_email cmd customer
    port.update (revised cmd now customer)
    pure (revised cmd now customer)

  -- `ListCustomersUseCase.execute`, `GetCustomerUseCase.execute` and `DeleteCustomerUseCase.execute`
  unfoldable pub list : Exec S (List Customer)
  list = asks port.list

  unfoldable pub get : String → Exec S Customer
  get customer_id = asks (port.get customer_id)

  unfoldable pub delete : String → Exec S Bool
  delete customer_id = port.delete customer_id
