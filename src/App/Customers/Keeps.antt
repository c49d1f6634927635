-- ===== src/App/Customers/Keeps.antt =====
-- `CreateCustomerUseCase` and `DeleteCustomerUseCase` of src/application/use_cases.py over the
-- repository in memory.
use service_order_os_service.Prelude.{
  String, Option, none, some, is_some, arith, ◌≡◌, refl, inl, inr, ◌==◌, eq_iff, Option-cases,
  if◌then◌else◌,
}
use service_order_os_service.Prelude.Dict.{Dict, lookup, insert, lookup-erase}
use service_order_os_service.Prelude.Unique.{erase-Distinct, erase-IsUnique}
use service_order_os_service.Exec.{ok, err, value_error}
use service_order_os_service.Domain.Party.{Customer, Birth}
use service_order_os_service.Memory.Customers
use service_order_os_service.Memory.Customers.{memory_customers, find_by_cpf_cnpj, find_by_email}
use service_order_os_service.App.Customers.{
  CreateCustomerCommand, create, delete, new_customer, find_document,
}
use service_order_os_service.App.Customers.Unique.{
  document_of, document, email_tag, IsValid, store, email_absent, document_absent,
}

-- The customer that holds a document, where it is there and not empty.
abbrev pub holder : Option String → Dict Customer → Option Customer
holder none d = none
holder (some t) d = if t == "" then none else find_by_cpf_cnpj t d

module _ (casefold : String → String) where
  pub find_document-holder :
      (o : Option String) (d : Dict Customer)
      → find_document (memory_customers casefold) o d ≡ (ok (holder o d), d)
  unfolding find_document
  find_document-holder none d = refl
  find_document-holder (some t) d = ground arith

  -- Creation, told by what the two searches find.
  pub create_outcome :
      (cmd : CreateCustomerCommand) (b : Birth) (d : Dict Customer)
      → create (memory_customers casefold) cmd b d ≡ (
          if is_some (holder cmd.cpf_cnpj d)
          then (err (value_error "CPF/CNPJ already registered"), d)
          else if is_some (find_by_email casefold cmd.email d)
          then (err (value_error "Email already registered"), d)
          else (ok (new_customer cmd b), insert b.id (new_customer cmd b) d))
  unfolding create Customers.save
  create_outcome cmd b d = rw (find_document-holder cmd.cpf_cnpj d) (ground arith)

  pub free_document :
      (o : Option String) (d : Dict Customer)
      → holder o d ≡ none
      → (t : String) → document_of o ≡ some t
      → find_by_cpf_cnpj t d ≡ none
  free_document none d h t e = cc
  free_document (some u) d h t e = ground (arith, eq_iff u "")

  pub has_text : (o : Option String) (t : String) → document_of o ≡ some t → o ≡ some t
  has_text none t e = cc
  has_text (some u) t e = ground arith

  -- A valid repository of customers in memory stays valid when one is created under a fresh identifier,
  -- whether the call returns or raises: documents stay unique, and emails also when case is ignored.
  pub create_customer-IsValid :
      (cmd : CreateCustomerCommand) (b : Birth) (d : Dict Customer)
      → IsValid casefold d
      → lookup b.id d ≡ none
      → IsValid casefold (create (memory_customers casefold) cmd b d).1
  create_customer-IsValid cmd b d v fresh =
      rw (create_outcome cmd b d) (elim (Option-cases (holder cmd.cpf_cnpj d)) [
        | inr (c, e) ↦ rw e v
        | inl free ↦ elim (Option-cases (find_by_email casefold cmd.email d)) [
          | inr (c, e) ↦ rw (free, e) v
          | inl absent ↦
              rw (free, absent)
                (store casefold (new_customer cmd b) d v
                  (λ j o e p. absurd (email_absent casefold cmd.email d absent j o e p))
                  (λ j o t e p q. absurd (
                    document_absent casefold t d (free_document cmd.cpf_cnpj d free t p) j o e
                      (has_text o.cpf_cnpj t q))))
        ]
      ])

  pub delete_customer-IsValid :
      (k : String) (d : Dict Customer)
      → IsValid casefold d
      → IsValid casefold (delete (memory_customers casefold) k d).1
  unfolding delete Customers.delete
  delete_customer-IsValid k d v = record {
    distinct = erase-Distinct k d v.distinct;
    keyed = λ j o e. ground (arith, lookup-erase k j d, v.keyed j o);
    emails = erase-IsUnique (email_tag casefold) k d v.emails;
    documents = erase-IsUnique document k d v.documents;
  }
