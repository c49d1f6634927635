-- ===== src/App/Customers/Update.antt =====
-- `UpdateCustomerUseCase` of src/application/use_cases.py over the repository in memory.
use service_order_os_service.Prelude.{
  Bool, true, false, not, ◌&&◌, String, Option, none, some, arith, ◌≡◌, refl, sym, ◌∙◌, ap, subst,
  inl, inr, ◌==◌, eq_iff, Option-cases, Bool-cases, if◌then◌else◌,
}
use service_order_os_service.Prelude.Dict.{Dict, lookup, insert}
use service_order_os_service.Exec.{ok, err, value_error}
use service_order_os_service.Domain.Event.{Instant}
use service_order_os_service.Domain.Party.{Customer}
use service_order_os_service.Memory.Customers
use service_order_os_service.Memory.Customers.{memory_customers, find_by_cpf_cnpj, find_by_email}
use service_order_os_service.App.Customers.{
  UpdateCustomerCommand, same_option, is_other, update, revised, check_document, check_email,
}
use service_order_os_service.App.Customers.Unique.{
  document_of, document, IsValid, store, email_absent, document_absent, email_holder,
  document_holder,
}
use service_order_os_service.App.Customers.Keeps.{
  holder, find_document-holder, free_document, has_text,
}

module _ (casefold : String → String) (cmd : UpdateCustomerCommand) (now : Instant)
    (d : Dict Customer) where
  -- The two refusals, at the customer that is updated.
  abbrev taken_document : Customer → Bool
  taken_document c =
      not (same_option cmd.cpf_cnpj c.cpf_cnpj) && is_other cmd.customer_id (holder cmd.cpf_cnpj d)

  abbrev taken_email : Customer → Bool
  taken_email c =
      not (cmd.email == c.email) && is_other cmd.customer_id (find_by_email casefold cmd.email d)

  check_document-eq :
      (c : Customer)
      → check_document (memory_customers casefold) cmd c d ≡ (
          if taken_document c
          then (err (value_error "CPF/CNPJ already registered"), d)
          else (ok tt, d))
  unfolding check_document
  check_document-eq c = ground (arith, find_document-holder casefold cmd.cpf_cnpj d)

  check_email-eq :
      (c : Customer)
      → check_email (memory_customers casefold) cmd c d
        ≡ (if taken_email c then (err (value_error "Email already registered"), d) else (ok tt, d))
  unfolding check_email
  check_email-eq c = ground arith

  update_missing :
      lookup cmd.customer_id d ≡ none → (update (memory_customers casefold) cmd now d).1 ≡ d
  unfolding update Customers.get
  update_missing e = ground arith

  update_outcome :
      (c : Customer)
      → lookup cmd.customer_id d ≡ some c
      → (update (memory_customers casefold) cmd now d).1 ≡ (
          if taken_document c
          then d
          else if taken_email c
          then d
          else insert c.customer_id (revised cmd now c) d)
  unfolding update Customers.get Customers.update
  update_outcome c e = ground (arith, check_document-eq c, check_email-eq c)

  email_free :
      (c : Customer)
      → IsValid casefold d
      → lookup cmd.customer_id d ≡ some c
      → taken_email c ≡ false
      → (j : String) (o : Customer) → lookup j d ≡ some o
      → casefold cmd.email ≡ casefold o.email
      → j ≡ cmd.customer_id
  email_free c v e free j o p q = elim (Bool-cases (cmd.email == c.email)) [
    | inl same ↦
        v.emails.unique j cmd.customer_id o c (casefold cmd.email) p e (ground arith)
          (ground (arith, eq_iff cmd.email c.email))
    | inr new ↦ elim (Option-cases (find_by_email casefold cmd.email d)) [
      | inl absent ↦ absurd (email_absent casefold cmd.email d absent j o p q)
      | inr (x, found) ↦
          let at = email_holder casefold cmd.email d x v found in
          v.emails.unique j x.customer_id o x (casefold cmd.email) p at.0 (ground arith)
            (ground arith)
          ∙ (eq_iff x.customer_id cmd.customer_id).0 (ground arith)
    ]
  ]

  document_free :
      (c : Customer)
      → IsValid casefold d
      → lookup cmd.customer_id d ≡ some c
      → taken_document c ≡ false
      → (j : String) (o : Customer) (t : String) → lookup j d ≡ some o
      → document_of cmd.cpf_cnpj ≡ some t
      → document o ≡ some t
      → j ≡ cmd.customer_id
  document_free c v e free j o t p q r = elim (Bool-cases (same_option cmd.cpf_cnpj c.cpf_cnpj)) [
    | inl same ↦
        v.documents.unique j cmd.customer_id o c t p e r
          (subst (λ z. document_of z ≡ some t) (same_option-eq cmd.cpf_cnpj c.cpf_cnpj same) q)
    | inr new ↦ elim (Option-cases (holder cmd.cpf_cnpj d)) [
      | inl absent ↦ absurd (
          document_absent casefold t d (free_document casefold cmd.cpf_cnpj d absent t q) j o p
            (has_text casefold o.cpf_cnpj t r))
      | inr (x, found) ↦
          let at = document_holder casefold t d x v (held cmd.cpf_cnpj t x q found) in
          v.documents.unique j x.customer_id o x t p at.0 r
            (ap document_of at.1 ∙ nonempty cmd.cpf_cnpj t q)
          ∙ (eq_iff x.customer_id cmd.customer_id).0 (ground arith)
    ]
  ]
    where
      same_option-eq : (a b : Option String) → same_option a b ≡ true → a ≡ b
      same_option-eq none none h = refl
      same_option-eq none (some y) h = cc
      same_option-eq (some x) none h = cc
      same_option-eq (some x) (some y) h = ap (λ (z : String). some z) ((eq_iff x y).0 h)

      held :
          (a : Option String) (u : String) (x : Customer)
          → document_of a ≡ some u
          → holder a d ≡ some x
          → find_by_cpf_cnpj u d ≡ some x
      held none u x h k = cc
      held (some w) u x h k = ground arith

      nonempty :
          (a : Option String) (u : String) → document_of a ≡ some u → document_of (some u) ≡ some u
      nonempty none u h = cc
      nonempty (some w) u h = ground arith

  -- A valid repository of customers in memory stays valid under an update, whether the call returns or
  -- raises: documents stay unique, and emails also when case is ignored.
  pub update_customer-IsValid :
      IsValid casefold d → IsValid casefold (update (memory_customers casefold) cmd now d).1
  update_customer-IsValid v = elim (Option-cases (lookup cmd.customer_id d)) [
    | inl absent ↦ rw (update_missing absent) v
    | inr (c, e) ↦ rw (update_outcome c e) (elim (Bool-cases (taken_document c)) [
      | inl taken ↦ rw taken v
      | inr free ↦ elim (Bool-cases (taken_email c)) [
        | inl taken ↦ rw (free, taken) v
        | inr open_email ↦
            rw (free, open_email)
              (store casefold (revised cmd now c) d v
                (λ j o p q. email_free c v e open_email j o p q ∙ sym (v.keyed _ c e))
                (λ j o t p q r. document_free c v e free j o t p q r ∙ sym (v.keyed _ c e)))
      ]
    ])
  ]
