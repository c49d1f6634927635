-- ===== src/App/Customers/Unique.antt =====
-- Validity of the repository of customers in
-- src/infrastructure/repositories/in_memory_customer_repository.py.
use service_order_os_service.Prelude.{
  true, String, Option, none, some, arith, ◌≡◌, ◌∙◌, ap, inl, inr, ◌==◌, eq_iff, eq_refl,
  Option-cases, if◌then◌else◌,
}
use service_order_os_service.Prelude.Dict.{Dict, lookup, insert, lookup-insert}
use service_order_os_service.Prelude.Unique.{
  Distinct, insert-Distinct, find_misses, find_passes, find_stored, IsUnique, insert-IsUnique,
}
use service_order_os_service.Domain.Party.{Customer}
use service_order_os_service.Memory.Customers.{
  has_email, has_document, find_by_cpf_cnpj, find_by_email,
}

-- A document counts where it is there and not empty.
abbrev pub document_of : Option String → Option String
document_of none = none
document_of (some t) = if t == "" then none else some t

abbrev pub document : Customer → Option String
document c = document_of c.cpf_cnpj

module _ (casefold : String → String) where
  abbrev pub email_tag : Customer → Option String
  email_tag c = some (casefold c.email)

  -- Every customer is stored once, under its own identifier; emails differ also when case is ignored,
  -- and so do documents.
  pub record IsValid (d : Dict Customer) : Type 0 where
    pub distinct : Distinct d
    pub keyed : (j : String) (c : Customer) → lookup j d ≡ some c → c.customer_id ≡ j
    pub emails : IsUnique email_tag d
    pub documents : IsUnique document d

  -- Storing a customer whose email and document no other one has.
  pub store :
      (c : Customer) (d : Dict Customer)
      → IsValid d
      → ((j : String) (o : Customer)
          → lookup j d ≡ some o
          → casefold c.email ≡ casefold o.email
          → j ≡ c.customer_id)
      → ((j : String) (o : Customer) (t : String)
          → lookup j d ≡ some o
          → document c ≡ some t
          → document o ≡ some t
          → j ≡ c.customer_id)
      → IsValid (insert c.customer_id c d)
  store c d v free_email free_document = record {
    distinct = insert-Distinct c.customer_id c d v.distinct;
    keyed = λ j o e.
        ground (arith, lookup-insert c.customer_id j c d, v.keyed j o, eq_iff c.customer_id j);
    emails =
        insert-IsUnique email_tag c.customer_id c d v.emails
          (λ j o t e p q. free_email j o e (ground arith));
    documents = insert-IsUnique document c.customer_id c d v.documents free_document;
  }

  -- No customer has an email that a search does not find.
  pub email_absent :
      (email : String) (d : Dict Customer)
      → find_by_email casefold email d ≡ none
      → (j : String) (o : Customer) → lookup j d ≡ some o
      → casefold email ≡ casefold o.email
      → ⊥
  unfolding find_by_email
  email_absent email d h j o e p = ground (
    arith,
    find_misses (has_email casefold email) d j o h e,
    eq_iff (casefold o.email) (casefold email),
  )

  pub document_absent :
      (text : String) (d : Dict Customer)
      → find_by_cpf_cnpj text d ≡ none
      → (j : String) (o : Customer) → lookup j d ≡ some o
      → o.cpf_cnpj ≡ some text
      → ⊥
  unfolding find_by_cpf_cnpj
  document_absent text d h j o e p =
      ground (arith, find_misses (has_document text) d j o h e, eq_refl text)

  -- A search that finds a customer finds the one under its identifier.
  pub email_holder :
      (email : String) (d : Dict Customer) (c : Customer)
      → IsValid d
      → find_by_email casefold email d ≡ some c
      → (lookup c.customer_id d ≡ some c) × (casefold c.email ≡ casefold email)
  unfolding find_by_email
  email_holder email d c v h =
      let at = find_stored (has_email casefold email) d c v.distinct h in
      (
        ap (λ k. lookup k d) (v.keyed at.0 c at.1) ∙ at.1,
        (eq_iff (casefold c.email) (casefold email)).0
            (find_passes (has_email casefold email) d c h),
      )

  pub document_holder :
      (text : String) (d : Dict Customer) (c : Customer)
      → IsValid d
      → find_by_cpf_cnpj text d ≡ some c
      → (lookup c.customer_id d ≡ some c) × (c.cpf_cnpj ≡ some text)
  unfolding find_by_cpf_cnpj
  document_holder text d c v h =
      let at = find_stored (has_document text) d c v.distinct h in
      (
        ap (λ k. lookup k d) (v.keyed at.0 c at.1) ∙ at.1,
        holds c (find_passes (has_document text) d c h),
      )
    where
      holds : (o : Customer) → has_document text o ≡ true → o.cpf_cnpj ≡ some text
      holds o p = elim (Option-cases o.cpf_cnpj) [
        | inl absent ↦ ground arith
        | inr (t, e) ↦ ground (arith, eq_iff t text)
      ]
