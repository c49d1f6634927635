-- ===== src/App/Customers/Stored.antt =====
-- What `CreateCustomerUseCase` and `UpdateCustomerUseCase` of src/application/use_cases.py leave in a repository,
-- of whatever kind.
use service_order_os_service.Prelude.{
  String, Option, none, some, is_some, arith, ◌≡◌, sym, ap, subst, ◌∙◌, ◌==◌, Bool-cases, inl, inr,
  if◌then◌else◌,
}
use service_order_os_service.Exec.{Exec, Result, ok, value_error, pure, raise_if, ◌>>=◌, ◌>>◌}
use service_order_os_service.Domain.Event.{Instant}
use service_order_os_service.Domain.Party.{Customer, Birth}
use service_order_os_service.App.Reads.{bind_reads, asks_stays, passed, raise_stays, wrote}
use service_order_os_service.App.PartyPorts.{CustomerPort}
use service_order_os_service.App.Customers.{
  CreateCustomerCommand, UpdateCustomerCommand, asks, same_option, is_other, create, update,
  new_customer, revised, find_document, check_document, check_email,
}

-- A repository of customers that gives back what it was given, from sound states.
pub record IsStore {S : Type 0} (port : CustomerPort S) (Sound : S → Type 0) : Type 0 where
  pub named :
      (k : String) (c : Customer) (s : S) → Sound s → port.get k s ≡ ok c → c.customer_id ≡ k
  pub get-save :
      (c : Customer) (j : String) (s t : S)
      → port.save c s ≡ (ok tt, t)
      → port.get j t ≡ (if c.customer_id == j then ok c else port.get j s)
  pub get-update :
      (c old : Customer) (j : String) (s t : S)
      → port.get c.customer_id s ≡ ok old
      → c.created_at ≡ old.created_at
      → port.update c s ≡ (ok tt, t)
      → port.get j t ≡ (if c.customer_id == j then ok c else port.get j s)
  pub save-Sound : (c : Customer) (s t : S) → Sound s → port.save c s ≡ (ok tt, t) → Sound t
  pub update-Sound : (c : Customer) (s t : S) → Sound s → port.update c s ≡ (ok tt, t) → Sound t

module _ {S : Type 0} (port : CustomerPort S) where
  find_document_stays :
      (o : Option String) (s r : S) (a : Option Customer)
      → find_document port o s ≡ (ok a, r)
      → r ≡ s
  unfolding find_document
  find_document_stays none s r a h = sym (ap (λ (x : Result (Option Customer) × S). x.1) h)
  find_document_stays (some t) s r a h = elim (Bool-cases (t == "")) [
    | inl empty ↦ ground (arith, empty, h)
    | inr full ↦ ground (arith, full, h)
  ]

  created_writes :
      (cmd : CreateCustomerCommand) (b : Birth) (c : Customer) (s t : S)
      → create port cmd b s ≡ (ok c, t)
      → (port.save c s ≡ (ok tt, t)) × (new_customer cmd b ≡ c)
  unfolding create
  created_writes cmd b c s t h =
      let (holder, _, h1) =
        bind_reads (find_document port cmd.cpf_cnpj) checked c s t
          (find_document_stays cmd.cpf_cnpj s) h in
      let h2 =
        passed (is_some holder) (value_error "CPF/CNPJ already registered") mail_checked c s t h1 in
      let (other, _, h3) =
        bind_reads (asks (port.find_by_email cmd.email)) saved c s t
          (asks_stays (port.find_by_email cmd.email) s) h2 in
      let h4 = passed (is_some other) (value_error "Email already registered") saving c s t h3 in
      let (written, same) = wrote (port.save (new_customer cmd b)) (new_customer cmd b) c s t h4 in
      (subst (λ x. port.save x s ≡ (ok tt, t)) same written, same)
    where
      saving : Exec S Customer
      saving = port.save (new_customer cmd b) >> pure (new_customer cmd b)

      saved : Option Customer → Exec S Customer
      saved other = raise_if (is_some other) (value_error "Email already registered") >> saving

      mail_checked : Exec S Customer
      mail_checked = asks (port.find_by_email cmd.email) >>= saved

      checked : Option Customer → Exec S Customer
      checked holder =
          raise_if (is_some holder) (value_error "CPF/CNPJ already registered") >> mail_checked

  check_document_stays :
      (cmd : UpdateCustomerCommand) (c : Customer) (s r : S) (u : Unit {0})
      → check_document port cmd c s ≡ (ok u, r)
      → r ≡ s
  unfolding check_document
  check_document_stays cmd c s r u h = elim (Bool-cases (same_option cmd.cpf_cnpj c.cpf_cnpj)) [
    | inl same ↦ ground (arith, same, h)
    | inr new ↦
        let (other, _, rest) =
          bind_reads (find_document port cmd.cpf_cnpj) refused u s r
            (find_document_stays cmd.cpf_cnpj s) (ground (arith, new, h)) in
        raise_stays (is_other cmd.customer_id other) (value_error "CPF/CNPJ already registered") s r
          u rest
  ]
    where
      refused : Option Customer → Exec S (Unit {0})
      refused other =
          raise_if (is_other cmd.customer_id other) (value_error "CPF/CNPJ already registered")

  check_email_stays :
      (cmd : UpdateCustomerCommand) (c : Customer) (s r : S) (u : Unit {0})
      → check_email port cmd c s ≡ (ok u, r)
      → r ≡ s
  unfolding check_email
  check_email_stays cmd c s r u h = elim (Bool-cases (cmd.email == c.email)) [
    | inl same ↦ ground (arith, same, h)
    | inr new ↦
        let (other, _, rest) =
          bind_reads (asks (port.find_by_email cmd.email)) refused u s r
            (asks_stays (port.find_by_email cmd.email) s) (ground (arith, new, h)) in
        raise_stays (is_other cmd.customer_id other) (value_error "Email already registered") s r u
          rest
  ]
    where
      refused : Option Customer → Exec S (Unit {0})
      refused other =
          raise_if (is_other cmd.customer_id other) (value_error "Email already registered")

  updated_writes :
      (cmd : UpdateCustomerCommand) (now : Instant) (c : Customer) (s t : S)
      → update port cmd now s ≡ (ok c, t)
      → (old : Customer) × (port.get cmd.customer_id s ≡ ok old)
        × (port.update c s ≡ (ok tt, t))
        × (revised cmd now old ≡ c)
  unfolding update
  updated_writes cmd now c s t h =
      let (old, found, h1) =
        bind_reads (asks (port.get cmd.customer_id)) document_checked c s t
          (asks_stays (port.get cmd.customer_id) s) h in
      let (_, _, h2) =
        bind_reads (check_document port cmd old) (λ _. mail_checked old) c s t
          (check_document_stays cmd old s) h1 in
      let (_, _, h3) =
        bind_reads (check_email port cmd old) (λ _. updating old) c s t
          (check_email_stays cmd old s) h2 in
      let (written, same) =
        wrote (port.update (revised cmd now old)) (revised cmd now old) c s t h3 in
      (
        old,
        ap (λ (x : Result Customer × S). x.0) found,
        subst (λ x. port.update x s ≡ (ok tt, t)) same written,
        same,
      )
    where
      updating : Customer → Exec S Customer
      updating old = port.update (revised cmd now old) >> pure (revised cmd now old)

      mail_checked : Customer → Exec S Customer
      mail_checked old = check_email port cmd old >> updating old

      document_checked : Customer → Exec S Customer
      document_checked old = check_document port cmd old >> mail_checked old

  module _ (Sound : S → Type 0) (store : IsStore port Sound) where
    -- A customer that creation returned is what the repository then gives under its identifier; every
    -- other identifier gives what it gave before, and the state stays sound.
    pub created_is_stored :
        (cmd : CreateCustomerCommand) (b : Birth) (c : Customer) (s t : S)
        → Sound s
        → create port cmd b s ≡ (ok c, t)
        → ((j : String) → port.get j t ≡ (if c.customer_id == j then ok c else port.get j s))
          × Sound t
    created_is_stored cmd b c s t sound h =
        let (written, same) = created_writes cmd b c s t h in
        (λ j. store.get-save c j s t written, store.save-Sound c s t sound written)

    -- A customer that an update returned has the identifier of the command, and is what the repository
    -- then gives under it; every other identifier gives what it gave before, and the state stays sound.
    pub updated_is_stored :
        (cmd : UpdateCustomerCommand) (now : Instant) (c : Customer) (s t : S)
        → Sound s
        → update port cmd now s ≡ (ok c, t)
        → (c.customer_id ≡ cmd.customer_id)
          × ((j : String) → port.get j t ≡ (if cmd.customer_id == j then ok c else port.get j s))
          × Sound t
    updated_is_stored cmd now c s t sound h =
        let (old, found, written, same) = updated_writes cmd now c s t h in
        let named : c.customer_id ≡ cmd.customer_id =
          ap (λ (x : Customer). x.customer_id) (sym same)
          ∙ store.named cmd.customer_id old s sound found in
        let made : c.created_at ≡ old.created_at = ap (λ (x : Customer). x.created_at) (sym same) in
        let there : port.get c.customer_id s ≡ ok old =
          subst (λ k. port.get k s ≡ ok old) (sym named) found in
        (
          named,
          λ j.
              subst (λ k. port.get j t ≡ (if k == j then ok c else port.get j s)) named
                (store.get-update c old j s t there made written),
          store.update-Sound c s t sound written,
        )
