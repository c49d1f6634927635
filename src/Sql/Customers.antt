-- ===== src/Sql/Customers.antt =====
-- src/infrastructure/repositories/sqlalchemy_customer_repository.py
pub mod Laws
pub mod Stored
use Prim.Native.String.{◌++◌}
use service_order_os_service.Prelude.{
  Bool, true, false, not, String, Option, none, some, List, [], ◌∷◌, ◌==◌, eqb, if◌then◌else◌,
}
use service_order_os_service.Exec.{Exec, Result, ok, err, key_error, and_then, pure, ◌>>=◌}
use service_order_os_service.Domain.Event.{Instant}
use service_order_os_service.Domain.Party.{Customer}
use service_order_os_service.App.PartyPorts.{CustomerPort}
use service_order_os_service.Sql.Table.{Table}

-- The table `customers`.
pub record CustomerRow : Type 0 where
  pub customer_id : String
  pub name : String
  pub cpf_cnpj : Option String
  pub email : String
  pub phone : String
  pub is_active : Bool
  pub created_at : String
  pub updated_at : String

-- `cpf_cnpj == text` in SQL, which NULL does not pass
abbrev pub holds_document : String → CustomerRow → Bool
holds_document text r = elim (r.cpf_cnpj) [ none ↦ false | some t ↦ t == text ]

-- `isoformat` and `fromisoformat` are those of `datetime`.
module _ (isoformat : Instant → String) (fromisoformat : String → Result Instant) where
  -- The values that `save` writes.
  unfoldable pub to_row : Customer → CustomerRow
  to_row c = record {
    customer_id = c.customer_id;
    name = c.name;
    cpf_cnpj = c.cpf_cnpj;
    email = c.email;
    phone = c.phone;
    is_active = c.is_active;
    created_at = isoformat c.created_at;
    updated_at = isoformat c.updated_at;
  }

  -- The values that `update` writes: all but the identifier and the time of creation.
  unfoldable pub updated_row : Customer → CustomerRow → CustomerRow
  updated_row c r = record r {
    name = c.name;
    cpf_cnpj = c.cpf_cnpj;
    email = c.email;
    phone = c.phone;
    is_active = c.is_active;
    updated_at = isoformat c.updated_at;
  }

  -- `_from_row`
  unfoldable pub from_row : CustomerRow → Result Customer
  from_row r = and_then (fromisoformat r.created_at) λ created.
      and_then (fromisoformat r.updated_at) λ updated. ok (record {
        name = r.name;
        email = r.email;
        phone = r.phone;
        cpf_cnpj = r.cpf_cnpj;
        is_active = r.is_active;
        customer_id = r.customer_id;
        created_at = created;
        updated_at = updated;
      })

  unfoldable pub from_rows : List CustomerRow → Result (List Customer)
  from_rows [] = ok []
  from_rows (r ∷ rs) = and_then (from_row r) λ c. and_then (from_rows rs) λ cs. ok (c ∷ cs)

  -- `None if row is None else self._from_row(dict(row))`, of the first row
  unfoldable pub first_row : List CustomerRow → Result (Option Customer)
  first_row [] = ok none
  first_row (r ∷ rs) = and_then (from_row r) λ c. ok (some c)

  module _ {T : Type 0} (table : Table T CustomerRow (λ r. r.customer_id)) where
    unfoldable pub save : Customer → Exec T (Unit {0})
    save c = table.insert (to_row c)

    unfoldable pub update : Customer → Exec T (Unit {0})
    update c = table.update c.customer_id (updated_row c)

    -- `bool(deleted)`, of the row count
    unfoldable pub delete : String → Exec T Bool
    delete k = do deleted ← table.delete k; pure (not (eqb deleted 0))

    -- What `get` does with the rows that it found.
    unfoldable pub found_row : String → List CustomerRow → Result Customer
    found_row k [] = err (key_error ("Customer not found: " ++ k))
    found_row k (r ∷ rs) = from_row r

    unfoldable pub get : String → T → Result Customer
    unfolding found_row
    get k s = found_row k (table.select (λ r. r.customer_id == k) s)

    unfoldable pub list : T → Result (List Customer)
    list s = from_rows (table.select (λ r. true) s)

    unfoldable pub find_by_cpf_cnpj : String → T → Result (Option Customer)
    find_by_cpf_cnpj text s = first_row (table.select (holds_document text) s)

    unfoldable pub find_by_email : String → T → Result (Option Customer)
    find_by_email email s = first_row (table.select (λ r. r.email == email) s)

    abbrev pub sql_customers : CustomerPort T
    sql_customers = record {
      save = save;
      update = update;
      delete = delete;
      get = get;
      list = list;
      find_by_cpf_cnpj = find_by_cpf_cnpj;
      find_by_email = find_by_email;
    }
