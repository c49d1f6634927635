-- ===== src/Sql/Admins.antt =====
-- src/infrastructure/repositories/sqlalchemy_admin_user_repository.py
use service_order_os_service.Prelude.{String, Option, none, some, List, [], ◌∷◌, ◌==◌}
use service_order_os_service.Exec.{Exec, Result, ok, and_then}
use service_order_os_service.Domain.Event.{Instant}
use service_order_os_service.Domain.Party.{AdminUser}
use service_order_os_service.App.PartyPorts.{AdminUserPort}
use service_order_os_service.Sql.Table.{Table}

-- The table `admin_users`.
pub record AdminRow : Type 0 where
  pub user_id : String
  pub email : String
  pub password_hash : String
  pub created_at : String

-- `isoformat` and `fromisoformat` are those of `datetime`.
module _ (isoformat : Instant → String) (fromisoformat : String → Result Instant) where
  unfoldable pub to_row : AdminUser → AdminRow
  to_row u = record {
    user_id = u.user_id;
    email = u.email;
    password_hash = u.password_hash;
    created_at = isoformat u.created_at;
  }

  -- The user of the first row, if there is one.
  unfoldable pub first_user : List AdminRow → Result (Option AdminUser)
  first_user [] = ok none
  first_user (r ∷ rs) = and_then (fromisoformat r.created_at) λ created. ok (
      some (record {
        email = r.email;
        password_hash = r.password_hash;
        user_id = r.user_id;
        created_at = created;
      }))

  module _ {T : Type 0} (table : Table T AdminRow (λ r. r.user_id)) where
    unfoldable pub save : AdminUser → Exec T (Unit {0})
    save u = table.insert (to_row u)

    unfoldable pub find_by_email : String → T → Result (Option AdminUser)
    find_by_email email s = first_user (table.select (λ r. r.email == email) s)

    abbrev pub sql_admins : AdminUserPort T
    sql_admins = record { save = save; find_by_email = find_by_email }
