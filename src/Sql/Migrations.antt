-- ===== src/Sql/Migrations.antt =====
-- alembic/env.py and alembic/versions/001_initial_schema.py. The tables of a database are a dict; Alembic
-- creates and drops them.
pub mod Laws
use service_order_os_service.Prelude.{
  Bool, true, false, String, Option, none, some, is_some, List, [], ◌∷◌, ◌==◌, if◌then◌else◌,
}
use service_order_os_service.Prelude.Dict.{Dict, lookup, insert, erase}
use service_order_os_service.Exec.{Result, ok, err, other_error, and_then}
use service_order_os_service.Text.{strip}
use service_order_os_service.Config.Settings.{Settings}
use service_order_os_service.Config.Urls.{normalize_sync_database_url}
use service_order_os_service.Sql.Schema.{
  Column, Tables, string, text, json, boolean, date_time, key_column, column, unique_column,
}

-- `_has_table`
abbrev pub has_table : String → Tables → Bool
has_table name db = is_some (lookup name db)

-- `if not _has_table(name): op.create_table(name, columns)`
unfoldable pub create_missing : String → List Column → Tables → Tables
create_missing name columns db = if has_table name db then db else insert name columns db

-- `if _has_table(name): op.drop_table(name)`
unfoldable pub drop_present : String → Tables → Tables
drop_present name db = if has_table name db then erase name db else db

-- The tables that `upgrade` names, in its order, with their columns.
abbrev pub created_tables : Tables
created_tables =
    (
      "service_orders",
      key_column "service_order_id" (string 64)
          ∷ column "customer_id" (string 128)
          ∷ column "vehicle_id" (string 128)
          ∷ column "description" text
          ∷ column "status" (string 64)
          ∷ column "history" json
          ∷ [],
    )
    ∷ (
      "processed_events",
      key_column "event_id" (string 64)
          ∷ column "event_type" (string 128)
          ∷ column "correlation_id" (string 128)
          ∷ column "processed_at" (date_time true)
          ∷ [],
    )
    ∷ (
      "admin_users",
      key_column "user_id" (string 64)
          ∷ unique_column "email" (string 255)
          ∷ column "password_hash" (string 512)
          ∷ column "created_at" (string 64)
          ∷ [],
    )
    ∷ (
      "customers",
      key_column "customer_id" (string 64)
          ∷ column "name" (string 255)
          ∷ record (unique_column "cpf_cnpj" (string 32)) { nullable = true }
          ∷ unique_column "email" (string 255)
          ∷ column "phone" (string 32)
          ∷ column "is_active" boolean
          ∷ column "created_at" (string 64)
          ∷ column "updated_at" (string 64)
          ∷ [],
    )
    ∷ (
      "vehicles",
      key_column "vehicle_id" (string 64)
          ∷ column "customer_id" (string 64)
          ∷ column "brand" (string 100)
          ∷ column "model" (string 100)
          ∷ column "year" (string 8)
          ∷ unique_column "plate" (string 32)
          ∷ column "created_at" (string 64)
          ∷ column "updated_at" (string 64)
          ∷ [],
    )
    ∷ []

-- The tests and creations of `upgrade`, of the tables that are left
unfoldable pub create_all : Tables → Tables → Tables
unfolding create_missing
create_all [] db = db
create_all ((name, columns) ∷ ts) db = create_all ts (create_missing name columns db)

-- `upgrade`
unfoldable pub upgrade : Tables → Tables
unfolding create_all
upgrade db = create_all created_tables db

-- The loop of `downgrade` over the names that are left.
unfoldable pub drop_all : List String → Tables → Tables
unfolding drop_present
drop_all [] db = db
drop_all (name ∷ names) db = drop_all names (drop_present name db)

abbrev pub dropped_names : List String
dropped_names =
    "vehicles" ∷ "customers" ∷ "admin_users" ∷ "processed_events" ∷ "service_orders" ∷ []

-- `downgrade`
unfoldable pub downgrade : Tables → Tables
unfolding drop_all
downgrade db = drop_all dropped_names db

-- `_get_sqlalchemy_url`, on `os.environ.get("DATABASE_URL")` and what `get_settings` gives
unfoldable pub get_sqlalchemy_url : Option String → Result Settings → Result String
get_sqlalchemy_url variable settings =
    let given = strip (elim variable [ none ↦ "" | some t ↦ t ]) in
    and_then (if given == "" then and_then settings (λ s. ok (strip s.database_url)) else ok given)
      λ url.
        if url == ""
        then err (other_error "DATABASE_URL is required for Alembic migrations.")
        else ok (normalize_sync_database_url url)
