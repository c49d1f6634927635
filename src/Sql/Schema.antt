-- ===== src/Sql/Schema.antt =====
-- The tables that the repositories of src/infrastructure/repositories declare, and
-- sqlalchemy_metadata.py. A default that only SQLAlchemy fills in is no part of a table.
use service_order_os_service.Prelude.{
  ℕ, Bool, true, false, String, List, [], ◌∷◌, is_some, if◌then◌else◌,
}
use service_order_os_service.Prelude.Dict.{Dict, lookup, insert}

pub data ColumnType : Type 0 where
  string : ℕ → ColumnType
  text json boolean : ColumnType
  -- whether the time has a zone
  date_time : Bool → ColumnType

pub record Column : Type 0 where
  pub name : String
  pub column_type : ColumnType
  pub primary_key : Bool
  pub nullable : Bool
  pub unique : Bool

-- `Column(name, type, primary_key=True)`, which is not nullable
abbrev pub key_column : String → ColumnType → Column
key_column name type = record {
  name = name;
  column_type = type;
  primary_key = true;
  nullable = false;
  unique = false;
}

-- `Column(name, type, nullable=False)`
abbrev pub column : String → ColumnType → Column
column name type = record {
  name = name;
  column_type = type;
  primary_key = false;
  nullable = false;
  unique = false;
}

-- `Column(name, type, nullable=False, unique=True)`
abbrev pub unique_column : String → ColumnType → Column
unique_column name type = record (column name type) { unique = true }

-- Tables by their names, with their columns in order.
abbrev pub Tables : Type 0
Tables = Dict (List Column)

abbrev pub service_orders : List Column
service_orders =
    key_column "service_order_id" (string 64)
    ∷ column "customer_id" (string 128)
    ∷ column "vehicle_id" (string 128)
    ∷ column "description" text
    ∷ column "status" (string 64)
    ∷ column "history" json
    ∷ []

abbrev pub processed_events : List Column
processed_events =
    key_column "event_id" (string 64)
    ∷ column "event_type" (string 128)
    ∷ column "correlation_id" (string 128)
    ∷ column "processed_at" (date_time true)
    ∷ []

abbrev pub admin_users : List Column
admin_users =
    key_column "user_id" (string 64)
    ∷ unique_column "email" (string 255)
    ∷ column "password_hash" (string 512)
    ∷ column "created_at" (string 64)
    ∷ []

abbrev pub customers : List Column
customers =
    key_column "customer_id" (string 64)
    ∷ column "name" (string 255)
    ∷ record (unique_column "cpf_cnpj" (string 32)) { nullable = true }
    ∷ unique_column "email" (string 255)
    ∷ column "phone" (string 32)
    ∷ column "is_active" boolean
    ∷ column "created_at" (string 64)
    ∷ column "updated_at" (string 64)
    ∷ []

abbrev pub vehicles : List Column
vehicles =
    key_column "vehicle_id" (string 64)
    ∷ column "customer_id" (string 64)
    ∷ column "brand" (string 100)
    ∷ column "model" (string 100)
    ∷ column "year" (string 8)
    ∷ unique_column "plate" (string 32)
    ∷ column "created_at" (string 64)
    ∷ column "updated_at" (string 64)
    ∷ []

-- The `metadata` of each repository, in the order of `ALL_METADATA`.
abbrev pub all_metadata : List Tables
all_metadata =
    (("service_orders", service_orders) ∷ [])
    ∷ (("processed_events", processed_events) ∷ [])
    ∷ (("admin_users", admin_users) ∷ [])
    ∷ (("customers", customers) ∷ [])
    ∷ (("vehicles", vehicles) ∷ [])
    ∷ []

-- `table.to_metadata(metadata)`, which keeps a table that is there under that name
abbrev pub copied : String → List Column → Tables → Tables
copied name columns metadata =
    if is_some (lookup name metadata) then metadata else insert name columns metadata

-- `for table in source_metadata.tables.values(): table.to_metadata(metadata)`
unfoldable pub to_metadata : Tables → Tables → Tables
to_metadata metadata [] = metadata
to_metadata metadata ((name, columns) ∷ source) = to_metadata (copied name columns metadata) source

-- The outer loop of `build_combined_metadata`.
unfoldable pub combine : Tables → List Tables → Tables
unfolding to_metadata
combine metadata [] = metadata
combine metadata (source ∷ sources) = combine (to_metadata metadata source) sources

-- `build_combined_metadata`
unfoldable pub build_combined_metadata : Tables
unfolding combine
build_combined_metadata = combine [] all_metadata
