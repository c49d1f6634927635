-- ===== src/Config/Urls.antt =====
-- src/infrastructure/database/url_utils.py, and `normalize_sync_database_url` of
-- src/infrastructure/repositories/sqlalchemy_service_order_repository.py.
pub mod Laws
use Prim.Native.String
use Prim.Native.String.{String, ◌++◌}
use service_order_os_service.Prelude.{
  ℕ, Bool, true, false, not, ◌&&◌, ◌||◌, Option, none, some, List, [], ◌∷◌, any, eqb, code, ◌==◌,
  if◌then◌else◌,
}
use service_order_os_service.Exec.{Result, ok, err, value_error, and_then}
use service_order_os_service.Text.{strip, is_blank}
use service_order_os_service.Text.Search.{starts_with, replace_first, replace, same_char}

-- The parts that `urlsplit` finds in an address; reading a port that is no number raises.
pub record SplitUrl : Type 0 where
  pub username : Option String
  pub hostname : Option String
  pub port : Result (Option ℕ)
  pub path : String

-- What the module uses of Python: `urlsplit` and `str.lower`.
pub record UrlReader : Type 0 where
  pub urlsplit : String → Result SplitUrl
  pub lower : String → String

abbrev pub placeholder_hosts : List String
placeholder_hosts = "seu_host_postgres" ∷ "your-rds-endpoint" ∷ "endpoint-rds" ∷ "db-host" ∷ []

-- `normalize_postgresql_url_for_sync`
unfoldable pub normalize_for_sync : String → String
unfolding starts_with replace_first
normalize_for_sync url =
    if starts_with url "postgresql+asyncpg://"
    then replace_first "postgresql+asyncpg://" "postgresql+psycopg://" url
    else if starts_with url "postgresql://"
    then replace_first "postgresql://" "postgresql+psycopg://" url
    else if starts_with url "postgres://"
    then replace_first "postgres://" "postgresql+psycopg://" url
    else url

-- `normalize_sync_database_url`
unfoldable pub normalize_sync_database_url : String → String
normalize_sync_database_url url = replace "?ssl=require" "?sslmode=require" (
    replace "sqlite+aiosqlite://" "sqlite+pysqlite://"
      (replace "postgresql+asyncpg://" "postgresql+psycopg://" url))

-- `text or default`
abbrev pub or_text : Option String → String → String
or_text none default = default
or_text (some t) default = if t == "" then default else t

-- `parsed.port or 5432`
abbrev pub or_port : Option ℕ → ℕ
or_port none = 5432
or_port (some p) = if eqb p 0 then 5432 else p

-- `path.lstrip("/")`
unfoldable pub without_slashes : String → String
without_slashes String.[] = ""
without_slashes (String.◌∷◌ c s) =
    let rest = without_slashes s in if same_char c "/" then rest else String.◌∷◌ c s

pub record Target : Type 0 where
  pub username : String
  pub host : String
  pub port : ℕ
  pub database : String

module _ (py : UrlReader) where
  -- `describe_database_target`
  unfoldable pub describe_database_target : String → Result Target
  unfolding without_slashes
  describe_database_target url = and_then (py.urlsplit url) λ parsed. and_then parsed.port λ port.
      ok (record {
        username = or_text parsed.username "";
        host = or_text parsed.hostname "";
        port = or_port port;
        database = or_text (some (without_slashes parsed.path)) "<unknown>";
      })

  -- An expectation that is there, is not empty, and is not met.
  abbrev pub misses : Option String → String → Bool
  misses none t = false
  misses (some e) t = not (e == "") && not (t == e)

  -- The text of an expectation in a message.
  abbrev pub expected_text : Option String → String
  expected_text none = "None"
  expected_text (some e) = e

  -- The tests of `validate_runtime_database_url`, in their order.
  unfoldable pub check_target : Option String → Option String → Target → Result Target
  check_target expected_database expected_username t =
      if t.host == ""
      then err (value_error "DATABASE_URL must include a database host.")
      else if t.username == ""
      then err (value_error "DATABASE_URL must include a database username.")
      else if t.database == "" || t.database == "<unknown>"
      then err (value_error "DATABASE_URL must include a database name.")
      else if any (λ h. h == py.lower (strip t.host)) placeholder_hosts
      then err (
          value_error
            "DATABASE_URL host still uses a placeholder value. Replace it with the real RDS endpoint.")
      else if misses expected_database t.database
      then err (
          value_error (
            "DATABASE_URL points to the wrong database. Expected '"
            ++ (expected_text expected_database ++ ("', got '" ++ (t.database ++ "'.")))))
      else if misses expected_username t.username
      then err (
          value_error (
            "DATABASE_URL uses the wrong database user. Expected '"
            ++ (expected_text expected_username ++ ("', got '" ++ (t.username ++ "'.")))))
      else ok t

  -- `validate_runtime_database_url`, whose tuple is the target
  unfoldable pub validate_runtime_database_url :
      String → Option String → Option String → Result Target
  validate_runtime_database_url url expected_database expected_username =
      if is_blank url
      then err (value_error "DATABASE_URL environment variable is required.")
      else and_then (describe_database_target url)
          λ t. check_target expected_database expected_username t
