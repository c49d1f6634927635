-- ===== src/Config/Readiness.antt =====
-- src/infrastructure/database/readiness.py and src/presentation/api/routes/health_routes.py. The
-- answers of the database are a parameter.
pub mod Laws
use Prim.Native.String.{String, ◌++◌}
use service_order_os_service.Prelude.{
  ℕ, Bool, true, false, not, Option, none, some, List, [], ◌∷◌, ◌==◌, if◌then◌else◌,
}
use service_order_os_service.Prelude.Dict.{Dict}
use service_order_os_service.Exec.{
  Exn, value_error, key_error, other_error, Result, ok, err, and_then,
}
use service_order_os_service.Config.Urls.{normalize_for_sync}
use service_order_os_service.Config.Settings.{Settings}

-- `DatabaseReadinessProbe`, with the address that its engine connects to
pub record Probe : Type 0 where
  pub expected_database : String
  pub expected_username : String
  pub engine_url : String
  pub connect_timeout : ℕ

-- `DatabaseReadinessProbe.__init__`
unfoldable pub new_probe : String → String → String → ℕ → Probe
new_probe database_url expected_database expected_username timeout_seconds = record {
  expected_database = expected_database;
  expected_username = expected_username;
  engine_url = normalize_for_sync database_url;
  connect_timeout = timeout_seconds;
}

-- What a connection to an address answers to `SELECT current_database()` and `SELECT current_user`.
pub record Database : Type 0 where
  pub current_database : String → Result String
  pub current_user : String → Result String

-- What `check` makes of the two answers.
unfoldable pub match_boundary : Probe → String → String → Result (Dict String)
match_boundary p database user =
    if not (database == p.expected_database)
    then err (
        other_error (
          "Database readiness failed because the connected database does not match the service boundary: expected '"
          ++ (p.expected_database ++ ("', got '" ++ (database ++ "'.")))))
    else if not (user == p.expected_username)
    then err (
        other_error (
          "Database readiness failed because the connected database user does not match the service boundary: expected '"
          ++ (p.expected_username ++ ("', got '" ++ (user ++ "'.")))))
    else ok (("application", "ok") ∷ ("database", "ok") ∷ [])

-- `check`
unfoldable pub check : Database → Probe → Result (Dict String)
unfolding match_boundary
check db p =
    and_then (db.current_database p.engine_url)
      λ database. and_then (db.current_user p.engine_url) λ user. match_boundary p database user

-- The body of an answer about the service's health, and the status 503 with it.
pub data Health : Type 0 where
  healthy : Dict String → Health
  ready : String → Dict String → Health
  degraded : String → Dict String → String → Health

-- `health_check` and `live_check`
unfoldable pub health_check : Settings → Health
health_check s = healthy (
    ("status", "ok")
    ∷ ("service", s.app_name)
    ∷ ("version", s.app_version)
    ∷ ("environment", s.environment)
    ∷ [])

unfoldable pub live_check : Settings → Health
live_check s =
    healthy (("status", "ok") ∷ ("service", s.app_name) ∷ ("version", s.app_version) ∷ [])

-- `str(exc)`; `repr` writes the text of a `KeyError`.
abbrev pub text_of : (String → String) → Exn → String
text_of repr (value_error m) = m
text_of repr (key_error m) = repr m
text_of repr (other_error m) = m

-- The answer to the outcome of the probe's check.
unfoldable pub report : (String → String) → Settings → Result (Dict String) → Health
report repr s (ok checks) = ready s.app_name checks
report repr s (err x) =
    degraded s.app_name (("application", "ok") ∷ ("database", "error") ∷ []) (text_of repr x)

-- `readiness_check`
unfoldable pub readiness_check : (String → String) → Database → Settings → Option Probe → Health
unfolding report
readiness_check repr db s none = ready s.app_name (("application", "ok") ∷ [])
readiness_check repr db s (some p) = report repr s (check db p)
