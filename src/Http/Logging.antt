-- ===== src/Http/Logging.antt =====
-- src/infrastructure/logging.py. The handlers of the root logger are known by their formatters.
pub mod Laws
use service_order_os_service.Prelude.{
  Bool, true, false, String, Option, none, some, List, [], ◌∷◌, if◌then◌else◌,
}
use service_order_os_service.Prelude.Dict.{Dict, insert}
use service_order_os_service.Exec.{Exec, value_error, raise_if, modify, ◌>>=◌, ◌>>◌}
use service_order_os_service.Json.{Json, str, obj, of_entries}
use service_order_os_service.Config.Settings.{Settings}

-- A record of the log; `attribute` is `getattr(record, key, None)`.
pub record LogRecord : Type 0 where
  pub levelname : String
  pub message : String
  pub name : String
  pub attribute : String → Option Json

-- The attributes that are logged where the record has them.
abbrev pub logged_keys : List String
logged_keys = "correlation_id" ∷ "request_id" ∷ "service" ∷ "env" ∷ "version" ∷ []

-- `if value is not None: payload[key] = value`
abbrev pub with_attribute : String → Option Json → Dict Json → Dict Json
with_attribute key none payload = payload
with_attribute key (some value) payload = insert key value payload

-- The loop of `JsonLogFormatter.format` over the keys that are left.
unfoldable pub add_attributes : LogRecord → List String → Dict Json → Dict Json
add_attributes r [] payload = payload
add_attributes r (key ∷ keys) payload =
    add_attributes r keys (with_attribute key (r.attribute key) payload)

unfoldable pub payload_of : LogRecord → Dict Json
unfolding add_attributes
payload_of r =
    add_attributes r logged_keys
      (("level", str r.levelname) ∷ ("message", str r.message) ∷ ("logger", str r.name) ∷ [])

-- `JsonLogFormatter.format`, over `json.dumps(payload, ensure_ascii=False)`
unfoldable pub format : (Json → String) → LogRecord → String
unfolding payload_of
format dumps r = dumps (obj (of_entries (payload_of r)))

pub data Formatter : Type 0 where
  json_lines : Formatter
  pattern : String → Formatter

pub record RootLogger : Type 0 where
  pub handlers : List Formatter
  pub level : String

-- `configure_logging`; `setLevel` raises for a name that is no level.
unfoldable pub configure_logging :
    (String → Bool) → (log_json : Bool) → (log_level : String) → Exec RootLogger (Unit {0})
configure_logging is_level log_json log_level = do
  modify λ root. record root { handlers = [] }
  modify λ root. record root {
    handlers =
        (if log_json then json_lines else pattern "%(levelname)s %(name)s - %(message)s")
        ∷ root.handlers;
  }
  raise_if (if is_level log_level then false else true) (value_error log_level)
  modify λ root. record root { level = log_level }
