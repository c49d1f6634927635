-- ===== src/Config/Settings.antt =====
-- src/infrastructure/config/settings.py: the fields that the service reads, and their validators. The
-- values come from pydantic.
pub mod Laws
use Prim.Native.String.{String, ◌++◌}
use service_order_os_service.Prelude.{
  ℕ, Bool, true, false, Option, none, some, List, [], ◌∷◌, ◌==◌, if◌then◌else◌,
}
use service_order_os_service.Exec.{Result, ok, err, value_error, and_then}
use service_order_os_service.Json.{Json, Items, nil, cons, arr}
use service_order_os_service.Text.{strip, is_blank}
use service_order_os_service.Text.Search.{starts_with, split_on, clean}

-- What the settings use of Python: `str`, `json.loads`, `str.upper` and `Path(path).read_text`.
pub record SettingsReader : Type 0 where
  pub show : Json → String
  pub loads : String → Result Json
  pub upper : String → String
  pub read_text : String → Result String

-- A raw value: a text, or a list already.
pub data Raw : Type 0 where
  text : String → Raw
  listed : List String → Raw

pub record Settings : Type 0 where
  pub app_name : String
  pub app_version : String
  pub environment : String
  pub app_runtime_mode : String
  pub log_level : String
  pub cors_allowed_origins : List String
  pub cors_allow_credentials : Bool
  pub trusted_hosts : List String
  pub database_url : String
  pub expected_database_name : String
  pub expected_database_username : String
  pub rabbitmq_url : String
  pub rabbitmq_exchange : String
  pub rabbitmq_routing_key : String
  pub rabbitmq_queue : String
  pub rabbitmq_consume_routing_keys : List String
  pub jwt_secret : String
  pub jwt_secret_file : Option String
  pub jwt_algorithm : String
  pub jwt_issuer : String
  pub customer_jwt_secret : String
  pub customer_jwt_secret_file : Option String
  pub customer_jwt_algorithm : String
  pub customer_jwt_issuer : String
  pub healthcheck_timeout_seconds : ℕ
  pub dd_service : String
  pub dd_env : String
  pub dd_version : String
  pub otel_service_name : String

module _ (py : SettingsReader) where
  -- `[str(item) for item in items]`
  unfoldable pub shown_items : Items → List String
  shown_items nil = []
  shown_items (cons v vs) = py.show v ∷ shown_items vs

  -- The items of a value that `json.loads` gave.
  unfoldable pub items_of : Json → Result (List String)
  items_of (arr vs) = ok (clean (shown_items vs))
  items_of v = err (value_error "Expected a JSON array for list-based settings")

  -- `parse_csv_or_json_list`
  unfoldable pub parse_csv_or_json_list : Raw → Result (List String)
  unfolding items_of
  parse_csv_or_json_list (listed items) = ok items
  parse_csv_or_json_list (text value) =
      if strip value == ""
      then ok []
      else if starts_with (strip value) "["
      then and_then (py.loads (strip value)) items_of
      else ok (clean (split_on "," (strip value)))

  -- The content of a secret's file, which may not be empty.
  unfoldable pub file_secret : String → String → Result String
  file_secret path field_name = and_then (py.read_text path) λ content.
      if is_blank content
      then err (value_error (field_name ++ "_FILE is empty"))
      else ok (strip content)

  -- `resolve_secret`
  unfoldable pub resolve_secret : String → Option String → String → Result String
  unfolding file_secret
  resolve_secret raw none field_name = ok (strip raw)
  resolve_secret raw (some path) field_name =
      if is_blank raw
      then if path == "" then ok "" else file_secret path field_name
      else ok (strip raw)

  -- `Settings.normalize_log_level`
  unfoldable pub normalize_log_level : String → String
  normalize_log_level value = py.upper value

  -- `if not self.JWT_ISSUER: ...`
  abbrev pub issuer_of : String → String → String
  issuer_of issuer environment =
      if issuer == "" then "service-order-os-service/" ++ environment else issuer

  -- The fields that `model_post_init` writes, with the secrets that it resolved.
  abbrev pub filled : Settings → String → String → Settings
  filled s secret customer_secret = record s {
    jwt_secret = secret;
    customer_jwt_secret = customer_secret;
    jwt_issuer = issuer_of s.jwt_issuer s.environment;
    dd_service = s.app_name;
    dd_env = s.environment;
    dd_version = s.app_version;
    otel_service_name = s.app_name;
  }

  -- `Settings.model_post_init`
  unfoldable pub model_post_init : Settings → Result Settings
  unfolding resolve_secret
  model_post_init s =
      and_then (resolve_secret s.jwt_secret s.jwt_secret_file "JWT_SECRET") λ secret.
        and_then
          (resolve_secret s.customer_jwt_secret s.customer_jwt_secret_file "CUSTOMER_JWT_SECRET")
          λ customer_secret. ok (filled s secret customer_secret)
