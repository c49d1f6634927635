-- ===== src/Deploy/PrepareEnv.antt =====
-- scripts/deploy/prepare_env.py, on the values that were read: its checks and what they normalize.
pub mod Laws
pub mod Edits
pub mod Keeps
pub mod Written
use Prim.Native.String.{String, ◌++◌}
use service_order_os_service.Prelude.{
  ℕ, zero, suc, Bool, true, false, not, ◌&&◌, ◌||◌, Option, none, some, is_some, List, [], ◌∷◌, any,
  ◌==◌, if◌then◌else◌,
}
use service_order_os_service.Prelude.Dict.{Dict, lookup, insert}
use service_order_os_service.Exec.{
  Exec, Result, Exn, ok, err, value_error, key_error, pure, raise, lift, gets, modify, raise_if,
  ◌>>=◌, ◌>>◌, and_then,
}
use service_order_os_service.Json.{Json, arr}
use service_order_os_service.Text.{strip}
use service_order_os_service.Text.Search.{starts_with, split_on, clean}
use service_order_os_service.Config.Urls.{UrlReader, Target, validate_runtime_database_url}
use service_order_os_service.Config.Settings.{SettingsReader, shown_items}
use service_order_os_service.Deploy.EnvFile.{
  value_or_empty, load_lines, splitlines, rewrite_env_file,
}
use service_order_os_service.Deploy.EnvFields.{
  EnvReader, Step, set, text_of, require_non_empty, require_any, each, each_item, in_turn,
  normalize_boolean, normalize_positive_integer, normalize_optional_boolean,
  normalize_optional_positive_integer,
}

-- `REQUIRED_TEXT_FIELDS`
abbrev pub required_text_fields : List String
required_text_fields =
    "APP_NAME" ∷ "APP_VERSION" ∷ "ENVIRONMENT" ∷ "LOG_LEVEL" ∷ "LOG_JSON" ∷ "DATABASE_URL"
    ∷ "APP_BASE_URL" ∷ "CORS_ALLOWED_ORIGINS" ∷ "TRUSTED_HOSTS" ∷ "JWT_ALGORITHM" ∷ []

-- `REQUIRED_BOOLEAN_FIELDS`
abbrev pub required_boolean_fields : List String
required_boolean_fields = "LOG_JSON" ∷ []

-- `OPTIONAL_BOOLEAN_DEFAULTS`
abbrev pub optional_boolean_defaults : Dict String
optional_boolean_defaults = ("SMTP_USE_TLS", "false") ∷ ("SMTP_USE_AUTH", "false") ∷ []

-- `REQUIRED_POSITIVE_INTEGER_FIELDS`
abbrev pub required_positive_integer_fields : List String
required_positive_integer_fields =
    "HEALTHCHECK_TIMEOUT_SECONDS" ∷ "APPROVAL_TOKEN_TTL_MINUTES" ∷ "JWT_EXPIRATION_MINUTES" ∷ []

-- `OPTIONAL_POSITIVE_INTEGER_DEFAULTS`
abbrev pub optional_positive_integer_defaults : Dict String
optional_positive_integer_defaults = ("SMTP_PORT", "587") ∷ ("SMTP_TIMEOUT_SECONDS", "10") ∷ []

-- `VALID_ENVIRONMENTS`
abbrev pub valid_environments : List String
valid_environments = "development" ∷ "test" ∷ "staging" ∷ "production" ∷ []

-- `VALID_EMAIL_PROVIDERS`
abbrev pub valid_email_providers : List String
valid_email_providers = "SMTP" ∷ "NOOP" ∷ []

-- `validate_required_text_fields`
unfoldable pub validate_required_text_fields : Step
unfolding each
validate_required_text_fields = each required_text_fields λ key. do require_non_empty key; pure tt

-- `validate_secret_contract`
unfoldable pub validate_secret_contract : Step
unfolding require_any
validate_secret_contract = do
  require_any ("APPROVAL_TOKEN_SECRET" ∷ "APPROVAL_TOKEN_SECRET_FILE" ∷ [])
      "Approval token secret is required (APPROVAL_TOKEN_SECRET or APPROVAL_TOKEN_SECRET_FILE)."
  require_any ("JWT_SECRET" ∷ "JWT_SECRET_FILE" ∷ [])
      "JWT secret is required (JWT_SECRET or JWT_SECRET_FILE)."
  require_any ("CUSTOMER_JWT_SECRET" ∷ "CUSTOMER_JWT_SECRET_FILE" ∷ [])
      "Customer JWT secret is required (CUSTOMER_JWT_SECRET or CUSTOMER_JWT_SECRET_FILE)."

module _ (py : EnvReader) where
  -- `except ValueError as exc: raise EnvValidationError(str(exc))`, which is a `ValueError` too.
  unfoldable pub validate_database_url : Step
  validate_database_url = do
    url ← require_non_empty "DATABASE_URL"
    raise_if (not (starts_with url "postgresql://" || starts_with url "postgresql+asyncpg://"))
        (value_error "DATABASE_URL must start with postgresql:// or postgresql+asyncpg://.")
    database ←
        gets (λ d. elim (lookup "EXPECTED_DATABASE_NAME" d) [ none ↦ "os_service_db" | some v ↦ v ])
    username ← gets (λ d. elim (lookup "EXPECTED_DATABASE_USERNAME" d) [
      | none ↦ "os_service_user"
      | some v ↦ v
    ])
    lift (validate_runtime_database_url py.urls url (some database) (some username))
    pure tt

  -- `validate_app_base_url`
  unfoldable pub validate_app_base_url : Step
  validate_app_base_url = do
    url ← require_non_empty "APP_BASE_URL"
    (scheme, place) ← lift (py.urlparse url)
    raise_if (scheme == "" || place == "")
        (value_error "APP_BASE_URL must be a valid absolute URL.")

  -- The items of a value that `json.loads` gave.
  unfoldable pub array_items : String → Result Json → Result (List String)
  array_items key (ok (arr vs)) = ok (clean (shown_items py.settings vs))
  array_items key (ok v) = err (value_error (key ++ " must be a JSON array."))
  array_items key (err x) = err (value_error (key ++ " must be a valid JSON array."))

  -- The items of a list's text, as an array or parted by commas.
  unfoldable pub list_items : String → String → Result (List String)
  unfolding array_items
  list_items key value =
      if starts_with value "["
      then array_items key (py.settings.loads value)
      else ok (clean (split_on "," value))

  abbrev pub is_empty : List String → Bool
  is_empty [] = true
  is_empty (t ∷ ts) = false

  -- `normalize_list_field`
  unfoldable pub normalize_list_field : String → Step
  unfolding list_items require_non_empty
  normalize_list_field key = do
    value ← require_non_empty key
    items ← lift (list_items key value)
    raise_if (is_empty items) (value_error (key ++ " must contain at least one value."))
    set key (py.dumps items)

  -- `validate_environment`
  unfoldable pub validate_environment : Step
  validate_environment = do
    value ← require_non_empty "ENVIRONMENT"
    raise_if (not (any (λ e. e == py.lower value) valid_environments))
        (value_error "ENVIRONMENT must be one of: development, test, staging, production.")
    set "ENVIRONMENT" (py.lower value)

  -- `values.get("EMAIL_PROVIDER", "SMTP").strip().upper() or "SMTP"`
  unfoldable pub provider_of : Dict String → String
  provider_of d =
      let p =
        py.settings.upper
          (strip (elim (lookup "EMAIL_PROVIDER" d) [ none ↦ "SMTP" | some v ↦ v ])) in
      if p == "" then "SMTP" else p

  -- `normalize_email_provider`
  unfoldable pub normalize_email_provider : Step
  normalize_email_provider = do
    provider ← gets provider_of
    raise_if (not (any (λ e. e == provider) valid_email_providers))
        (value_error "EMAIL_PROVIDER must be SMTP or NOOP.")
    set "EMAIL_PROVIDER" provider

  -- `values["LOG_LEVEL"] = values["LOG_LEVEL"].upper()`
  unfoldable pub raise_log_level : Step
  raise_log_level d = elim (lookup "LOG_LEVEL" d) [
    | none ↦ (err (key_error "LOG_LEVEL"), d)
    | some v ↦ (ok tt, insert "LOG_LEVEL" (py.settings.upper v) d)
  ]

  -- The steps of `prepare_env` between reading and writing, in their order.
  abbrev pub steps : List Step
  steps =
      validate_required_text_fields
      ∷ validate_environment
      ∷ normalize_email_provider
      ∷ each required_boolean_fields (normalize_boolean py)
      ∷ each_item optional_boolean_defaults (normalize_optional_boolean py)
      ∷ each required_positive_integer_fields (normalize_positive_integer py)
      ∷ each_item optional_positive_integer_defaults (normalize_optional_positive_integer py)
      ∷ validate_database_url
      ∷ validate_app_base_url
      ∷ normalize_list_field "CORS_ALLOWED_ORIGINS"
      ∷ normalize_list_field "TRUSTED_HOSTS"
      ∷ validate_secret_contract
      ∷ raise_log_level
      ∷ []

  unfoldable pub prepare_values : Step
  unfolding in_turn
  prepare_values = in_turn steps

  -- `prepare_env`, on the path of the file and its text, if it exists: the text that is written
  unfoldable pub prepare_env : String → Option String → Result String
  unfolding prepare_values
  prepare_env path none = err (value_error ("Missing env file: " ++ path))
  prepare_env path (some text) =
      let loaded = load_lines [] (splitlines text) in
      let (r, values) = prepare_values loaded.values in
      and_then r λ _. ok (rewrite_env_file loaded.entries values)
