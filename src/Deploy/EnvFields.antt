-- ===== src/Deploy/EnvFields.antt =====
-- Reading, requiring and normalizing one field in scripts/deploy/prepare_env.py.
use Prim.Native.String.{String, ◌++◌}
use service_order_os_service.Prelude.{
  ℕ, zero, suc, Bool, true, false, not, ◌||◌, Option, none, some, is_some, List, [], ◌∷◌, any, ◌==◌,
  if◌then◌else◌,
}
use service_order_os_service.Prelude.Dict.{Dict, lookup, insert}
use service_order_os_service.Exec.{
  Exec, Result, ok, value_error, pure, raise, gets, modify, raise_if, ◌>>=◌, ◌>>◌,
}
use service_order_os_service.Text.{strip}
use service_order_os_service.Config.Urls.{UrlReader}
use service_order_os_service.Config.Settings.{SettingsReader}
use service_order_os_service.Deploy.EnvFile.{value_or_empty}

-- An `int`.
pub data ℤ : Type 0 where
  pos negsuc : ℕ → ℤ

-- What the script uses of Python: besides what the settings and the addresses use, `str.lower`, `int` and
-- `str` of a number, `json.dumps` of a list of texts, and the scheme and the place of `urlparse`.
pub record EnvReader : Type 0 where
  pub settings : SettingsReader
  pub urls : UrlReader
  pub lower : String → String
  pub int_of : String → Option ℤ
  pub int_text : ℤ → String
  pub dumps : List String → String
  pub urlparse : String → Result (String × String)

abbrev pub Step : Type 0
Step = Exec (Dict String) (Unit {0})

-- `values[key] = value`
abbrev pub set : String → String → Step
set key value = modify (insert key value)

-- `values.get(key, "").strip()`
abbrev pub text_of : String → Exec (Dict String) String
text_of key = gets (λ d. strip (value_or_empty d key))

-- `require_non_empty`
unfoldable pub require_non_empty : String → Exec (Dict String) String
require_non_empty key = do
  value ← text_of key
  raise_if (value == "") (value_error (key ++ " is required."))
  pure value

-- `require_any`
unfoldable pub require_any : List String → String → Step
require_any keys message = do
  found ← gets (λ d. any (λ key. not (strip (value_or_empty d key) == "")) keys)
  raise_if (not found) (value_error message)

-- `for key in keys: step(key)`
unfoldable pub each : List String → (String → Step) → Step
each [] step = pure tt
each (key ∷ keys) step = do step key; each keys step

-- `for key, default in items.items(): step(key, default)`
unfoldable pub each_item : Dict String → (String → String → Step) → Step
each_item [] step = pure tt
each_item ((key, default) ∷ items) step = do step key default; each_item items step

-- Steps one after the other, up to one that raises.
unfoldable pub in_turn : List Step → Step
in_turn [] = pure tt
in_turn (m ∷ ms) = do m; in_turn ms

-- `key in values`
abbrev pub has_key : String → Exec (Dict String) Bool
has_key key = gets (λ d. is_some (lookup key d))

abbrev pub when : Bool → Step → Step
when true m d = m d
when false m d = (ok tt, d)

abbrev pub is_truth : String → Bool
is_truth t = t == "true" || t == "false"

module _ (py : EnvReader) where
  -- `normalize_boolean`
  unfoldable pub normalize_boolean : String → Step
  unfolding require_non_empty
  normalize_boolean key = do
    value ← require_non_empty key
    raise_if (not (is_truth (py.lower value))) (value_error (key ++ " must be true or false."))
    set key (py.lower value)

  -- The value of a number's text, which has to be positive.
  unfoldable pub set_number : String → Option ℤ → Step
  set_number key none = raise (value_error (key ++ " must be an integer."))
  set_number key (some (negsuc n)) = raise (value_error (key ++ " must be greater than zero."))
  set_number key (some (pos zero)) = raise (value_error (key ++ " must be greater than zero."))
  set_number key (some (pos (suc n))) = set key (py.int_text (pos (suc n)))

  -- `normalize_positive_integer`
  unfoldable pub normalize_positive_integer : String → Step
  unfolding set_number
  normalize_positive_integer key = do
    value ← text_of key
    when (not (value == "")) (set_number key (py.int_of value))

  -- `if key in values: values[key] = default`
  abbrev pub set_default : String → String → Step
  set_default key default = do there ← has_key key; when there (set key default)

  -- `normalize_optional_boolean`
  unfoldable pub normalize_optional_boolean : String → String → Step
  normalize_optional_boolean key default = do
    value ← gets (λ d. py.lower (strip (value_or_empty d key)))
    if value == "" then set_default key default else (do
      raise_if (not (is_truth value)) (value_error (key ++ " must be true or false."))
      set key value)

  -- `normalize_optional_positive_integer`
  unfoldable pub normalize_optional_positive_integer : String → String → Step
  normalize_optional_positive_integer key default = do
    value ← text_of key
    if value == "" then set_default key default else normalize_positive_integer key
