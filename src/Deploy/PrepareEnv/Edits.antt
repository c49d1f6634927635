-- ===== src/Deploy/PrepareEnv/Edits.antt =====
-- The steps of scripts/deploy/prepare_env.py, as writes of values under the keys that it normalizes.
pub mod Steps
use Prim.Native.String.{String}
use service_order_os_service.Prelude.{
  zero, suc, is_some, Bool, true, false, not, ◌||◌, Option, none, some, List, [], ◌∷◌, any, All,
  arith, ◌≡◌, refl, sym, subst, ◌==◌, eq_iff, Bool-cases, inl, inr,
}
use service_order_os_service.Prelude.Dict.{Dict, lookup, insert}
use service_order_os_service.Exec.{Exec, Result, ok, err, after, pure, ◌>>◌}
use service_order_os_service.Text.{strip}
use service_order_os_service.Text.Search.Laws.{lacks}
use service_order_os_service.Deploy.EnvFile.{is_break, value_or_empty}
use service_order_os_service.Deploy.EnvFile.Lines.{IsLine}
use service_order_os_service.Deploy.EnvFields.{
  set_default, ℤ, pos, negsuc, EnvReader, Step, require_non_empty, require_any, each, each_item,
  in_turn, is_truth, set_number, normalize_boolean, normalize_positive_integer,
  normalize_optional_boolean, normalize_optional_positive_integer,
}
use service_order_os_service.Deploy.PrepareEnv.{
  required_text_fields, list_items, provider_of, validate_required_text_fields,
  validate_environment, normalize_email_provider, validate_database_url, validate_app_base_url,
  normalize_list_field, validate_secret_contract, raise_log_level, steps, prepare_values,
}

-- The keys that the preparation may set.
abbrev pub normalized_keys : List String
normalized_keys =
    "ENVIRONMENT" ∷ "EMAIL_PROVIDER" ∷ "LOG_JSON" ∷ "SMTP_USE_TLS" ∷ "SMTP_USE_AUTH"
    ∷ "HEALTHCHECK_TIMEOUT_SECONDS" ∷ "APPROVAL_TOKEN_TTL_MINUTES" ∷ "JWT_EXPIRATION_MINUTES"
    ∷ "SMTP_PORT" ∷ "SMTP_TIMEOUT_SECONDS" ∷ "CORS_ALLOWED_ORIGINS" ∷ "TRUSTED_HOSTS" ∷ "LOG_LEVEL"
    ∷ []

abbrev pub one_of : List String → String → Bool
one_of keys key = any (λ j. j == key) keys

-- A text that is one of some lines is a line.
pub one_of-IsLine : (ws : List String) (v : String) → All IsLine ws → one_of ws v ≡ true → IsLine v
one_of-IsLine [] v h e = absurd (ground (arith, e))
one_of-IsLine (w ∷ ws) v (h, hs) e = elim (Bool-cases (w == v)) [
  | inl same ↦ subst IsLine ((eq_iff w v).0 same) h
  | inr other ↦ one_of-IsLine ws v hs (ground (arith, other, e))
]

module _ (py : EnvReader) where
  -- What a step may write: a line, a number's text, an array, or the log level in upper case.
  pub data Value (d : Dict String) : String → Type 0 where
    line : (v : String) → IsLine v → Value d v
    number : (n : ℤ) → Value d (py.int_text n)
    array : (ts : List String) → Value d (py.dumps ts)
    raised : (v : String) → lookup "LOG_LEVEL" d ≡ some v → Value d (py.settings.upper v)

  -- From the values before to those after, by writes of such values under the keys to normalize.
  pub data Edits : Dict String → Dict String → Type 0 where
    unchanged : {d d' : Dict String} → d' ≡ d → Edits d d'
    edit :
        {d d' : Dict String} (key v : String)
        → one_of normalized_keys key ≡ true
        → Value d v
        → d' ≡ insert key v d
        → Edits d d'
    both : {a b c : Dict String} → Edits a b → Edits b c → Edits a c

  abbrev pub Edited : {A : Type 0} → Exec (Dict String) A → Type 0
  Edited m = (d : Dict String) → Edits d (m d).1

  after-Edited :
      {A : Type 0} {d : Dict String} (r : Result A) (e : Dict String) (k : Step)
      → Edits d e
      → Edited k
      → Edits d (after r (λ _. k) e).1
  after-Edited (ok a) e k h hk = both h (hk e)
  after-Edited (err x) e k h hk = h

  then-Edited :
      {A : Type 0} (m : Exec (Dict String) A) (k : Step) → Edited m → Edited k → Edited (m >> k)
  then-Edited m k h hk d = after-Edited (m d).0 (m d).1 k (h d) hk

  pub in_turn-Edited : (ms : List Step) → All (λ m. Edited m) ms → Edited (in_turn ms)
  unfolding in_turn
  in_turn-Edited [] h = λ d. unchanged refl
  in_turn-Edited (m ∷ ms) (h, hs) = then-Edited m (in_turn ms) h (in_turn-Edited ms hs)

  pub require_non_empty-Edited : (key : String) → Edited (require_non_empty key)
  unfolding require_non_empty
  require_non_empty-Edited key d = unchanged (ground arith)

  pub each-Edited :
      (step : String → Step) (keys : List String)
      → All (λ key. Edited (step key)) keys
      → Edited (each keys step)
  unfolding each
  each-Edited step [] h = λ d. unchanged refl
  each-Edited step (key ∷ keys) (h, hs) =
      then-Edited (step key) (each keys step) h (each-Edited step keys hs)

  pub each_item-Edited :
      (step : String → String → Step) (items : Dict String)
      → All (λ (item : String × String). Edited (step item.0 item.1)) items
      → Edited (each_item items step)
  unfolding each_item
  each_item-Edited step [] h = λ d. unchanged refl
  each_item-Edited step ((key, default) ∷ items) (h, hs) =
      then-Edited (step key default) (each_item items step) h (each_item-Edited step items hs)

  pub required_text-Edited : (key : String) → Edited (do require_non_empty key; pure tt)
  required_text-Edited key =
      then-Edited (require_non_empty key) (pure tt) (require_non_empty-Edited key)
        (λ d. unchanged refl)

  is_truth-IsLine : (v : String) → is_truth v ≡ true → IsLine v
  unfolding lacks is_break
  is_truth-IsLine v h =
      one_of-IsLine ("true" ∷ "false" ∷ []) v (refl, (refl, tt))
        (ground (arith, h, eq_iff v "true", eq_iff v "false", eq_iff "true" v, eq_iff "false" v))

  module _ (key : String) (listed : one_of normalized_keys key ≡ true) where
    pub normalize_boolean-Edited : Edited (normalize_boolean py key)
    unfolding normalize_boolean require_non_empty
    normalize_boolean-Edited d =
        let t = strip (value_or_empty d key) in
        elim (Bool-cases (t == "")) [
          | inl blank ↦ unchanged (ground (arith, blank))
          | inr there ↦ elim (Bool-cases (is_truth (py.lower t))) [
            | inl truth ↦
                edit key (py.lower t) listed
                  (line (py.lower t) (is_truth-IsLine (py.lower t) truth))
                  (ground (arith, there, truth))
            | inr other ↦ unchanged (ground (arith, there, other))
          ]
        ]

    set_number-Edited : (n : Option ℤ) → Edited (set_number py key n)
    unfolding set_number
    set_number-Edited none d = unchanged refl
    set_number-Edited (some (negsuc n)) d = unchanged refl
    set_number-Edited (some (pos zero)) d = unchanged refl
    set_number-Edited (some (pos (suc n))) d =
        edit key (py.int_text (pos (suc n))) listed (number (pos (suc n))) refl

    pub normalize_positive_integer-Edited : Edited (normalize_positive_integer py key)
    unfolding normalize_positive_integer
    normalize_positive_integer-Edited d = elim (Bool-cases (strip (value_or_empty d key) == "")) [
      | inl blank ↦ unchanged (ground (arith, blank))
      | inr there ↦
          subst (Edits d) (ground (arith, there))
            (set_number-Edited (py.int_of (strip (value_or_empty d key))) d)
    ]

    set_default-Edited : (default : String) → IsLine default → Edited (set_default py key default)
    set_default-Edited default h d = elim (Bool-cases (is_some (lookup key d))) [
      | inl there ↦ edit key default listed (line default h) (ground (arith, there))
      | inr missing ↦ unchanged (ground (arith, missing))
    ]

    pub normalize_optional_boolean-Edited :
        (default : String) → IsLine default → Edited (normalize_optional_boolean py key default)
    unfolding normalize_optional_boolean
    normalize_optional_boolean-Edited default h d =
        let v = py.lower (strip (value_or_empty d key)) in
        elim (Bool-cases (v == "")) [
          | inl blank ↦ subst (Edits d) (ground (arith, blank)) (set_default-Edited default h d)
          | inr there ↦ elim (Bool-cases (is_truth v)) [
            | inl truth ↦
                edit key v listed (line v (is_truth-IsLine v truth)) (ground (arith, there, truth))
            | inr other ↦ unchanged (ground (arith, there, other))
          ]
        ]

    pub normalize_optional_positive_integer-Edited :
        (default : String)
        → IsLine default
        → Edited (normalize_optional_positive_integer py key default)
    unfolding normalize_optional_positive_integer
    normalize_optional_positive_integer-Edited default h d =
        elim (Bool-cases (strip (value_or_empty d key) == "")) [
          | inl blank ↦ subst (Edits d) (ground (arith, blank)) (set_default-Edited default h d)
          | inr there ↦
              subst (Edits d) (ground (arith, there)) (normalize_positive_integer-Edited d)
        ]

    pub normalize_list_field-Edited : Edited (normalize_list_field py key)
    unfolding normalize_list_field require_non_empty
    normalize_list_field-Edited d = elim (Bool-cases (strip (value_or_empty d key) == "")) [
      | inl blank ↦ unchanged (ground (arith, blank))
      | inr there ↦ go there (list_items py key (strip (value_or_empty d key))) refl
    ]
      where
        go :
            (strip (value_or_empty d key) == "") ≡ false
            → (r : Result (List String)) → list_items py key (strip (value_or_empty d key)) ≡ r
            → Edits d (normalize_list_field py key d).1
        go there (err x) e = unchanged (ground (arith, e))
        go there (ok []) e = unchanged (ground (arith, e))
        go there (ok (t ∷ ts)) e =
            edit key (py.dumps (t ∷ ts)) listed (array (t ∷ ts)) (ground (arith, there, e))
