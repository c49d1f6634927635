-- ===== src/Deploy/PrepareEnv/Edits/Steps.antt =====
-- The steps of `prepare_env` of scripts/deploy/prepare_env.py, in their order.
use Prim.Native.String.{String}
use service_order_os_service.Prelude.{
  Option, none, some, List, [], ◌∷◌, All, arith, ◌≡◌, refl, ◌==◌, Bool-cases, inl, inr,
}
use service_order_os_service.Prelude.Dict.{lookup}
use service_order_os_service.Exec.{pure, ◌>>◌}
use service_order_os_service.Text.{strip}
use service_order_os_service.Text.Search.Laws.{lacks}
use service_order_os_service.Deploy.EnvFile.{is_break, value_or_empty}
use service_order_os_service.Deploy.EnvFields.{
  EnvReader, require_non_empty, require_any, normalize_boolean, normalize_positive_integer,
  normalize_optional_boolean, normalize_optional_positive_integer,
}
use service_order_os_service.Deploy.PrepareEnv.{
  required_text_fields, provider_of, validate_required_text_fields, validate_environment,
  normalize_email_provider, validate_database_url, validate_app_base_url, validate_secret_contract,
  raise_log_level, steps, prepare_values, required_boolean_fields, optional_boolean_defaults,
  required_positive_integer_fields, optional_positive_integer_defaults, valid_environments,
  valid_email_providers,
}
use service_order_os_service.Deploy.PrepareEnv.Edits.{
  Edits, unchanged, edit, Edited, line, raised, one_of, one_of-IsLine, in_turn-Edited, each-Edited,
  each_item-Edited, required_text-Edited, normalize_boolean-Edited,
  normalize_positive_integer-Edited, normalize_optional_boolean-Edited,
  normalize_optional_positive_integer-Edited, normalize_list_field-Edited,
}

module _ (py : EnvReader) where
  validate_environment-Edited : Edited py (validate_environment py)
  unfolding validate_environment require_non_empty lacks is_break
  validate_environment-Edited d =
      let t = strip (value_or_empty d "ENVIRONMENT") in
      elim (Bool-cases (t == "")) [
        | inl blank ↦ unchanged (ground (arith, blank))
        | inr there ↦ elim (Bool-cases (one_of valid_environments (py.lower t))) [
          | inl listed ↦
              edit "ENVIRONMENT" (py.lower t) refl
                (line (py.lower t) (
                  one_of-IsLine valid_environments (py.lower t) (refl, (refl, (refl, (refl, tt))))
                    listed))
                (ground (arith, there, listed))
          | inr other ↦ unchanged (ground (arith, there, other))
        ]
      ]

  normalize_email_provider-Edited : Edited py (normalize_email_provider py)
  unfolding normalize_email_provider lacks is_break
  normalize_email_provider-Edited d =
      let p = provider_of py d in
      elim (Bool-cases (one_of valid_email_providers p)) [
        | inl known ↦
            edit "EMAIL_PROVIDER" p refl
              (line p (one_of-IsLine valid_email_providers p (refl, (refl, tt)) known))
              (ground (arith, known))
        | inr other ↦ unchanged (ground (arith, other))
      ]

  validate_database_url-Edited : Edited py (validate_database_url py)
  unfolding validate_database_url require_non_empty
  validate_database_url-Edited d = unchanged (ground arith)

  validate_app_base_url-Edited : Edited py (validate_app_base_url py)
  unfolding validate_app_base_url require_non_empty
  validate_app_base_url-Edited d = unchanged (ground arith)

  validate_secret_contract-Edited : Edited py validate_secret_contract
  unfolding validate_secret_contract require_any
  validate_secret_contract-Edited d = unchanged (ground arith)

  raise_log_level-Edited : Edited py (raise_log_level py)
  unfolding raise_log_level
  raise_log_level-Edited d = go (lookup "LOG_LEVEL" d) refl
    where
      go : (o : Option String) → lookup "LOG_LEVEL" d ≡ o → Edits py d (raise_log_level py d).1
      go none e = unchanged (ground (arith, e))
      go (some v) e = edit "LOG_LEVEL" (py.settings.upper v) refl (raised v e) (ground (arith, e))

  pub prepare_values-Edited : Edited py (prepare_values py)
  unfolding prepare_values validate_required_text_fields lacks is_break
  prepare_values-Edited = in_turn-Edited py (steps py) (
    each-Edited py (λ key. do require_non_empty key; pure tt) required_text_fields
        (required_texts required_text_fields),
    (
      validate_environment-Edited,
      (
        normalize_email_provider-Edited,
        (
          each-Edited py (normalize_boolean py) required_boolean_fields required_booleans,
          (
            each_item-Edited py (normalize_optional_boolean py) optional_boolean_defaults
                optional_booleans,
            (
              each-Edited py (normalize_positive_integer py) required_positive_integer_fields
                  required_integers,
              (
                each_item-Edited py (normalize_optional_positive_integer py)
                    optional_positive_integer_defaults optional_integers,
                (
                  validate_database_url-Edited,
                  (
                    validate_app_base_url-Edited,
                    (
                      normalize_list_field-Edited py "CORS_ALLOWED_ORIGINS" refl,
                      (
                        normalize_list_field-Edited py "TRUSTED_HOSTS" refl,
                        (validate_secret_contract-Edited, (raise_log_level-Edited, tt)),
                      ),
                    ),
                  ),
                ),
              ),
            ),
          ),
        ),
      ),
    ),
  )
    where
      required_texts :
          (keys : List String) → All (λ key. Edited py (do require_non_empty key; pure tt)) keys
      required_texts [] = tt
      required_texts (key ∷ keys) = (required_text-Edited py key, required_texts keys)

      required_booleans : All (λ key. Edited py (normalize_boolean py key)) required_boolean_fields
      required_booleans = (normalize_boolean-Edited py "LOG_JSON" refl, tt)

      optional_booleans :
          All
            (λ (item : String × String). Edited py (normalize_optional_boolean py item.0 item.1))
            optional_boolean_defaults
      optional_booleans = (
        normalize_optional_boolean-Edited py "SMTP_USE_TLS" refl "false" refl,
        (normalize_optional_boolean-Edited py "SMTP_USE_AUTH" refl "false" refl, tt),
      )

      required_integers :
          All
            (λ key. Edited py (normalize_positive_integer py key))
            required_positive_integer_fields
      required_integers = (
        normalize_positive_integer-Edited py "HEALTHCHECK_TIMEOUT_SECONDS" refl,
        (
          normalize_positive_integer-Edited py "APPROVAL_TOKEN_TTL_MINUTES" refl,
          (normalize_positive_integer-Edited py "JWT_EXPIRATION_MINUTES" refl, tt),
        ),
      )

      optional_integers :
          All
            (λ (item : String × String).
              Edited py (normalize_optional_positive_integer py item.0 item.1))
            optional_positive_integer_defaults
      optional_integers = (
        normalize_optional_positive_integer-Edited py "SMTP_PORT" refl "587" refl,
        (normalize_optional_positive_integer-Edited py "SMTP_TIMEOUT_SECONDS" refl "10" refl, tt),
      )
