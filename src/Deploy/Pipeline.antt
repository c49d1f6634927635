-- ===== src/Deploy/Pipeline.antt =====
-- scripts/deploy/prepare_env.py and, on the file that it wrote, scripts/deploy/render_k8s_manifests.py.
use Prim.Native.String.{String}
use service_order_os_service.Prelude.{
  Bool, true, false, none, some, is_some, List, [], ◌∷◌, All, arith, ◌≡◌, refl, ap, subst, sym, ◌∙◌,
  ◌==◌, eq_iff, Bool-cases, inl, inr, if◌then◌else◌,
}
use service_order_os_service.Prelude.Dict.{Dict, lookup, lookup-insert}
use service_order_os_service.Exec.{Result, ok, err}
use service_order_os_service.Deploy.EnvFile.{parse_env_file}
use service_order_os_service.Deploy.EnvFields.{EnvReader}
use service_order_os_service.Deploy.PrepareEnv.{prepare_env}
use service_order_os_service.Deploy.PrepareEnv.Edits.{normalized_keys, one_of}
use service_order_os_service.Deploy.PrepareEnv.Written.{WritesLines, passed_through}
use service_order_os_service.Deploy.Manifests.{
  RenderReader, is_sensitive, sensitive_keys, secret_values, deployed_values, set_default,
  manifest_text, render,
}
use service_order_os_service.Deploy.Manifests.Laws.{not_blank, secrets_apart}
use service_order_os_service.Deploy.Manifests.Rendered.{render_returned}

-- A test that fails for every key of a list fails for one that is among them.
fails_for :
    (test : String → Bool) (keys : List String) (k : String)
    → All (λ key. test key ≡ false) keys
    → one_of keys k ≡ true
    → test k ≡ false
fails_for test [] k h e = absurd (ground (arith, e))
fails_for test (key ∷ keys) k (h, hs) e = elim (Bool-cases (key == k)) [
  | inl same ↦ subst (λ j. test j ≡ false) ((eq_iff key k).0 same) h
  | inr other ↦ fails_for test keys k hs (ground (arith, other, e))
]

module _ (k : String) (sensitive : is_sensitive k ≡ true) where
  not_normalized : one_of normalized_keys k ≡ false
  unfolding is_sensitive
  not_normalized =
      fails_for (one_of normalized_keys) sensitive_keys k
        (
          refl,
          (
            refl,
            (
              refl,
              (refl, (refl, (refl, (refl, (refl, (refl, (refl, (refl, (refl, (refl, tt)))))))))),
            ),
          ),
        )
        sensitive

  no_provider : ("EMAIL_PROVIDER" == k) ≡ false
  unfolding is_sensitive
  no_provider =
      fails_for (λ j. "EMAIL_PROVIDER" == j) sensitive_keys k
        (
          refl,
          (
            refl,
            (
              refl,
              (refl, (refl, (refl, (refl, (refl, (refl, (refl, (refl, (refl, (refl, tt)))))))))),
            ),
          ),
        )
        sensitive

  no_migration : ("MIGRATE_ON_STARTUP" == k) ≡ false
  unfolding is_sensitive
  no_migration =
      fails_for (λ j. "MIGRATE_ON_STARTUP" == j) sensitive_keys k
        (
          refl,
          (
            refl,
            (
              refl,
              (refl, (refl, (refl, (refl, (refl, (refl, (refl, (refl, (refl, (refl, tt)))))))))),
            ),
          ),
        )
        sensitive

  lookup-set_default :
      (d : Dict String) → lookup k (set_default "EMAIL_PROVIDER" "NOOP" d) ≡ lookup k d
  lookup-set_default d = elim (Bool-cases (is_some (lookup "EMAIL_PROVIDER" d))) [
    | inl there ↦ rw there refl
    | inr missing ↦ rw missing (rw (lookup-insert "EMAIL_PROVIDER" k "NOOP" d, no_provider) refl)
  ]

  deployed_secret :
      (text : String) → lookup k (deployed_values text) ≡ lookup k (parse_env_file text)
  unfolding deployed_values
  deployed_secret text =
      rw
        (
          lookup-insert "MIGRATE_ON_STARTUP" k "false"
              (set_default "EMAIL_PROVIDER" "NOOP" (parse_env_file text)),
          no_migration,
        )
        (lookup-set_default (parse_env_file text))

module _ (py : EnvReader) (writes : WritesLines py) (reader : RenderReader) where
  -- The file of an environment is prepared and the file that was written is rendered; where both scripts
  -- return, the manifest of the secret holds the values that the file had at first under the sensitive
  -- keys, where they are not blank, and no value under another key.
  pub secrets_deployed :
      (path text written : String)
      → prepare_env py path (some text) ≡ ok written
      → reader.env_file ≡ ok written
      → (image namespace : String) (before files : Dict String)
      → render reader image namespace before ≡ (ok tt, files)
      → (values : Dict String) × (lookup "secret.rendered.yaml" files
          ≡ some (
              manifest_text reader.yaml_quote "Secret" "service-order-os-service-secret" namespace
                "stringData" values))
        × ((k : String)
            → lookup k values
              ≡ (if is_sensitive k then not_blank (lookup k (parse_env_file text)) else none))
  secrets_deployed path text written prepared reads image namespace before files rendered =
      let (t, e, is) = render_returned reader image namespace before files rendered in
      let same : t ≡ written = ok_inj (sym e ∙ reads) in
      (
        secret_values (deployed_values t),
        is.secrets,
        λ k. (secrets_apart t k).0 ∙ elim (Bool-cases (is_sensitive k)) [
          | inr other ↦ rw other refl
          | inl sensitive ↦ rw sensitive (
              ap not_blank (
                deployed_secret k sensitive t
                ∙ ap (λ x. lookup k (parse_env_file x)) same
                ∙ passed_through py writes path text written prepared k
                    (not_normalized k sensitive)))
        ],
      )
    where
      ok_inj : {x y : String} → ok x ≡ ok y → x ≡ y
      ok_inj {x = x} h = ap (λ (r : Result String). elim r [ ok z ↦ z | err z ↦ x ]) h
