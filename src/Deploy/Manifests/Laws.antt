-- ===== src/Deploy/Manifests/Laws.antt =====
-- Secrets and images in what scripts/deploy/render_k8s_manifests.py writes.
use Prim.Native.String.{String}
use service_order_os_service.Prelude.{
  Bool, true, false, not, Option, none, some, is_some, List, [], ◌∷◌, arith, ◌≡◌, eq_iff,
  Bool-cases, inl, inr, if◌then◌else◌,
}
use service_order_os_service.Prelude.Dict.{Dict, lookup, insert}
use service_order_os_service.Prelude.Unique.{Distinct, insert-Distinct}
use service_order_os_service.Text.{is_blank}
use service_order_os_service.Deploy.EnvFile.{
  is_setting, key_of, value_of, parse_lines, splitlines, parse_env_file,
}
use service_order_os_service.Deploy.Manifests.{
  is_sensitive, filled_where, secret_values, config_values, deployed_values, set_default,
}

-- The value, where it is not blank.
abbrev pub not_blank : Option String → Option String
not_blank none = none
not_blank (some v) = if is_blank v then none else some v

lookup-filled_where :
    (test : String → Bool) (k : String) (d : Dict String)
    → Distinct d
    → lookup k (filled_where test d) ≡ (if test k then not_blank (lookup k d) else none)
unfolding filled_where lookup
lookup-filled_where test k [] u = ground arith
lookup-filled_where test k ((j, v) ∷ d) u =
    ground (arith, eq_iff j k, lookup-filled_where test k d u.1, u.0)

parse_lines-Distinct :
    (ls : List String) (d : Dict String) → Distinct d → Distinct (parse_lines d ls)
unfolding parse_lines
parse_lines-Distinct [] d u = u
parse_lines-Distinct (l ∷ ls) d u =
    elim (is_setting l)
      as (λ b. Distinct (elim b [
        | true ↦ parse_lines (insert (key_of l) (value_of l) d) ls
        | false ↦ parse_lines d ls
      ])) [
        | true ↦
            parse_lines-Distinct ls (insert (key_of l) (value_of l) d)
              (insert-Distinct (key_of l) (value_of l) d u)
        | false ↦ parse_lines-Distinct ls d u
      ]

set_default-Distinct : (k v : String) (d : Dict String) → Distinct d → Distinct (set_default k v d)
set_default-Distinct k v d u = elim (Bool-cases (is_some (lookup k d))) [
  | inl there ↦ rw there u
  | inr missing ↦ rw missing (insert-Distinct k v d u)
]

deployed_values-Distinct : (text : String) → Distinct (deployed_values text)
unfolding deployed_values parse_env_file
deployed_values-Distinct text =
    insert-Distinct "MIGRATE_ON_STARTUP" "false"
      (set_default "EMAIL_PROVIDER" "NOOP" (parse_env_file text))
      (set_default-Distinct "EMAIL_PROVIDER" "NOOP" (parse_env_file text)
        (parse_lines-Distinct (splitlines text) [] tt))

pub secrets_apart :
    (text k : String)
    → (lookup k (secret_values (deployed_values text))
        ≡ (if is_sensitive k then not_blank (lookup k (deployed_values text)) else none))
      × (lookup k (config_values (deployed_values text))
          ≡ (if is_sensitive k then none else not_blank (lookup k (deployed_values text))))
secrets_apart text k = (
  lookup-filled_where is_sensitive k (deployed_values text) (deployed_values-Distinct text),
  ground (
    arith,
    lookup-filled_where (λ j. not (is_sensitive j)) k (deployed_values text)
        (deployed_values-Distinct text),
  ),
)
