-- ===== src/Deploy/PrepareEnv/Keeps.antt =====
-- What scripts/deploy/prepare_env.py leaves alone.
use Prim.Native.String.{String}
use service_order_os_service.Prelude.{
  true, false, arith, ◌≡◌, refl, ap, subst, ◌∙◌, ◌==◌, eq_iff, Bool-cases, inl, inr,
}
use service_order_os_service.Prelude.Dict.{Dict, lookup, lookup-insert}
use service_order_os_service.Exec.{Exec}
use service_order_os_service.Deploy.EnvFields.{EnvReader}
use service_order_os_service.Deploy.PrepareEnv.{prepare_values}
use service_order_os_service.Deploy.PrepareEnv.Edits.{
  normalized_keys, one_of, Edits, unchanged, edit, both,
}
use service_order_os_service.Deploy.PrepareEnv.Edits.Steps.{prepare_values-Edited}

module _ (k : String) where
  -- The call leaves the key's value as it is, whether it returns or raises.
  abbrev pub Keeps : {A : Type 0} → Exec (Dict String) A → Type 0
  Keeps m = (d : Dict String) → lookup k (m d).1 ≡ lookup k d

  module _ (py : EnvReader) (other : one_of normalized_keys k ≡ false) where
    apart : (key : String) → one_of normalized_keys key ≡ true → (key == k) ≡ false
    apart key listed = elim (Bool-cases (key == k)) [
      | inl same ↦ absurd (
          let l : one_of normalized_keys k ≡ true =
            subst (λ x. one_of normalized_keys x ≡ true) ((eq_iff key k).0 same) listed in
          ground (arith, l, other))
      | inr differs ↦ differs
    ]

    lookup-Edits : (d d' : Dict String) → Edits py d d' → lookup k d' ≡ lookup k d
    lookup-Edits d d' (unchanged e) = ap (lookup k) e
    lookup-Edits d d' (edit key v listed value e) =
        ap (lookup k) e ∙ rw (lookup-insert key k v d, apart key listed) refl
    lookup-Edits d d' (both {b = m} first rest) = lookup-Edits m d' rest ∙ lookup-Edits d m first

    -- The preparation changes the values of these keys only, whether it returns or raises: secrets and
    -- addresses among others pass through as they are.
    pub prepare_values-Keeps : Keeps (prepare_values py)
    prepare_values-Keeps d = lookup-Edits d (prepare_values py d).1 (prepare_values-Edited py d)
