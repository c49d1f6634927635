-- ===== src/Deploy/PrepareEnv/Written.antt =====
-- The file that `prepare_env` of scripts/deploy/prepare_env.py writes, as `parse_env_file` of
-- scripts/deploy/render_k8s_manifests.py reads it.
use Prim.Native.String.{String}
use service_order_os_service.Prelude.{
  false, none, some, is_some, List, [], arith, ◌≡◌, sym, ap, subst, ◌∙◌, if◌then◌else◌,
}
use service_order_os_service.Prelude.Dict.{Dict, lookup}
use service_order_os_service.Exec.{Result, ok, err, and_then}
use service_order_os_service.Text.{strip}
use service_order_os_service.Deploy.EnvFile.{
  splitlines, load_lines, parse_env_file, rewrite_env_file, value_or_empty,
}
use service_order_os_service.Deploy.EnvFile.Laws.{scripts_agree}
use service_order_os_service.Deploy.EnvFile.Lines.{IsLine}
use service_order_os_service.Deploy.EnvFile.Values.{
  ValuesAreLines, insert-Every, parse_env_file-ValuesAreLines, parse_env_file-stripped,
}
use service_order_os_service.Deploy.EnvFile.Reread.{rewritten, found}
use service_order_os_service.Deploy.EnvFields.{ℤ, EnvReader}
use service_order_os_service.Deploy.PrepareEnv.{prepare_values, prepare_env}
use service_order_os_service.Deploy.PrepareEnv.Edits.{
  normalized_keys, one_of, Value, line, number, array, raised, Edits, unchanged, edit, both,
}
use service_order_os_service.Deploy.PrepareEnv.Edits.Steps.{prepare_values-Edited}
use service_order_os_service.Deploy.PrepareEnv.Keeps.{prepare_values-Keeps}

-- The texts of numbers and of arrays of texts are lines, and so is a line in upper case.
pub record WritesLines (py : EnvReader) : Type 0 where
  pub number_line : (n : ℤ) → IsLine (py.int_text n)
  pub array_line : (ts : List String) → IsLine (py.dumps ts)
  pub upper_line : (v : String) → IsLine v → IsLine (py.settings.upper v)

ok_inj : {s t : String} → ok s ≡ ok t → s ≡ t
ok_inj {s = s} h = ap (λ (r : Result String). elim r [ ok x ↦ x | err x ↦ s ]) h

returned_text :
    (r : Result (Unit {0})) (t written : String) → and_then r (λ _. ok t) ≡ ok written → t ≡ written
returned_text (ok a) t written h = ok_inj h
returned_text (err x) t written h = absurd (ground (arith, h))

value_of_some : (d : Dict String) (k v : String) → lookup k d ≡ some v → value_or_empty d k ≡ v
unfolding value_or_empty
value_of_some d k v h = ground (arith, h)

lookup_value :
    (d d' : Dict String) (k : String)
    → lookup k d ≡ lookup k d'
    → value_or_empty d k ≡ value_or_empty d' k
unfolding value_or_empty
lookup_value d d' k h = ap (λ o. elim o [ none ↦ "" | some v ↦ v ]) h

module _ (py : EnvReader) (writes : WritesLines py) where
  Value-IsLine : (d : Dict String) (w : String) → ValuesAreLines d → Value py d w → IsLine w
  Value-IsLine d _ h (line v l) = l
  Value-IsLine d _ h (number n) = writes.number_line n
  Value-IsLine d _ h (array ts) = writes.array_line ts
  Value-IsLine d _ h (raised w there) =
      writes.upper_line w (subst IsLine (value_of_some d "LOG_LEVEL" w there) (h "LOG_LEVEL"))

  Edits-ValuesAreLines : (d d' : Dict String) → Edits py d d' → ValuesAreLines d → ValuesAreLines d'
  Edits-ValuesAreLines d d' (unchanged e) h = subst ValuesAreLines (sym e) h
  Edits-ValuesAreLines d d' (edit key v listed value e) h =
      subst ValuesAreLines (sym e) (insert-Every IsLine key v d (Value-IsLine d v h value) h)
  Edits-ValuesAreLines d d' (both {b = m} first rest) h =
      Edits-ValuesAreLines m d' rest (Edits-ValuesAreLines d m first h)

  module _ (path text written : String)
      (returns : prepare_env py path (some text) ≡ ok written) where
    abbrev before : Dict String
    before = parse_env_file text

    abbrev prepared : Dict String
    prepared = (prepare_values py before).1

    written_is : written ≡ rewrite_env_file (load_lines [] (splitlines text)).entries prepared
    unfolding prepare_env
    written_is =
        sym (
          returned_text (prepare_values py (load_lines [] (splitlines text)).values).0 _ written
            returns)
        ∙ ap
            (λ d.
              rewrite_env_file (load_lines [] (splitlines text)).entries (prepare_values py d).1)
            (scripts_agree text)

    -- Reading the written file
    pub written_read :
        (k : String)
        → lookup k (parse_env_file written)
          ≡ (if is_some (lookup k before) then some (strip (value_or_empty prepared k)) else none)
    written_read k =
        ap (λ t. lookup k (parse_env_file t)) written_is
        ∙ rewritten text prepared
            (Edits-ValuesAreLines before prepared (prepare_values-Edited py before)
              (parse_env_file-ValuesAreLines text))
            k

    -- Where the preparation returns, a key that it does not normalize reads from the file that it wrote as from the file that it read.
    pub passed_through :
        (k : String)
        → one_of normalized_keys k ≡ false
        → lookup k (parse_env_file written) ≡ lookup k (parse_env_file text)
    unfolding value_or_empty
    passed_through k other =
        written_read k
        ∙ ap (λ v. if is_some (lookup k before) then some v else none)
            (ap strip (lookup_value prepared before k (prepare_values-Keeps k py other before))
              ∙ parse_env_file-stripped text k)
        ∙ found (lookup k before)
