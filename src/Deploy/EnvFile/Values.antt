-- ===== src/Deploy/EnvFile/Values.antt =====
-- The values that `parse_env_file` of scripts/deploy/render_k8s_manifests.py reads.
use Prim.Native.String.{String}
use service_order_os_service.Prelude.{
  List, [], ◌∷◌, All, arith, ◌≡◌, refl, Bool-cases, inl, inr, if◌then◌else◌, ◌==◌,
}
use service_order_os_service.Prelude.Dict.{Dict, lookup, insert, lookup-insert}
use service_order_os_service.Text.{strip}
use service_order_os_service.Text.Strip.{strip_idem}
use service_order_os_service.Text.Search.{behind}
use service_order_os_service.Text.Search.Laws.{lacks, lacks-strip, lacks-behind}
use service_order_os_service.Deploy.EnvFile.{
  is_break, splitlines, is_setting, key_of, value_of, parse_lines, parse_env_file, value_or_empty,
}
use service_order_os_service.Deploy.EnvFile.Lines.{IsLine, splitlines-lines}
use service_order_os_service.Deploy.EnvFile.Laws.{parse_lines_setting, parse_lines_other}

value_or_empty-insert :
    (k j v : String) (values : Dict String)
    → value_or_empty (insert k v values) j ≡ (if k == j then v else value_or_empty values j)
unfolding value_or_empty
value_or_empty-insert k j v values = ground (arith, lookup-insert k j v values)

module _ (P : String → Type 0) where
  -- The value of every key has the property, that of a missing key being empty.
  abbrev pub Every : Dict String → Type 0
  Every values = (k : String) → P (value_or_empty values k)

  pub insert-Every :
      (k v : String) (values : Dict String) → P v → Every values → Every (insert k v values)
  insert-Every k v values h hs j = elim (Bool-cases (k == j)) [
    | inl same ↦ rw (value_or_empty-insert k j v values, same) h
    | inr other ↦ rw (value_or_empty-insert k j v values, other) (hs j)
  ]

  parse_lines-Every :
      (ls : List String) (values : Dict String)
      → ((l : String) → IsLine l → P (value_of l))
      → All IsLine ls
      → Every values
      → Every (parse_lines values ls)
  parse_lines-Every [] values p h hs = unfold parse_lines in hs
  parse_lines-Every (l ∷ ls) values p (h, hs) e = elim (Bool-cases (is_setting l)) [
    | inl sets ↦ rw (parse_lines_setting values l ls sets) (
        parse_lines-Every ls (insert (key_of l) (value_of l) values) p hs
          (insert-Every (key_of l) (value_of l) values (p l h) e))
    | inr other ↦ rw (parse_lines_other values l ls other) (parse_lines-Every ls values p hs e)
  ]

  parse_env_file-Every :
      P ""
      → ((l : String) → IsLine l → P (value_of l))
      → (text : String) → Every (parse_env_file text)
  unfolding parse_env_file value_or_empty lookup
  parse_env_file-Every empty p text =
      parse_lines-Every (splitlines text) [] p (splitlines-lines text) (λ _. empty)

-- Every value fits in one line.
abbrev pub ValuesAreLines : Dict String → Type 0
ValuesAreLines = Every IsLine

pub parse_env_file-ValuesAreLines : (text : String) → ValuesAreLines (parse_env_file text)
parse_env_file-ValuesAreLines =
    parse_env_file-Every IsLine (unfold lacks in refl)
      (λ l h. lacks-strip is_break (behind "=" l) (lacks-behind is_break "=" l h))

pub parse_env_file-stripped :
    (text k : String)
    → strip (value_or_empty (parse_env_file text) k) ≡ value_or_empty (parse_env_file text) k
parse_env_file-stripped =
    parse_env_file-Every (λ v. strip v ≡ v) (unfold strip in refl)
      (λ l h. strip_idem (behind "=" l))
