-- ===== src/Deploy/EnvFile/Reread.antt =====
-- Reading again what `rewrite_env_file` of scripts/deploy/prepare_env.py wrote.
use Prim.Native.String.{String, ◌++◌}
use service_order_os_service.Prelude.{
  Bool, false, Option, none, some, is_some, List, [], ◌∷◌, All, arith, ◌≡◌, refl, sym, ap, ◌∙◌,
  Bool-cases, inl, inr, if◌then◌else◌, ◌||◌, ◌==◌, eq_iff,
}
use service_order_os_service.Prelude.Dict.{Dict, lookup, insert, lookup-insert}
use service_order_os_service.Text.{strip}
use service_order_os_service.Text.Search.Laws.{lacks, lacks-append}
use service_order_os_service.Deploy.EnvFile.{
  is_break, splitlines, join_lines, is_setting, key_of, value_of, Entry, raw, kv, load_lines,
  parse_lines, parse_env_file, value_or_empty, rendered, rendered_lines, rewrite_env_file,
}
use service_order_os_service.Deploy.EnvFile.Lines.{IsLine, splitlines-join_lines, splitlines-lines}
use service_order_os_service.Deploy.EnvFile.Keys.{
  IsEntry, is_setting-rendered, key_of-rendered, value_of-rendered, load_lines-IsEntry,
}
use service_order_os_service.Deploy.EnvFile.Laws.{
  load_lines_setting, load_lines_other, parse_lines_setting, parse_lines_other, scripts_agree,
}
use service_order_os_service.Deploy.EnvFile.Values.{
  ValuesAreLines, parse_env_file-ValuesAreLines, parse_env_file-stripped,
}

abbrev has_key : String → List Entry → Bool
has_key j [] = false
has_key j (raw l ∷ es) = has_key j es
has_key j (kv k ∷ es) = (k == j) || has_key j es

equals-IsLine : IsLine "="
unfolding lacks is_break
equals-IsLine = refl

module _ (values : Dict String) (lines : ValuesAreLines values) where
  rendered_lines-IsLine : (es : List Entry) → All IsEntry es → All IsLine (rendered_lines values es)
  unfolding rendered_lines rendered
  rendered_lines-IsLine [] h = tt
  rendered_lines-IsLine (raw l ∷ es) ((_, h), hs) = (h, rendered_lines-IsLine es hs)
  rendered_lines-IsLine (kv k ∷ es) (h, hs) = (
    lacks-append is_break k ("=" ++ value_or_empty values k) h.in_line
        (lacks-append is_break "=" (value_or_empty values k) equals-IsLine (lines k)),
    rendered_lines-IsLine es hs,
  )

  parse_lines-rendered_lines :
      (j : String) (es : List Entry) (before : Dict String)
      → All IsEntry es
      → lookup j (parse_lines before (rendered_lines values es))
        ≡ (if has_key j es then some (strip (value_or_empty values j)) else lookup j before)
  unfolding rendered_lines rendered
  parse_lines-rendered_lines j [] before h = unfold parse_lines in refl
  parse_lines-rendered_lines j (raw l ∷ es) before ((other, _), hs) =
      rw (parse_lines_other before l (rendered_lines values es) other)
        (parse_lines-rendered_lines j es before hs)
  parse_lines-rendered_lines j (kv k ∷ es) before (h, hs) =
      let v = value_or_empty values k in
      let after = insert k (strip v) before in
      rw
        (
          parse_lines_setting before (k ++ ("=" ++ v)) (rendered_lines values es)
              (is_setting-rendered k v h),
          key_of-rendered k v h,
          value_of-rendered k v h,
        )
        (ground (
          arith,
          parse_lines-rendered_lines j es after hs,
          lookup-insert k j (strip v) before,
          eq_iff k j,
        ))

  reread_entries :
      (j : String) (es : List Entry)
      → All IsEntry es
      → lookup j (parse_env_file (rewrite_env_file es values))
        ≡ (if has_key j es then some (strip (value_or_empty values j)) else none)
  unfolding parse_env_file rewrite_env_file rendered_lines lookup
  reread_entries j [] h = unfold splitlines join_lines parse_lines is_setting strip in refl
  reread_entries j (e ∷ es) h =
      ap (λ ls. lookup j (parse_lines [] ls))
        (splitlines-join_lines (rendered values e) (rendered_lines values es)
          (rendered_lines-IsLine (e ∷ es) h))
      ∙ parse_lines-rendered_lines j (e ∷ es) [] h

load_lines-has_key :
    (j : String) (values : Dict String) (ls : List String)
    → is_some (lookup j (load_lines values ls).values)
      ≡ (has_key j (load_lines values ls).entries || is_some (lookup j values))
load_lines-has_key j values [] = unfold load_lines in refl
load_lines-has_key j values (l ∷ ls) = elim (Bool-cases (is_setting l)) [
  | inl sets ↦ rw (load_lines_setting values l ls sets) (
      ground (
        arith,
        load_lines-has_key j (insert (key_of l) (value_of l) values) ls,
        lookup-insert (key_of l) j (value_of l) values,
      ))
  | inr other ↦ rw (load_lines_other values l ls other) (load_lines-has_key j values ls)
]

has_key-is_some :
    (text j : String)
    → has_key j (load_lines [] (splitlines text)).entries ≡ is_some (lookup j (parse_env_file text))
unfolding lookup
has_key-is_some text j = ground (
  arith,
  load_lines-has_key j [] (splitlines text),
  ap (λ d. is_some (lookup j d)) (scripts_agree text),
)

-- The file that is written again has the keys of the file that was read, and gives each the value
-- that it was written with, stripped; no value may hold the end of a line.
pub rewritten :
    (text : String) (values : Dict String)
    → ValuesAreLines values
    → (j : String)
    → lookup j (parse_env_file (rewrite_env_file (load_lines [] (splitlines text)).entries values))
      ≡ (if is_some (lookup j (parse_env_file text))
          then some (strip (value_or_empty values j))
          else none)
rewritten text values lines j = rw (sym (has_key-is_some text j)) (
    reread_entries values lines j (load_lines [] (splitlines text)).entries
      (load_lines-IsEntry [] (splitlines text) (splitlines-lines text)))

pub found :
    (o : Option String) → (if is_some o then some (elim o [ none ↦ "" | some v ↦ v ]) else none) ≡ o
found none = refl
found (some v) = refl

-- A file that is written again with the values it had reads as before.
pub rewritten_unchanged :
    (text j : String)
    → lookup j (
        parse_env_file
          (rewrite_env_file (load_lines [] (splitlines text)).entries (parse_env_file text)))
      ≡ lookup j (parse_env_file text)
unfolding value_or_empty
rewritten_unchanged text j =
    rewritten text (parse_env_file text) (parse_env_file-ValuesAreLines text) j
    ∙ ap (λ v. if is_some (lookup j (parse_env_file text)) then some v else none)
        (parse_env_file-stripped text j)
    ∙ found (lookup j (parse_env_file text))
