-- ===== src/Deploy/EnvFile.antt =====
-- The environment file, as `load_env_file` and `rewrite_env_file` of scripts/deploy/prepare_env.py and
-- `parse_env_file` of scripts/deploy/render_k8s_manifests.py read and write it. A file is its text, in
-- which `read_text` has made every end of line a line feed.
pub mod Lines
pub mod Laws
pub mod Keys
pub mod Values
pub mod Reread
use Prim.Native.String
use Prim.Native.String.{String, ◌++◌}
use service_order_os_service.Prelude.{
  Bool, true, false, not, ◌&&◌, ◌||◌, Option, none, some, List, [], ◌∷◌, Char, code, eqb, leb, ◌==◌,
  if◌then◌else◌,
}
use service_order_os_service.Prelude.Dict.{Dict, lookup, insert}
use service_order_os_service.Text.{strip}
use service_order_os_service.Text.Search.{starts_with, has_char, before, behind}

-- The characters at which `str.splitlines` ends a line.
unfoldable pub is_break : Char → Bool
is_break c =
    let n = code c in
    leb 10 n && leb n 13 || leb 28 n && leb n 30 || eqb n 0x85 || eqb n 0x2028 || eqb n 0x2029

abbrev pub onto_line : Char → List String → List String
onto_line c [] = String.◌∷◌ c "" ∷ []
onto_line c (l ∷ ls) = String.◌∷◌ c l ∷ ls

-- `text.splitlines()`
unfoldable pub splitlines : String → List String
unfolding is_break
splitlines String.[] = []
splitlines (String.◌∷◌ c s) =
    let rest = splitlines s in if is_break c then "" ∷ rest else onto_line c rest

-- `"\n".join(lines)`
unfoldable pub join_lines : List String → String
join_lines [] = ""
join_lines (l ∷ []) = l
join_lines (l ∷ l' ∷ ls) = l ++ ("\n" ++ join_lines (l' ∷ ls))

-- A line that sets a value: not empty, no comment, with an equals sign.
unfoldable pub is_setting : String → Bool
is_setting line = not (strip line == "" || starts_with (strip line) "#") && has_char "=" line

-- `key, value = raw_line.split("=", 1)`, both stripped
abbrev pub key_of : String → String
key_of line = strip (before "=" line)

abbrev pub value_of : String → String
value_of line = strip (behind "=" line)

-- `("raw", line)` or `("kv", key)`
pub data Entry : Type 0 where
  raw : String → Entry
  kv : String → Entry

pub record Loaded : Type 0 where
  pub entries : List Entry
  pub values : Dict String

-- The loop of `load_env_file` over the lines that are left, with the values read so far.
unfoldable pub load_lines : Dict String → List String → Loaded
load_lines values [] = record { entries = []; values = values }
load_lines values (l ∷ ls) = elim (is_setting l) [
  | true ↦
      let rest = load_lines (insert (key_of l) (value_of l) values) ls in
      record rest { entries = kv (key_of l) ∷ rest.entries }
  | false ↦ let rest = load_lines values ls in record rest { entries = raw l ∷ rest.entries }
]

-- The loop of `parse_env_file`.
unfoldable pub parse_lines : Dict String → List String → Dict String
parse_lines values [] = values
parse_lines values (l ∷ ls) = elim (is_setting l) [
  | true ↦ parse_lines (insert (key_of l) (value_of l) values) ls
  | false ↦ parse_lines values ls
]

-- `parse_env_file`
unfoldable pub parse_env_file : String → Dict String
unfolding splitlines parse_lines
parse_env_file text = parse_lines [] (splitlines text)

-- `values.get(key, "")`
unfoldable pub value_or_empty : Dict String → String → String
value_or_empty values key = elim (lookup key values) [ none ↦ "" | some v ↦ v ]

-- The line that `rewrite_env_file` writes for an entry.
unfoldable pub rendered : Dict String → Entry → String
rendered values (raw line) = line
rendered values (kv key) = key ++ ("=" ++ value_or_empty values key)

unfoldable pub rendered_lines : Dict String → List Entry → List String
rendered_lines values [] = []
rendered_lines values (e ∷ es) = rendered values e ∷ rendered_lines values es

-- `rewrite_env_file`
unfoldable pub rewrite_env_file : List Entry → Dict String → String
unfolding join_lines rendered_lines
rewrite_env_file entries values = join_lines (rendered_lines values entries) ++ "\n"
