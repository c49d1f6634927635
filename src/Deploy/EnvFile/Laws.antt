-- ===== src/Deploy/EnvFile/Laws.antt =====
-- Reading an environment file back.
use Prim.Native.String.{String}
use service_order_os_service.Prelude.{true, false, List, [], ◌∷◌, arith, ◌≡◌, refl}
use service_order_os_service.Prelude.Dict.{Dict, insert}
use service_order_os_service.Text.{strip}
use service_order_os_service.Deploy.EnvFile.{
  raw, kv, is_setting, key_of, value_of, load_lines, parse_lines, splitlines, parse_env_file,
}

module _ (values : Dict String) (l : String) (ls : List String) where
  abbrev with_setting : Dict String
  with_setting = insert (key_of l) (value_of l) values

  pub load_lines_setting :
      is_setting l ≡ true
      → load_lines values (l ∷ ls) ≡ record {
        entries = kv (key_of l) ∷ (load_lines with_setting ls).entries;
        values = (load_lines with_setting ls).values;
      }
  unfolding load_lines strip
  load_lines_setting h = rw (load_lines, h) refl

  pub load_lines_other :
      is_setting l ≡ false
      → load_lines values (l ∷ ls) ≡ record {
        entries = raw l ∷ (load_lines values ls).entries;
        values = (load_lines values ls).values;
      }
  unfolding load_lines
  load_lines_other h = rw (load_lines, h) refl

  pub parse_lines_setting :
      is_setting l ≡ true → parse_lines values (l ∷ ls) ≡ parse_lines with_setting ls
  unfolding parse_lines strip
  parse_lines_setting h = rw (parse_lines, h) refl

  pub parse_lines_other : is_setting l ≡ false → parse_lines values (l ∷ ls) ≡ parse_lines values ls
  unfolding parse_lines
  parse_lines_other h = rw (parse_lines, h) refl

pub load_lines-values :
    (values : Dict String) (ls : List String)
    → (load_lines values ls).values ≡ parse_lines values ls
unfolding load_lines parse_lines
load_lines-values values [] = refl
load_lines-values values (l ∷ ls) = ground (
  arith,
  load_lines-values values ls,
  load_lines-values (insert (key_of l) (value_of l) values) ls,
)

-- The two scripts read the same values from the same file.
pub scripts_agree : (text : String) → (load_lines [] (splitlines text)).values ≡ parse_env_file text
unfolding parse_env_file
scripts_agree text = load_lines-values [] (splitlines text)
