-- ===== src/Text/Search.antt =====
-- `str.startswith`, `str.replace`, `str.split` and `str.partition` at one character.
pub mod Laws
use Prim.Native.String.{String, ◌++◌, count}
use service_order_os_service.Prelude.{
  ℕ, zero, suc, ◌-◌, Bool, true, false, ◌&&◌, ◌||◌, Char, code, eqb, List, [], ◌∷◌, ◌==◌,
  if◌then◌else◌,
}
use service_order_os_service.Text.{strip}

-- The same character.
abbrev pub same_char : Char → Char → Bool
same_char c d = eqb (code c) (code d)

-- `s.startswith(prefix)`
unfoldable pub starts_with : String → String → Bool
starts_with s String.[] = true
starts_with String.[] (String.◌∷◌ c p) = false
starts_with (String.◌∷◌ d s) (String.◌∷◌ c p) = same_char d c && starts_with s p

-- `s[n:]`
unfoldable pub skip : ℕ → String → String
skip zero s = s
skip (suc n) String.[] = ""
skip (suc n) (String.◌∷◌ c s) = skip n s

-- `s.replace(old, new, 1)`, for an old text that is not empty
unfoldable pub replace_first : String → String → String → String
unfolding starts_with skip
replace_first old new String.[] = ""
replace_first old new (String.◌∷◌ c s) =
    let rest = replace_first old new s in
    if starts_with (String.◌∷◌ c s) old
    then new ++ skip (count old) (String.◌∷◌ c s)
    else String.◌∷◌ c rest

-- `s.replace(old, new)`; the number is that of characters that an occurrence still covers.
unfoldable pub replace_from : ℕ → String → String → String → String
unfolding starts_with
replace_from n old new String.[] = ""
replace_from (suc n) old new (String.◌∷◌ c s) = replace_from n old new s
replace_from zero old new (String.◌∷◌ c s) = elim (starts_with (String.◌∷◌ c s) old) [
  | true ↦ new ++ replace_from (count old - 1) old new s
  | false ↦ String.◌∷◌ c (replace_from zero old new s)
]

abbrev pub replace : String → String → String → String
replace old new s = replace_from zero old new s

-- `token in s`, for a token that is not empty
unfoldable pub occurs : String → String → Bool
unfolding starts_with
occurs token String.[] = false
occurs token (String.◌∷◌ c s) = starts_with (String.◌∷◌ c s) token || occurs token s

unfoldable pub has_char : Char → String → Bool
has_char d String.[] = false
has_char d (String.◌∷◌ c s) = same_char c d || has_char d s

-- `s.split(d, 1)[0]` and `s.split(d, 1)[1]`; also the first and third part of `s.partition(d)`
unfoldable pub before : Char → String → String
before d String.[] = ""
before d (String.◌∷◌ c s) = let rest = before d s in if same_char c d then "" else String.◌∷◌ c rest

unfoldable pub behind : Char → String → String
behind d String.[] = ""
behind d (String.◌∷◌ c s) = let rest = behind d s in if same_char c d then s else rest

-- `s.split(d)`
abbrev onto_first : Char → List String → List String
onto_first c [] = String.◌∷◌ c "" ∷ []
onto_first c (p ∷ ps) = String.◌∷◌ c p ∷ ps

unfoldable pub split_on : Char → String → List String
split_on d String.[] = "" ∷ []
split_on d (String.◌∷◌ c s) =
    let pieces = split_on d s in if same_char c d then "" ∷ pieces else onto_first c pieces

-- `[item.strip() for item in items if item.strip()]`
unfoldable pub clean : List String → List String
clean [] = []
clean (t ∷ ts) = let rest = clean ts in if strip t == "" then rest else strip t ∷ rest
