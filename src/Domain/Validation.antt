-- ===== src/Domain/Validation.antt =====
-- src/domain/validation.py. `re` and `int` read the decimal digits of every script: which characters
-- those are, and their values, is Unicode's table, a parameter.
pub mod Digits
pub mod Plate
use Prim.Native.String.{[], ◌∷◌, ◌++◌, count, char_at}
use service_order_os_service.Prelude.{
  ℕ, zero, suc, ◌+◌, ◌-◌, ◌*◌, ◌%◌, Bool, true, false, not, ◌&&◌, ◌||◌, String, Char, code, ◌==◌,
  List, ltb, leb, eqb, ◌≡◌, refl, if◌then◌else◌,
}

-- Python's decimal characters: `\d` of a `str` pattern, and `int` of one such character.
pub record Decimals : Type 0 where
  pub is_decimal : Char → Bool
  pub digit_value : Char → ℕ

-- The characters of a text that pass a test, `re.sub` of the others by nothing.
unfoldable pub keep : (Char → Bool) → String → String
keep p [] = ""
keep p (c ∷ s) = let rest = keep p s in if p c then c ∷ rest else rest

-- `s[:n]` and `s[n:]`
unfoldable pub take : ℕ → String → String
take zero s = ""
take (suc n) [] = ""
take (suc n) (c ∷ s) = c ∷ take n s

unfoldable pub drop : ℕ → String → String
drop zero s = s
drop (suc n) [] = ""
drop (suc n) (c ∷ s) = drop n s

-- `s[-2:]`
unfoldable pub last_two : String → String
unfolding drop
last_two s = drop (count s - 2) s

unfoldable pub all_same : Char → String → Bool
all_same d [] = true
all_same d (c ∷ s) = eqb (code c) (code d) && all_same d s

-- `s == s[0] * len(s)`, on a text that is not empty
unfoldable pub is_uniform : String → Bool
unfolding all_same
is_uniform [] = true
is_uniform (c ∷ s) = all_same c s

-- `str(n)` of a number below ten
unfoldable pub digit_text : ℕ → String
digit_text n = char_at "0123456789" n ∷ ""

-- `"0" if mod < 2 else str(11 - mod)`
unfoldable pub check_digit : ℕ → String
unfolding digit_text
check_digit total = let rest = total % 11 in if ltb rest 2 then "0" else digit_text (11 - rest)

module _ (py : Decimals) where
  unfoldable pub normalize_digits : String → String
  unfolding keep
  normalize_digits value = keep py.is_decimal value

  -- `sum(int(digit) * (factor - index) ...)`; the factor is above the length wherever this is called
  unfoldable pub falling_sum : String → ℕ → ℕ
  falling_sum [] factor = 0
  falling_sum (c ∷ s) factor = py.digit_value c * factor + falling_sum s (factor - 1)

  -- `sum(int(digit) * weight for digit, weight in zip(base, weights))`
  unfoldable pub weighted_sum : String → List ℕ → ℕ
  weighted_sum [] weights = 0
  weighted_sum (c ∷ s) List.[] = 0
  weighted_sum (c ∷ s) (List.◌∷◌ w ws) = py.digit_value c * w + weighted_sum s ws

  -- The two digits that must follow the first nine of a CPF.
  abbrev pub cpf_first : String → String
  cpf_first cpf = check_digit (falling_sum (take 9 cpf) 10)

  abbrev pub cpf_second : String → String
  cpf_second cpf = check_digit (falling_sum (take 10 cpf) 11)

  unfoldable pub is_valid_cpf : String → Bool
  is_valid_cpf value =
      let cpf = normalize_digits value in
      if not (eqb (count cpf) 11) || is_uniform cpf
      then false
      else last_two cpf == cpf_first cpf ++ cpf_second cpf

  abbrev pub first_weights : List ℕ
  first_weights = List.◌∷◌ 5 (
      List.◌∷◌ 4 (
        List.◌∷◌ 3 (
          List.◌∷◌ 2 (
            List.◌∷◌ 9 (
              List.◌∷◌ 8 (
                List.◌∷◌ 7
                  (List.◌∷◌ 6 (List.◌∷◌ 5 (List.◌∷◌ 4 (List.◌∷◌ 3 (List.◌∷◌ 2 List.[])))))))))))

  abbrev pub cnpj_first : String → String
  cnpj_first cnpj = check_digit (weighted_sum (take 12 cnpj) first_weights)

  abbrev pub cnpj_second : String → String
  cnpj_second cnpj = check_digit (weighted_sum (take 13 cnpj) (List.◌∷◌ 6 first_weights))

  unfoldable pub is_valid_cnpj : String → Bool
  is_valid_cnpj value =
      let cnpj = normalize_digits value in
      if not (eqb (count cnpj) 14) || is_uniform cnpj
      then false
      else last_two cnpj == cnpj_first cnpj ++ cnpj_second cnpj

  unfoldable pub is_valid_cpf_cnpj : String → Bool
  is_valid_cpf_cnpj value =
      let digits = normalize_digits value in
      if eqb (count digits) 11
      then is_valid_cpf digits
      else if eqb (count digits) 14
      then is_valid_cnpj digits
      else false

-- `[A-Z]`, `[a-z]` and `[0-9]`
abbrev pub is_upper : Char → Bool
is_upper c = leb b'A' (code c) && leb (code c) b'Z'

abbrev pub is_lower : Char → Bool
is_lower c = leb b'a' (code c) && leb (code c) b'z'

abbrev pub is_digit : Char → Bool
is_digit c = leb b'0' (code c) && leb (code c) b'9'

unfoldable pub is_alnum : Char → Bool
is_alnum c = is_upper c || is_lower c || is_digit c

-- `upper` on a letter or digit of ASCII
unfoldable pub upper : Char → Char
upper c = if is_lower c then char_at "ABCDEFGHIJKLMNOPQRSTUVWXYZ" (code c - b'a') else c

unfoldable pub map_text : (Char → Char) → String → String
map_text f [] = ""
map_text f (c ∷ s) = f c ∷ map_text f s

unfoldable pub normalize_plate : String → String
unfolding keep is_alnum upper map_text
normalize_plate value = map_text upper (keep is_alnum value)

-- `[A-Z]{3}[0-9]{4}`
unfoldable pub has_old_form : String → Bool
has_old_form (a ∷ b ∷ c ∷ d ∷ e ∷ f ∷ g ∷ []) =
    is_upper a && is_upper b && is_upper c && is_digit d && is_digit e && is_digit f && is_digit g
has_old_form _ = false

-- `[A-Z]{3}[0-9][A-Z][0-9]{2}`
unfoldable pub has_new_form : String → Bool
has_new_form (a ∷ b ∷ c ∷ d ∷ e ∷ f ∷ g ∷ []) =
    is_upper a && is_upper b && is_upper c && is_digit d && is_upper e && is_digit f && is_digit g
has_new_form _ = false

unfoldable pub is_valid_br_plate : String → Bool
is_valid_br_plate value =
    has_old_form (normalize_plate value) || has_new_form (normalize_plate value)
