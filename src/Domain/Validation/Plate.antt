-- ===== src/Domain/Validation/Plate.antt =====
-- `normalize_plate` and `is_valid_br_plate` of src/domain/validation.py.
use Prim.Native.String.{[], ◌∷◌, char_at}
use service_order_os_service.Prelude.{
  ℕ, zero, suc, ◌+◌, ◌-◌, ◌<◌, Bool, true, false, String, Char, code, eqb, eqb_iff, arith, ◌≡◌,
  refl, if◌then◌else◌,
}
use service_order_os_service.Domain.Validation.{
  keep, is_lower, is_alnum, upper, map_text, normalize_plate, is_valid_br_plate,
}

-- The first letters of the table are the capitals of these codes.
table_fits : ℕ → Bool
table_fits zero = true
table_fits (suc k) =
    if eqb (code (char_at "ABCDEFGHIJKLMNOPQRSTUVWXYZ" k)) (65 + k) then table_fits k else false

letter_code :
    (letters k : ℕ)
    → table_fits letters ≡ true
    → k < letters
    → code (char_at "ABCDEFGHIJKLMNOPQRSTUVWXYZ" k) ≡ 65 + k
unfolding table_fits
letter_code zero k fits before = absurd (omega arith)
letter_code (suc l) k fits before =
    ground
      (arith, letter_code l k, eqb_iff (code (char_at "ABCDEFGHIJKLMNOPQRSTUVWXYZ" l)) (65 + l))

all_fit : table_fits 26 ≡ true
unfolding table_fits
all_fit = refl

capital : (k : ℕ) → k < 26 → code (char_at "ABCDEFGHIJKLMNOPQRSTUVWXYZ" k) ≡ 65 + k
capital k h = letter_code 26 k all_fit h

-- Of a letter or digit `upper` makes a capital or a digit, which it leaves.
upper_kind :
    (c : Char) → is_alnum c ≡ true → (is_alnum (upper c) ≡ true) × (is_lower (upper c) ≡ false)
unfolding is_alnum upper
upper_kind c h = ground (arith, capital (code c - 97))

upper_fixed : (c : Char) → is_lower c ≡ false → upper c ≡ c
unfolding upper
upper_fixed c h = rw h

keep-map_upper :
    (s : String)
    → keep is_alnum (map_text upper (keep is_alnum s)) ≡ map_text upper (keep is_alnum s)
unfolding keep map_text
keep-map_upper [] = refl
keep-map_upper (c ∷ s) = ground (arith, keep-map_upper s, upper_kind c)

map_upper_idem :
    (s : String)
    → map_text upper (map_text upper (keep is_alnum s)) ≡ map_text upper (keep is_alnum s)
unfolding keep map_text
map_upper_idem [] = refl
map_upper_idem (c ∷ s) = ground (arith, map_upper_idem s, upper_kind c, upper_fixed (upper c))

-- Normalising a plate again changes nothing.
pub normalize_plate_idem : (v : String) → normalize_plate (normalize_plate v) ≡ normalize_plate v
unfolding normalize_plate
normalize_plate_idem v = rw (keep-map_upper v) (map_upper_idem v)

-- A plate is valid exactly when its normal form is: case and separators do not matter.
pub is_valid_br_plate-normalize :
    (v : String) → is_valid_br_plate (normalize_plate v) ≡ is_valid_br_plate v
unfolding is_valid_br_plate
is_valid_br_plate-normalize v = rw (normalize_plate_idem v)
