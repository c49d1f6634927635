-- ===== src/Domain/Validation/Digits.antt =====
-- `is_valid_cpf`, `is_valid_cnpj` and `is_valid_cpf_cnpj` of src/domain/validation.py.
use Prim.Native.String.{[], ◌∷◌, ◌++◌, count, char_at}
use text.Mathlib.TextLemmas.{nil-append, cons-append, head-eq_of_cons-eq}
use service_order_os_service.Prelude.{
  ◌%◌, ℕ, zero, suc, ◌-◌, ltb, Bool, true, ◌||◌, String, Char, eq_iff, arith, ◌≡◌, refl, ap, sym,
  ◌∙◌, Bool-cases, inl, inr,
}
use service_order_os_service.Domain.Validation.{
  Decimals, keep, take, drop, last_two, digit_text, check_digit, normalize_digits, falling_sum,
  cpf_first, cpf_second, is_valid_cpf, is_valid_cnpj, is_valid_cpf_cnpj,
}

-- What a test leaves of a text, it leaves again.
pub keep_idem : (p : Char → Bool) (s : String) → keep p (keep p s) ≡ keep p s
unfolding keep
keep_idem p [] = refl
keep_idem p (c ∷ s) = ground (arith, keep_idem p s)

-- The part after `n` characters begins with the next one.
take-suc :
    (n : ℕ) (s : String) (c : Char) (r : String)
    → drop n s ≡ c ∷ r
    → take (suc n) s ≡ take n s ++ (c ∷ "")
unfolding take drop
take-suc zero [] c r h = cc
take-suc zero (x ∷ s) c r h = rw nil-append (ap (λ (z : Char). z ∷ "") (head-eq_of_cons-eq h))
take-suc (suc n) [] c r h = cc
take-suc (suc n) (x ∷ s) c r h =
    ap (λ (z : String). x ∷ z) (take-suc n s c r h) ∙ sym (cons-append x (take n s) (c ∷ ""))

pub take-drop : (n : ℕ) (s : String) → take n s ++ drop n s ≡ s
unfolding take drop
take-drop zero s = nil-append s
take-drop (suc n) [] = nil-append ""
take-drop (suc n) (c ∷ s) =
    cons-append c (take n s) (drop n s) ∙ ap (λ (z : String). c ∷ z) (take-drop n s)

-- A check digit is one character.
check_digit-one : (n : ℕ) → (c : Char) × (check_digit n ≡ c ∷ "")
unfolding check_digit digit_text
check_digit-one n = elim (Bool-cases (ltb (n % 11) 2)) [
  | inl small ↦ ("0", rw small)
  | inr large ↦ (char_at "0123456789" (11 - n % 11), rw large)
]

module _ (py : Decimals) where
  pub normalize_digits_idem :
      (v : String) → normalize_digits py (normalize_digits py v) ≡ normalize_digits py v
  unfolding normalize_digits
  normalize_digits_idem v = keep_idem py.is_decimal v

  -- A CPF is valid exactly when its digits alone are: what stands between them does not matter.
  pub is_valid_cpf-normalize :
      (v : String) → is_valid_cpf py (normalize_digits py v) ≡ is_valid_cpf py v
  unfolding is_valid_cpf
  is_valid_cpf-normalize v = rw (normalize_digits_idem v)

  is_valid_cnpj-normalize :
      (v : String) → is_valid_cnpj py (normalize_digits py v) ≡ is_valid_cnpj py v
  unfolding is_valid_cnpj
  is_valid_cnpj-normalize v = rw (normalize_digits_idem v)

  -- A document is valid exactly when it is a valid CPF or a valid CNPJ, whatever stands between its
  -- digits.
  pub is_valid_cpf_cnpj_lem :
      (v : String) → is_valid_cpf_cnpj py v ≡ (is_valid_cpf py v || is_valid_cnpj py v)
  unfolding is_valid_cpf_cnpj
  is_valid_cpf_cnpj_lem v =
      rw (is_valid_cpf-normalize v, is_valid_cnpj-normalize v)
        (unfold is_valid_cpf is_valid_cnpj in ground arith)

  -- The digits of a document are valid exactly when the document is.
  pub is_valid_cpf_cnpj-normalize :
      (v : String) → is_valid_cpf_cnpj py (normalize_digits py v) ≡ is_valid_cpf_cnpj py v
  is_valid_cpf_cnpj-normalize v =
      rw
        (
          is_valid_cpf_cnpj_lem (normalize_digits py v),
          is_valid_cpf_cnpj_lem v,
          is_valid_cpf-normalize v,
          is_valid_cnpj-normalize v,
        )
        refl

  cpf_shape :
      (v : String)
      → is_valid_cpf py v ≡ true
      → (count (normalize_digits py v) ≡ 11)
        × (last_two (normalize_digits py v)
            ≡ cpf_first py (normalize_digits py v) ++ cpf_second py (normalize_digits py v))
  unfolding is_valid_cpf
  cpf_shape v h = ground (
    arith,
    eq_iff (last_two (normalize_digits py v))
        (cpf_first py (normalize_digits py v) ++ cpf_second py (normalize_digits py v)),
  )

  -- The last two characters are all that follows the first nine.
  tail_digits : (s : String) → count s ≡ 11 → last_two s ≡ drop 9 s
  unfolding last_two
  tail_digits s h = ap (λ n. drop (n - 2) s) h

  -- The first nine digits of a valid CPF determine all eleven.
  cpf_by_nine :
      (v : String)
      → is_valid_cpf py v ≡ true
      → normalize_digits py v
        ≡ take 9 (normalize_digits py v)
          ++ (check_digit (falling_sum py (take 9 (normalize_digits py v)) 10)
              ++ check_digit (
                  falling_sum py
                    (take 9 (normalize_digits py v)
                      ++ check_digit (falling_sum py (take 9 (normalize_digits py v)) 10))
                    11))
  cpf_by_nine v h =
      let s = normalize_digits py v in
      let shape = cpf_shape v h in
      let first = check_digit-one (falling_sum py (take 9 s) 10) in
      let rest = sym (tail_digits s shape.0) ∙ shape.1 in
      let ten = take-suc 9 s first.0 (cpf_second py s) (
        rest
        ∙ (ap (λ z. z ++ cpf_second py s) first.1
            ∙ (cons-append first.0 "" (cpf_second py s)
                ∙ ap (λ (z : String). first.0 ∷ z) (nil-append (cpf_second py s))))) in
      sym (take-drop 9 s)
      ∙ (ap (λ z. take 9 s ++ z) rest
          ∙ ap (λ z. take 9 s ++ (cpf_first py s ++ check_digit (falling_sum py z 11)))
              (ten ∙ ap (λ z. take 9 s ++ z) (sym first.1)))

  -- Two valid CPFs with the same first nine digits have the same eleven: the check digits leave no
  -- freedom, whatever stands between the digits.
  pub cpf_determined :
      (u v : String)
      → is_valid_cpf py u ≡ true
      → is_valid_cpf py v ≡ true
      → take 9 (normalize_digits py u) ≡ take 9 (normalize_digits py v)
      → normalize_digits py u ≡ normalize_digits py v
  cpf_determined u v hu hv same =
      cpf_by_nine u hu
      ∙ (ap
            (λ b.
              b
              ++ (check_digit (falling_sum py b 10)
                  ++ check_digit (falling_sum py (b ++ check_digit (falling_sum py b 10)) 11)))
            same
          ∙ sym (cpf_by_nine v hv))
