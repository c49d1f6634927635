-- ===== src/Text/Search/Laws.antt =====
-- Texts that are cut at a character, and stripped.
use Prim.Native.String.{[], ◌∷◌, ◌++◌}
use Prim.Native.String.append
use service_order_os_service.Prelude.{
  Bool, true, false, ◌&&◌, String, Char, code, eqb_iff, arith, ◌≡◌, refl, ◌==◌, Bool-cases, inl,
  inr, if◌then◌else◌,
}
use service_order_os_service.Text.{is_space, lstrip, rstrip, strip}
use service_order_os_service.Text.Strip.{rstrip-cons}
use service_order_os_service.Text.Search.{same_char, has_char, before, behind}

pub nil-append : (t : String) → [] ++ t ≡ t
nil-append t = λ i. append.nil t i

pub cons-append : (c : Char) (s t : String) → (c ∷ s) ++ t ≡ c ∷ (s ++ t)
cons-append c s t = λ i. append.cons c s t i

-- No character of a text passes a test.
unfoldable pub lacks : (Char → Bool) → String → Bool
lacks p [] = true
lacks p (c ∷ s) = (if p c then false else true) && lacks p s

module _ (p : Char → Bool) where
  pub lacks-append : (s t : String) → lacks p s ≡ true → lacks p t ≡ true → lacks p (s ++ t) ≡ true
  unfolding lacks
  lacks-append [] t h k = rw (nil-append t) k
  lacks-append (c ∷ s) t h k = rw (cons-append c s t) (ground (arith, lacks-append s t, h, k))

  pub lacks-before : (d : Char) (s : String) → lacks p s ≡ true → lacks p (before d s) ≡ true
  unfolding lacks before
  lacks-before d [] h = refl
  lacks-before d (c ∷ s) h = elim (Bool-cases (same_char c d)) [
    | inl same ↦ rw same refl
    | inr other ↦ rw other (ground (arith, lacks-before d s, h))
  ]

  pub lacks-behind : (d : Char) (s : String) → lacks p s ≡ true → lacks p (behind d s) ≡ true
  unfolding lacks behind
  lacks-behind d [] h = refl
  lacks-behind d (c ∷ s) h = ground (arith, lacks-behind d s)

  lacks-lstrip : (s : String) → lacks p s ≡ true → lacks p (lstrip s) ≡ true
  unfolding lacks lstrip
  lacks-lstrip [] h = refl
  lacks-lstrip (c ∷ s) h = ground (arith, lacks-lstrip s)

  lacks-rstrip : (s : String) → lacks p s ≡ true → lacks p (rstrip s) ≡ true
  unfolding lacks
  lacks-rstrip [] h = unfold rstrip in refl
  lacks-rstrip (c ∷ s) h = elim (Bool-cases (rstrip s == "" && is_space c)) [
    | inl none_left ↦ rw (rstrip-cons c s, none_left) refl
    | inr some_left ↦ rw (rstrip-cons c s, some_left) (ground (arith, lacks-rstrip s, h))
  ]

  pub lacks-strip : (s : String) → lacks p s ≡ true → lacks p (strip s) ≡ true
  unfolding strip
  lacks-strip s h = lacks-rstrip (lstrip s) (lacks-lstrip s h)

module _ (d : Char) where
  -- The part before a character lacks it.
  pub lacks-before_self : (s : String) → lacks (λ c. same_char c d) (before d s) ≡ true
  unfolding lacks before
  lacks-before_self [] = refl
  lacks-before_self (c ∷ s) = elim (Bool-cases (same_char c d)) [
    | inl same ↦ rw same refl
    | inr other ↦ rw other (rw other (lacks-before_self s))
  ]

  pub before-append :
      (s t : String) → lacks (λ c. same_char c d) s ≡ true → before d (s ++ (d ∷ t)) ≡ s
  unfolding lacks before
  before-append [] t h = rw (nil-append (d ∷ t)) (ground arith)
  before-append (c ∷ s) t h = rw (cons-append c s (d ∷ t)) (ground (arith, before-append s t, h))

  pub behind-append :
      (s t : String) → lacks (λ c. same_char c d) s ≡ true → behind d (s ++ (d ∷ t)) ≡ t
  unfolding lacks behind
  behind-append [] t h = rw (nil-append (d ∷ t)) (ground arith)
  behind-append (c ∷ s) t h = rw (cons-append c s (d ∷ t)) (ground (arith, behind-append s t, h))

  pub has_char-append : (s t : String) → has_char d (s ++ (d ∷ t)) ≡ true
  unfolding has_char
  has_char-append [] t = rw (nil-append (d ∷ t)) (ground arith)
  has_char-append (c ∷ s) t = rw (cons-append c s (d ∷ t)) (ground (arith, has_char-append s t))

  same_char-is_space : (c : Char) → same_char c d ≡ true → is_space c ≡ is_space d
  unfolding is_space
  same_char-is_space c h = rw ((eqb_iff (code c) (code d)).0 h) refl

  -- Cutting at a character that is no space, and stripping on the left, can be swapped.
  pub lstrip-before : (s : String) → is_space d ≡ false → lstrip (before d s) ≡ before d (lstrip s)
  unfolding lstrip before
  lstrip-before [] h = refl
  lstrip-before (c ∷ s) h = elim (Bool-cases (same_char c d)) [
    | inl same ↦ rw (same_char-is_space c same, h, same) refl
    | inr other ↦ elim (Bool-cases (is_space c)) [
      | inl space ↦ rw (other, space) (lstrip-before s h)
      | inr black ↦ rw (black, other) (rw black refl)
    ]
  ]
