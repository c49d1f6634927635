-- ===== src/Exec.antt =====
-- Exceptions as values, and methods that change an object and may raise. What was written before a
-- raise stays written, so the state comes back beside the error too.
use service_order_os_service.Prelude.{
  Bool, true, false, String, Option, none, some, arith, ◌≡◌, refl, if◌then◌else◌,
}

-- The exception classes that the program raises or catches, with their message; `other_error` is
-- any class that no handler of the program but `except Exception` names.
pub data Exn : Type 0 where
  value_error key_error other_error : String → Exn

pub data Result {ℓ} (A : Type ℓ) : Type ℓ where
  ok : A → Result A
  err : Exn → Result A

abbrev pub Exec : Type 0 → Type 0 → Type 0
Exec S A = S → Result A × S

module _ {S A : Type 0} where
  abbrev pub pure : A → Exec S A
  pure a s = (ok a, s)

  abbrev pub raise : Exn → Exec S A
  raise e s = (err e, s)

  abbrev pub lift : Result A → Exec S A
  lift r s = (r, s)

  abbrev pub gets : (S → A) → Exec S A
  gets f s = (ok (f s), s)

module _ {S : Type 0} where
  abbrev pub modify : (S → S) → Exec S (Unit {0})
  modify f s = (ok tt, f s)

  -- `if c: raise e`
  abbrev pub raise_if : Bool → Exn → Exec S (Unit {0})
  raise_if true e s = (err e, s)
  raise_if false e s = (ok tt, s)

-- The rest of a method, after a call that returned or raised.
abbrev pub after : {S A B : Type 0} → Result A → (A → Exec S B) → Exec S B
after (ok a) f s = f a s
after (err e) f s = (err e, s)

infixl 5 ◌>>=◌ ◌>>◌
abbrev pub ◌>>=◌ : {S A B : Type 0} → Exec S A → (A → Exec S B) → Exec S B
◌>>=◌ m f s = let (r, s') = m s in after r f s'

abbrev pub ◌>>◌ : {S A B : Type 0} → Exec S A → Exec S B → Exec S B
m >> k = m >>= λ _. k

-- `d[k]`: the value, or `KeyError`
abbrev pub or_raise {ℓ} : {A : Type ℓ} → Option A → Exn → Result A
or_raise none e = err e
or_raise (some a) e = ok a

-- The call returned.
abbrev pub is_ok {ℓ} : {A : Type ℓ} → Result A → Bool
is_ok (ok a) = true
is_ok (err e) = false

-- The call raised `ValueError`.
abbrev pub is_value_error {ℓ} : {A : Type ℓ} → Result A → Bool
is_value_error (err (value_error message)) = true
is_value_error _ = false

-- `try: m finally: cleanup`. An exception of the cleanup replaces the outcome.
abbrev pub then_outcome : {S A : Type 0} → Result (Unit {0}) → Result A → S → Result A × S
then_outcome (ok u) r s = (r, s)
then_outcome (err e) r s = (err e, s)

abbrev pub finally : {S A : Type 0} → Exec S A → Exec S (Unit {0}) → Exec S A
finally m cleanup s = let (r, s') = m s in let (c, s'') = cleanup s' in then_outcome c r s''

-- `try: m except Exception: handler`
abbrev pub on_error : {S A : Type 0} → Result A → Exec S A → Exec S A
on_error (ok a) h s = (ok a, s)
on_error (err e) h s = h s

abbrev pub rescue : {S A : Type 0} → Exec S A → Exec S A → Exec S A
rescue m h s = let (r, s') = m s in on_error r h s'

-- The rest of a function that may raise, after a call that returned or raised.
abbrev pub and_then {ℓ κ} : {A : Type ℓ} {B : Type κ} → Result A → (A → Result B) → Result B
and_then (ok a) f = f a
and_then (err x) f = err x

-- A guard that did not raise was not met.
pub guard_passed {ℓ} :
    {A : Type ℓ} (test : Bool) (x : Exn) (r : Result A) (a : A)
    → (if test then err x else r) ≡ ok a
    → (test ≡ false) × (r ≡ ok a)
guard_passed true x r a h = absurd (ground arith)
guard_passed false x r a h = (refl, h)

-- A sequence of two calls that returned: both returned, the second in the state of the first.
pub bind_returned :
    {S A B : Type 0} (m : Exec S A) (k : A → Exec S B) (b : B) (s t : S)
    → (m >>= k) s ≡ (ok b, t)
    → (a : A) × (r : S) × (m s ≡ (ok a, r)) × (k a r ≡ (ok b, t))
bind_returned {S} {A} {B} m k b s t h = go (m s) refl h
  where
    go :
        (x : Result A × S)
        → m s ≡ x
        → after x.0 k x.1 ≡ (ok b, t)
        → (a : A) × (r : S) × (m s ≡ (ok a, r)) × (k a r ≡ (ok b, t))
    go (ok a, r) e h = (a, r, e, h)
    go (err z, r) e h = absurd (ground (arith, h))
