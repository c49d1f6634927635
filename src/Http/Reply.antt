-- ===== src/Http/Reply.antt =====
-- What a route answers, and how it turns exceptions into errors of HTTP.
use service_order_os_service.Prelude.{ℕ, String}
use service_order_os_service.Exec.{Result, Exn, ok, err, value_error, key_error, other_error}

-- A value, an `HTTPException` with its status and detail, or an exception that no route catches (500).
pub data Reply {ℓ} (A : Type ℓ) : Type ℓ where
  returned : A → Reply A
  http_error : ℕ → String → Reply A
  crashed : Exn → Reply A

infixl 5 ◌>>=◌
abbrev pub ◌>>=◌ {ℓ κ} : {A : Type ℓ} {B : Type κ} → Reply A → (A → Reply B) → Reply B
returned a >>= f = f a
http_error code detail >>= f = http_error code detail
crashed e >>= f = crashed e

-- `repr` writes the text of a `KeyError`, as `str` of that exception does.
module _ (repr : String → String) where
  -- `except KeyError` gives 404, `except ValueError` the status of the route.
  abbrev pub catching {ℓ} : {A : Type ℓ} → ℕ → Result A → Reply A
  catching status (ok a) = returned a
  catching status (err (key_error message)) = http_error 404 (repr message)
  catching status (err (value_error message)) = http_error status message
  catching status (err (other_error message)) = crashed (other_error message)

  -- The route catches only `KeyError`, or only `ValueError`.
  abbrev pub catching_key {ℓ} : {A : Type ℓ} → Result A → Reply A
  catching_key (ok a) = returned a
  catching_key (err (key_error message)) = http_error 404 (repr message)
  catching_key (err e) = crashed e

abbrev pub catching_value {ℓ} : {A : Type ℓ} → ℕ → Result A → Reply A
catching_value status (ok a) = returned a
catching_value status (err (value_error message)) = http_error status message
catching_value status (err e) = crashed e

-- The route catches nothing.
abbrev pub uncaught {ℓ} : {A : Type ℓ} → Result A → Reply A
uncaught (ok a) = returned a
uncaught (err e) = crashed e
