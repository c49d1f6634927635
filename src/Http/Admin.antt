-- ===== src/Http/Admin.antt =====
-- src/presentation/api/routes/auth_routes.py
pub mod Laws
use Prim.Native.String.{count}
use service_order_os_service.Prelude.{
  ℕ, ◌&&◌, leb, String, Option, none, some, [], ◌∷◌, if◌then◌else◌,
}
use service_order_os_service.Prelude.Dict.{Dict, lookup}
use service_order_os_service.Exec.{Result, ok, err}
use service_order_os_service.Json.{Json, null, str}
use service_order_os_service.Domain.Party.{Birth, AuthenticatedPrincipal}
use service_order_os_service.App.PartyPorts.{AdminUserPort, PasswordHasher, AdminJwtService}
use service_order_os_service.App.Admins
use service_order_os_service.App.Admins.{Credentials}
use service_order_os_service.Http.Reply.{Reply, returned, http_error, catching_value}
use service_order_os_service.Http.Auth.{answer}

module _ {S : Type 0} (port : AdminUserPort S) (hasher : PasswordHasher) where
  -- `register`, whose response is the new user's identifier
  unfoldable pub register : Credentials → Birth → S → Reply String × S
  register body b =
      answer (λ r. catching_value 409 r) (λ user. user.user_id) (Admins.register port hasher body b)

  -- What `_login` makes of the use case's outcome.
  abbrev pub token_reply : Result (Option String) → Reply String
  token_reply (ok (some token)) = returned token
  token_reply (ok none) = http_error 401 "Invalid credentials"
  token_reply (err e) = Reply.crashed e

  -- `_login`, behind `login` and `token`
  unfoldable pub login : AdminJwtService → Credentials → S → Reply String × S
  login jwt body s = let (r, s') = Admins.login port hasher jwt body s in (token_reply r, s')

-- The body of a request to register or to log in, before its fields are checked.
pub record Body : Type 0 where
  pub email : String
  pub password : String

-- What pydantic does with such a body: the email that it reads from a text, and its account of what is wrong.
pub record BodyReader : Type 0 where
  pub email_of : String → Option String
  pub errors : Body → String

-- A body of which the email is read, and whose password has `low` to `high` characters.
unfoldable pub checked : BodyReader → (low high : ℕ) → Body → Reply Credentials
checked py low high body = elim (py.email_of body.email) [
  | none ↦ http_error 422 (py.errors body)
  | some email ↦
      if leb low (count body.password) && leb (count body.password) high
      then returned (record { email = email; password = body.password })
      else http_error 422 (py.errors body)
]

-- `RegisterRequest`
unfoldable pub register_request : BodyReader → Body → Reply Credentials
unfolding checked
register_request py body = checked py 6 128 body

-- `LoginRequest`
unfoldable pub login_request : BodyReader → Body → Reply Credentials
unfolding checked
login_request py body = checked py 1 128 body

-- A route runs on the credentials of a body that was accepted.
abbrev pub accepted :
    {S B : Type 0} → Reply Credentials → (Credentials → S → Reply B × S) → S → Reply B × S
accepted (returned c) f s = f c s
accepted (http_error code detail) f s = (http_error code detail, s)
accepted (Reply.crashed e) f s = (Reply.crashed e, s)

-- `form.get(key, "")`
abbrev pub form_text : String → Dict String → String
form_text key form = elim (lookup key form) [ none ↦ "" | some t ↦ t ]

module _ {S : Type 0} (port : AdminUserPort S) (hasher : PasswordHasher) where
  -- `POST /auth/register`
  unfoldable pub post_register : BodyReader → Body → Birth → S → Reply String × S
  unfolding register_request register
  post_register py body b = accepted (register_request py body) λ c. register port hasher c b

  -- `POST /auth/login`
  unfoldable pub post_login : BodyReader → AdminJwtService → Body → S → Reply String × S
  unfolding login_request login
  post_login py jwt body = accepted (login_request py body) (login port hasher jwt)

  -- `token`, on the fields of the form
  unfoldable pub token : AdminJwtService → Dict String → S → Reply String × S
  unfolding login
  token jwt form =
      login port hasher jwt
        (record { email = form_text "username" form; password = form_text "password" form })

-- `None` as null
abbrev optional : Option String → Json
optional none = null
optional (some t) = str t

-- `validate_token`
unfoldable pub validate_token : (Json → String) → AuthenticatedPrincipal → Dict Json
validate_token show p =
    ("subject", str p.subject)
    ∷ ("role", str p.role)
    ∷ ("customer_id", optional p.customer_id)
    ∷ ("issuer", (elim p.issuer [ none ↦ null | some v ↦ v ]))
    ∷ ("email", (elim (lookup "email" p.claims) [ none ↦ null | some v ↦ str (show v) ]))
    ∷ []
