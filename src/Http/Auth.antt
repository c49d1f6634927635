-- ===== src/Http/Auth.antt =====
-- src/presentation/dependencies/auth.py and src/infrastructure/security/jwt_service.py. The library
-- that signs and checks tokens (jose) is a parameter.
pub mod Laws
use service_order_os_service.Prelude.{
  Bool, true, false, not, ◌&&◌, ◌||◌, String, Option, none, some, [], ◌∷◌, ◌==◌, if◌then◌else◌,
}
use service_order_os_service.Prelude.Dict.{Dict, lookup}
use service_order_os_service.Json.{Json, null, bool, number, str, arr, obj, truthy}
use service_order_os_service.Domain.Event.{Instant}
use service_order_os_service.Domain.Party.{AuthenticatedPrincipal, is_admin, is_customer}
use service_order_os_service.Exec.{Exec, Result}
use service_order_os_service.Http.Reply.{Reply, returned, http_error}

-- The settings that name keys and issuers.
pub record JwtSettings : Type 0 where
  pub jwt_secret : String
  pub jwt_algorithm : String
  pub jwt_issuer : String
  pub customer_jwt_secret : String
  pub customer_jwt_algorithm : String
  pub customer_jwt_issuer : String

-- `jwt.decode(token, secret, algorithms=[algorithm], issuer=issuer)` at the time of the request, `none`
-- for `JWTError`, and `jwt.encode(payload, secret, algorithm=algorithm)`.
pub record Jwt : Type 0 where
  pub encode : Dict Json → String → String → String
  pub decode : String → String → String → String → Option (Dict Json)

-- `payload.get(key)` where it is there and true.
unfoldable pub claim : String → Dict Json → Option Json
claim key payload = elim (lookup key payload) [
  | none ↦ none
  | some v ↦ if truthy v then some v else none
]

-- `a or b`
abbrev pub or_else : Option Json → Option Json → Option Json
or_else none b = b
or_else (some v) b = some v

-- `value == text`, of a value that need not be a text
unfoldable pub is_text : Json → String → Bool
is_text (str t) r = t == r
is_text _ r = false

-- `payload.get("role") == role`
unfoldable pub has_role : String → Dict Json → Bool
has_role role payload = elim (lookup "role" payload) [ none ↦ false | some v ↦ is_text v role ]

module _ (show : Json → String) (jwt : Jwt) (settings : JwtSettings) where
  -- The principal of a customer's claims, and of an administrator's.
  unfoldable pub customer_of : Dict Json → Option Json → Option Json → Option AuthenticatedPrincipal
  customer_of payload (some customer_id) (some subject) = some (record {
    subject = show subject;
    role = "customer";
    customer_id = some (show customer_id);
    issuer = lookup "iss" payload;
    claims = payload;
  })
  customer_of payload _ _ = none

  unfoldable pub admin_of : Dict Json → Option Json → Option AuthenticatedPrincipal
  admin_of payload none = none
  admin_of payload (some subject) = some (record {
    subject = show subject;
    role = "admin";
    customer_id = none;
    issuer = lookup "iss" payload;
    claims = payload;
  })

  -- `_verify_customer_token`
  unfoldable pub verify_customer_token : String → Option AuthenticatedPrincipal
  unfolding claim customer_of
  verify_customer_token token =
      if settings.customer_jwt_secret == ""
      then none
      else elim (jwt.decode token settings.customer_jwt_secret settings.customer_jwt_algorithm
          settings.customer_jwt_issuer) [
            | none ↦ none
            | some payload ↦
                if has_role "customer" payload
                then customer_of payload (claim "customer_id" payload) (claim "sub" payload)
                else none
          ]

  -- `_verify_admin_token`
  unfoldable pub verify_admin_token : String → Option AuthenticatedPrincipal
  unfolding claim admin_of
  verify_admin_token token =
      elim (jwt.decode token settings.jwt_secret settings.jwt_algorithm settings.jwt_issuer) [
        | none ↦ none
        | some payload ↦
            if has_role "admin" payload
            then admin_of payload (or_else (claim "user_id" payload) (claim "sub" payload))
            else none
      ]

  -- `_resolve_principal`
  unfoldable pub resolve_principal : String → Option AuthenticatedPrincipal
  resolve_principal token = elim (verify_customer_token token) [
    | some principal ↦ some principal
    | none ↦ verify_admin_token token
  ]

  -- `get_current_principal`, on the scheme and the token of the header, if it was there
  unfoldable pub get_current_principal :
      (String → String) → Option (String × String) → Reply AuthenticatedPrincipal
  get_current_principal casefold none = http_error 401 "Authentication token is required"
  get_current_principal casefold (some (scheme, token)) =
      if casefold scheme == "bearer"
      then elim (resolve_principal token) [
        | none ↦ http_error 403 "Invalid or expired token"
        | some principal ↦ returned principal
      ]
      else http_error 401 "Authentication token is required"

-- `require_admin_principal` and `require_customer_or_admin_principal`
unfoldable pub require_admin_principal : AuthenticatedPrincipal → Reply AuthenticatedPrincipal
require_admin_principal p =
    if is_admin p then returned p else http_error 403 "Admin access required"

unfoldable pub require_customer_or_admin_principal :
    AuthenticatedPrincipal → Reply AuthenticatedPrincipal
require_customer_or_admin_principal p =
    if is_admin p || is_customer p then returned p else http_error 403 "Unsupported principal role"

-- `AdminJwtService`; `expire` is `utcnow()` and the minutes of the settings, as the library writes it.
unfoldable pub create_token : Jwt → JwtSettings → Json → String → String → String
create_token jwt settings expire user_id email =
    jwt.encode
      (("user_id", str user_id)
        ∷ ("email", str email)
        ∷ ("role", str "admin")
        ∷ ("iss", str settings.jwt_issuer)
        ∷ ("exp", expire)
        ∷ [])
      settings.jwt_secret settings.jwt_algorithm

unfoldable pub verify_token : Jwt → JwtSettings → String → Option (Dict Json)
verify_token jwt settings token =
    jwt.decode token settings.jwt_secret settings.jwt_algorithm settings.jwt_issuer

-- A route behind `Depends(require_admin_principal)`.
abbrev pub for_admin : {S A : Type 0} → AuthenticatedPrincipal → (S → Reply A × S) → S → Reply A × S
for_admin p route s = elim (require_admin_principal p) [
  | returned q ↦ route s
  | http_error code detail ↦ (http_error code detail, s)
  | Reply.crashed e ↦ (Reply.crashed e, s)
]

-- The outcome of a use case, with the `except` clauses of its route, and as its response.
abbrev pub shown : {A B : Type 0} → (A → B) → Reply A → Reply B
shown f (returned a) = returned (f a)
shown f (http_error code detail) = http_error code detail
shown f (Reply.crashed e) = Reply.crashed e

abbrev pub answer : {S A B : Type 0} → (Result A → Reply A) → (A → B) → Exec S A → S → Reply B × S
answer caught f m s = let (r, s') = m s in (shown f (caught r), s')
