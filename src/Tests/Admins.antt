-- ===== src/Tests/Admins.antt =====
-- Administrators, with the routes that register them and log them in.
use service_order_os_service.Prelude.{
  if◌then◌else◌, ◌≤◌, String, none, some, [], ◌∷◌, arith, ◌≡◌, refl, eq_refl, ◌==◌,
}
use service_order_os_service.Prelude.Dict.{lookup, values}
use service_order_os_service.Prelude.Unique.{IsUnique, find}
use service_order_os_service.Domain.Party.{Birth}
use service_order_os_service.App.PartyPorts.{PasswordHasher, AdminJwtService}
use service_order_os_service.App.Admins.{Credentials, register}
use Prim.Native.String.{count}
use service_order_os_service.Http.Reply.{returned}
use service_order_os_service.Http.Admin as Http
use service_order_os_service.Http.Admin.{
  Body, BodyReader, checked, register_request, post_register, post_login, token,
}
use service_order_os_service.Http.Admin.Laws.{registered_logs_in}
use service_order_os_service.App.Admins.Laws.{email_tag, register-IsUnique}
use service_order_os_service.Memory.Admins
use service_order_os_service.Memory.Admins.{memory_admins}
use service_order_os_service.Tests.Data.{same_case}

abbrev birth : Birth
birth = record { id = "c-2"; created_at = 5; updated_at = 5 }

-- A hasher that keeps the password, and a service whose tokens are the identifiers.
abbrev hasher : PasswordHasher
hasher = record { hash_password = λ p. p; verify_password = λ p h. p == h }

abbrev tokens : AdminJwtService
tokens = record { create_token = λ id email. id; verify_token = λ t. none }

abbrev root_login : Credentials
root_login = record { email = "root@example.com"; password = "secret" }

no_admins-IsUnique : IsUnique (email_tag same_case hasher) []
unfolding lookup
no_admins-IsUnique = record { unique = λ i j a b t p q r s. ground arith }

register-IsUnique_example :
    IsUnique
      (email_tag same_case hasher)
      (register (memory_admins same_case) hasher root_login birth []).1
register-IsUnique_example =
    register-IsUnique same_case hasher root_login birth [] no_admins-IsUnique

abbrev body_reader : BodyReader
body_reader = record {
  email_of = λ t. if t == "" then none else some t;
  errors = λ body. "Unprocessable";
}

abbrev root_body : Body
root_body = record { email = "root@example.com"; password = "secret" }

registered_logs_in_example :
    (email : String) × (body_reader.email_of root_body.email ≡ some email)
    × (6 ≤ count root_body.password)
    × (count root_body.password ≤ 128)
    × ((post_login
          (memory_admins same_case)
          hasher
          body_reader
          tokens
          root_body
          (post_register (memory_admins same_case) hasher body_reader root_body birth []).1).0
        ≡ returned "c-2")
    × ((token
          (memory_admins same_case)
          hasher
          tokens
          (("username", email) ∷ ("password", "secret") ∷ [])
          (post_register (memory_admins same_case) hasher body_reader root_body birth []).1).0
        ≡ returned "c-2")
unfolding Http.register post_register register_request checked register Admins.find_by_email find
    values Admins.save
registered_logs_in_example =
    registered_logs_in body_reader same_case hasher tokens eq_refl root_body birth [] "c-2" refl
