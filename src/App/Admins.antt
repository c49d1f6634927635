-- ===== src/App/Admins.antt =====
-- The use cases for administrators, src/application/use_cases.py.
pub mod Laws
use service_order_os_service.Prelude.{Bool, true, false, String, Option, none, some, is_some}
use service_order_os_service.Exec.{Exec, Result, ok, err, value_error, pure, raise_if, ◌>>=◌, ◌>>◌}
use service_order_os_service.Domain.Party.{AdminUser, Birth}
use service_order_os_service.App.PartyPorts.{AdminUserPort, PasswordHasher, AdminJwtService}
use service_order_os_service.App.Customers.{asks}

-- `RegisterAdminUserCommand` and `LoginAdminUserCommand`, which have the same fields
pub record Credentials : Type 0 where
  pub email : String
  pub password : String

module _ {S : Type 0} (port : AdminUserPort S) (hasher : PasswordHasher) where
  abbrev pub new_admin : Credentials → Birth → AdminUser
  new_admin cmd b = record {
    email = cmd.email;
    password_hash = hasher.hash_password cmd.password;
    user_id = b.id;
    created_at = b.created_at;
  }

  -- `RegisterAdminUserUseCase.execute`
  unfoldable pub register : Credentials → Birth → Exec S AdminUser
  register cmd b = do
    existing ← asks (port.find_by_email cmd.email)
    raise_if (is_some existing) (value_error "Email already registered")
    port.save (new_admin cmd b)
    pure (new_admin cmd b)

  -- The token of a user that was found, if the password fits.
  unfoldable pub token_for : AdminJwtService → String → Option AdminUser → Option String
  token_for jwt password none = none
  token_for jwt password (some user) = elim (hasher.verify_password password user.password_hash) [
    | true ↦ some (jwt.create_token user.user_id user.email)
    | false ↦ none
  ]

  -- `LoginAdminUserUseCase.execute`
  unfoldable pub login : AdminJwtService → Credentials → Exec S (Option String)
  login jwt cmd = do
    user ← asks (port.find_by_email cmd.email)
    pure (token_for jwt cmd.password user)
