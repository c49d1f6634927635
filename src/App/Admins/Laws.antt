-- ===== src/App/Admins/Laws.antt =====
-- Registration and login of administrators, over the repository in memory.
use service_order_os_service.Prelude.{
  Bool, true, String, Option, none, some, arith, ◌≡◌, eq_iff, eq_refl, Option-cases, inl, inr, [],
  ◌∷◌,
}
use service_order_os_service.Prelude.Dict.{Dict, insert, values}
use service_order_os_service.Prelude.Unique.{find, find_misses, IsUnique, insert-IsUnique}
use service_order_os_service.Exec.{ok}
use service_order_os_service.Domain.Party.{AdminUser, Birth}
use service_order_os_service.Memory.Admins
use service_order_os_service.Memory.Admins.{memory_admins, has_email, find_by_email}
use service_order_os_service.App.PartyPorts.{PasswordHasher, AdminJwtService}
use service_order_os_service.App.Admins.{Credentials, new_admin, register, token_for, login}

module _ (casefold : String → String) (hasher : PasswordHasher) where
  abbrev pub email_tag : AdminUser → Option String
  email_tag u = some (casefold u.email)

  -- In the repository of administrators in memory, where emails are unique also when case is ignored,
  -- registration keeps them so, whether the call returns or raises.
  pub register-IsUnique :
      (cmd : Credentials) (b : Birth) (d : Dict AdminUser)
      → IsUnique email_tag d
      → IsUnique email_tag (register (memory_admins casefold) hasher cmd b d).1
  unfolding register Admins.save find_by_email
  register-IsUnique cmd b d u =
      elim (Option-cases (find (has_email casefold cmd.email) (values d))) [
        | inr (c, e) ↦ rw e u
        | inl absent ↦ rw absent (
            insert-IsUnique email_tag b.id _ d u (λ j o t e p q. absurd (
              ground (
                arith,
                find_misses (has_email casefold cmd.email) d j o absent e,
                eq_iff (casefold o.email) (casefold cmd.email),
              ))))
      ]

  -- Inserting a value that passes the test, after none did, makes it the one that is found.
  find-insert :
      (p : AdminUser → Bool) (k : String) (v : AdminUser) (d : Dict AdminUser)
      → find p (values d) ≡ none
      → p v ≡ true
      → find p (values (insert k v d)) ≡ some v
  unfolding find values insert
  find-insert p k v [] h e = rw e
  find-insert p k v ((j, w) ∷ d) h e = ground (arith, find-insert p k v d)

  -- Over the repository in memory, an administrator who has just registered can log in with the same
  -- email and password, and gets the token of the new account.
  pub login_after_register :
      (jwt : AdminJwtService) (cmd : Credentials) (b : Birth) (d : Dict AdminUser) (u : AdminUser)
      → ((password : String)
          → hasher.verify_password password (hasher.hash_password password) ≡ true)
      → (register (memory_admins casefold) hasher cmd b d).0 ≡ ok u
      → (login
          (memory_admins casefold)
          hasher
          jwt
          cmd
          (register (memory_admins casefold) hasher cmd b d).1).0
        ≡ ok (some (jwt.create_token b.id cmd.email))
  unfolding register login token_for Admins.save find_by_email
  login_after_register jwt cmd b d u verifies h =
      elim (Option-cases (find (has_email casefold cmd.email) (values d))) [
        | inr (c, e) ↦ ground arith
        | inl absent ↦ ground (
          arith,
          verifies cmd.password,
          eq_refl (casefold cmd.email),
          find-insert (has_email casefold cmd.email) b.id
              (new_admin (memory_admins casefold) hasher cmd b) d absent,
        )
      ]

  pub registered_id :
      (cmd : Credentials) (b : Birth) (d : Dict AdminUser) (u : AdminUser)
      → (register (memory_admins casefold) hasher cmd b d).0 ≡ ok u
      → u.user_id ≡ b.id
  unfolding register Admins.save find_by_email
  registered_id cmd b d u h = elim (Option-cases (find (has_email casefold cmd.email) (values d))) [
    | inr (c, e) ↦ absurd (ground (arith, e, h))
    | inl absent ↦ ground (arith, absent, h)
  ]
