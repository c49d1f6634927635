-- ===== src/Http/Admin/Laws.antt =====
-- Registering and logging in over src/presentation/api/routes/auth_routes.py.
use Prim.Native.String.{count}
use service_order_os_service.Prelude.{
  true, ◌&&◌, ◌≤◌, leb, String, Option, none, some, [], ◌∷◌, arith, ◌≡◌, refl, ap, ◌∙◌, sym,
  Bool-cases, inl, inr,
}
use service_order_os_service.Prelude.Dict.{Dict, lookup}
use service_order_os_service.Exec.{Result, ok, err, value_error, key_error, other_error}
use service_order_os_service.Domain.Party.{AdminUser, Birth}
use service_order_os_service.App.PartyPorts.{PasswordHasher, AdminJwtService}
use service_order_os_service.App.Admins
use service_order_os_service.App.Admins.{Credentials}
use service_order_os_service.App.Admins.Laws.{login_after_register, registered_id}
use service_order_os_service.Memory.Admins.{memory_admins}
use service_order_os_service.Http.Reply.{Reply, returned, http_error}
use service_order_os_service.Http.Admin.{
  Body, BodyReader, checked, register_request, login_request, accepted, register, login,
  post_register, post_login, token,
}

-- A password is as long as registering demands.
pub record IsRegistered (py : BodyReader) (body : Body) (c : Credentials) : Type 0 where
  pub reads : py.email_of body.email ≡ some c.email
  pub same : c.password ≡ body.password
  pub long : 6 ≤ count body.password
  pub short : count body.password ≤ 128

returned_inj : {s t : Credentials} → Reply.returned s ≡ returned t → s ≡ t
returned_inj {s = s} h =
    ap
      (λ (r : Reply Credentials). elim r [
        | returned x ↦ x
        | http_error n d ↦ s
        | Reply.crashed x ↦ s
      ])
      h

module _ (py : BodyReader) (body : Body) where
  register_request-IsRegistered :
      (c : Credentials) → register_request py body ≡ returned c → IsRegistered py body c
  register_request-IsRegistered c h = go (py.email_of body.email) refl
    where
      go : (o : Option String) → py.email_of body.email ≡ o → IsRegistered py body c
      go none e = absurd (unfold register_request checked in ground (arith, e, h))
      go (some m) e =
          elim (Bool-cases (leb 6 (count body.password) && leb (count body.password) 128)) [
            | inr other ↦ absurd (unfold register_request checked in ground (arith, e, other, h))
            | inl fits ↦
                let same : record { email = m; password = body.password } ≡ c =
                  returned_inj (unfold register_request checked in ground (arith, e, fits, h)) in
                record {
                  reads = cc (e, same);
                  same = sym (ap (λ (x : Credentials). x.password) same);
                  long = ground (arith, fits);
                  short = ground (arith, fits);
                }
          ]

  login_request_after :
      (c : Credentials) → IsRegistered py body c → login_request py body ≡ returned c
  unfolding login_request checked
  login_request_after c h = rw (checked, h.reads) (ground (arith, h.long, h.short, h.same))

module _ (py : BodyReader) (casefold : String → String) (hasher : PasswordHasher)
    (jwt : AdminJwtService) where
  -- The accounts after a request to register.
  abbrev accounts_after : Body → Birth → Dict AdminUser → Dict AdminUser
  accounts_after body b d = (post_register (memory_admins casefold) hasher py body b d).1

  register_answer :
      (c : Credentials) (b : Birth) (d : Dict AdminUser) (id : String)
      → (register (memory_admins casefold) hasher c b d).0 ≡ returned id
      → (u : AdminUser) × ((Admins.register (memory_admins casefold) hasher c b d).0 ≡ ok u)
        × (u.user_id ≡ id)
  register_answer c b d id h = go (Admins.register (memory_admins casefold) hasher c b d).0 refl
    where
      go :
          (r : Result AdminUser)
          → (Admins.register (memory_admins casefold) hasher c b d).0 ≡ r
          → (u : AdminUser) × ((Admins.register (memory_admins casefold) hasher c b d).0 ≡ ok u)
            × (u.user_id ≡ id)
      go (ok u) e = (u, e, unfold register in ground (arith, e, h))
      go (err (value_error m)) e = absurd (unfold register in ground (arith, e, h))
      go (err (key_error m)) e = absurd (unfold register in ground (arith, e, h))
      go (err (other_error m)) e = absurd (unfold register in ground (arith, e, h))

  accepted_credentials :
      (body : Body) (b : Birth) (d : Dict AdminUser) (id : String)
      → (post_register (memory_admins casefold) hasher py body b d).0 ≡ returned id
      → (c : Credentials) × (register_request py body ≡ returned c)
  accepted_credentials body b d id h = go (register_request py body) refl
    where
      go :
          (r : Reply Credentials)
          → register_request py body ≡ r
          → (c : Credentials) × (register_request py body ≡ returned c)
      go (returned c) e = (c, e)
      go (http_error n m) e = absurd (unfold post_register in ground (arith, e, h))
      go (Reply.crashed x) e = absurd (unfold post_register in ground (arith, e, h))

  accounts_registered :
      (body : Body) (c : Credentials) (b : Birth) (d : Dict AdminUser)
      → register_request py body ≡ returned c
      → accounts_after body b d ≡ (Admins.register (memory_admins casefold) hasher c b d).1
  unfolding post_register register
  accounts_registered body c b d e =
      ap (λ r. (accepted r (λ k. register (memory_admins casefold) hasher k b) d).1) e

  login_answer :
      (c : Credentials) (d : Dict AdminUser) (t : String)
      → (Admins.login (memory_admins casefold) hasher jwt c d).0 ≡ ok (some t)
      → (login (memory_admins casefold) hasher jwt c d).0 ≡ returned t
  unfolding login
  login_answer c d t h = rw h refl

  posted :
      (body : Body) (c : Credentials) (d : Dict AdminUser)
      → IsRegistered py body c
      → (post_login (memory_admins casefold) hasher py jwt body d).0
        ≡ (login (memory_admins casefold) hasher jwt c d).0
  unfolding post_login
  posted body c d is =
      ap (λ r. (accepted r (login (memory_admins casefold) hasher jwt) d).0)
        (login_request_after py body c is)

  token_answer :
      (email password : String) (c : Credentials) (d : Dict AdminUser)
      → email ≡ c.email
      → password ≡ c.password
      → (token
          (memory_admins casefold)
          hasher
          jwt
          (("username", email) ∷ ("password", password) ∷ [])
          d).0
        ≡ (login (memory_admins casefold) hasher jwt c d).0
  unfolding token lookup
  token_answer email password c d e f =
      ap (λ k. (login (memory_admins casefold) hasher jwt k d).0)
        (λ i. record { email = e i; password = f i })

  -- Over the repository of administrators in memory, and where the hasher verifies what it hashed, an
  -- administrator whom `POST /auth/register` answered with an identifier has a password of 6 to 128
  -- characters, and gets the token of that identifier from `POST /auth/login` with the same body, and
  -- from `POST /auth/token` with the email that was read.
  pub registered_logs_in :
      ((password : String) → hasher.verify_password password (hasher.hash_password password) ≡ true)
      → (body : Body) (b : Birth) (d : Dict AdminUser) (id : String)
      → (post_register (memory_admins casefold) hasher py body b d).0 ≡ returned id
      → (email : String) × (py.email_of body.email ≡ some email)
        × (6 ≤ count body.password)
        × (count body.password ≤ 128)
        × ((post_login (memory_admins casefold) hasher py jwt body (accounts_after body b d)).0
            ≡ returned (jwt.create_token id email))
        × ((token
              (memory_admins casefold)
              hasher
              jwt
              (("username", email) ∷ ("password", body.password) ∷ [])
              (accounts_after body b d)).0
            ≡ returned (jwt.create_token id email))
  registered_logs_in verifies body b d id h =
      let (c, e) = accepted_credentials body b d id h in
      let is = register_request-IsRegistered py body c e in
      let h' : (register (memory_admins casefold) hasher c b d).0 ≡ returned id =
        unfold post_register in rw e at h in
      let (u, saved, named) = register_answer c b d id h' in
      let accounts = accounts_registered body c b d e in
      let logged : (login (memory_admins casefold) hasher jwt c (accounts_after body b d)).0
          ≡ returned (jwt.create_token id c.email) =
        ap (λ a. (login (memory_admins casefold) hasher jwt c a).0) accounts
        ∙ login_answer c _ (jwt.create_token b.id c.email)
            (login_after_register casefold hasher jwt c b d u verifies saved)
        ∙ ap (λ k. returned (jwt.create_token k c.email))
            (sym (registered_id casefold hasher c b d u saved) ∙ named) in
      (
        c.email,
        is.reads,
        is.long,
        is.short,
        posted body c (accounts_after body b d) is ∙ logged,
        token_answer c.email body.password c (accounts_after body b d) refl (sym is.same) ∙ logged,
      )
