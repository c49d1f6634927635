-- ===== src/Http/Auth/Laws.antt =====
-- The principals of src/presentation/dependencies/auth.py, and the tokens of
-- src/infrastructure/security/jwt_service.py.
use service_order_os_service.Prelude.{
  true, false, String, Option, none, some, is_some, arith, ◌≡◌, refl, ◌⊎◌, inl, inr, ◌==◌, eq_iff,
  [], ◌∷◌, Option-cases,
}
use service_order_os_service.Prelude.Dict.{Dict, lookup}
use service_order_os_service.Json.{Json, str, truthy}
use service_order_os_service.Domain.Party.{AuthenticatedPrincipal}
use service_order_os_service.Http.Reply.{returned}
use service_order_os_service.Http.Auth.{
  Jwt, JwtSettings, has_role, is_text, admin_of, verify_customer_token, verify_admin_token,
  resolve_principal, create_token, require_customer_or_admin_principal, require_admin_principal,
}

module _ (show : Json → String) (jwt : Jwt) (settings : JwtSettings) (token : String) where
  customer-role :
      (p : AuthenticatedPrincipal)
      → verify_customer_token show jwt settings token ≡ some p
      → (p.role ≡ "customer") × (is_some p.customer_id ≡ true)
  unfolding verify_customer_token
  customer-role p h = ground arith

  admin-role :
      (p : AuthenticatedPrincipal)
      → verify_admin_token show jwt settings token ≡ some p
      → (p.role ≡ "admin") × (p.customer_id ≡ none)
  unfolding verify_admin_token
  admin-role p h = ground arith

  -- A token makes its bearer a customer with an identifier, or an administrator with none, and no
  -- third role; so the dependency that asks for one of the two never refuses an authenticated caller.
  pub resolve_principal-role :
      (p : AuthenticatedPrincipal)
      → resolve_principal show jwt settings token ≡ some p
      → ((p.role ≡ "customer") × (is_some p.customer_id ≡ true)
          ⊎ (p.role ≡ "admin") × (p.customer_id ≡ none))
        × (require_customer_or_admin_principal p ≡ returned p)
  unfolding resolve_principal require_customer_or_admin_principal
  resolve_principal-role p h = elim (Option-cases (verify_customer_token show jwt settings token)) [
    | inr (q, e) ↦
        let role = customer-role q e in
        (inl (ground arith, ground arith), ground (arith, eq_iff p.role "customer"))
    | inl other ↦
        let role = admin-role p (ground arith) in
        (inr (ground arith, ground arith), ground (arith, eq_iff p.role "admin"))
  ]

  admin_claims :
      (p : AuthenticatedPrincipal) (r : Option (Dict Json))
      → jwt.decode token settings.jwt_secret settings.jwt_algorithm settings.jwt_issuer ≡ r
      → verify_admin_token show jwt settings token ≡ some p
      → (payload : Dict Json) × (r ≡ some payload) × (has_role "admin" payload ≡ true)
  unfolding verify_admin_token
  admin_claims p none e h = absurd (ground arith)
  admin_claims p (some payload) e h = (payload, refl, ground arith)

  -- Only a token that the library accepts under the service's own key and issuer, with the role "admin"
  -- in its claims, makes its bearer an administrator.
  pub admin_needs_own_key :
      (p : AuthenticatedPrincipal)
      → resolve_principal show jwt settings token ≡ some p
      → require_admin_principal p ≡ returned p
      → (payload : Dict Json) × (jwt.decode token settings.jwt_secret settings.jwt_algorithm
            settings.jwt_issuer
          ≡ some payload)
        × (has_role "admin" payload ≡ true)
  unfolding resolve_principal require_admin_principal
  admin_needs_own_key p h a = elim (Option-cases (verify_customer_token show jwt settings token)) [
    | inr (q, e) ↦ absurd (
        let role = customer-role q e in
        ground (arith, eq_iff p.role "admin", eq_iff "customer" "admin"))
    | inl other ↦
        let found =
          admin_claims p
            (jwt.decode token settings.jwt_secret settings.jwt_algorithm settings.jwt_issuer) refl
            (ground arith) in
        (found.0, found.1, found.2)
  ]

module _ (show : Json → String) (jwt : Jwt) (settings : JwtSettings) where
  -- The claims of a token of the service.
  abbrev pub token_claims : Json → String → String → Dict Json
  token_claims expire user_id email =
      ("user_id", str user_id)
      ∷ ("email", str email)
      ∷ ("role", str "admin")
      ∷ ("iss", str settings.jwt_issuer)
      ∷ ("exp", expire)
      ∷ []

  -- Claims with the role "admin" make no customer.
  no_customer :
      (token : String) (claims : Dict Json) (r : Option (Dict Json))
      → has_role "customer" claims ≡ false
      → jwt.decode token settings.customer_jwt_secret settings.customer_jwt_algorithm
          settings.customer_jwt_issuer
        ≡ r
      → ((c : Dict Json) → r ≡ some c → c ≡ claims)
      → verify_customer_token show jwt settings token ≡ none
  unfolding verify_customer_token
  no_customer token claims none h e others = ground arith
  no_customer token claims (some c) h e others = ground (arith, others c refl)

  own_admin :
      (token : String) (expire : Json) (user_id email : String)
      → jwt.decode token settings.jwt_secret settings.jwt_algorithm settings.jwt_issuer
        ≡ some (token_claims expire user_id email)
      → (user_id == "") ≡ false
      → verify_admin_token show jwt settings token
        ≡ admin_of show jwt settings (token_claims expire user_id email) (some (str user_id))
  unfolding verify_admin_token has_role is_text lookup truthy
  own_admin token expire user_id email back named = ground arith

  -- A token that the service creates makes its bearer an administrator under the user's identifier: where
  -- the library gives its claims back under the service's key, and under another key gives those claims
  -- or none, the identifier is not empty, and `str` leaves a text as it is.
  pub created_token_resolves :
      (expire : Json) (user_id email : String)
      → ((t : String) → show (str t) ≡ t)
      → jwt.decode
          (create_token jwt settings expire user_id email)
          settings.jwt_secret
          settings.jwt_algorithm
          settings.jwt_issuer
        ≡ some (token_claims expire user_id email)
      → ((key algorithm issuer : String) (claims : Dict Json)
          → jwt.decode (create_token jwt settings expire user_id email) key algorithm issuer
            ≡ some claims
          → claims ≡ token_claims expire user_id email)
      → (user_id == "") ≡ false
      → (p : AuthenticatedPrincipal) × (resolve_principal show jwt settings
            (create_token jwt settings expire user_id email)
          ≡ some p)
        × (p.role ≡ "admin")
        × (p.subject ≡ user_id)
  unfolding resolve_principal admin_of
  created_token_resolves expire user_id email shows back others named =
      let token = create_token jwt settings expire user_id email in
      let claims = token_claims expire user_id email in
      (
        record {
          subject = show (str user_id);
          role = "admin";
          customer_id = none;
          issuer = lookup "iss" claims;
          claims = claims;
        },
        rw
            (
              no_customer token claims _ (unfold has_role is_text lookup in refl) refl
                  (others _ _ _),
              resolve_principal,
            )
            (own_admin token expire user_id email back named),
        refl,
        shows user_id,
      )
