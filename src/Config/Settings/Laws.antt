-- ===== src/Config/Settings/Laws.antt =====
-- Secrets and lists of src/infrastructure/config/settings.py.
use Prim.Native.String.{String, ◌++◌}
use service_order_os_service.Prelude.{
  Option, none, some, List, [], ◌∷◌, arith, ◌≡◌, refl, subst, ap, sym, ◌∙◌, ◌==◌, eq_iff,
  Bool-cases, inl, inr,
}
use service_order_os_service.Exec.{Result, ok, err, and_then}
use service_order_os_service.Json.{Items, nil, cons, str}
use service_order_os_service.Text.{strip}
use service_order_os_service.Text.Strip.{strip_idem}
use service_order_os_service.Text.Search.{clean}
use service_order_os_service.Config.Settings.{
  SettingsReader, Settings, shown_items, file_secret, resolve_secret, issuer_of, filled,
  model_post_init,
}

ok_inj : {s t : Settings} → ok s ≡ ok t → s ≡ t
ok_inj {s = s} h = ap (λ (r : Result Settings). elim r [ ok x ↦ x | err x ↦ s ]) h

-- The array of some texts.
abbrev pub texts : List String → Items
texts [] = nil
texts (t ∷ ts) = cons (str t) (texts ts)

module _ (py : SettingsReader) where
  -- A secret that was resolved is what its own text resolves to.
  resolved_again :
      (raw secret field_name : String) (path : Option String)
      → resolve_secret py raw path field_name ≡ ok secret
      → resolve_secret py secret path field_name ≡ ok secret
  unfolding resolve_secret file_secret
  resolved_again raw secret field_name none h = ground (arith, strip_idem raw)
  resolved_again raw secret field_name (some path) h = go (py.read_text path) refl
    where
      go :
          (r : Result String)
          → py.read_text path ≡ r
          → resolve_secret py secret (some path) field_name ≡ ok secret
      go (err x) e = ground (arith, strip_idem raw, eq_iff (strip raw) "")
      go (ok content) e = ground (
        arith,
        strip_idem raw,
        strip_idem content,
        eq_iff (strip raw) "",
        eq_iff (strip content) "",
      )

  issuer_again :
      (issuer environment : String)
      → issuer_of py (issuer_of py issuer environment) environment ≡ issuer_of py issuer environment
  issuer_again issuer environment = elim (Bool-cases (issuer == "")) [
    | inl missing ↦
        rw missing (ground (arith, eq_iff ("service-order-os-service/" ++ environment) ""))
    | inr given ↦ rw given (rw given refl)
  ]

  module _ (s : Settings) where
    abbrev admin_secret : Result String
    admin_secret = resolve_secret py s.jwt_secret s.jwt_secret_file "JWT_SECRET"

    abbrev customer_secret : Result String
    customer_secret =
        resolve_secret py s.customer_jwt_secret s.customer_jwt_secret_file "CUSTOMER_JWT_SECRET"

    post_init_lem :
        (a b : Result String)
        → admin_secret ≡ a
        → customer_secret ≡ b
        → model_post_init py s ≡ and_then a λ x. and_then b λ y. ok (filled py s x y)
    post_init_lem a b e f =
        subst (λ z. model_post_init py s ≡ and_then z λ x. and_then b λ y. ok (filled py s x y)) e
          (subst
            (λ z.
              model_post_init py s
              ≡ and_then admin_secret λ x. and_then z λ y. ok (filled py s x y))
            f opened)
      where
        opened :
            model_post_init py s
            ≡ and_then admin_secret λ x. and_then customer_secret λ y. ok (filled py s x y)
        opened = unfold model_post_init in refl

  filled_again :
      (s : Settings) (a b : String)
      → resolve_secret py a s.jwt_secret_file "JWT_SECRET" ≡ ok a
      → resolve_secret py b s.customer_jwt_secret_file "CUSTOMER_JWT_SECRET" ≡ ok b
      → model_post_init py (filled py s a b) ≡ ok (filled py s a b)
  filled_again s a b e f =
      post_init_lem (filled py s a b) (ok a) (ok b) e f
      ∙ ap (λ i. ok (record (filled py s a b) { jwt_issuer = i }))
          (issuer_again s.jwt_issuer s.environment)

  -- Settings that were completed stay as they are when they are completed again: secrets and issuer are
  -- resolved once and for all, whether they came from the environment or from files.
  pub model_post_init_idem :
      (s t : Settings) → model_post_init py s ≡ ok t → model_post_init py t ≡ ok t
  model_post_init_idem s t h =
      go (resolve_secret py s.jwt_secret s.jwt_secret_file "JWT_SECRET")
        (resolve_secret py s.customer_jwt_secret s.customer_jwt_secret_file "CUSTOMER_JWT_SECRET")
        refl refl
    where
      again :
          (a b : String)
          → admin_secret s ≡ ok a
          → customer_secret s ≡ ok b
          → ok (filled py s a b) ≡ ok t
          → model_post_init py t ≡ ok t
      again a b e f same =
          subst (λ z. model_post_init py z ≡ ok z) (ok_inj same)
            (filled_again s a b (resolved_again s.jwt_secret a "JWT_SECRET" s.jwt_secret_file e) (
              resolved_again s.customer_jwt_secret b "CUSTOMER_JWT_SECRET"
                s.customer_jwt_secret_file f))

      go :
          (a b : Result String)
          → resolve_secret py s.jwt_secret s.jwt_secret_file "JWT_SECRET" ≡ a
          → resolve_secret py s.customer_jwt_secret s.customer_jwt_secret_file "CUSTOMER_JWT_SECRET"
            ≡ b
          → model_post_init py t ≡ ok t
      go (err x) b e f = absurd (ground (arith, post_init_lem s (err x) b e f))
      go (ok a) (err x) e f = absurd (ground (arith, post_init_lem s (ok a) (err x) e f))
      go (ok a) (ok b) e f =
          subst (λ z. z ≡ ok t → model_post_init py t ≡ ok t)
            (sym (post_init_lem s (ok a) (ok b) e f)) (again a b e f) h

  -- The texts of a list are read back from their JSON array.
  pub shown_texts :
      ((t : String) → py.show (str t) ≡ t) → (ts : List String) → shown_items py (texts ts) ≡ ts
  unfolding shown_items
  shown_texts shows [] = refl
  shown_texts shows (t ∷ ts) = cc (shows t, shown_texts shows ts)

pub clean_idem : (ts : List String) → clean (clean ts) ≡ clean ts
unfolding clean
clean_idem [] = refl
clean_idem (t ∷ ts) = ground (arith, clean_idem ts, strip_idem t)
