-- ===== src/Config/Urls/Laws.antt =====
-- What `validate_runtime_database_url` of src/infrastructure/database/url_utils.py accepts.
use Prim.Native.String.{String}
use service_order_os_service.Prelude.{false, ◌||◌, some, any, arith, ◌≡◌, refl, ◌==◌, eq_iff, subst}
use service_order_os_service.Exec.{Result, ok, err, guard_passed}
use service_order_os_service.Text.{strip}
use service_order_os_service.Config.Urls.{
  UrlReader, Target, placeholder_hosts, misses, check_target, describe_database_target,
  validate_runtime_database_url,
}

module _ (py : UrlReader) where
  -- A target that may be used: its parts are there, its host is no placeholder, and its database and user
  -- are those that are expected.
  abbrev pub IsUsable : String → String → Target → Type 0
  IsUsable database username t =
      ((t.host == "") ≡ false)
      × (any (λ h. h == py.lower (strip t.host)) placeholder_hosts ≡ false)
      × (t.database ≡ database)
      × (t.username ≡ username)

  ok_inj : {t t' : Target} → ok t ≡ ok t' → t ≡ t'
  ok_inj h = ground arith

  met :
      (expected t : String)
      → (expected == "") ≡ false
      → misses py (some expected) t ≡ false
      → t ≡ expected
  met expected t named h = ground (arith, eq_iff t expected)

  accepted :
      (database username : String) (t t' : Target)
      → (database == "") ≡ false
      → (username == "") ≡ false
      → check_target py (some database) (some username) t ≡ ok t'
      → (t ≡ t') × IsUsable database username t
  unfolding check_target
  accepted database username t t' d u h =
      let (host, h1) = guard_passed (t.host == "") _ _ t' h in
      let (user, h2) = guard_passed (t.username == "") _ _ t' h1 in
      let (named, h3) = guard_passed (t.database == "" || t.database == "<unknown>") _ _ t' h2 in
      let (real, h4) =
        guard_passed (any (λ k. k == py.lower (strip t.host)) placeholder_hosts) _ _ t' h3 in
      let (base, h5) = guard_passed (misses py (some database) t.database) _ _ t' h4 in
      let (account, h6) = guard_passed (misses py (some username) t.username) _ _ t' h5 in
      (ok_inj h6, (host, real, met database t.database d base, met username t.username u account))

  -- An address that is accepted, for a database and a user that are not empty, is that of its own target,
  -- which may be used: its host is there and no placeholder, and its database and user are the expected.
  pub validated_target :
      (url database username : String) (t : Target)
      → (database == "") ≡ false
      → (username == "") ≡ false
      → validate_runtime_database_url py url (some database) (some username) ≡ ok t
      → (describe_database_target py url ≡ ok t) × IsUsable database username t
  unfolding validate_runtime_database_url
  validated_target url database username t d u h = go (describe_database_target py url) refl
    where
      go :
          (r : Result Target)
          → describe_database_target py url ≡ r
          → (describe_database_target py url ≡ ok t) × IsUsable database username t
      go (err x) e = absurd (ground arith)
      go (ok t0) e =
          let (same, usable) = accepted database username t0 t d u (ground arith) in
          subst (λ z. (describe_database_target py url ≡ ok z) × IsUsable database username z) same
            (e, usable)
