-- ===== src/Config/Readiness/Laws.antt =====
-- When /health/ready answers that the service is ready.
use Prim.Native.String.{String}
use service_order_os_service.Prelude.{
  Bool, true, false, some, arith, ◌≡◌, ◌↔◌, refl, eq_iff, eq_refl,
}
use service_order_os_service.Exec.{Result, ok, err}
use service_order_os_service.Config.Settings.{Settings}
use service_order_os_service.Config.Readiness.{
  Probe, Database, check, match_boundary, Health, degraded, report, readiness_check,
}

-- The answer is not the one with status 503.
abbrev pub is_ready : Health → Bool
is_ready (degraded service checks detail) = false
is_ready _ = true

module _ (repr : String → String) (db : Database) (s : Settings) (p : Probe) where
  -- With a probe, the service answers that it is ready exactly when the connection gives the expected
  -- database and the expected user.
  pub ready_iff_boundary : (is_ready (readiness_check repr db s (some p)) ≡ true) ↔ (
      (db.current_database p.engine_url ≡ ok p.expected_database)
      × (db.current_user p.engine_url ≡ ok p.expected_username))
  unfolding readiness_check check match_boundary report
  ready_iff_boundary = (
    forth (db.current_database p.engine_url) (db.current_user p.engine_url) refl refl,
    λ (d, u). ground (arith, eq_refl p.expected_database, eq_refl p.expected_username),
  )
    where
      forth :
          (a b : Result String)
          → db.current_database p.engine_url ≡ a
          → db.current_user p.engine_url ≡ b
          → is_ready (readiness_check repr db s (some p)) ≡ true
          → (a ≡ ok p.expected_database) × (b ≡ ok p.expected_username)
      forth (err x) b d u h = absurd (ground arith)
      forth (ok a) (err x) d u h = absurd (ground arith)
      forth (ok a) (ok b) d u h =
          ground (arith, eq_iff a p.expected_database, eq_iff b p.expected_username)
