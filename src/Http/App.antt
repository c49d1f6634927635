-- ===== src/Http/App.antt =====
-- src/main.py: what an application is made of, its middleware and its end. The headers of Starlette and the
-- counters of prometheus_client are parameters.
pub mod Laws
use service_order_os_service.Prelude.{
  ℕ, Bool, true, false, not, ◌&&◌, String, Option, none, some, List, [], ◌∷◌, ◌≡◌, ◌==◌,
  if◌then◌else◌,
}
use service_order_os_service.Exec.{Exec, Result, ok, err, and_then, pure, gets, ◌>>=◌, ◌>>◌}
use service_order_os_service.Config.Settings.{Settings}
use service_order_os_service.Config.Urls.{UrlReader}
use service_order_os_service.Config.Readiness.{Probe}
use service_order_os_service.Config.Runtime.{
  Backend, EventBackend, memory_events, rabbit, build_service_order_repository,
  build_customer_repository, build_admin_user_repository, build_vehicle_repository,
  build_database_readiness_probe, build_event_publisher,
}

-- `app.state`, less the hasher and the token service, which hold no state.
pub record AppState : Type 0 where
  pub settings : Settings
  pub database_readiness_probe : Option Probe
  pub service_order_repository : Backend
  pub admin_user_repository : Backend
  pub customer_repository : Backend
  pub vehicle_repository : Backend
  pub event_publisher : EventBackend

-- The part of `create_app` that fills `app.state`; only the probe's address may be refused.
unfoldable pub build_state : UrlReader → Settings → Result AppState
build_state py s = and_then (build_database_readiness_probe py s) λ probe. ok (record {
  settings = s;
  database_readiness_probe = probe;
  service_order_repository = build_service_order_repository s;
  admin_user_repository = build_admin_user_repository s;
  customer_repository = build_customer_repository s;
  vehicle_repository = build_vehicle_repository s;
  event_publisher = build_event_publisher s;
})

-- The middleware of libraries, with what `create_app` gives it.
pub data Middleware : Type 0 where
  trusted_host : List String → Middleware
  cors : List String → Bool → Middleware

-- `settings.TRUSTED_HOSTS and settings.TRUSTED_HOSTS != ["*"]`
unfoldable pub restricts_hosts : List String → Bool
restricts_hosts [] = false
restricts_hosts (h ∷ []) = not (h == "*")
restricts_hosts (h ∷ k ∷ hs) = true

-- The calls of `add_middleware`, in their order.
unfoldable pub middleware : Settings → List Middleware
unfolding restricts_hosts
middleware s =
    let rest = cors s.cors_allowed_origins s.cors_allow_credentials ∷ [] in
    if restricts_hosts s.trusted_hosts then trusted_host s.trusted_hosts ∷ rest else rest

-- Headers, whose names are compared by `same_name`.
pub record HeaderMap (H : Type 0) : Type 0 where
  pub same_name : String → String → Bool
  pub get : String → H → Option String
  pub set : String → String → H → H
  pub get-set :
      (k j v : String) (h : H) → get j (set k v h) ≡ (if same_name k j then some v else get j h)

pub record Response (H : Type 0) : Type 0 where
  pub status_code : ℕ
  pub headers : H

-- `request.headers.get(name, default)`
abbrev pub or_default : Option String → String → String
or_default none default = default
or_default (some v) default = v

module _ {H : Type 0} (m : HeaderMap H) where
  -- The five headers that the middleware writes, in their order.
  unfoldable pub operational_headers : String → String → H → H
  operational_headers correlation_id request_id h =
      m.set "Referrer-Policy" "strict-origin-when-cross-origin" (
        m.set "X-Frame-Options" "DENY" (
          m.set "X-Content-Type-Options" "nosniff"
            (m.set "X-Request-ID" request_id (m.set "X-Correlation-ID" correlation_id h))))

  -- `add_operational_headers_and_logs`, less the log: `fresh` is the `uuid4` that is drawn, and `count`
  -- the counters' update for the method, the path and the status.
  unfoldable pub add_operational_headers :
      {W : Type 0}
      → (String → String → ℕ → Exec W (Unit {0}))
      → String
      → String
      → String
      → H
      → Exec W (Response H)
      → Exec W (Response H)
  unfolding operational_headers
  add_operational_headers count fresh method path headers call_next = do
    response ← call_next
    count method path response.status_code
    pure (record response {
      headers =
          operational_headers (or_default (m.get "X-Correlation-ID" headers) fresh)
            (or_default (m.get "X-Request-ID" headers)
              (or_default (m.get "X-Correlation-ID" headers) fresh))
            response.headers;
    })

module _ {W : Type 0} where
  -- `close = getattr(x, "close", None)`, and its call where there is one
  abbrev pub close_if_any : Option (Exec W (Unit {0})) → Exec W (Unit {0})
  close_if_any none = pure tt
  close_if_any (some close) = close

  -- The `close` of the publisher: that in memory has none, that over RabbitMQ does nothing.
  abbrev pub publisher_close : EventBackend → Option (Exec W (Unit {0}))
  publisher_close memory_events = none
  publisher_close (rabbit url exchange routing_key queue) = some (pure tt)

  -- The `close` of the probe, which is `None` in memory: `dispose` is that of the engine.
  abbrev pub probe_close : Exec W (Unit {0}) → Option Probe → Option (Exec W (Unit {0}))
  probe_close dispose none = none
  probe_close dispose (some probe) = some dispose

  -- `lifespan`, behind its `yield`
  unfoldable pub shut_down : Exec W (Unit {0}) → AppState → Exec W (Unit {0})
  shut_down dispose state = do
    close_if_any (publisher_close state.event_publisher)
    close_if_any (probe_close dispose state.database_readiness_probe)
