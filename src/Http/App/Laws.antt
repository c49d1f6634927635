-- ===== src/Http/App/Laws.antt =====
-- The middleware of src/main.py.
use service_order_os_service.Prelude.{
  ℕ, true, false, String, some, ◌≡◌, refl, sym, ap, arith, if◌then◌else◌, Bool-cases, inl, inr,
}
use service_order_os_service.Exec.{Exec, Result, ok, err, ◌>>=◌, bind_returned}
use service_order_os_service.Config.Settings.{Settings}
use service_order_os_service.Config.Urls.{UrlReader, Target, validate_runtime_database_url}
use service_order_os_service.Config.Runtime.{
  is_real, build_event_publisher, build_database_readiness_probe,
}
use service_order_os_service.Http.App.{
  AppState, build_state, shut_down, HeaderMap, Response, or_default, operational_headers,
  add_operational_headers,
}

ok_inj : {H : Type 0} {s t : Response H} → ok s ≡ ok t → s ≡ t
ok_inj {H} {s = s} h = ap (λ (r : Result (Response H)). elim r [ ok x ↦ x | err x ↦ s ]) h

module _ {H W : Type 0} (m : HeaderMap H) (count : String → String → ℕ → Exec W (Unit {0})) where
  -- The names of these headers are told apart, and each is its own.
  pub record TellsApart : Type 0 where
    pub own : (k : String) → m.same_name k k ≡ true
    pub correlation_request : m.same_name "X-Request-ID" "X-Correlation-ID" ≡ false
    pub options_correlation : m.same_name "X-Content-Type-Options" "X-Correlation-ID" ≡ false
    pub frame_correlation : m.same_name "X-Frame-Options" "X-Correlation-ID" ≡ false
    pub policy_correlation : m.same_name "Referrer-Policy" "X-Correlation-ID" ≡ false

  passed_over :
      (k v : String) (h : H)
      → m.same_name k "X-Correlation-ID" ≡ false
      → m.get "X-Correlation-ID" (m.set k v h) ≡ m.get "X-Correlation-ID" h
  passed_over k v h e = rw (m.get-set k "X-Correlation-ID" v h, e) refl

  names_correlation :
      TellsApart
      → (c i : String) (h : H) → m.get "X-Correlation-ID" (operational_headers m c i h) ≡ some c
  unfolding operational_headers
  names_correlation apart c i h =
      rw
        (
          passed_over "Referrer-Policy" "strict-origin-when-cross-origin" _
              apart.policy_correlation,
          passed_over "X-Frame-Options" "DENY" _ apart.frame_correlation,
          passed_over "X-Content-Type-Options" "nosniff" _ apart.options_correlation,
          passed_over "X-Request-ID" i _ apart.correlation_request,
          m.get-set "X-Correlation-ID" "X-Correlation-ID" c h,
          apart.own "X-Correlation-ID",
        )
        refl

  -- The answer to a request names the correlation identifier of the request, or the fresh one where the
  -- request names none, with the status that the application gave.
  pub correlation_kept :
      TellsApart
      → (fresh method path : String) (headers : H) (call_next : Exec W (Response H))
        (r : Response H) (s t : W)
      → add_operational_headers m count fresh method path headers call_next s ≡ (ok r, t)
      → (x : Response H) × ((call_next s).0 ≡ ok x)
        × (r.status_code ≡ x.status_code)
        × (m.get "X-Correlation-ID" r.headers
            ≡ some (or_default (m.get "X-Correlation-ID" headers) fresh))
  unfolding add_operational_headers
  correlation_kept apart fresh method path headers call_next r s t h =
      let (x, u, called, rest) = bind_returned call_next (λ x. finished x) r s t h in
      let (v, w, counted, last) =
        bind_returned (count method path x.status_code) (λ _ z. (ok (answered x), z)) r u t rest in
      let same : answered x ≡ r = ok_inj (ap (λ (y : Result (Response H) × W). y.0) last) in
      (
        x,
        ap (λ (y : Result (Response H) × W). y.0) called,
        ap (λ (y : Response H). y.status_code) (sym same),
        cc (same, named x),
      )
    where
      answered : Response H → Response H
      answered x = record x {
        headers =
            operational_headers m (or_default (m.get "X-Correlation-ID" headers) fresh)
              (or_default (m.get "X-Request-ID" headers)
                (or_default (m.get "X-Correlation-ID" headers) fresh))
              x.headers;
      }

      finished : Response H → Exec W (Response H)
      finished x = count method path x.status_code >>= λ _ z. (ok (answered x), z)

      named :
          (x : Response H)
          → m.get "X-Correlation-ID" (answered x).headers
            ≡ some (or_default (m.get "X-Correlation-ID" headers) fresh)
      named x =
          names_correlation apart (or_default (m.get "X-Correlation-ID" headers) fresh)
            (or_default (m.get "X-Request-ID" headers)
              (or_default (m.get "X-Correlation-ID" headers) fresh))
            x.headers

-- An application that was built disposes of its probe's engine once when it ends, if it was built for the
-- real runtime, and else does nothing.
pub shut_down-build_state :
    {W : Type 0} (py : UrlReader) (s : Settings) (state : AppState) (dispose : Exec W (Unit {0}))
    (w : W)
    → build_state py s ≡ ok state
    → shut_down dispose state w ≡ (if is_real s then dispose w else (ok tt, w))
unfolding shut_down build_state build_event_publisher build_database_readiness_probe
shut_down-build_state {W} py s state dispose w h = elim (Bool-cases (is_real s)) [
  | inr memory ↦ ground (arith, memory, h)
  | inl real ↦ go real checked refl
]
  where
    checked : Result Target
    checked =
        validate_runtime_database_url py s.database_url (some s.expected_database_name)
          (some s.expected_database_username)

    go :
        is_real s ≡ true
        → (r : Result Target) → checked ≡ r
        → shut_down {W = W} dispose state w ≡ (if is_real s then dispose w else (ok tt, w))
    go real (err x) e = absurd (ground (arith, real, e, h))
    go real (ok t) e = ground (arith, real, e, h)
