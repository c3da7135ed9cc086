-- ===== src/Proxy/Setup/Recorded.antt =====
-- Which requests the telemetry has.
use cachy.Base.{
  map, append-nil, ◌≡◌, refl, ap, sym, ◌∙◌, Bool, Bool-cases, inl, inr, some, List, [], ◌∷◌, ◌++◌,
  if◌then◌else◌,
}
use cachy.Text.Ascii.{UnicodeTables}
use cachy.Observability.Telemetry.{RequestTelemetry, MemoryTelemetryStore}
use cachy.Proxy.Handler.{Url}
use cachy.Proxy.Handler.Observed.{transparent_proxy-Reports}
use cachy.Proxy.Setup.{Bytes, Call, is_health, serve_http, serve_calls}

-- The method and the path of a request, and of a record.
abbrev pub requested : List Call → List (Bytes × Bytes)
requested [] = []
requested (c ∷ cs) =
    let rest = requested cs in
    if is_health c.request then rest else (c.request.method, c.request.path) ∷ rest

abbrev pub recorded : List RequestTelemetry → List (Bytes × Bytes)
recorded = map (λ (t : RequestTelemetry). (t.method, t.route))

recorded-append :
    (ts : List RequestTelemetry) (t : RequestTelemetry) (rest : List (Bytes × Bytes))
    → recorded (ts ++ t ∷ []) ++ rest ≡ recorded ts ++ (t.method, t.route) ∷ rest
recorded-append [] t rest = refl
recorded-append (x ∷ ts) t rest = ap (◌∷◌ (x.method, x.route)) (recorded-append ts t rest)

module _ (u : UnicodeTables) (target : Url) (logger : Bool) where
  -- Whatever the exchanges come to, the telemetry gets one record for each request, in order, with its
  -- method and path, and none for the checks of health.
  pub serve_calls-recorded :
      (cs : List Call) (s : MemoryTelemetryStore)
      → (s' : MemoryTelemetryStore) × (serve_calls u target logger (some s) cs ≡ some s')
        × (s'.policy ≡ s.policy)
        × (recorded s'.records ≡ recorded s.records ++ requested cs)
  unfolding serve_calls serve_http
  serve_calls-recorded [] s = (s, refl, refl, sym (append-nil (recorded s.records)))
  serve_calls-recorded (c ∷ cs) s = elim (Bool-cases (is_health c.request)) [
    | inl health ↦ rw health (serve_calls-recorded cs s)
    | inr other ↦
        let (t, added, reports) =
          transparent_proxy-Reports u target logger c.clock s c.request c.outcome in
        let s1 : MemoryTelemetryStore = record s { records = s.records ++ t ∷ [] } in
        let (s2, later, policy, records) = serve_calls-recorded cs s1 in
        rw (other, added)
          (
            s2,
            later,
            policy,
            records
                ∙ recorded-append s.records t (requested cs)
                ∙ ap (λ method. recorded s.records ++ (method, t.route) ∷ requested cs)
                    reports.same_route.0
                ∙ ap (λ path. recorded s.records ++ (c.request.method, path) ∷ requested cs)
                    reports.same_route.1,
          )
  ]
