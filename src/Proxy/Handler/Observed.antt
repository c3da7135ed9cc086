-- ===== src/Proxy/Handler/Observed.antt =====
-- What one exchange leaves in the log and in the telemetry.
use cachy.Base.{◌<◌, ◌≡◌, ◌↔◌, refl, Bool, none, some, [], ◌∷◌, ◌++◌, arith}
use cachy.Text.Ascii.{UnicodeTables}
use cachy.Http.{Request}
use cachy.Observability.Telemetry.{
  kind_none, RequestTelemetry, MemoryTelemetryStore, record_telemetry,
}
use cachy.Observability.Logging.{classify_proxy_error}
use cachy.Observability.Build.{build_request_telemetry}
use cachy.Proxy.Handler.{
  Url, Outcome, request_failed, send_failed, answered, Reply, Clock, record_exchange, observe,
  transparent_proxy, copied, error_reply,
}

-- The upstream answered with a status below 500, and its body was copied whole.
abbrev Succeeds : Outcome → Type 0
Succeeds (answered resp none) = resp.status < 500
Succeeds _ = ⊥

-- What the telemetry of a request says.
pub record Reports (r : Request) (reply : Reply) (outcome : Outcome) (t : RequestTelemetry)
    : Type 0 where
  pub same_status : t.status ≡ reply.status
  pub same_route : (t.method ≡ r.method) × (t.route ≡ r.path)
  pub no_error_iff : (t.error_kind ≡ kind_none) ↔ Succeeds outcome
  pub no_prompt : (t.prompt_preview ≡ []) × (t.credential_hint ≡ [])

module _ (u : UnicodeTables) (target : Url) (logger : Bool) (clock : Clock)
    (s : MemoryTelemetryStore) (r : Request) where
  -- Every exchange adds one record to the telemetry, whatever its outcome. The record has the status
  -- that the client receives and the method and path of the request, no prompt and no credential; it
  -- reports no error exactly if the upstream answered with a status below 500 and its body was copied
  -- whole. Nothing else in the store changes.
  pub transparent_proxy-Reports :
      (outcome : Outcome)
      → (t : RequestTelemetry) × ((transparent_proxy u target logger clock
            (some s)
            r
            outcome).telemetry
          ≡ some (record s { records = s.records ++ t ∷ [] }))
        × Reports r (transparent_proxy u target logger clock (some s) r outcome).reply outcome t
  unfolding transparent_proxy observe record_exchange record_telemetry build_request_telemetry
      classify_proxy_error copied error_reply
  transparent_proxy-Reports (request_failed e) = (_, refl, ground arith)
  transparent_proxy-Reports (send_failed e) = (_, refl, ground arith)
  transparent_proxy-Reports (answered resp none) = (_, refl, ground arith)
  transparent_proxy-Reports (answered resp (some (n, e))) = (_, refl, ground arith)
