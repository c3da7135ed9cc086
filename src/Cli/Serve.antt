-- ===== src/Cli/Serve.antt =====
-- `ServeProxy`: the handler of the proxy on a server.
use cachy.Base.{true, Option, none, some, ◌++◌, Result, ok, err}
use cachy.Text.{Bytes, codes}
use cachy.Text.Ascii.{UnicodeTables}
use cachy.Tokens.{Error}
use cachy.Proxy.Handler.{Url, Exchange}
use cachy.Observability.Telemetry.{MemoryTelemetryStore}
use cachy.Proxy.Setup.{Call, new_proxy}
use cachy.Cli.Environment.{ProxyConfig}

abbrev pub Handler : Type 0
Handler = Option MemoryTelemetryStore → Call → Exchange

pub data ServerEnd : Type 0 where
  server_closed : ServerEnd
  server_failed : Error → ServerEnd

stopped : ServerEnd → Option Error
stopped server_closed = none
stopped (server_failed e) = some e

configured : (Bytes → Handler → ServerEnd) → Bytes → Result Error Handler → Option Error
configured listen_and_serve listen (err e) = some (codes "failed to configure proxy: " ++ e)
configured listen_and_serve listen (ok handler) = stopped (listen_and_serve listen handler)

-- With the end of http.Server.ListenAndServe, which runs the handler on an address.
serve_proxy :
    (Bytes → Result Error Url)
    → UnicodeTables
    → (Bytes → Handler → ServerEnd)
    → ProxyConfig
    → Option Error
serve_proxy parse_url u listen_and_serve config =
    configured listen_and_serve config.listen (new_proxy parse_url u config.target_base_url true)
