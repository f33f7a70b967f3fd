-- ===== src/Commands.antt =====
-- The two commands that serve HTTP: run of cmd/control-plane-api/main.go and of cmd/demo-http/main.go,
-- with serveUntilShutdown. What they share is here.
pub mod Api
pub mod Demo
pub mod Served
pub mod Public
pub mod Quiet
pub mod Manager
use cloud_native_service_con.Base.{Option, ◌++◌, ℕ, ℤ, none, some}
use cloud_native_service_con.Text.{Str, codes}
use cloud_native_service_con.Errors.{Error, Result, err, join, ok, wrap}
use cloud_native_service_con.Registry.{HttpMetrics, Registerer}
use cloud_native_service_con.Telemetry.Listeners.{NamedServer}
use cloud_native_service_con.Telemetry.MetricsServer.{HttpServer}
use cloud_native_service_con.Telemetry.Tracing.{TraceRuntime, TracingLibrary}

-- The public handler: NewHTTPHandler of a handler, with the metrics and the provider among its options.
pub record PublicHandler (H Provider : Type 0) : Type 0 where
  pub next : H
  pub service_name : Str
  pub metrics : HttpMetrics
  pub provider : Provider

-- The handlers of the two servers: the public one, and the router of the metrics server.
pub data Handler (H Provider : Type 0) : Type 0 where
  public_handler : PublicHandler H Provider → Handler H Provider
  metrics_router : Handler H Provider

-- serverSpec: a name and an http.Server
pub record ServerSpec (H Provider : Type 0) : Type 0 where
  pub name : Str
  pub server : HttpServer (Handler H Provider)

-- The conversion in serveUntilShutdown, up to what ServeUntilShutdown reads of a server.
unfoldable pub named_server : {H Provider : Type 0} → ServerSpec H Provider → NamedServer
named_server spec = record { name = spec.name; address = some spec.server.address }

-- What both commands call: os.Getenv, the verbs %q and %d, the OpenTelemetry libraries, a new Prometheus
-- registry, over the states `W` of the process; `handle` stands for the pointers to new collectors.
pub record Process (W Resource Exporter Provider : Type 0) : Type 0 where
  pub getenv : Str → Str
  pub quote : Str → Str
  pub decimal : ℤ → Str
  pub tracing : TracingLibrary W Resource Exporter Provider
  pub registry : Registerer W
  pub handle : ℕ

-- `fmt.Sprintf(":%d", port)`
abbrev pub port_address : (ℤ → Str) → ℤ → Str
port_address decimal port = codes ":" ++ decimal port

-- `value, err := step; if err != nil { return fmt.Errorf("<prefix>: %w", err) }`, and the rest
unfoldable pub after_attempt :
    {W V : Type 0} → Str → Result V × W → (V → W → Option Error × W) → Option Error × W
after_attempt prefix (err e, w) rest = (some (wrap prefix e), w)
after_attempt prefix (ok value, w) rest = rest value w

-- The end of both: the error of the servers, joined with that of the shutdown of tracing.
unfoldable pub after_tracing : Option Error → Option Error → Option Error
unfolding join
after_tracing serve_err none = serve_err
after_tracing serve_err (some e) = some (join serve_err (wrap (codes "shut down tracing") e))

unfoldable pub finish_run :
    {W Provider : Type 0} → TraceRuntime W Provider → Option Error × W → Option Error × W
unfolding after_tracing
finish_run runtime (serve_err, w) =
    let (e, w') = runtime.shutdown w in (after_tracing serve_err e, w')
