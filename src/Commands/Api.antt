-- ===== src/Commands/Api.antt =====
-- cmd/control-plane-api/main.go: run and serveUntilShutdown.
use cloud_native_service_con.Base.{List, Option, [], ◌∷◌, ℤ, some, map, none}
use cloud_native_service_con.Text.{Str, codes}
use cloud_native_service_con.Errors.{Error, Result, err, ok}
use cloud_native_service_con.Ports.{parse_metrics_port, parse_port}
use cloud_native_service_con.Registry.{HttpMetrics, new_http_metrics}
use cloud_native_service_con.ControlPlaneApi.Config.{load_token}
use cloud_native_service_con.ControlPlaneApi.Store.{Client, controller_runtime_store, store_ready}
use cloud_native_service_con.ControlPlaneApi.Handler.{ApiHandler, Libraries, new_handler}
use cloud_native_service_con.Telemetry.Listeners.{NamedServer}
use cloud_native_service_con.Telemetry.MetricsServer.{new_metrics_server}
use cloud_native_service_con.Telemetry.Tracing.{
  TraceRuntime, new_trace_runtime, trace_config_from_environment,
}
use cloud_native_service_con.Commands.{
  Process, PublicHandler, ServerSpec, after_attempt, finish_run, metrics_router, named_server,
  port_address, public_handler,
}

abbrev pub api_service_name : Str
api_service_name = codes "control-plane-api"

-- What this command calls besides: the token file, AddToScheme, ctrl.GetConfig and client.New, and
-- ServeUntilShutdown with the context of the signals.
pub record ApiProcess (B W Config Resource Exporter Provider : Type 0) : Type 0 where
  pub process : Process W Resource Exporter Provider
  pub libraries : Libraries B
  pub read_file : Str → Result Str
  pub add_to_scheme : W → Option Error × W
  pub get_config : W → Result Config × W
  pub new_client : Config → W → Result (Client W) × W
  pub serve : List NamedServer → W → Option Error × W

-- A step that returns an error alone.
unfoldable pub checked : {W : Type 0} → Option Error × W → Result (Unit {0}) × W
checked (none, w) = (ok tt, w)
checked (some e, w) = (err e, w)

module _ {B W Config Resource Exporter Provider : Type 0}
    (p : ApiProcess B W Config Resource Exporter Provider) where
  -- serveUntilShutdown
  unfoldable pub serve_until_shutdown :
      List (ServerSpec (ApiHandler W) Provider) → W → Option Error × W
  unfolding named_server
  serve_until_shutdown servers w = p.serve (map named_server servers) w

  -- The handler behind telemetry.NewHTTPHandler.
  unfoldable pub api_handler : Str → Client W → ApiHandler W
  unfolding new_handler controller_runtime_store
  api_handler token client =
      new_handler p.libraries token (controller_runtime_store client) (some (store_ready client))

  -- The two servers.
  unfoldable pub api_servers :
      (port metrics_port : ℤ)
      → PublicHandler (ApiHandler W) Provider
      → List (ServerSpec (ApiHandler W) Provider)
  unfolding new_metrics_server
  api_servers port metrics_port handler =
      record {
        name = codes "public API";
        server = record {
          address = port_address p.process.decimal port;
          handler = public_handler handler;
          read_header_timeout = 5;
          read_timeout = 15;
          write_timeout = 15;
          idle_timeout = 60;
          max_header_bytes = 16384;
        };
      }
      ∷ record {
        name = codes "internal metrics";
        server = new_metrics_server (port_address p.process.decimal metrics_port) metrics_router;
      }
      ∷ []

  -- run, from the HTTP metrics on
  unfoldable pub api_serve :
      (token : Str) (port metrics_port : ℤ)
      → Client W
      → TraceRuntime W Provider
      → HttpMetrics
      → W
      → Option Error × W
  unfolding finish_run serve_until_shutdown api_handler api_servers
  api_serve token port metrics_port client runtime metrics w = finish_run runtime (
      serve_until_shutdown
        (api_servers port metrics_port (record {
          next = api_handler token client;
          service_name = api_service_name;
          metrics = metrics;
          provider = runtime.provider;
        }))
        w)

  -- run, from the ports on
  unfoldable pub api_connect : (token : Str) (port metrics_port : ℤ) → W → Option Error × W
  api_connect token port metrics_port w =
      after_attempt (codes "register ManagedService API") (checked (p.add_to_scheme w)) (λ u w1.
        after_attempt (codes "load Kubernetes configuration") (p.get_config w1) (λ config w2.
          after_attempt (codes "create Kubernetes client") (p.new_client config w2) (λ client w3.
            after_attempt (codes "configure tracing")
              (new_trace_runtime p.process.tracing (trace_config_from_environment p.process.getenv)
                w3)
              (λ runtime w4.
                after_attempt (codes "configure HTTP metrics")
                  (new_http_metrics (some p.process.registry) api_service_name p.process.handle w4)
                  (λ metrics w5. api_serve token port metrics_port client runtime metrics w5)))))

  -- run
  unfoldable pub api_run : W → Option Error × W
  api_run w =
      after_attempt (codes "configure API token")
        (load_token p.read_file (p.process.getenv (codes "API_TOKEN_FILE")), w)
        (λ token w1.
          after_attempt (codes "configure server")
            (parse_port p.process.quote (p.process.getenv (codes "PORT")), w1)
            (λ port w2.
              after_attempt (codes "configure metrics server")
                (
                  parse_metrics_port p.process.quote (p.process.getenv (codes "METRICS_PORT")) port,
                  w2,
                )
                (λ metrics_port w3. api_connect token port metrics_port w3)))
