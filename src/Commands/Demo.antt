-- ===== src/Commands/Demo.antt =====
-- cmd/demo-http/main.go: run.
pub mod Configured
use cloud_native_service_con.Base.{List, Option, [], ◌∷◌, ℤ, some, map, if◌then◌else◌}
use cloud_native_service_con.Text.{Str, codes, eq_str}
use cloud_native_service_con.Errors.{Error}
use cloud_native_service_con.Ports.{parse_demo_port, parse_metrics_port}
use cloud_native_service_con.Registry.{HttpMetrics, new_http_metrics}
use cloud_native_service_con.Telemetry.Listeners.{NamedServer}
use cloud_native_service_con.Telemetry.MetricsServer.{new_metrics_server}
use cloud_native_service_con.Telemetry.Tracing.{
  TraceConfig, TraceRuntime, new_trace_runtime, trace_config_from_environment,
}
use cloud_native_service_con.DemoHttp.{message_or_default, service_name}
use cloud_native_service_con.Commands.{
  Process, PublicHandler, ServerSpec, after_attempt, finish_run, metrics_router, named_server,
  port_address, public_handler,
}

-- What this command calls besides: ServeUntilShutdown with the context of the signals.
pub record DemoProcess (W Resource Exporter Provider : Type 0) : Type 0 where
  pub process : Process W Resource Exporter Provider
  pub serve : List NamedServer → W → Option Error × W

-- The service name of the demo, where the environment gives none.
unfoldable pub demo_trace_config : TraceConfig → TraceConfig
unfolding eq_str
demo_trace_config config =
    if eq_str config.service_name [] then record config { service_name = service_name } else config

module _ {W Resource Exporter Provider : Type 0}
    (p : DemoProcess W Resource Exporter Provider) where
  -- The two servers; the handler is known by its message.
  unfoldable pub demo_servers :
      (port metrics_port : ℤ) → PublicHandler Str Provider → List (ServerSpec Str Provider)
  unfolding new_metrics_server
  demo_servers port metrics_port handler =
      record {
        name = codes "public demo";
        server = record {
          address = port_address p.process.decimal port;
          handler = public_handler handler;
          read_header_timeout = 5;
          read_timeout = 10;
          write_timeout = 10;
          idle_timeout = 60;
          max_header_bytes = 16384;
        };
      }
      ∷ record {
        name = codes "internal metrics";
        server = new_metrics_server (port_address p.process.decimal metrics_port) metrics_router;
      }
      ∷ []

  -- run, from the trace runtime on
  unfoldable pub demo_serve :
      (port metrics_port : ℤ) → HttpMetrics → TraceRuntime W Provider → W → Option Error × W
  unfolding finish_run named_server demo_servers message_or_default
  demo_serve port metrics_port metrics runtime w = finish_run runtime (
      p.serve
        (map named_server (
          demo_servers port metrics_port (record {
            next = message_or_default (p.process.getenv (codes "MESSAGE"));
            service_name = service_name;
            metrics = metrics;
            provider = runtime.provider;
          })))
        w)

  -- run
  unfoldable pub demo_run : W → Option Error × W
  demo_run w =
      after_attempt (codes "configure server")
        (parse_demo_port p.process.quote (p.process.getenv (codes "PORT")), w)
        (λ port w1.
          after_attempt (codes "configure metrics server")
            (parse_metrics_port p.process.quote (p.process.getenv (codes "METRICS_PORT")) port, w1)
            (λ metrics_port w2.
              after_attempt (codes "configure HTTP metrics")
                (new_http_metrics (some p.process.registry) service_name p.process.handle w2)
                (λ metrics w3.
                  after_attempt (codes "configure tracing")
                    (new_trace_runtime p.process.tracing
                      (demo_trace_config (trace_config_from_environment p.process.getenv)) w3)
                    (λ runtime w4. demo_serve port metrics_port metrics runtime w4))))
