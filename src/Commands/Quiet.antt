-- ===== src/Commands/Quiet.antt =====
-- The commands return nil only after they were configured, served, and shut down without an error.
use cloud_native_service_con.Base.{List, Option, [], ◌∷◌, ◌≡◌, ◌≢◌, none, some, ℤ, ap, subst}
use cloud_native_service_con.Text.{Str, codes}
use cloud_native_service_con.Errors.{Error, ok, Result}
use cloud_native_service_con.Ports.{default_metrics_port, default_port, parse_metrics_port}
use cloud_native_service_con.Ports.Range.{IsPort, Spells, parse_metrics_port_iff, parse_port_iff}
use cloud_native_service_con.ControlPlaneApi.Config.Token.{HoldsToken, IsToken, load_token_iff}
use cloud_native_service_con.Telemetry.Listeners.{NamedServer, Network}
use cloud_native_service_con.Telemetry.Tracing.{
  TraceConfig, TraceRuntime, trace_config_from_environment, new_trace_runtime,
}
use cloud_native_service_con.Telemetry.Tracing.Configured.{
  IsConfigured, new_trace_runtime-IsConfigured,
}
use cloud_native_service_con.Registry.{HttpMetrics}
use cloud_native_service_con.ControlPlaneApi.Store.{Client}
use cloud_native_service_con.Commands.{Process, named_server, port_address, finish_run}
use cloud_native_service_con.Commands.Api.{
  ApiProcess, api_connect, api_run, api_serve, api_servers, serve_until_shutdown,
}
use cloud_native_service_con.Commands.Demo.{
  DemoProcess, demo_run, demo_serve, demo_servers, demo_trace_config,
}
use cloud_native_service_con.Commands.Served.{
  Serves, ServedQuietly, got_past, finish_run_inv, Serves-ServedQuietly,
}
use cloud_native_service_con.Commands.Demo.Configured.{NamedOr, demo_trace_config-NamedOr}

-- The two servers of a command, as ServeUntilShutdown reads them.
abbrev pub two_servers : (name : Str) → (ℤ → Str) → (port metrics_port : ℤ) → List NamedServer
two_servers name decimal port metrics_port =
    record { name = name; address = some (port_address decimal port) }
    ∷ record { name = codes "internal metrics"; address = some (port_address decimal metrics_port) }
    ∷ []

-- The ports that the environment names: two that differ.
pub record HasPorts {W Resource Exporter Provider : Type 0}
    (p : Process W Resource Exporter Provider) (port metrics_port : ℤ) : Type 0 where
  pub spelled : Spells default_port (p.getenv (codes "PORT")) port
  pub metrics_spelled : Spells default_metrics_port (p.getenv (codes "METRICS_PORT")) metrics_port
  pub is_port : IsPort port
  pub metrics_is_port : IsPort metrics_port
  pub differ : metrics_port ≢ port

-- The state `started` in which the servers start, the trace runtime, and the end: the servers ran until
-- the context ended, nothing went wrong, and the shutdown of tracing returned nil.
pub record EndsQuietly {W Resource Exporter Provider : Type 0}
    (p : Process W Resource Exporter Provider) (network : Network W) (config : TraceConfig)
    (serve : List NamedServer → W → Option Error × W) (servers : List NamedServer) : Type 0 where
  pub configuring : W
  pub configured : W
  pub runtime : TraceRuntime W Provider
  pub traced : IsConfigured p.tracing config configuring (ok runtime, configured)
  pub started : W
  pub served : ServedQuietly network servers started
  pub flushed : (runtime.shutdown (serve servers started).1).0 ≡ none

-- What `serve` does with two servers is what ServeUntilShutdown does.
abbrev pub ServesTwo : {W : Type 0} → Network W → (List NamedServer → W → Option Error × W) → Type 0
ServesTwo {W} network serve =
    (a b : NamedServer) (w : W) → Serves network (a ∷ b ∷ []) w (serve (a ∷ b ∷ []) w).0

module _ {W Resource Exporter Provider : Type 0} (p : Process W Resource Exporter Provider) where
  has_ports :
      (port metrics_port : ℤ)
      → Spells default_port (p.getenv (codes "PORT")) port × IsPort port
      → parse_metrics_port p.quote (p.getenv (codes "METRICS_PORT")) port ≡ ok metrics_port
      → HasPorts p port metrics_port
  has_ports port metrics_port (spelled, is_port) h =
      let (metrics_spelled, metrics_is_port, differ) =
        (parse_metrics_port_iff p.quote (p.getenv (codes "METRICS_PORT")) port metrics_port).0 h in
      record {
        spelled = spelled;
        metrics_spelled = metrics_spelled;
        is_port = is_port;
        metrics_is_port = metrics_is_port;
        differ = differ;
      }

  ends_quietly :
      (network : Network W) {serve : List NamedServer → W → Option Error × W}
      → ServesTwo network serve
      → (config : TraceConfig) (configuring configured : W) (runtime : TraceRuntime W Provider)
      → new_trace_runtime p.tracing config configuring ≡ (ok runtime, configured)
      → (a b : NamedServer) (w : W) → (finish_run runtime (serve (a ∷ b ∷ []) w)).0 ≡ none
      → EndsQuietly p network config serve (a ∷ b ∷ [])
  ends_quietly network {serve} serves config configuring configured runtime made a b w h =
      let (nil, flushed) = finish_run_inv runtime (serve (a ∷ b ∷ []) w) h in
      record {
        configuring = configuring;
        configured = configured;
        runtime = runtime;
        traced =
            subst (IsConfigured p.tracing config configuring) made
              (new_trace_runtime-IsConfigured p.tracing config configuring);
        started = w;
        served = Serves-ServedQuietly network (a ∷ b ∷ []) w _ nil (serves a b w);
        flushed = flushed;
      }

module _ {B W Config Resource Exporter Provider : Type 0}
    (p : ApiProcess B W Config Resource Exporter Provider) (network : Network W)
    (serves : ServesTwo network p.serve) where
  -- The run of the API that returned nil.
  pub record IsApiRun : Type 0 where
    pub token : Str
    pub contents : Str
    pub file : p.read_file (p.process.getenv (codes "API_TOKEN_FILE")) ≡ ok contents
    pub holds : HoldsToken contents token
    pub is_token : IsToken token
    pub port : ℤ
    pub metrics_port : ℤ
    pub ports : HasPorts p.process port metrics_port
    pub ends :
        EndsQuietly p.process network
          (record {
            endpoint = p.process.getenv (codes "OTEL_EXPORTER_OTLP_TRACES_ENDPOINT");
            service_name = p.process.getenv (codes "OTEL_SERVICE_NAME");
          })
          p.serve
          (two_servers (codes "public API") p.process.decimal port metrics_port)

  -- The run from the servers on.
  api_serve-EndsQuietly :
      (token : Str) (port metrics_port : ℤ) (client : Client W) (runtime : TraceRuntime W Provider)
      (metrics : HttpMetrics) (configuring configured w : W)
      → new_trace_runtime p.process.tracing
          (trace_config_from_environment p.process.getenv)
          configuring
        ≡ (ok runtime, configured)
      → (api_serve p token port metrics_port client runtime metrics w).0 ≡ none
      → EndsQuietly p.process network
          (trace_config_from_environment p.process.getenv)
          p.serve
          (two_servers (codes "public API") p.process.decimal port metrics_port)
  unfolding api_serve serve_until_shutdown api_servers named_server
  api_serve-EndsQuietly token port metrics_port client runtime metrics configuring configured w
        traced h =
      ends_quietly p.process network serves (trace_config_from_environment p.process.getenv)
        configuring configured runtime traced
        (record { name = codes "public API"; address = some (port_address p.process.decimal port) })
        (record {
          name = codes "internal metrics";
          address = some (port_address p.process.decimal metrics_port);
        })
        w h

  -- If `serve` does with two servers what ServeUntilShutdown does, and run of the API command returns
  -- nil, then the token file holds a token of at least 32 bytes without a line ending, the two ports are
  -- valid and differ, tracing was configured with the endpoint and the service name that the
  -- environment gives, the two servers had their listeners and ran until the context ended, without an
  -- error, and the shutdown of tracing returned nil.
  pub api_run-IsApiRun : (w : W) → (api_run p w).0 ≡ none → IsApiRun
  unfolding api_run api_connect trace_config_from_environment
  api_run-IsApiRun w h = got_past _ _ _ h (λ token w1 loaded h1.
      got_past _ _ _ h1 (λ port w2 parsed h2.
        got_past _ _ _ h2 (λ metrics_port w3 metrics_parsed h3. got_past _ _ _ h3 (λ u w4 added h4.
          got_past _ _ _ h4 (λ config w5 got h5. got_past _ _ _ h5 (λ client w6 connected h6.
            got_past _ _ _ h6 (λ runtime w7 traced h7.
              got_past _ _ _ h7 (λ metrics w8 registered h8.
                let (named, (contents, file, holds), is_token) =
                  (load_token_iff p.read_file (p.process.getenv (codes "API_TOKEN_FILE")) token).0
                    (ap (λ (a : Result Str × W). a.0) loaded) in
                record {
                  token = token;
                  contents = contents;
                  file = file;
                  holds = holds;
                  is_token = is_token;
                  port = port;
                  metrics_port = metrics_port;
                  ports =
                      has_ports p.process port metrics_port
                        ((parse_port_iff p.process.quote (p.process.getenv (codes "PORT")) port).0.0
                          (ap (λ (a : Result ℤ × W). a.0) parsed))
                        (ap (λ (a : Result ℤ × W). a.0) metrics_parsed);
                  ends =
                      api_serve-EndsQuietly token port metrics_port client runtime metrics w6 w7 w8
                        traced h8;
                }))))))))

module _ {W Resource Exporter Provider : Type 0} (p : DemoProcess W Resource Exporter Provider)
    (network : Network W) (serves : ServesTwo network p.serve) where
  -- The run of the demo that returned nil.
  pub record IsDemoRun : Type 0 where
    pub port : ℤ
    pub metrics_port : ℤ
    pub ports : HasPorts p.process port metrics_port
    pub config : TraceConfig
    pub endpoint : config.endpoint ≡ p.process.getenv (codes "OTEL_EXPORTER_OTLP_TRACES_ENDPOINT")
    pub named :
        NamedOr
          (codes "demo-http")
          (p.process.getenv (codes "OTEL_SERVICE_NAME"))
          config.service_name
    pub ends :
        EndsQuietly p.process network config p.serve
          (two_servers (codes "public demo") p.process.decimal port metrics_port)

  -- If `serve` does with two servers what ServeUntilShutdown does, and run of the demo command returns
  -- nil, then the two ports are valid and differ, tracing was configured with the endpoint that the
  -- environment names and its service name, or "demo-http" where it names none, the two servers had
  -- their listeners and ran until the context ended, without an error, and the shutdown of tracing
  -- returned nil.
  pub demo_run-IsDemoRun : (w : W) → (demo_run p w).0 ≡ none → IsDemoRun
  unfolding demo_run demo_serve demo_servers named_server trace_config_from_environment
  demo_run-IsDemoRun w h = got_past _ _ _ h (λ port w1 parsed h1.
      got_past _ _ _ h1 (λ metrics_port w2 metrics_parsed h2.
        got_past _ _ _ h2 (λ metrics w3 registered h3. got_past _ _ _ h3 (λ runtime w4 traced h4.
          record {
            port = port;
            metrics_port = metrics_port;
            ports =
                has_ports p.process port metrics_port
                  ((parse_port_iff p.process.quote (p.process.getenv (codes "PORT")) port).1.0
                    (ap (λ (a : Result ℤ × W). a.0) parsed))
                  (ap (λ (a : Result ℤ × W). a.0) metrics_parsed);
            config = demo_trace_config (trace_config_from_environment p.process.getenv);
            endpoint =
                (demo_trace_config-NamedOr (trace_config_from_environment p.process.getenv)).0;
            named = (demo_trace_config-NamedOr (trace_config_from_environment p.process.getenv)).1;
            ends =
                ends_quietly p.process network serves
                  (demo_trace_config (trace_config_from_environment p.process.getenv)) w3 w4 runtime
                  traced
                  (record {
                    name = codes "public demo";
                    address = some (port_address p.process.decimal port);
                  })
                  (record {
                    name = codes "internal metrics";
                    address = some (port_address p.process.decimal metrics_port);
                  })
                  w4 h4;
          }))))
