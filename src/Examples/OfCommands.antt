-- ===== src/Examples/OfCommands.antt =====
-- The commands and tracing on sample processes.
use cloud_native_service_con.Base.{
  List, Option, [], ◌∷◌, ℕ, none, some, refl, true, false, if◌then◌else◌, arith, inl, inr, ◌++◌,
  ◌≡◌,
}
use cloud_native_service_con.Text.{Str, codes, eq_str}
use cloud_native_service_con.Errors.{
  Error, Result, err, ok, server_closed, is_server_closed, Result-cases, external,
}
use cloud_native_service_con.ControlPlaneApi.Store.{Client}
use cloud_native_service_con.Telemetry.Listeners.{NamedServer, Network, prepare}
use cloud_native_service_con.Telemetry.Shutdown.{
  Event, Run, ServerResult, System, after_shutdown, cancel, cancel_seen, cancels, finish, finished,
  finishes, here, next_result, next_taken, no_step, real_failure, returned, returns_shut,
  sees_cancel, shut_down, shuts_down, start, started, takes_next, then_step, there,
}
use cloud_native_service_con.Telemetry.Tracing.{
  TraceConfig, TracingLibrary, new_trace_runtime, trace_config_from_environment,
}
use cloud_native_service_con.ControlPlaneApi.Requests.{CreateRequest}
use cloud_native_service_con.ControlPlaneApi.Config.{load_token}
use cloud_native_service_con.Ports.{parse_demo_port, parse_metrics_port, parse_port}
use cloud_native_service_con.Registry.{Collector, new_managed_service_metrics, new_http_metrics}
use cloud_native_service_con.Commands.{Process, after_attempt, finish_run}
use cloud_native_service_con.Commands.Api.{
  ApiProcess, api_run, api_connect, api_serve, checked, serve_until_shutdown,
}
use cloud_native_service_con.Commands.Demo.{DemoProcess, demo_run, demo_serve, demo_trace_config}
use cloud_native_service_con.Commands.Served.{ended, not_prepared}
use cloud_native_service_con.Commands.Quiet.{
  ServesTwo, IsApiRun, IsDemoRun, api_run-IsApiRun, demo_run-IsDemoRun,
}
use cloud_native_service_con.Commands.Manager.{
  ManagerProcess, default_flags, manager_main, or_exit, run_manager, unless_error,
  setup_with_manager,
}
use cloud_native_service_con.Commands.Manager.Started.{IsManagerRun, manager_main-IsManagerRun}
use cloud_native_service_con.Examples.OfRegistry.{sample_registry}
use cloud_native_service_con.Examples.SampleClient.{sample_libraries, sample_token}

-- The state of the process: the collectors that are registered.
abbrev Collectors : Type 0
Collectors = List Collector

-- A library that takes every endpoint for a good one, and names a provider by its service.
abbrev sample_tracing : TracingLibrary Collectors Str Str Str
sample_tracing = record {
  parse_url = λ s. some (record {
    scheme = codes "https";
    has_user = false;
    host = codes "collector";
    raw_query = [];
    fragment = [];
  });
  new_resource = λ name w. (ok name, w);
  new_exporter = λ endpoint w. (ok endpoint, w);
  new_provider = λ exporter resource. resource;
  noop_provider = [];
  shutdown_provider = λ provider w. (none, w);
}

abbrev sample_trace_config : TraceConfig
sample_trace_config = record {
  endpoint = codes "https://collector/v1/traces";
  service_name = codes "demo-http";
}

unfoldable sample_getenv : Str → Str
unfolding eq_str
sample_getenv name = if eq_str name (codes "API_TOKEN_FILE") then codes "/run/token" else []

abbrev sample_process : Process Collectors Str Str Str
sample_process = record {
  getenv = sample_getenv;
  quote = λ s. s;
  decimal = λ n. codes "8080";
  tracing = sample_tracing;
  registry = sample_registry;
  handle = 0;
}

-- A network where every address is free.
abbrev free_network : Network Collectors
free_network = record { listen = λ address w. (ok 0, w); close = λ l w. w }

serve_answer : Result (List ℕ) → Option Error
serve_answer (ok listeners) = none
serve_answer (err e) = some e

-- Two servers that run until the signal, and then close.
unfoldable sample_serve : List NamedServer → Collectors → Option Error × Collectors
unfolding serve_answer
sample_serve servers w = (serve_answer (prepare free_network servers w).0, w)

abbrev closed : Str → ServerResult
closed name = record { name = name; failure = some server_closed }

abbrev two_events : Str → Str → List Event
two_events a b =
    finish
    ∷ next_taken (closed b)
    ∷ next_taken (closed a)
    ∷ returned (closed b)
    ∷ returned (closed a)
    ∷ shut_down b none none
    ∷ shut_down a none none
    ∷ cancel_seen
    ∷ cancel
    ∷ []

abbrev two_ended : Str → Str → System
two_ended a b = record {
  shut = record { name = a; serving = false } ∷ record { name = b; serving = false } ∷ [];
  pending = [];
  channel = [];
  received = 2;
  cancelled = true;
  phase = finished;
  result_err = none;
}

two_run : (a b : Str) → Run (start (a ∷ b ∷ [])) (two_events a b) (two_ended a b)
unfolding start is_server_closed next_result real_failure after_shutdown
two_run a b =
    let stopping = then_step (then_step no_step (cancels refl)) (sees_cancel refl refl) in
    let shut =
      then_step (then_step stopping (shuts_down (started a) (started b ∷ []) none none refl refl))
        (shuts_down (started b) [] none none refl refl) in
    let returned_both =
      then_step (then_step shut (returns_shut (here a (some server_closed) (started b ∷ [])))) (
        returns_shut
          (there (record { name = a; serving = false }) (here b (some server_closed) []))) in
    then_step
      (then_step
        (then_step returned_both
          (takes_next (closed a) (closed b ∷ []) refl refl (omega arith) refl))
        (takes_next (closed b) [] refl refl (omega arith) refl))
      (finishes refl refl (omega arith))

sample_serve-two : ServesTwo free_network sample_serve
unfolding sample_serve serve_answer
sample_serve-two a b w = elim (Result-cases (prepare free_network (a ∷ b ∷ []) w).0) [
  | inl (listeners, e) ↦ rw e (
      ended listeners (two_events a.name b.name) (two_ended a.name b.name) e (two_run a.name b.name)
        refl refl)
  | inr (failure, e) ↦ rw e (not_prepared failure e refl)
]

abbrev sample_client_of : Client Collectors
sample_client_of = record {
  create = λ ms w. (ok ms, w);
  list = λ o w. (ok [], w);
  get = λ k w. (err (external 404 (codes "not found")), w);
  delete = λ k w. (none, w);
}

abbrev sample_api : ApiProcess (Option CreateRequest) Collectors Str Str Str Str
sample_api = record {
  process = sample_process;
  libraries = sample_libraries;
  read_file = λ path. ok (sample_token ++ codes "\n");
  add_to_scheme = λ w. (none, w);
  get_config = λ w. (ok [], w);
  new_client = λ config w. (ok sample_client_of, w);
  serve = sample_serve;
}

api_ran : (api_run sample_api []).0 ≡ none
unfolding api_run api_connect api_serve after_attempt checked finish_run serve_until_shutdown
    sample_serve load_token sample_getenv parse_port parse_metrics_port new_trace_runtime
    trace_config_from_environment new_http_metrics sample_registry prepare
api_ran = refl

api_run-IsApiRun_example : IsApiRun sample_api free_network sample_serve-two
api_run-IsApiRun_example = api_run-IsApiRun sample_api free_network sample_serve-two [] api_ran

abbrev sample_demo : DemoProcess Collectors Str Str Str
sample_demo = record { process = sample_process; serve = sample_serve }

demo_ran : (demo_run sample_demo []).0 ≡ none
unfolding demo_run demo_serve after_attempt finish_run sample_serve parse_demo_port sample_getenv
    parse_metrics_port new_http_metrics sample_registry new_trace_runtime demo_trace_config
    trace_config_from_environment prepare
demo_ran = refl

demo_run-IsDemoRun_example : IsDemoRun sample_demo free_network sample_serve-two
demo_run-IsDemoRun_example =
    demo_run-IsDemoRun sample_demo free_network sample_serve-two [] demo_ran

-- A process of the operator in which everything works.
abbrev sample_manager : ManagerProcess Str Collectors Str Str
sample_manager = record {
  get_config = λ w. (ok [], w);
  new_manager = λ config options w. (ok [], w);
  registry = sample_registry;
  handle = 0;
  complete = λ builder settings metrics mgr w. (none, w);
  add_healthz_check = λ name mgr w. (none, w);
  add_readyz_check = λ name mgr w. (none, w);
  start = λ mgr w. (none, w);
}

manager_ended : (manager_main sample_manager default_flags []).0 ≡ 0
unfolding manager_main run_manager setup_with_manager or_exit unless_error
    new_managed_service_metrics sample_registry
manager_ended = refl

manager_main-IsManagerRun_example :
    IsManagerRun sample_manager default_flags [] (manager_main sample_manager default_flags []).1
manager_main-IsManagerRun_example =
    manager_main-IsManagerRun sample_manager default_flags [] manager_ended
