-- ===== src/Commands/Manager.antt =====
-- cmd/main.go: main, from the parsed flags on: the TLS options, the options of the webhook and of the
-- metrics server, the manager, the reconciler and its metrics, the checks, and the exit code.
pub mod Started
use cloud_native_service_con.Base.{
  Bool, List, Option, [], ◌∷◌, ℕ, none, some, if◌then◌else◌, not, true, false,
}
use cloud_native_service_con.Text.{Str, codes, eq_str}
use cloud_native_service_con.Errors.{Error, Result, err, ok}
use cloud_native_service_con.Controller.Resources.{Settings}
use cloud_native_service_con.Registry.{
  ManagedServiceMetrics, Registerer, new_managed_service_metrics,
}

-- The variables that the flags set.
pub record Flags : Type 0 where
  pub metrics_addr : Str
  pub probe_addr : Str
  pub enable_leader_election : Bool
  pub secure_metrics : Bool
  pub webhook_cert_path : Str
  pub webhook_cert_name : Str
  pub webhook_cert_key : Str
  pub metrics_cert_path : Str
  pub metrics_cert_name : Str
  pub metrics_cert_key : Str
  pub enable_http2 : Bool
  pub demo_http_image : Str
  pub managed_service_image_pull_secret : Str

-- The values of the flags that are not given.
abbrev pub default_flags : Flags
default_flags = record {
  metrics_addr = codes "0";
  probe_addr = codes ":8081";
  enable_leader_election = false;
  secure_metrics = true;
  webhook_cert_path = [];
  webhook_cert_name = codes "tls.crt";
  webhook_cert_key = codes "tls.key";
  metrics_cert_path = [];
  metrics_cert_name = codes "tls.crt";
  metrics_cert_key = codes "tls.key";
  enable_http2 = false;
  demo_http_image = [];
  managed_service_image_pull_secret = [];
}

-- tls.Config: the field that is set, and the rest.
pub record TlsConfig (C : Type 0) : Type 0 where
  pub next_protos : List Str
  pub rest : C

-- The certificate that an options record names: CertDir, CertName and KeyName.
pub record Certificate : Type 0 where
  pub cert_dir : Str
  pub cert_name : Str
  pub key_name : Str

abbrev pub no_certificate : Certificate
no_certificate = record { cert_dir = []; cert_name = []; key_name = [] }

-- webhook.Options
pub record WebhookOptions (C : Type 0) : Type 0 where
  pub tls_opts : List (TlsConfig C → TlsConfig C)
  pub certificate : Certificate

-- metricsserver.Options; `authenticated` says that FilterProvider is WithAuthenticationAndAuthorization
-- and not nil.
pub record MetricsOptions (C : Type 0) : Type 0 where
  pub bind_address : Str
  pub secure_serving : Bool
  pub tls_opts : List (TlsConfig C → TlsConfig C)
  pub authenticated : Bool
  pub certificate : Certificate

-- ctrl.Options, with the options of the webhook server
pub record ManagerOptions (C : Type 0) : Type 0 where
  pub metrics : MetricsOptions C
  pub webhook_server : WebhookOptions C
  pub health_probe_bind_address : Str
  pub leader_election : Bool
  pub leader_election_id : Str

-- `if len(path) > 0`, and the three fields
unfoldable pub certificate_options : (path name key : Str) → Certificate
unfolding eq_str
certificate_options path name key =
    if not (eq_str path [])
    then (record { cert_dir = path; cert_name = name; key_name = key })
    else no_certificate

module _ {C : Type 0} where
  unfoldable pub disable_http2 : TlsConfig C → TlsConfig C
  disable_http2 c = record c { next_protos = codes "http/1.1" ∷ [] }

  -- tlsOpts
  unfoldable pub tls_options : Flags → List (TlsConfig C → TlsConfig C)
  unfolding disable_http2
  tls_options flags = if not flags.enable_http2 then disable_http2 ∷ [] else []

  unfoldable pub webhook_server_options : Flags → WebhookOptions C
  unfolding tls_options certificate_options
  webhook_server_options flags = record {
    tls_opts = tls_options flags;
    certificate =
        certificate_options flags.webhook_cert_path flags.webhook_cert_name flags.webhook_cert_key;
  }

  unfoldable pub metrics_server_options : Flags → MetricsOptions C
  unfolding tls_options certificate_options
  metrics_server_options flags = record {
    bind_address = flags.metrics_addr;
    secure_serving = flags.secure_metrics;
    tls_opts = tls_options flags;
    authenticated = flags.secure_metrics;
    certificate =
        certificate_options flags.metrics_cert_path flags.metrics_cert_name flags.metrics_cert_key;
  }

  unfoldable pub manager_options : Flags → ManagerOptions C
  unfolding webhook_server_options metrics_server_options
  manager_options flags = record {
    metrics = metrics_server_options flags;
    webhook_server = webhook_server_options flags;
    health_probe_bind_address = flags.probe_addr;
    leader_election = flags.enable_leader_election;
    leader_election_id = codes "f3394f2f.eoghanclancy.eu";
  }

-- The settings of the reconciler that main makes.
unfoldable pub reconciler_settings : Flags → Settings
reconciler_settings flags = record {
  demo_http_image = flags.demo_http_image;
  image_pull_secret_name = flags.managed_service_image_pull_secret;
}

-- The kinds of objects that the controller watches, and what ctrl.NewControllerManagedBy is told.
pub data WatchedKind : Type 0 where
  managed_service_kind deployment_kind service_kind : WatchedKind

pub record ControllerBuilder : Type 0 where
  pub primary : WatchedKind
  pub owned : List WatchedKind
  pub name : Str

abbrev pub managed_service_controller : ControllerBuilder
managed_service_controller = record {
  primary = managed_service_kind;
  owned = deployment_kind ∷ service_kind ∷ [];
  name = codes "managedservice";
}

-- controller-runtime, over the states `W` of the process and its managers `M`: GetConfigOrDie, which
-- exits with 1 where it has no configuration, NewManager, Complete of a builder with the reconciler,
-- AddHealthzCheck and AddReadyzCheck of Ping with a name, and Start with the context of the signals;
-- and controllermetrics.Registry.
pub record ManagerProcess (C W M Config : Type 0) : Type 0 where
  pub get_config : W → Result Config × W
  pub new_manager : Config → ManagerOptions C → W → Result M × W
  pub registry : Registerer W
  pub handle : ℕ
  pub complete : ControllerBuilder → Settings → ManagedServiceMetrics → M → W → Option Error × W
  pub add_healthz_check : Str → M → W → Option Error × W
  pub add_readyz_check : Str → M → W → Option Error × W
  pub start : M → W → Option Error × W

-- `if err != nil { os.Exit(1) }`, and the rest: with a value, and without.
unfoldable pub or_exit : {W V : Type 0} → Result V × W → (V → W → ℕ × W) → ℕ × W
or_exit (err e, w) rest = (1, w)
or_exit (ok value, w) rest = rest value w

unfoldable pub unless_error : {W : Type 0} → Option Error × W → (W → ℕ × W) → ℕ × W
unless_error (some e, w) rest = (1, w)
unless_error (none, w) rest = rest w

module _ {C W M Config : Type 0} (p : ManagerProcess C W M Config) where
  -- SetupWithManager (internal/controller/managedservice_controller.go)
  unfoldable pub setup_with_manager : Settings → ManagedServiceMetrics → M → W → Option Error × W
  setup_with_manager settings metrics mgr w =
      p.complete managed_service_controller settings metrics mgr w

  -- main, once there is a manager
  unfoldable pub run_manager : Flags → M → W → ℕ × W
  run_manager flags mgr w =
      or_exit (new_managed_service_metrics (some p.registry) p.handle w) (λ metrics w1.
        unless_error (setup_with_manager (reconciler_settings flags) metrics mgr w1) (λ w2.
          unless_error (p.add_healthz_check (codes "healthz") mgr w2) (λ w3.
            unless_error (p.add_readyz_check (codes "readyz") mgr w3)
              (λ w4. unless_error (p.start mgr w4) (λ w5. (0, w5))))))

  -- main: the exit code
  unfoldable pub manager_main : Flags → W → ℕ × W
  manager_main flags w = or_exit (p.get_config w) (λ config w1.
      or_exit (p.new_manager config (manager_options flags) w1)
        (λ mgr w2. run_manager flags mgr w2))
