-- ===== src/Commands/Demo/Configured.antt =====
-- The service name with which the demo configures tracing (cmd/demo-http/main.go: run).
use cloud_native_service_con.Base.{Bool-cases, [], inl, inr, refl, ◌≡◌, ◌≢◌, ◌⊎◌}
use cloud_native_service_con.Text.{Str, codes, eq_str, eq_str_iff}
use cloud_native_service_con.Telemetry.Tracing.{TraceConfig}
use cloud_native_service_con.Commands.Demo.{demo_trace_config}

-- The name that is given, or the default where it is empty.
abbrev pub NamedOr : (default given name : Str) → Type 0
NamedOr default given name = ((given ≡ []) × (name ≡ default)) ⊎ ((given ≢ []) × (name ≡ given))

-- What the demo configures tracing with.
pub demo_trace_config-NamedOr :
    (config : TraceConfig)
    → ((demo_trace_config config).endpoint ≡ config.endpoint)
      × NamedOr (codes "demo-http") config.service_name (demo_trace_config config).service_name
unfolding demo_trace_config
demo_trace_config-NamedOr config = elim (Bool-cases (eq_str config.service_name [])) [
  | inl empty ↦ rw empty (refl, inl ((eq_str_iff config.service_name []).0 empty, refl))
  | inr given ↦
      rw given (refl, inr ((λ e. cc (given, (eq_str_iff config.service_name []).1 e)), refl))
]
