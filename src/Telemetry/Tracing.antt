-- ===== src/Telemetry/Tracing.antt =====
-- Tracing (internal/telemetry/tracing.go): TraceConfigFromEnvironment, NewTraceRuntime,
-- validateTraceEndpoint and validServiceName, over the OpenTelemetry libraries.
pub mod Configured
use cloud_native_service_con.Base.{
  Bool, Option, [], all, if◌then◌else◌, leb, length, ltb, none, not, some, true, false, ℕ, ◌&&◌,
  ◌||◌,
}
use cloud_native_service_con.Text.{Str, codes, contains_byte, eq_str}
use cloud_native_service_con.Errors.{Error, Result, err, errorf, ok, wrap}

-- TraceConfig
pub record TraceConfig : Type 0 where
  pub endpoint : Str
  pub service_name : Str

-- TraceConfigFromEnvironment; `getenv` is os.Getenv
unfoldable pub trace_config_from_environment : (Str → Str) → TraceConfig
trace_config_from_environment getenv = record {
  endpoint = getenv (codes "OTEL_EXPORTER_OTLP_TRACES_ENDPOINT");
  service_name = getenv (codes "OTEL_SERVICE_NAME");
}

-- url.URL, as far as validateTraceEndpoint reads it
pub record ParsedUrl : Type 0 where
  pub scheme : Str
  pub has_user : Bool
  pub host : Str
  pub raw_query : Str
  pub fragment : Str

-- url.Parse, and the OpenTelemetry libraries over the states `W` of the process: the resource with a
-- service name, the exporter to an endpoint, the provider of both, and the one that does nothing.
pub record TracingLibrary (W Resource Exporter Provider : Type 0) : Type 0 where
  pub parse_url : Str → Option ParsedUrl
  pub new_resource : Str → W → Result Resource × W
  pub new_exporter : Str → W → Result Exporter × W
  pub new_provider : Exporter → Resource → Provider
  pub noop_provider : Provider
  pub shutdown_provider : Provider → W → Option Error × W

-- TraceRuntime, without the propagators, which are always the same
pub record TraceRuntime (W Provider : Type 0) : Type 0 where
  pub provider : Provider
  pub shutdown : W → Option Error × W
  pub enabled : Bool

abbrev pub default_service_name : Str
default_service_name = codes "control-plane-api"

-- The test of the loop in validServiceName.
unfoldable pub is_service_name_byte : ℕ → Bool
unfolding contains_byte
is_service_name_byte c =
    (leb b'a' c && leb c b'z')
    || ((leb b'A' c && leb c b'Z') || ((leb b'0' c && leb c b'9') || contains_byte (codes "-_.") c))

unfoldable pub valid_service_name : Str → Bool
unfolding eq_str is_service_name_byte
valid_service_name name =
    not (eq_str name [] || ltb 63 (length name)) && all is_service_name_byte name

-- The condition on the parsed URL.
unfoldable pub acceptable_url : ParsedUrl → Bool
unfolding eq_str
acceptable_url parsed = not (
    eq_str parsed.host []
    || ((not (eq_str parsed.scheme (codes "http")) && not (eq_str parsed.scheme (codes "https")))
        || (parsed.has_user
            || (not (eq_str parsed.raw_query []) || not (eq_str parsed.fragment [])))))

abbrev pub endpoint_invalid : Error
endpoint_invalid = errorf (codes "OTLP traces endpoint is invalid")

abbrev pub endpoint_not_http : Error
endpoint_not_http = errorf (codes "OTLP traces endpoint must be an HTTP(S) URL without credentials")

abbrev pub service_name_unsafe : Error
service_name_unsafe = errorf (codes "OTEL_SERVICE_NAME must use 1-63 safe characters")

abbrev pub exporter_failed : Error
exporter_failed = errorf (codes "configure OTLP trace exporter")

unfoldable pub check_url : Option ParsedUrl → Option Error
unfolding acceptable_url
check_url none = some endpoint_not_http
check_url (some parsed) = if acceptable_url parsed then none else some endpoint_not_http

module _ {W Resource Exporter Provider : Type 0}
    (lib : TracingLibrary W Resource Exporter Provider) where
  unfoldable pub validate_trace_endpoint : Str → Option Error
  unfolding check_url
  validate_trace_endpoint endpoint =
      if ltb 2048 (length endpoint)
      then some endpoint_invalid
      else check_url (lib.parse_url endpoint)

  -- The runtime without an endpoint.
  unfoldable pub disabled_runtime : TraceRuntime W Provider
  disabled_runtime = record {
    provider = lib.noop_provider;
    shutdown = λ w. (none, w);
    enabled = false;
  }

  unfoldable pub enabled_runtime : Exporter → Resource → TraceRuntime W Provider
  enabled_runtime exporter resource = record {
    provider = lib.new_provider exporter resource;
    shutdown = lib.shutdown_provider (lib.new_provider exporter resource);
    enabled = true;
  }

  -- The steps after the exporter, after the resource, and after the endpoint was checked.
  unfoldable pub finish_exporter :
      Resource → Result Exporter × W → Result (TraceRuntime W Provider) × W
  unfolding enabled_runtime
  finish_exporter resource (err e, w) = (err exporter_failed, w)
  finish_exporter resource (ok exporter, w) = (ok (enabled_runtime exporter resource), w)

  unfoldable pub finish_resource : Str → Result Resource × W → Result (TraceRuntime W Provider) × W
  unfolding finish_exporter
  finish_resource endpoint (err e, w) = (err (wrap (codes "configure telemetry resource") e), w)
  finish_resource endpoint (ok resource, w) = finish_exporter resource (lib.new_exporter endpoint w)

  unfoldable pub finish_endpoint :
      Option Error → TraceConfig → Str → W → Result (TraceRuntime W Provider) × W
  unfolding finish_resource
  finish_endpoint (some e) config service_name w = (err e, w)
  finish_endpoint none config service_name w =
      finish_resource config.endpoint (lib.new_resource service_name w)

  -- The service name that is used.
  unfoldable pub service_name_or_default : TraceConfig → Str
  unfolding eq_str
  service_name_or_default config =
      if eq_str config.service_name [] then default_service_name else config.service_name

  -- NewTraceRuntime
  unfoldable pub new_trace_runtime : TraceConfig → W → Result (TraceRuntime W Provider) × W
  unfolding disabled_runtime finish_endpoint validate_trace_endpoint valid_service_name
      service_name_or_default eq_str
  new_trace_runtime config w =
      let service_name = service_name_or_default config in
      if eq_str config.endpoint []
      then (ok disabled_runtime, w)
      else if not (valid_service_name service_name)
      then (err service_name_unsafe, w)
      else finish_endpoint (validate_trace_endpoint config.endpoint) config service_name w
