-- ===== src/Registry.antt =====
-- Registration of collectors with Prometheus: NewManagedServiceMetrics, registerCounterVec and
-- registerHistogramVec (internal/controller/managedservice_metrics.go) and NewHTTPMetrics
-- (internal/telemetry/metrics.go). The registry is a library.
pub mod Laws
pub mod Taken
pub mod Reused
pub mod Fresh
use cloud_native_service_con.Base.{
  Bool, List, Option, [], ◌∷◌, ◌+◌, ℕ, none, some, true, false, if◌then◌else◌, ◌++◌,
}
use cloud_native_service_con.Text.{Str, codes, eq_str}
use cloud_native_service_con.Errors.{Error, Result, err, errorf, ok, wrap}

pub data Kind : Type 0 where
  counter_vec histogram_vec gauge_vec : Kind

-- *prometheus.CounterVec and the like; `handle` stands for the pointer.
pub record Collector : Type 0 where
  pub kind : Kind
  pub name : Str
  pub help : Str
  pub labels : List Str
  pub handle : ℕ

-- An error of Register: prometheus.AlreadyRegisteredError with its ExistingCollector, or another.
pub data RegisterError : Type 0 where
  already : Collector → Error → RegisterError
  refused : Error → RegisterError

unfoldable pub register_error : RegisterError → Error
register_error (already existing e) = e
register_error (refused e) = e

-- Register of the prometheus.Registerer that prometheus.WrapRegistererWith makes for these labels and
-- values (for none it is the registerer itself), over the states `W` of the registry
pub record Registerer (W : Type 0) : Type 0 where
  pub register : List (Str × Str) → Collector → W → Option RegisterError × W

unfoldable pub is_kind : Kind → Kind → Bool
is_kind counter_vec counter_vec = true
is_kind histogram_vec histogram_vec = true
is_kind gauge_vec gauge_vec = true
is_kind _ _ = false

abbrev pub noun : Kind → Str
noun counter_vec = codes "counter"
noun histogram_vec = codes "histogram"
noun gauge_vec = codes "gauge"

-- The answer to Register in registerCounterVec and registerHistogramVec: the collector, or the one
-- that is registered already.
unfoldable pub registered_collector : Collector → Option RegisterError → Result Collector
unfolding is_kind
registered_collector collector none = ok collector
registered_collector collector (some (refused e)) =
    err (wrap (codes "register " ++ (noun collector.kind ++ codes " metric")) e)
registered_collector collector (some (already existing e)) =
    if is_kind existing.kind collector.kind
    then ok existing
    else err (
        errorf (
          codes "registered " ++ (noun collector.kind ++ codes " metric has an incompatible type")))

abbrev pub outcome_labels : List Str
outcome_labels = codes "outcome" ∷ []

abbrev pub reconciliations_vec : ℕ → Collector
reconciliations_vec handle = record {
  kind = counter_vec;
  name = codes "managedservice_reconciliations_total";
  help = codes "Total number of completed ManagedService reconciliation attempts.";
  labels = outcome_labels;
  handle = handle;
}

abbrev pub reconcile_duration_vec : ℕ → Collector
reconcile_duration_vec handle = record {
  kind = histogram_vec;
  name = codes "managedservice_reconcile_duration_seconds";
  help = codes "Duration of completed ManagedService reconciliation attempts in seconds.";
  labels = outcome_labels;
  handle = handle;
}

abbrev pub condition_transitions_vec : ℕ → Collector
condition_transitions_vec handle = record {
  kind = counter_vec;
  name = codes "managedservice_condition_transitions_total";
  help = codes "Total number of persisted ManagedService condition status transitions.";
  labels = codes "condition" ∷ codes "status" ∷ [];
  handle = handle;
}

-- ManagedServiceMetrics
pub record ManagedServiceMetrics : Type 0 where
  pub reconciliations : Collector
  pub reconcile_duration : Collector
  pub condition_transitions : Collector

-- HTTPMetrics
pub record HttpMetrics : Type 0 where
  pub requests_total : Collector
  pub request_duration : Collector
  pub requests_in_flight : Collector

abbrev pub status_class_labels : List Str
status_class_labels = codes "method" ∷ codes "route" ∷ codes "status_class" ∷ []

-- The collectors of NewHTTPMetrics.
abbrev pub http_metrics : ℕ → HttpMetrics
http_metrics handle = record {
  requests_total = record {
    kind = counter_vec;
    name = codes "http_server_requests_total";
    help = codes "Total HTTP server requests.";
    labels = status_class_labels;
    handle = handle;
  };
  request_duration = record {
    kind = histogram_vec;
    name = codes "http_server_request_duration_seconds";
    help = codes "HTTP server request duration in seconds.";
    labels = status_class_labels;
    handle = handle + 1;
  };
  requests_in_flight = record {
    kind = gauge_vec;
    name = codes "http_server_requests_in_flight";
    help = codes "Current HTTP server requests.";
    labels = codes "method" ∷ codes "route" ∷ [];
    handle = handle + 2;
  };
}

abbrev pub collectors_of : HttpMetrics → List Collector
collectors_of m = m.requests_total ∷ m.request_duration ∷ m.requests_in_flight ∷ []

abbrev pub registerer_required : Error
registerer_required = errorf (codes "prometheus registerer is required")

module _ {W : Type 0} (registry : Registerer W) where
  -- registerCounterVec and registerHistogramVec
  unfoldable pub register_vec : Collector → W → Result Collector × W
  unfolding registered_collector
  register_vec collector w =
      let (answer, w') = registry.register [] collector w in
      (registered_collector collector answer, w')

  unfoldable pub finish_transitions :
      Collector → Collector → Result Collector × W → Result ManagedServiceMetrics × W
  finish_transitions reconciliations duration (err e, w) = (err e, w)
  finish_transitions reconciliations duration (ok transitions, w) = (
    ok (record {
      reconciliations = reconciliations;
      reconcile_duration = duration;
      condition_transitions = transitions;
    }),
    w,
  )

  unfoldable pub finish_duration :
      ℕ → Collector → Result Collector × W → Result ManagedServiceMetrics × W
  unfolding finish_transitions register_vec
  finish_duration handle reconciliations (err e, w) = (err e, w)
  finish_duration handle reconciliations (ok duration, w) =
      finish_transitions reconciliations duration
        (register_vec (condition_transitions_vec (handle + 2)) w)

  unfoldable pub finish_reconciliations :
      ℕ → Result Collector × W → Result ManagedServiceMetrics × W
  unfolding finish_duration register_vec
  finish_reconciliations handle (err e, w) = (err e, w)
  finish_reconciliations handle (ok reconciliations, w) =
      finish_duration handle reconciliations (register_vec (reconcile_duration_vec (handle + 1)) w)

  -- The body of the loop of NewHTTPMetrics, after Register; `rest` is what the rest of it does.
  unfoldable pub after_register : Option RegisterError → Option Error × W → W → Option Error × W
  unfolding register_error
  after_register none rest w = rest
  after_register (some e) rest w =
      (some (wrap (codes "register HTTP metric") (register_error e)), w)

  -- The loop of NewHTTPMetrics.
  unfoldable pub register_all : List (Str × Str) → List Collector → W → Option Error × W
  unfolding after_register
  register_all labels [] w = (none, w)
  register_all labels (c ∷ collectors) w =
      let (answer, w') = registry.register labels c w in
      after_register answer (register_all labels collectors w') w'

-- NewManagedServiceMetrics; its new collectors have the handles from `handle` on.
unfoldable pub new_managed_service_metrics :
    {W : Type 0} → Option (Registerer W) → ℕ → W → Result ManagedServiceMetrics × W
unfolding finish_reconciliations register_vec
new_managed_service_metrics none handle w = (err registerer_required, w)
new_managed_service_metrics (some registry) handle w =
    finish_reconciliations registry handle (register_vec registry (reconciliations_vec handle) w)

unfoldable pub finish_http_metrics :
    {W : Type 0} → HttpMetrics → Option Error × W → Result HttpMetrics × W
finish_http_metrics metrics (none, w) = (ok metrics, w)
finish_http_metrics metrics (some e, w) = (err e, w)

-- NewHTTPMetrics
unfoldable pub new_http_metrics :
    {W : Type 0} → Option (Registerer W) → Str → ℕ → W → Result HttpMetrics × W
unfolding finish_http_metrics register_all eq_str
new_http_metrics none service_name handle w = (err registerer_required, w)
new_http_metrics (some registry) service_name handle w =
    let metrics = http_metrics handle in
    let labels = (codes "service", service_name) ∷ [] in
    let registered = register_all registry labels (collectors_of metrics) w in
    if eq_str service_name []
    then (err (errorf (codes "telemetry service name is required")), w)
    else finish_http_metrics metrics registered
