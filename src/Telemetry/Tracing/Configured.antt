-- ===== src/Telemetry/Tracing/Configured.antt =====
-- When traces are exported, and to where.
use cloud_native_service_con.Base.{
  Bool, Bool-cases, Option, [], all, arith, false, inl, inr, length, ltb, none, not, refl, some,
  true, ◌&&◌, ◌||◌, ◌≡◌, ◌≢◌, ◌≤◌, ◌⊎◌, ap, sym,
}
use cloud_native_service_con.Text.{Str, codes, eq_str, eq_str_iff}
use cloud_native_service_con.Errors.{Error, Result, err, ok, wrap}
use cloud_native_service_con.Telemetry.Tracing.{
  ParsedUrl, TraceConfig, TraceRuntime, TracingLibrary, acceptable_url, check_url, disabled_runtime,
  enabled_runtime, endpoint_invalid, endpoint_not_http, exporter_failed, is_service_name_byte,
  service_name_or_default, service_name_unsafe, valid_service_name, validate_trace_endpoint,
  finish_endpoint, finish_exporter, finish_resource, new_trace_runtime,
}

-- One to 63 letters, digits and bytes of "-_.".
pub record IsServiceName (name : Str) : Type 0 where
  pub present : name ≢ []
  pub short : length name ≤ 63
  pub plain : all is_service_name_byte name ≡ true

-- An HTTP(S) URL with a host, and without credentials, query and fragment.
pub record IsPlainUrl (parsed : ParsedUrl) : Type 0 where
  pub host_present : parsed.host ≢ []
  pub scheme_http : (parsed.scheme ≡ codes "http") ⊎ (parsed.scheme ≡ codes "https")
  pub no_user : parsed.has_user ≡ false
  pub no_query : parsed.raw_query ≡ []
  pub no_fragment : parsed.fragment ≡ []

name_inv :
    (empty long plain : Bool)
    → (not (empty || long) && plain) ≡ true
    → (empty ≡ false) × (long ≡ false) × (plain ≡ true)
name_inv empty long plain h = ground arith

url_inv :
    (host http https user query fragment : Bool)
    → not (host || ((not http && not https) || (user || (not query || not fragment)))) ≡ true
    → (host ≡ false)
      × ((http ≡ true) ⊎ (https ≡ true))
      × (user ≡ false)
      × (query ≡ true)
      × (fragment ≡ true)
url_inv host http https user query fragment h = ground arith

valid_service_name-IsServiceName :
    (name : Str) → valid_service_name name ≡ true → IsServiceName name
unfolding valid_service_name
valid_service_name-IsServiceName name h =
    let (present, short, plain) =
      name_inv (eq_str name []) (ltb 63 (length name)) (all is_service_name_byte name) h in
    record { present = λ e. cc ((eq_str_iff name []).1 e); short = ground arith; plain = plain }

acceptable_url-IsPlainUrl : (parsed : ParsedUrl) → acceptable_url parsed ≡ true → IsPlainUrl parsed
unfolding acceptable_url
acceptable_url-IsPlainUrl parsed h =
    let (host, scheme, user, query, fragment) =
      url_inv (eq_str parsed.host []) (eq_str parsed.scheme (codes "http"))
        (eq_str parsed.scheme (codes "https")) parsed.has_user (eq_str parsed.raw_query [])
        (eq_str parsed.fragment []) h in
    record {
      host_present = λ e. cc ((eq_str_iff parsed.host []).1 e);
      scheme_http = elim scheme [
        | inl http ↦ inl ((eq_str_iff parsed.scheme (codes "http")).0 http)
        | inr https ↦ inr ((eq_str_iff parsed.scheme (codes "https")).0 https)
      ];
      no_user = user;
      no_query = (eq_str_iff parsed.raw_query []).0 query;
      no_fragment = (eq_str_iff parsed.fragment []).0 fragment;
    }

module _ {W Resource Exporter Provider : Type 0}
    (lib : TracingLibrary W Resource Exporter Provider) where
  -- An endpoint that is let through.
  pub record IsEndpoint (endpoint : Str) : Type 0 where
    pub short : length endpoint ≤ 2048
    pub parsed : ParsedUrl
    pub parses : lib.parse_url endpoint ≡ some parsed
    pub plain : IsPlainUrl parsed

  check_url_inv :
      (parsed : Option ParsedUrl)
      → check_url parsed ≡ none
      → (url : ParsedUrl) × (parsed ≡ some url) × IsPlainUrl url
  unfolding check_url
  check_url_inv none h = cc
  check_url_inv (some url) h = elim (Bool-cases (acceptable_url url)) [
    | inl good ↦ (url, refl, acceptable_url-IsPlainUrl url good)
    | inr bad ↦ cc (rw bad at h)
  ]

  check_url_error :
      (parsed : Option ParsedUrl) (e : Error) → check_url parsed ≡ some e → e ≡ endpoint_not_http
  unfolding check_url
  check_url_error none e h = cc
  check_url_error (some url) e h = elim (Bool-cases (acceptable_url url)) [
    | inl good ↦ cc (rw good at h)
    | inr bad ↦ cc (rw bad at h)
  ]

  validate_trace_endpoint-IsEndpoint :
      (endpoint : Str) → validate_trace_endpoint lib endpoint ≡ none → IsEndpoint endpoint
  unfolding validate_trace_endpoint
  validate_trace_endpoint-IsEndpoint endpoint h = elim (Bool-cases (ltb 2048 (length endpoint))) [
    | inl long ↦ cc (rw long at h)
    | inr short ↦
        let (url, parses, plain) = check_url_inv (lib.parse_url endpoint) (rw short at h) in
        record { short = ground arith; parsed = url; parses = parses; plain = plain }
  ]

  -- The runtime exports to the endpoint: the libraries made a resource with the service name and an
  -- exporter, and the runtime is that of both.
  pub record Exports (config : TraceConfig) (w w' : W) (runtime : TraceRuntime W Provider)
      : Type 0 where
    pub endpoint : IsEndpoint config.endpoint
    pub name : IsServiceName (service_name_or_default lib config)
    pub resource : Resource
    pub exporter : Exporter
    pub world : W
    pub made_resource :
        lib.new_resource (service_name_or_default lib config) w ≡ (ok resource, world)
    pub made_exporter : lib.new_exporter config.endpoint world ≡ (ok exporter, w')
    pub same : runtime ≡ enabled_runtime lib exporter resource

  -- A fixed text, or the error of the resource: none that repeats the endpoint.
  pub data IsTraceError (w : W) (config : TraceConfig) (e : Error) : Type 0 where
    fixed :
        (e ≡ endpoint_invalid)
          ⊎ (e ≡ endpoint_not_http)
          ⊎ (e ≡ service_name_unsafe)
          ⊎ (e ≡ exporter_failed)
        → IsTraceError w config e
    of_resource :
        (failure : Error)
        → (lib.new_resource (service_name_or_default lib config) w).0 ≡ err failure
        → e ≡ wrap (codes "configure telemetry resource") failure
        → IsTraceError w config e

  -- What came of a configuration in the state `w`.
  abbrev pub IsConfigured : TraceConfig → W → Result (TraceRuntime W Provider) × W → Type 0
  IsConfigured config w (ok runtime, w') =
      ((config.endpoint ≡ []) × (runtime ≡ disabled_runtime lib) × (w' ≡ w))
      ⊎ ((config.endpoint ≢ []) × Exports config w w' runtime)
  IsConfigured config w (err e, w') = (config.endpoint ≢ []) × IsTraceError w config e

  exporter-IsConfigured :
      (config : TraceConfig) (w world : W) (resource : Resource) (answer : Result Exporter × W)
      → config.endpoint ≢ []
      → IsEndpoint config.endpoint
      → IsServiceName (service_name_or_default lib config)
      → lib.new_resource (service_name_or_default lib config) w ≡ (ok resource, world)
      → lib.new_exporter config.endpoint world ≡ answer
      → IsConfigured config w (finish_exporter lib resource answer)
  unfolding finish_exporter
  exporter-IsConfigured config w world resource (err e, w') used endpoint name made answered =
      (used, fixed (inr (inr (inr refl))))
  exporter-IsConfigured config w world resource (ok exporter, w') used endpoint name made answered =
      inr (
        used,
        record {
          endpoint = endpoint;
          name = name;
          resource = resource;
          exporter = exporter;
          world = world;
          made_resource = made;
          made_exporter = answered;
          same = refl;
        },
      )

  resource-IsConfigured :
      (config : TraceConfig) (w : W) (answer : Result Resource × W)
      → config.endpoint ≢ []
      → IsEndpoint config.endpoint
      → IsServiceName (service_name_or_default lib config)
      → lib.new_resource (service_name_or_default lib config) w ≡ answer
      → IsConfigured config w (finish_resource lib config.endpoint answer)
  unfolding finish_resource
  resource-IsConfigured config w (err e, w') used endpoint name answered =
      (used, of_resource e (ap (λ (a : Result Resource × W). a.0) answered) refl)
  resource-IsConfigured config w (ok resource, w') used endpoint name answered =
      exporter-IsConfigured config w w' resource (lib.new_exporter config.endpoint w') used endpoint
        name answered refl

  validate_trace_endpoint_error :
      (endpoint : Str) (e : Error)
      → validate_trace_endpoint lib endpoint ≡ some e
      → (e ≡ endpoint_invalid) ⊎ (e ≡ endpoint_not_http)
  unfolding validate_trace_endpoint
  validate_trace_endpoint_error endpoint e h = elim (Bool-cases (ltb 2048 (length endpoint))) [
    | inl long ↦ let same : endpoint_invalid ≡ e = cc (rw long at h) in inl (sym same)
    | inr short ↦ inr (check_url_error (lib.parse_url endpoint) e (rw short at h))
  ]

  endpoint-IsConfigured :
      (config : TraceConfig) (w : W) (checked : Option Error)
      → config.endpoint ≢ []
      → IsServiceName (service_name_or_default lib config)
      → validate_trace_endpoint lib config.endpoint ≡ checked
      → IsConfigured config w
          (finish_endpoint lib checked config (service_name_or_default lib config) w)
  unfolding finish_endpoint
  endpoint-IsConfigured config w (some e) used name checked =
      elim (validate_trace_endpoint_error config.endpoint e checked) [
        | inl a ↦ (used, fixed (inl a))
        | inr b ↦ (used, fixed (inr (inl b)))
      ]
  endpoint-IsConfigured config w none used name checked =
      resource-IsConfigured config w (lib.new_resource (service_name_or_default lib config) w) used
        (validate_trace_endpoint-IsEndpoint config.endpoint checked) name refl

  pub new_trace_runtime-IsConfigured :
      (config : TraceConfig) (w : W) → IsConfigured config w (new_trace_runtime lib config w)
  unfolding new_trace_runtime
  new_trace_runtime-IsConfigured config w = elim (Bool-cases (eq_str config.endpoint [])) [
    | inl unused ↦ rw unused (inl ((eq_str_iff config.endpoint []).0 unused, refl, refl))
    | inr set ↦
        let used : config.endpoint ≢ [] = λ e. cc ((eq_str_iff config.endpoint []).1 e) in
        elim (Bool-cases (valid_service_name (service_name_or_default lib config))) [
          | inl safe ↦
              rw (set, safe)
                (endpoint-IsConfigured config w (validate_trace_endpoint lib config.endpoint) used
                  (valid_service_name-IsServiceName (service_name_or_default lib config) safe) refl)
          | inr unsafe ↦ rw (set, unsafe) (used, fixed (inr (inr (inl refl))))
        ]
  ]
