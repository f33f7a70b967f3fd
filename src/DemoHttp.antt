-- ===== src/DemoHttp.antt =====
-- The demo service (internal/demohttp/handler.go): NewHandler with its patterns "GET /{$}", "GET /healthz"
-- and "GET /readyz", as http.ServeMux chooses among them, and NormalizeRoute.
pub mod Routes
use cloud_native_service_con.Base.{List, Option, [], ◌∷◌, ◌==◌, ◌||◌, ℕ, if◌then◌else◌, map, some}
use cloud_native_service_con.Text.{Str, codes, eq_str}
use cloud_native_service_con.ControlPlaneApi.Http.{Request, json_headers}
use cloud_native_service_con.ControlPlaneApi.Mux.{clean_path, segment, split_slash}

abbrev pub service_name : Str
service_name = codes "demo-http"

abbrev pub default_message : Str
default_message = codes "Hello from a ManagedService"

-- rootResponse and statusResponse
pub data DemoPayload : Type 0 where
  root_response : (service message : Str) → DemoPayload
  demo_status : Str → DemoPayload

-- What a handler writes: the headers that it sets, the status and the value that is encoded.
pub record DemoResponse : Type 0 where
  pub headers : List (Str × Str)
  pub status : ℕ
  pub body : Option DemoPayload

-- writeJSON
unfoldable pub demo_write_json : ℕ → DemoPayload → DemoResponse
demo_write_json status payload = record {
  headers = json_headers;
  status = status;
  body = some payload;
}

-- The pattern that a request meets. A pattern for GET is met by HEAD, too; `not_allowed` is a path that
-- would meet a pattern with another method.
pub data DemoRoute : Type 0 where
  asterisk missing not_allowed : DemoRoute
  moved : Str → DemoRoute
  demo_root demo_health demo_ready : DemoRoute

-- The answers that http.ServeMux gives without a handler: to the request for "*", for a method, a path
-- to redirect to and a query, to another method than the allowed ones, and where no pattern fits.
pub record DemoMuxAnswers : Type 0 where
  pub refused : DemoResponse
  pub redirected : (method path raw_query : Str) → DemoResponse
  pub method_refused : (allowed : Str) → DemoResponse
  pub unmatched : DemoResponse

-- A route that is registered for GET, for a request with this method.
unfoldable pub get_pattern : Str → DemoRoute → DemoRoute
unfolding eq_str
get_pattern method rt =
    if eq_str method (codes "GET") || eq_str method (codes "HEAD") then rt else not_allowed

unfoldable pub demo_segments : Str → List Str → DemoRoute
unfolding get_pattern eq_str
demo_segments method (a ∷ []) =
    if eq_str a []
    then get_pattern method demo_root
    else if eq_str a (codes "healthz")
    then get_pattern method demo_health
    else if eq_str a (codes "readyz")
    then get_pattern method demo_ready
    else missing
demo_segments method _ = missing

unfoldable pub demo_match : Str → Str → DemoRoute
unfolding demo_segments
demo_match method [] = missing
demo_match method (c ∷ s) =
    if c == b'/' then demo_segments method (map segment (split_slash s)) else missing

unfoldable pub demo_route : Str → Str → Str → DemoRoute
unfolding demo_match eq_str
demo_route request_uri method escaped =
    let clean = clean_path escaped in
    if eq_str request_uri (codes "*")
    then asterisk
    else if eq_str method (codes "CONNECT")
    then demo_match method escaped
    else if eq_str clean escaped
    then demo_match method clean
    else moved clean

-- The message that NewHandler keeps.
unfoldable pub message_or_default : Str → Str
unfolding eq_str
message_or_default message = if eq_str message [] then default_message else message

module _ (mux : DemoMuxAnswers) (message : Str) where
  -- The handlers of NewHandler.
  unfoldable pub demo_handlers : {B : Type 0} → DemoRoute → Request B → DemoResponse
  unfolding demo_write_json message_or_default
  demo_handlers asterisk r = mux.refused
  demo_handlers missing r = mux.unmatched
  demo_handlers not_allowed r = mux.method_refused (codes "GET, HEAD")
  demo_handlers (moved to) r = mux.redirected r.method to r.raw_query
  demo_handlers demo_root r =
      demo_write_json 200 (root_response service_name (message_or_default message))
  demo_handlers demo_health r = demo_write_json 200 (demo_status (codes "ok"))
  demo_handlers demo_ready r = demo_write_json 200 (demo_status (codes "ready"))

  -- NewHandler(message).ServeHTTP
  unfoldable pub serve_demo : {B : Type 0} → Request B → DemoResponse
  unfolding demo_handlers demo_route
  serve_demo r = demo_handlers (demo_route r.request_uri r.method r.escaped_path) r

-- NormalizeRoute, on URL.Path
unfoldable pub normalize_demo_route : Str → Str
unfolding eq_str
normalize_demo_route path =
    if eq_str path (codes "/") || (eq_str path (codes "/healthz") || eq_str path (codes "/readyz"))
    then path
    else codes "unknown"
