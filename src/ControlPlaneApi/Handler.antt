-- ===== src/ControlPlaneApi/Handler.antt =====
-- The API handler (handler.go): ServeHTTP, the router's handlers, and what they do to the store.
pub mod Access
pub mod Answers
pub mod Creation
pub mod Lifecycle
use cloud_native_service_con.Base.{
  Bool, List, Option, [], if◌then◌else◌, none, not, some, ℕ, ◌&&◌, ◌++◌, ◌==◌,
}
use cloud_native_service_con.Text.{Str, codes, eq_str, trim_prefix}
use cloud_native_service_con.Types.{ManagedService}
use cloud_native_service_con.Errors.{Error, Result, err, ok}
use cloud_native_service_con.ControlPlaneApi.Http.{
  Response, Request, error_response, identity_response, internal_error, item_response, json_headers,
  list_response, managed_service_not_found, method_delete, method_get, method_not_allowed,
  method_post, not_found, status_response, unauthorized, write_json,
}
use cloud_native_service_con.ControlPlaneApi.Auth.{authenticated, is_protected_path}
use cloud_native_service_con.ControlPlaneApi.Mux.{Route, route}
use cloud_native_service_con.ControlPlaneApi.Store.{ManagedServiceStore}
use cloud_native_service_con.ControlPlaneApi.Requests.{
  BodyDecoder, CreateRequest, decode_create_request, list_items, managed_services_route,
  new_managed_service_response, replicas_or_default, request_error, valid_create_request,
  valid_managed_service_name,
}

-- The answers that http.ServeMux gives without a handler: to the request for "*", for a method, a
-- path to redirect to and a query, and where no pattern fits.
pub record MuxAnswers : Type 0 where
  pub refused : Response
  pub redirected : (method path raw_query : Str) → Response
  pub unmatched : Response

-- The libraries that the handler calls.
pub record Libraries (B : Type 0) : Type 0 where
  -- sha256.Sum256
  pub hash : Str → Str
  -- len(validation.IsDNS1123Label(name)) == 0
  pub is_dns_label : Str → Bool
  -- apierrors.IsNotFound, apierrors.IsAlreadyExists
  pub is_not_found : Error → Bool
  pub is_already_exists : Error → Bool
  pub decoder : BodyDecoder B
  -- what http.ServeMux answers by itself
  pub mux : MuxAnswers

-- apiHandler; the router is `route`.
pub record ApiHandler (W : Type 0) : Type 0 where
  pub expected_token_hash : Str
  pub store : ManagedServiceStore W
  pub readiness_check : Option (W → Option Error × W)

-- NewHandler
unfoldable pub new_handler :
    {B W : Type 0}
    → Libraries B
    → Str
    → ManagedServiceStore W
    → Option (W → Option Error × W)
    → ApiHandler W
new_handler lib token store readiness_check = record {
  expected_token_hash = lib.hash token;
  store = store;
  readiness_check = readiness_check;
}

-- The answers to what the store returned.
unfoldable pub listed : Result (List ManagedService) → Response
unfolding write_json internal_error
listed (ok services) = write_json [] 200 (list_response (list_items services))
listed (err e) = internal_error

unfoldable pub ready_answer : Option Error → Response
unfolding write_json
ready_answer none = write_json [] 200 (status_response (codes "ready"))
ready_answer (some e) = write_json [] 503 (status_response (codes "not ready"))

module _ {B : Type 0} (lib : Libraries B) where
  unfoldable pub created : Result ManagedService → Response
  unfolding write_json internal_error
  created (ok ms) = write_json [] 201 (item_response (new_managed_service_response ms))
  created (err e) =
      if lib.is_already_exists e
      then write_json [] 409 (error_response (codes "managed service already exists"))
      else internal_error

  unfoldable pub shown : Result ManagedService → Response
  unfolding write_json internal_error managed_service_not_found
  shown (ok ms) = write_json [] 200 (item_response (new_managed_service_response ms))
  shown (err e) = if lib.is_not_found e then managed_service_not_found else internal_error

  unfoldable pub deleted : Option Error → Response
  unfolding internal_error managed_service_not_found
  deleted none = record { headers = json_headers; status = 204; body = none }
  deleted (some e) = if lib.is_not_found e then managed_service_not_found else internal_error

abbrev pub query_rejected : Response
query_rejected = write_json [] 400 (error_response (codes "query parameters are not supported"))

module _ {B W : Type 0} (lib : Libraries B) (h : ApiHandler W) where
  -- createManagedService, from the decoded request on
  unfoldable pub create_decoded : CreateRequest → ℕ → W → Response × W
  unfolding write_json created
  create_decoded request status w =
      let replicas = replicas_or_default request.replicas in
      let answer = h.store.create request.name replicas request.message w in
      if not (status == 0)
      then (write_json [] status (request_error status), w)
      else if valid_create_request lib.is_dns_label request replicas
      then (created lib answer.0, answer.1)
      else (write_json [] 400 (error_response (codes "invalid request")), w)

  unfoldable pub create_managed_service : Request B → W → Response × W
  unfolding create_decoded
  create_managed_service r w =
      let (request, status) = decode_create_request lib.decoder r.body in
      create_decoded request status w

  unfoldable pub list_managed_services : W → Response × W
  unfolding listed
  list_managed_services w = let (answer, w') = h.store.list w in (listed answer, w')

  unfoldable pub get_managed_service : Str → W → Response × W
  unfolding shown
  get_managed_service name w = let (answer, w') = h.store.get name w in (shown lib answer, w')

  unfoldable pub delete_managed_service : Str → W → Response × W
  unfolding deleted
  delete_managed_service name w =
      let (answer, w') = h.store.delete name w in (deleted lib answer, w')

  -- serveManagedServiceCollection
  unfoldable pub serve_collection : Request B → W → Response × W
  unfolding write_json method_not_allowed create_managed_service list_managed_services eq_str
  serve_collection r w =
      if not (eq_str r.raw_query [])
      then (query_rejected, w)
      else if eq_str r.method method_get
      then list_managed_services w
      else if eq_str r.method method_post
      then create_managed_service r w
      else (method_not_allowed (codes "GET, POST"), w)

  -- serveManagedService
  unfoldable pub serve_item : Request B → W → Response × W
  unfolding write_json method_not_allowed get_managed_service delete_managed_service eq_str
  serve_item r w =
      let name = trim_prefix r.path (managed_services_route ++ codes "/") in
      if not (eq_str r.raw_query [])
      then (query_rejected, w)
      else if not (valid_managed_service_name lib.is_dns_label name)
      then (write_json [] 400 (error_response (codes "invalid managed service name")), w)
      else if eq_str r.method method_get
      then get_managed_service name w
      else if eq_str r.method method_delete
      then delete_managed_service name w
      else (method_not_allowed (codes "GET, DELETE"), w)

  -- serveReadiness
  unfoldable pub serve_readiness : W → Response × W
  unfolding ready_answer
  serve_readiness w = elim h.readiness_check [
    | none ↦ (ready_answer none, w)
    | some check ↦ (ready_answer (check w).0, (check w).1)
  ]

  -- getOnly
  unfoldable pub get_only : (W → Response × W) → Request B → W → Response × W
  unfolding method_not_allowed eq_str
  get_only next r w =
      if eq_str r.method method_get then next w else (method_not_allowed method_get, w)

  -- router.ServeHTTP
  unfoldable pub serve_route : Route → Request B → W → Response × W
  unfolding write_json not_found get_only serve_readiness serve_collection serve_item
  serve_route Route.star r w = (lib.mux.refused, w)
  serve_route (Route.redirect to) r w = (lib.mux.redirected r.method to r.raw_query, w)
  serve_route Route.unknown r w = (not_found, w)
  serve_route Route.unmatched r w = (lib.mux.unmatched, w)
  serve_route Route.health r w =
      get_only (λ w'. (write_json [] 200 (status_response (codes "healthy")), w')) r w
  serve_route Route.readiness r w = get_only serve_readiness r w
  serve_route Route.identity r w =
      get_only
        (λ w'. (write_json [] 200 (identity_response (codes "control-plane-api") (codes "v1")), w'))
        r w
  serve_route Route.collection r w = serve_collection r w
  serve_route Route.item r w = serve_item r w

  -- ServeHTTP
  unfoldable pub serve_http : Request B → W → Response × W
  unfolding unauthorized serve_route
  serve_http r w =
      if is_protected_path r.path
        && not (authenticated lib.hash h.expected_token_hash r.authorization)
      then (unauthorized, w)
      else serve_route (route r.request_uri r.method r.escaped_path) r w
