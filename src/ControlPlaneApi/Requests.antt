-- ===== src/ControlPlaneApi/Requests.antt =====
-- What a handler reads from a request and shows of a ManagedService (handler.go):
-- decodeCreateRequest, requestDecodeStatus, requestError, validManagedServiceName,
-- newManagedServiceResponse, NormalizeRoute and rejectQueryParameters.
pub mod Shown
use cloud_native_service_con.Base.{
  Bool, List, Option, [], if◌then◌else◌, ltb, ltb_ℤ, map, none, not, pos, some, ℕ, ℤ, ◌&&◌, ◌++◌,
  ◌==◌, ◌||◌,
}
use cloud_native_service_con.Text.{Str, codes, contains_byte, eq_str, trim_prefix}
use cloud_native_service_con.Text.Order.{sort_by}
use cloud_native_service_con.Text.Utf8.{rune_count}
use cloud_native_service_con.Types.{ManagedService, Condition}
use cloud_native_service_con.ControlPlaneApi.Http.{
  ManagedServiceResponse, Payload, ResponseCondition, error_response,
}
use cloud_native_service_con.ControlPlaneApi.Store.{applications_namespace, default_replicas}
use cloud_native_service_con.ControlPlaneApi.Auth.{api_v1_route}

-- createManagedServiceRequest
pub record CreateRequest : Type 0 where
  pub name : Str
  pub replicas : Option ℤ
  pub message : Str

-- An error of json.Decoder.Decode on the limited body: *http.MaxBytesError is in its chain, it is
-- io.EOF, or another.
pub data DecodeError : Type 0 where
  too_large end_of_input malformed : DecodeError

-- What the handler calls json.NewDecoder, with DisallowUnknownFields, and http.MaxBytesReader for:
-- the first value of a body of at most so many bytes, as a request, and the error (nil is none) of
-- decoding a second value.
pub record BodyDecoder (B : Type 0) : Type 0 where
  pub first_value : ℕ → B → CreateRequest × Option DecodeError
  pub second_value : ℕ → B → Option DecodeError

abbrev pub max_request_body_bytes : ℕ
max_request_body_bytes = 4096

unfoldable pub request_decode_status : Option DecodeError → ℕ
request_decode_status (some too_large) = 413
request_decode_status _ = 400

-- `errors.Is(err, io.EOF)` of the second value; 0 is no error
unfoldable pub trailing_status : Option DecodeError → ℕ
unfolding request_decode_status
trailing_status (some end_of_input) = 0
trailing_status e = request_decode_status e

unfoldable pub decode_status : Option DecodeError → ℕ → ℕ
unfolding request_decode_status
decode_status (some e) trailing = request_decode_status (some e)
decode_status none trailing = trailing

-- decodeCreateRequest
unfoldable pub decode_create_request : {B : Type 0} → BodyDecoder B → B → CreateRequest × ℕ
unfolding decode_status trailing_status
decode_create_request decoder body =
    let (request, e) = decoder.first_value max_request_body_bytes body in
    (request, decode_status e (trailing_status (decoder.second_value max_request_body_bytes body)))

unfoldable pub request_error : ℕ → Payload
request_error status =
    if status == 413
    then error_response (codes "request too large")
    else error_response (codes "invalid request")

-- `is_dns_label name` is len(validation.IsDNS1123Label(name)) == 0.
unfoldable pub valid_managed_service_name : (Str → Bool) → Str → Bool
unfolding eq_str
valid_managed_service_name is_dns_label name = not (eq_str name []) && is_dns_label name

unfoldable pub valid_create_request : (Str → Bool) → CreateRequest → ℤ → Bool
unfolding valid_managed_service_name
valid_create_request is_dns_label request replicas = not (
    not (valid_managed_service_name is_dns_label request.name)
    || (ltb_ℤ replicas (pos 1) || (ltb_ℤ (pos 3) replicas || ltb 120 (rune_count request.message))))

-- The replicas that are asked for, or the default.
unfoldable pub replicas_or_default : Option ℤ → ℤ
replicas_or_default none = default_replicas
replicas_or_default (some n) = n

abbrev pub response_condition : Condition → ResponseCondition
response_condition c = record {
  type_name = c.type_name;
  status = c.status;
  reason = c.reason;
  message = c.message;
  observed_generation = c.observed_generation;
}

-- newManagedServiceResponse
unfoldable pub new_managed_service_response : ManagedService → ManagedServiceResponse
unfolding replicas_or_default
new_managed_service_response ms = record {
  name = ms.meta.name;
  namespace = applications_namespace;
  template = ms.spec.template;
  replicas = replicas_or_default ms.spec.replicas;
  message = ms.spec.message;
  observed_generation = ms.status.observed_generation;
  ready_replicas = ms.status.ready_replicas;
  endpoint = ms.status.endpoint;
  conditions =
      sort_by (λ (c : ResponseCondition). c.type_name)
        (map response_condition ms.status.conditions);
}

-- The items of listManagedServices.
unfoldable pub list_items : List ManagedService → List ManagedServiceResponse
unfolding new_managed_service_response
list_items services =
    sort_by (λ (r : ManagedServiceResponse). r.name) (map new_managed_service_response services)

abbrev pub health_route : Str
health_route = codes "/healthz"

abbrev pub readiness_route : Str
readiness_route = codes "/readyz"

abbrev pub managed_services_route : Str
managed_services_route = codes "/api/v1/managed-services"

abbrev pub managed_service_item_route : Str
managed_service_item_route = codes "/api/v1/managed-services/{name}"

abbrev pub unknown_route : Str
unknown_route = codes "unknown"

-- NormalizeRoute, on URL.Path
unfoldable pub normalize_route : Str → Str
unfolding eq_str trim_prefix contains_byte
normalize_route path =
    let item_name = trim_prefix path (managed_services_route ++ codes "/") in
    if eq_str path health_route
      || (eq_str path readiness_route
          || (eq_str path api_v1_route || eq_str path managed_services_route))
    then path
    else if not (eq_str item_name path)
        && (not (eq_str item_name []) && not (contains_byte item_name b'/'))
    then managed_service_item_route
    else unknown_route
