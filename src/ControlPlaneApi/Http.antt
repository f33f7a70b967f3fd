-- ===== src/ControlPlaneApi/Http.antt =====
-- Requests and responses as handler.go sees them, and its response types.
use cloud_native_service_con.Base.{List, Option, [], some, ℕ, ℤ, ◌++◌, ◌∷◌}
use cloud_native_service_con.Text.{Str, codes}
use cloud_native_service_con.Types.{ConditionStatus}

-- http.Request: the parts that the handler reads. `request_uri` is RequestURI,
-- `path` is URL.Path, `escaped_path` is
-- URL.EscapedPath(), and `authorization` is Header.Values("Authorization").
pub record Request (B : Type 0) : Type 0 where
  pub request_uri : Str
  pub method : Str
  pub path : Str
  pub escaped_path : Str
  pub raw_query : Str
  pub authorization : List Str
  pub body : B

-- managedServiceCondition
pub record ResponseCondition : Type 0 where
  pub type_name : Str
  pub status : ConditionStatus
  pub reason : Str
  pub message : Str
  pub observed_generation : ℤ

-- managedServiceResponse
pub record ManagedServiceResponse : Type 0 where
  pub name : Str
  pub namespace : Str
  pub template : Str
  pub replicas : ℤ
  pub message : Str
  pub observed_generation : ℤ
  pub ready_replicas : ℤ
  pub endpoint : Str
  pub conditions : List ResponseCondition

-- The values that writeJSON encodes.
pub data Payload : Type 0 where
  status_response : Str → Payload
  identity_response : (service version : Str) → Payload
  error_response : Str → Payload
  item_response : ManagedServiceResponse → Payload
  list_response : List ManagedServiceResponse → Payload

-- What a handler writes: the headers that it sets, the status and the body.
pub record Response : Type 0 where
  pub headers : List (Str × Str)
  pub status : ℕ
  pub body : Option Payload

abbrev pub method_get : Str
method_get = codes "GET"

abbrev pub method_post : Str
method_post = codes "POST"

abbrev pub method_delete : Str
method_delete = codes "DELETE"

abbrev pub json_headers : List (Str × Str)
json_headers =
    (codes "Content-Type", codes "application/json")
    ∷ (codes "Cache-Control", codes "no-store")
    ∷ []

-- writeJSON, after the header lines `set` were set
unfoldable pub write_json : List (Str × Str) → ℕ → Payload → Response
write_json set status payload = record {
  headers = set ++ json_headers;
  status = status;
  body = some payload;
}

abbrev pub method_not_allowed_message : Str
method_not_allowed_message = codes "method not allowed"

-- `writer.Header().Set("Allow", …)` and the 405 answer
unfoldable pub method_not_allowed : Str → Response
unfolding write_json
method_not_allowed allow =
    write_json ((codes "Allow", allow) ∷ []) 405 (error_response method_not_allowed_message)

unfoldable pub not_found : Response
unfolding write_json
not_found = write_json [] 404 (error_response (codes "not found"))

-- writeManagedServiceNotFound
unfoldable pub managed_service_not_found : Response
unfolding write_json
managed_service_not_found = write_json [] 404 (error_response (codes "managed service not found"))

-- writeInternalError
unfoldable pub internal_error : Response
unfolding write_json
internal_error = write_json [] 500 (error_response (codes "internal server error"))

unfoldable pub unauthorized : Response
unfolding write_json
unauthorized =
    write_json ((codes "WWW-Authenticate", codes "Bearer") ∷ []) 401
      (error_response (codes "unauthorized"))
