-- ===== src/Telemetry/Labels.antt =====
-- Request identifiers and metric labels (internal/telemetry/http.go): requestID, validRequestID,
-- safeRoute and normalizedMethod.
pub mod Bounded
pub mod Shown
use cloud_native_service_con.Base.{
  Bool, List, [], all, any, if◌then◌else◌, leb, length, ltb, not, ◌&&◌, ◌||◌, ◌∷◌, ℕ,
}
use cloud_native_service_con.Text.{Str, codes, contains_byte, eq_str}
use cloud_native_service_con.Text.Hex.{encode_hex}
use cloud_native_service_con.Errors.{Result, err, ok, wrap, wrap_err}

abbrev pub max_request_id_length : ℕ
max_request_id_length = 64

abbrev pub unknown_label : Str
unknown_label = codes "unknown"

-- The test of the loop in validRequestID.
unfoldable pub is_request_id_byte : ℕ → Bool
unfolding contains_byte
is_request_id_byte c =
    (leb b'a' c && leb c b'z')
    || ((leb b'A' c && leb c b'Z')
        || ((leb b'0' c && leb c b'9') || contains_byte (codes "-_.:") c))

unfoldable pub valid_request_id : Str → Bool
unfolding eq_str is_request_id_byte
valid_request_id value =
    not (eq_str value [] || ltb max_request_id_length (length value))
    && all is_request_id_byte value

-- `random` is what rand.Read gave for sixteen bytes.
unfoldable pub generated_id : Result (List ℕ) → Result Str
unfolding encode_hex wrap_err
generated_id (ok identifier) = ok (encode_hex identifier)
generated_id (err e) = err (wrap (codes "generate request ID") e)

-- requestID, on the values of the header X-Request-ID
unfoldable pub request_id : Result (List ℕ) → List Str → Result Str
unfolding valid_request_id generated_id
request_id random (value ∷ []) = if valid_request_id value then ok value else generated_id random
request_id random _ = generated_id random

-- The test of the loop in safeRoute.
unfoldable pub is_route_byte : ℕ → Bool
is_route_byte c = not (leb c 0x20 || leb 0x7F c)

unfoldable pub safe_route : Str → Str
unfolding eq_str is_route_byte
safe_route route =
    if eq_str route [] || ltb 128 (length route)
    then unknown_label
    else if all is_route_byte route
    then route
    else unknown_label

abbrev pub http_methods : List Str
http_methods =
    codes "CONNECT"
    ∷ codes "DELETE"
    ∷ codes "GET"
    ∷ codes "HEAD"
    ∷ codes "OPTIONS"
    ∷ codes "PATCH"
    ∷ codes "POST"
    ∷ codes "PUT"
    ∷ codes "TRACE"
    ∷ []

abbrev pub other_method : Str
other_method = codes "OTHER"

unfoldable pub normalized_method : Str → Str
unfolding eq_str
normalized_method method = if any (eq_str method) http_methods then method else other_method
