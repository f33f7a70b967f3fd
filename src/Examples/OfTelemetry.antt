-- ===== src/Examples/OfTelemetry.antt =====
-- Request telemetry and the token file on sample inputs.
use cloud_native_service_con.Base.{
  List, [], ◌∷◌, ◌++◌, ◌≡◌, ◌≢◌, ◌↔◌, length, none, some, refl, subst, ℕ, arith,
}
use cloud_native_service_con.Text.{Str, codes}
use cloud_native_service_con.Text.Hex.{encode_hex}
use cloud_native_service_con.Errors.{Result, ok}
use cloud_native_service_con.ControlPlaneApi.Config.{load_token}
use cloud_native_service_con.ControlPlaneApi.Config.Token.{HoldsToken, IsToken, load_token_iff}
use cloud_native_service_con.Telemetry.Labels.{normalized_method, request_id, safe_route}
use cloud_native_service_con.Telemetry.Labels.Bounded.{
  ComesFrom, IsIdentifier, IsRequestId, labels-Bounded, request_id-IsRequestId,
}
use cloud_native_service_con.Telemetry.Recorder.{
  Recorder, ResponseWriter, new_recorder, recorder_write,
}
use cloud_native_service_con.Telemetry.Recorder.Once.{
  Call, HasWritten, bodies, body, count_all, first_status, header, run, run-HasWritten, write_all,
}
use cloud_native_service_con.Telemetry.Handler.{
  Ending, Options, Server, TracedRequest, panicked, serve_telemetry,
}
use cloud_native_service_con.Telemetry.Handler.Balance.{serve_telemetry-IsBalanced, Recorded}
use cloud_native_service_con.Telemetry.Labels.Shown.{RouteShown, MethodShown}

abbrev sample_bytes : List ℕ
sample_bytes = 0 ∷ 1 ∷ 2 ∷ 3 ∷ 4 ∷ 5 ∷ 6 ∷ 7 ∷ 8 ∷ 9 ∷ 171 ∷ 205 ∷ 239 ∷ 254 ∷ 255 ∷ 16 ∷ []

sample_bytes-IsIdentifier : IsIdentifier sample_bytes
sample_bytes-IsIdentifier = record { sixteen = refl; small = omega arith }

sample_random-fair : (bytes : List ℕ) → ok sample_bytes ≡ ok bytes → IsIdentifier bytes
sample_random-fair bytes e =
    let same : sample_bytes ≡ bytes = cc in subst IsIdentifier same sample_bytes-IsIdentifier

request_id-IsRequestId_example :
    (request_id (ok sample_bytes) (codes "bad id" ∷ []) ≡ ok (encode_hex sample_bytes)) ↔ (
      IsRequestId (encode_hex sample_bytes)
      × ComesFrom (ok sample_bytes) (codes "bad id" ∷ []) (encode_hex sample_bytes))
request_id-IsRequestId_example =
    request_id-IsRequestId (ok sample_bytes) (codes "bad id" ∷ []) (encode_hex sample_bytes)
      sample_random-fair

labels-Bounded_example :
    RouteShown (codes "/api/v1") (safe_route (codes "/api/v1"))
    × MethodShown (codes "BREW") (normalized_method (codes "BREW"))
labels-Bounded_example = labels-Bounded (codes "/api/v1") (codes "BREW")

-- The connection is the list of what it took.
unfoldable sample_writer : ResponseWriter (List Str)
sample_writer = record {
  write_header = λ code w. w ++ ((code ∷ []) ∷ []);
  write = λ s w. ((length s, none), w ++ (s ∷ []));
}

abbrev sample_calls : List Call
sample_calls = header 500 ∷ body (codes "b") ∷ []

second_header_ignored :
    (run sample_writer (header 404 ∷ sample_calls) (new_recorder [])).inner
    ≡ (404 ∷ []) ∷ codes "b" ∷ []
unfolding run sample_writer recorder_write
second_header_ignored = refl

run-HasWritten_example :
    HasWritten sample_writer
      (run sample_writer (body (codes "a") ∷ sample_calls) (new_recorder []))
      200
      2
      ((200 ∷ []) ∷ codes "a" ∷ codes "b" ∷ [])
unfolding run sample_writer recorder_write bodies count_all write_all first_status
run-HasWritten_example =
    run-HasWritten sample_writer (body (codes "a")) sample_calls []
      (tt, ((λ e. omega (arith, e)), (tt, tt)))

sample_options : Options Str (List Str)
sample_options = record {
  service_name = codes "demo-http";
  normalize_route = some (λ r. r.rest);
  itoa = λ n. n ∷ [];
  set_header = λ key value w. w;
  writer = sample_writer;
}

sample_next : Str → TracedRequest Str → Recorder (List Str) → Ending × Recorder (List Str)
sample_next id r recorder = (panicked, recorder)

abbrev sample_traced : TracedRequest Str
sample_traced = record { request_ids = []; method = codes "GET"; rest = codes "/healthz" }

abbrev sample_server : Server (List Str)
sample_server = record { world = []; metrics = some []; spans = []; log = [] }

serve_telemetry-IsBalanced_example :
    Recorded
      (request_id (ok sample_bytes) sample_traced.request_ids)
      []
      sample_server
      (serve_telemetry sample_options sample_next (ok sample_bytes) sample_traced 7 sample_server).1
serve_telemetry-IsBalanced_example =
    serve_telemetry-IsBalanced sample_options sample_next (ok sample_bytes) sample_traced 7
      sample_server [] refl

abbrev sample_token : Str
sample_token = codes "0123456789abcdef0123456789abcdef"

sample_files : Str → Result Str
sample_files path = ok (sample_token ++ codes "\r\n")

load_token_iff_example : (load_token sample_files (codes "/run/token") ≡ ok sample_token) ↔ (
    (codes "/run/token" ≢ [])
    × ((contents : Str) × (sample_files (codes "/run/token") ≡ ok contents)
        × HoldsToken contents sample_token)
    × IsToken sample_token)
load_token_iff_example = load_token_iff sample_files (codes "/run/token") sample_token
