-- ===== src/Commands/Public.antt =====
-- The public handler of cmd/control-plane-api/main.go: telemetry.NewHTTPHandler around the handler of the
-- API, with the options that run gives it. The state is that behind the store, and the connection.
pub mod Logged
use cloud_native_service_con.Base.{List, Option, [], ◌∷◌, ℕ, none, some}
use cloud_native_service_con.Text.{Str}
use cloud_native_service_con.ControlPlaneApi.Http.{Payload, Request, Response}
use cloud_native_service_con.ControlPlaneApi.Requests.{normalize_route}
use cloud_native_service_con.ControlPlaneApi.Handler.{ApiHandler, Libraries, serve_http}
use cloud_native_service_con.Telemetry.Recorder.{
  Recorder, ResponseWriter, recorder_write, recorder_write_header,
}
use cloud_native_service_con.Telemetry.Handler.{Ending, Options, TracedRequest}
use cloud_native_service_con.Commands.Api.{api_service_name}

-- The connection, a library: Header().Set, its writer, and the text that json.Encoder writes for a value,
-- in one call of Write.
pub record Connection (K : Type 0) : Type 0 where
  pub set_header : Str → Str → K → K
  pub writer : ResponseWriter K
  pub encode : Payload → Str
  pub itoa : ℕ → Str

module _ {K : Type 0} (connection : Connection K) where
  unfoldable pub set_headers : List (Str × Str) → K → K
  set_headers [] k = k
  set_headers ((name, value) ∷ headers) k = set_headers headers (connection.set_header name value k)

  -- The writer where the state has another part.
  abbrev pub beside : (W : Type 0) → ResponseWriter (W × K)
  beside W = record {
    write_header = λ code (w, k). (w, connection.writer.write_header code k);
    write = λ body (w, k). let (answer, k') = connection.writer.write body k in (answer, (w, k'));
  }

  unfoldable pub send_body : {W : Type 0} → Option Payload → Recorder (W × K) → Recorder (W × K)
  unfolding recorder_write
  send_body none recorder = recorder
  send_body {W} (some payload) recorder =
      (recorder_write (beside W) (connection.encode payload) recorder).1

  -- writeJSON through the recorder: the header lines, the status, and the body
  unfoldable pub send : {W : Type 0} → Response → Recorder (W × K) → Recorder (W × K)
  unfolding send_body set_headers recorder_write_header
  send {W} answer recorder =
      let (w, k) = recorder.inner in
      send_body answer.body (
        recorder_write_header (beside W) answer.status
          (record recorder { inner = (w, set_headers answer.headers k) }))

  module _ {B W : Type 0} (lib : Libraries B) (h : ApiHandler W) where
    -- next.ServeHTTP(recorder, request)
    unfoldable pub api_next :
        Str → TracedRequest (Request B) → Recorder (W × K) → Ending × Recorder (W × K)
    unfolding send serve_http
    api_next id r recorder =
        let (w, k) = recorder.inner in
        let (answer, w') = serve_http lib h r.rest w in
        (Ending.returned, send answer (record recorder { inner = (w', k) }))

  -- HTTPHandlerOptions of run
  unfoldable pub api_options : {B W : Type 0} → Options (Request B) (W × K)
  unfolding normalize_route
  api_options {B} {W} = record {
    service_name = api_service_name;
    normalize_route = some (λ r. normalize_route r.rest.path);
    itoa = connection.itoa;
    set_header = λ name value (w, k). (w, connection.set_header name value k);
    writer = beside W;
  }
