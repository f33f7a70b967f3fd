-- ===== src/Commands/Public/Logged.antt =====
-- What the telemetry tells of an answer of the API, and what the client gets of it.
use cloud_native_service_con.Base.{
  append_assoc, List, Option, [], ◌∷◌, ◌++◌, ◌≡◌, ◌≢◌, ◌==◌, ◌+◌, ℕ, none, some, refl, arith, false,
  Bool-cases, ap, inl, inr, leb, ◌/◌, ◌<◌, ◌≤◌, ◌⊎◌,
}
use cloud_native_service_con.Text.{Str, codes}
use cloud_native_service_con.Errors.{Result, ok}
use cloud_native_service_con.ControlPlaneApi.Http.{Payload, Request, Response}
use cloud_native_service_con.ControlPlaneApi.Requests.{normalize_route}
use cloud_native_service_con.ControlPlaneApi.Handler.{ApiHandler, Libraries, serve_http}
use cloud_native_service_con.ControlPlaneApi.Handler.Answers.{SetsStatus, serve_http-HasStatus}
use cloud_native_service_con.Telemetry.Labels.{normalized_method, request_id, safe_route}
use cloud_native_service_con.Telemetry.Metrics.{
  Event, request_finished, request_started, in_flight_dec, in_flight_inc, request_duration,
  request_total,
}
use cloud_native_service_con.Telemetry.Recorder.{
  new_recorder, recorder_write, recorder_write_header, status_code, write_body,
}
use cloud_native_service_con.Telemetry.Handler.{
  Server, TracedRequest, finish_request, on_metrics, route_label, serve_identified, serve_result,
  serve_telemetry, end_span, span_started, status_attribute, SpanEvent, span_ended, span_error,
}
use cloud_native_service_con.Commands.Api.{api_service_name}
use cloud_native_service_con.Commands.Public.{
  Connection, api_next, api_options, send, send_body, set_headers,
}

-- The end of a span: with an error exactly from the status 500 on.
abbrev pub EndsSpan : ℕ → List SpanEvent → Type 0
EndsSpan status ending =
    ((500 ≤ status) × (ending ≡ span_error (codes "HTTP 5xx response") ∷ span_ended ∷ []))
    ⊎ ((status < 500) × (ending ≡ span_ended ∷ []))

end_span-EndsSpan : (status : ℕ) → EndsSpan status (end_span status)
unfolding end_span
end_span-EndsSpan status = elim (Bool-cases (leb 500 status)) [
  | inl failed ↦ rw failed (inl (ground arith, refl))
  | inr fine ↦ rw fine (inr (ground arith, refl))
]

module _ {K : Type 0} (connection : Connection K) where
  -- An answer on the connection itself: how many bytes of the body it took, and its state.
  unfoldable pub sent_body : Option Payload → K → ℕ × K
  sent_body none k = (0, k)
  sent_body (some payload) k =
      let (answer, k') = connection.writer.write (connection.encode payload) k in (answer.0, k')

  abbrev pub sent : Response → K → ℕ × K
  sent answer k =
      sent_body answer.body
        (connection.writer.write_header answer.status (set_headers connection answer.headers k))

  send_body_lem :
      {W : Type 0} (payload : Option Payload) (status : ℕ) (w : W) (k : K)
      → status ≢ 0
      → send_body connection payload (record { status = status; bytes_written = 0; inner = (w, k) })
        ≡ record {
          status = status;
          bytes_written = (sent_body payload k).0;
          inner = (w, (sent_body payload k).1);
        }
  unfolding send_body sent_body recorder_write write_body recorder_write_header
  send_body_lem none status w k set = refl
  send_body_lem (some payload) status w k set =
      let nonzero : (status == 0) ≡ false = ground arith in
      let taken : ℕ = (connection.writer.write (connection.encode payload) k).0.0 in
      let whole : 0 + taken ≡ taken = omega arith in rw nonzero (rw whole refl)

  send_lem :
      {W : Type 0} (answer : Response) (w : W) (k : K)
      → answer.status ≢ 0
      → send connection answer (new_recorder (w, k)) ≡ record {
        status = answer.status;
        bytes_written = (sent answer k).0;
        inner = (w, (sent answer k).1);
      }
  unfolding send recorder_write_header
  send_lem answer w k set = send_body_lem answer.body answer.status w _ set

  module _ {B W : Type 0} (lib : Libraries B) (h : ApiHandler W) where
    -- What a request with this identifier does: the store is as the handler leaves it, the client gets
    -- the answer of the handler after the identifier, and the metrics, the log and one span tell its
    -- status and the label of its route, and the log its size.
    pub record IsLogged (id : Str) (r : TracedRequest (Request B)) (elapsed : ℕ)
        (s : Server (W × K)) (events : List Event) (s' : Server (W × K)) : Type 0 where
      pub answer : Response
      pub answers : (serve_http lib h r.rest s.world.0).0 ≡ answer
      pub has_status : answer.status ≢ 0
      pub store : s'.world.0 ≡ (serve_http lib h r.rest s.world.0).1
      pub client :
          s'.world.1 ≡ (sent answer (connection.set_header (codes "X-Request-ID") id s.world.1)).1
      pub counted :
          s'.metrics
          ≡ some (
              events
              ++ (in_flight_inc
                    (normalized_method r.method)
                    (safe_route (normalize_route r.rest.path))
                  ∷ in_flight_dec
                      (normalized_method r.method)
                      (safe_route (normalize_route r.rest.path))
                  ∷ request_total
                      (normalized_method r.method)
                      (safe_route (normalize_route r.rest.path))
                      (connection.itoa (answer.status / 100) ++ codes "xx")
                  ∷ request_duration
                      (normalized_method r.method)
                      (safe_route (normalize_route r.rest.path))
                      (connection.itoa (answer.status / 100) ++ codes "xx")
                      elapsed
                  ∷ []))
      pub logged :
          s'.log
          ≡ s.log
            ++ (record {
              service = api_service_name;
              request_id = id;
              method = normalized_method r.method;
              route = safe_route (normalize_route r.rest.path);
              status_code = answer.status;
              response_size =
                  (sent answer (connection.set_header (codes "X-Request-ID") id s.world.1)).0;
            }
                ∷ [])
      pub ending : List SpanEvent
      pub ended : EndsSpan answer.status ending
      pub traced :
          let method = normalized_method r.method in
          let route = safe_route (normalize_route r.rest.path) in
          s'.spans
          ≡ s.spans
            ++ (span_started (method ++ (codes " " ++ route)) method route
                ∷ status_attribute answer.status
                ∷ ending)

    -- If the answers of http.ServeMux set a status and a request gets an identifier, then behind the
    -- telemetry the store is as the handler of the API leaves it, the client gets the identifier and the
    -- answer of the handler, and one line of the log and one span, which is ended, with an error exactly
    -- if the status is 500 or more, tell exactly the status of this answer, and one count its class, under
    -- the label of the route.
    pub serve_telemetry-IsLogged :
        (random : Result (List ℕ)) (id : Str) (r : TracedRequest (Request B)) (elapsed : ℕ)
        (s : Server (W × K)) (events : List Event)
        → SetsStatus lib.mux
        → request_id random r.request_ids ≡ ok id
        → s.metrics ≡ some events
        → IsLogged id r elapsed s events
            (serve_telemetry
              (api_options connection)
              (api_next connection lib h)
              random
              r
              elapsed
              s).1
    unfolding serve_telemetry serve_result serve_identified finish_request on_metrics route_label
        status_code api_next api_options request_started request_finished
    serve_telemetry-IsLogged random id r elapsed s events sets identified measured =
        let (w, k) = s.world in
        let (answer, w') = serve_http lib h r.rest w in
        let set : answer.status ≢ 0 = serve_http-HasStatus lib h r.rest w sets in
        let nonzero : (answer.status == 0) ≡ false = ground arith in
        let done = send_lem answer w' (connection.set_header (codes "X-Request-ID") id k) set in
        rw (identified, measured)
          (record {
            answer = answer;
            answers = refl;
            has_status = set;
            store = rw done refl;
            client = rw done refl;
            counted = rw (done, nonzero) (ap some (append_assoc events _ _));
            logged = rw (done, nonzero) refl;
            ending = end_span answer.status;
            ended = end_span-EndsSpan answer.status;
            traced = rw (done, nonzero) (append_assoc s.spans _ _);
          })
