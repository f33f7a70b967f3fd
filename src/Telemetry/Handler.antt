-- ===== src/Telemetry/Handler.antt =====
-- NewHTTPHandler (internal/telemetry/http.go): the handler that wraps another with an identifier,
-- metrics and one line in the log.
pub mod Balance
use cloud_native_service_con.Base.{List, Option, [], ◌++◌, ◌∷◌, ℕ, some, none, leb, if◌then◌else◌}
use cloud_native_service_con.Text.{Str, codes}
use cloud_native_service_con.Errors.{Result, err, ok}
use cloud_native_service_con.Telemetry.Labels.{
  normalized_method, request_id, safe_route, unknown_label,
}
use cloud_native_service_con.Telemetry.Recorder.{
  ResponseWriter, Recorder, new_recorder, status_code,
}
use cloud_native_service_con.Telemetry.Metrics.{Event, request_finished, request_started}

-- The request as the handler reads it: Header.Values(RequestIDHeader), the method, and the rest.
pub record TracedRequest (R : Type 0) : Type 0 where
  pub request_ids : List Str
  pub method : Str
  pub rest : R

-- The line "Handled HTTP request", without the duration and the identifier of the trace.
pub record AccessLog : Type 0 where
  pub service : Str
  pub request_id : Str
  pub method : Str
  pub route : Str
  pub status_code : ℕ
  pub response_size : ℕ

-- What is done to spans: Start with a name and the attributes of the method and the route, SetAttributes
-- with the status, SetStatus with an error, and End.
pub data SpanEvent : Type 0 where
  span_started : (name method route : Str) → SpanEvent
  status_attribute : ℕ → SpanEvent
  span_error : Str → SpanEvent
  span_ended : SpanEvent

-- The connection and what else a handler changes, the metrics, nil or the events so far, the spans and
-- the log.
pub record Server (W : Type 0) : Type 0 where
  pub world : W
  pub metrics : Option (List Event)
  pub spans : List SpanEvent
  pub log : List AccessLog

-- The status of the span, and its end.
unfoldable pub end_span : ℕ → List SpanEvent
end_span status =
    if leb 500 status
    then span_error (codes "HTTP 5xx response") ∷ span_ended ∷ []
    else span_ended ∷ []

-- HTTPHandlerOptions, without the logger, the tracer and the propagators, and the libraries that are called:
-- strconv.Itoa, Header().Set, and the writer of the connection.
pub record Options (R W : Type 0) : Type 0 where
  pub service_name : Str
  pub normalize_route : Option (TracedRequest R → Str)
  pub itoa : ℕ → Str
  pub set_header : Str → Str → W → W
  pub writer : ResponseWriter W

-- How a handler ends: it returns, or it panics, and the deferred function runs in both cases.
pub data Ending : Type 0 where
  returned panicked : Ending

unfoldable pub on_metrics : (List Event → List Event) → Option (List Event) → Option (List Event)
on_metrics f none = none
on_metrics f (some events) = some (f events)

module _ {R W : Type 0} (options : Options R W)
    (next : Str → TracedRequest R → Recorder W → Ending × Recorder W) where
  -- The label of the route; a nil normalizer gives "unknown".
  unfoldable pub route_label : TracedRequest R → Str
  unfolding safe_route
  route_label r = elim options.normalize_route [
    | none ↦ safe_route unknown_label
    | some normalize ↦ safe_route (normalize r)
  ]

  -- The deferred function, which took the time `elapsed`.
  unfoldable pub finish_request : Str → TracedRequest R → ℕ → Recorder W → Server W → Server W
  unfolding request_finished status_code route_label normalized_method on_metrics end_span
  finish_request id r elapsed recorder s =
      let method = normalized_method r.method in
      let route = route_label r in
      let status = status_code recorder in
      record {
        world = recorder.inner;
        metrics = on_metrics (request_finished options.itoa method route status elapsed) s.metrics;
        spans = s.spans ++ (status_attribute status ∷ end_span status);
        log =
            s.log
            ++ (record {
              service = options.service_name;
              request_id = id;
              method = method;
              route = route;
              status_code = status;
              response_size = recorder.bytes_written;
            }
                ∷ []);
      }

  -- The handler once it has an identifier.
  unfoldable pub serve_identified : Str → TracedRequest R → ℕ → Server W → Ending × Server W
  unfolding request_started finish_request
  serve_identified id r elapsed s =
      let method = normalized_method r.method in
      let route = route_label r in
      let started = on_metrics (request_started method route) s.metrics in
      let span = span_started (method ++ (codes " " ++ route)) method route in
      let (ending, recorder) =
        next id r (new_recorder (options.set_header (codes "X-Request-ID") id s.world)) in
      (
        ending,
        finish_request id r elapsed recorder
            (record s { metrics = started; spans = s.spans ++ (span ∷ []) }),
      )

  -- The answer without an identifier.
  unfoldable pub answer_without_id : W → W
  answer_without_id w =
      let w' =
        options.writer.write_header 500
          (options.set_header (codes "Content-Type") (codes "application/json") w) in
      (options.writer.write (codes "{\"error\":\"internal server error\"}\n") w').1

  unfoldable pub serve_result : Result Str → TracedRequest R → ℕ → Server W → Ending × Server W
  unfolding serve_identified answer_without_id
  serve_result (err e) r elapsed s = (returned, record s { world = answer_without_id s.world })
  serve_result (ok id) r elapsed s = serve_identified id r elapsed s

  -- The http.Handler; `random` is what rand.Read gives if it is called.
  unfoldable pub serve_telemetry :
      Result (List ℕ) → TracedRequest R → ℕ → Server W → Ending × Server W
  unfolding serve_result request_id
  serve_telemetry random r elapsed s = serve_result (request_id random r.request_ids) r elapsed s
