-- ===== src/Telemetry/Metrics.antt =====
-- HTTPMetrics (internal/telemetry/metrics.go). The collectors are Prometheus'; what the program does
-- to them is a sequence of events, one for each call of Inc, Dec and Observe.
use cloud_native_service_con.Base.{List, [], ◌++◌, ◌∷◌, ◌/◌, ℕ}
use cloud_native_service_con.Text.{Str, codes}

pub data Event : Type 0 where
  -- requestsInFlight.WithLabelValues(method, route).Inc(), and .Dec()
  in_flight_inc : (method route : Str) → Event
  in_flight_dec : (method route : Str) → Event
  -- requestsTotal.WithLabelValues(method, route, class).Inc()
  request_total : (method route status_class : Str) → Event
  -- requestDuration.WithLabelValues(method, route, class).Observe(time)
  request_duration : (method route status_class : Str) → ℕ → Event

-- requestStarted
unfoldable pub request_started : Str → Str → List Event → List Event
request_started method route events = events ++ (in_flight_inc method route ∷ [])

-- requestFinished; `itoa` is strconv.Itoa
unfoldable pub request_finished : (ℕ → Str) → Str → Str → ℕ → ℕ → List Event → List Event
request_finished itoa method route status time events =
    let status_class = itoa (status / 100) ++ codes "xx" in
    events
    ++ (in_flight_dec method route
        ∷ request_total method route status_class
        ∷ request_duration method route status_class time
        ∷ [])
