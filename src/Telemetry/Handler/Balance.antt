-- ===== src/Telemetry/Handler/Balance.antt =====
-- Every request leaves the metrics in balance.
use cloud_native_service_con.Base.{
  ◌/◌, inl, inr, List, [], ◌∷◌, ℕ, ◌+◌, ◌&&◌, if◌then◌else◌, arith, refl, some, ◌++◌, ◌≡◌, ◌⊎◌,
}
use cloud_native_service_con.Text.{Str, codes, eq_str}
use cloud_native_service_con.Errors.{Result, Result-cases, Error, err, ok}
use cloud_native_service_con.Telemetry.Labels.{request_id}
use cloud_native_service_con.Telemetry.Recorder.{Recorder}
use cloud_native_service_con.Telemetry.Metrics.{
  Event, in_flight_inc, in_flight_dec, request_total, request_duration, request_finished,
  request_started,
}
use cloud_native_service_con.Telemetry.Handler.{
  Options, Server, TracedRequest, Ending, serve_telemetry, serve_result, serve_identified,
  finish_request, on_metrics, AccessLog,
}

-- What an event adds to: the rises and the falls of the gauge of these labels, the counted requests
-- and the observed durations.
unfoldable pub raises : Str → Str → Event → ℕ
unfolding eq_str
raises method route (in_flight_inc m r) = if eq_str m method && eq_str r route then 1 else 0
raises method route _ = 0

unfoldable pub lowers : Str → Str → Event → ℕ
unfolding eq_str
lowers method route (in_flight_dec m r) = if eq_str m method && eq_str r route then 1 else 0
lowers method route _ = 0

unfoldable pub counts : Event → ℕ
counts (request_total m r c) = 1
counts _ = 0

unfoldable pub observes : Event → ℕ
observes (request_duration m r c t) = 1
observes _ = 0

unfoldable pub tally : (Event → ℕ) → List Event → ℕ
tally weight [] = 0
tally weight (e ∷ events) = weight e + tally weight events

tally-append :
    (weight : Event → ℕ) (xs ys : List Event)
    → tally weight (xs ++ ys) ≡ tally weight xs + tally weight ys
unfolding tally
tally-append weight [] ys = omega arith
tally-append weight (e ∷ xs) ys = omega (arith, tally-append weight xs ys)

-- Between two lists of events, every gauge stands where it stood, and one request was counted and one
-- duration observed.
pub record IsBalanced (before after : List Event) : Type 0 where
  pub gauge :
      (method route : Str)
      → tally (raises method route) after + tally (lowers method route) before
        ≡ tally (lowers method route) after + tally (raises method route) before
  pub counted : tally counts after ≡ tally counts before + 1
  pub observed : tally observes after ≡ tally observes before + 1

request_finished-IsBalanced :
    (itoa : ℕ → Str) (method route : Str) (status time : ℕ) (events : List Event)
    → IsBalanced events
        (request_finished itoa method route status time (request_started method route events))
unfolding request_finished request_started tally raises lowers counts observes
request_finished-IsBalanced itoa method route status time events = record {
  gauge = λ m r. omega (arith, total (raises m r), total (lowers m r));
  counted = omega (arith, total counts);
  observed = omega (arith, total observes);
}
  where
    class : Str
    class = itoa (status / 100) ++ codes "xx"

    total :
        (weight : Event → ℕ)
        → tally weight
            (request_finished itoa method route status time (request_started method route events))
          ≡ tally weight events
            + (weight (in_flight_inc method route)
                + (weight (in_flight_dec method route)
                    + (weight (request_total method route class)
                        + weight (request_duration method route class time))))
    total weight = omega (
      arith,
      tally-append weight (events ++ (in_flight_inc method route ∷ [])) (
          in_flight_dec method route
          ∷ request_total method route class
          ∷ request_duration method route class time
          ∷ []),
      tally-append weight events (in_flight_inc method route ∷ []),
    )

-- What a request did to the metrics and the log, by what came of its identifier: with one, it is
-- counted, observed and logged once; without, nothing happens to them.
abbrev pub Recorded : {W : Type 0} → Result Str → List Event → (before after : Server W) → Type 0
Recorded identifier events before after =
    ((id : Str) × (identifier ≡ ok id)
      × ((told : List Event) × (after.metrics ≡ some told) × IsBalanced events told)
      × ((line : AccessLog) × (after.log ≡ before.log ++ (line ∷ [])) × (line.request_id ≡ id)))
    ⊎ ((failure : Error) × (identifier ≡ err failure)
        × (after.metrics ≡ some events)
        × (after.log ≡ before.log))

module _ {R W : Type 0} (options : Options R W)
    (next : Str → TracedRequest R → Recorder W → Ending × Recorder W) where
  -- Whatever the wrapped handler does, and also if it panics, a request that gets an identifier leaves
  -- every gauge of requests in flight where it stood and adds exactly one counted request, one observed
  -- duration, and one line of the log, with that identifier; a request for which no identifier could be
  -- made changes neither the metrics nor the log.
  pub serve_telemetry-IsBalanced :
      (random : Result (List ℕ)) (r : TracedRequest R) (elapsed : ℕ) (s : Server W)
      (events : List Event)
      → s.metrics ≡ some events
      → Recorded
          (request_id random r.request_ids)
          events
          s
          (serve_telemetry options next random r elapsed s).1
  unfolding serve_telemetry serve_result serve_identified finish_request on_metrics
  serve_telemetry-IsBalanced random r elapsed s events h =
      elim (Result-cases (request_id random r.request_ids)) [
        | inl (id, e) ↦
            rw (e, h)
              (inl (
                id,
                refl,
                (_, refl, request_finished-IsBalanced options.itoa _ _ _ elapsed events),
                (_, refl, refl),
              ))
        | inr (failure, e) ↦ rw (e, h) (inr (failure, refl, refl, refl))
      ]
