-- ===== src/Commands/Served.antt =====
-- What it means that a command returns nil.
use cloud_native_service_con.Base.{All, List, Option, ◌≡◌, map, none, refl, some, sym, true, ℕ, ◌∙◌}
use cloud_native_service_con.Text.{Str}
use cloud_native_service_con.Errors.{Error, Result, err, ok}
use cloud_native_service_con.Telemetry.Listeners.{NamedServer, Network, prepare}
use cloud_native_service_con.Telemetry.Shutdown.{Event, Run, System, finished, start}
use cloud_native_service_con.Telemetry.Shutdown.Verdict.{IsQuiet, finished-verdict}
use cloud_native_service_con.Telemetry.Tracing.{TraceRuntime}
use cloud_native_service_con.Commands.{after_attempt, after_tracing, finish_run}

abbrev pub names_of : List NamedServer → List Str
names_of = map (λ (spec : NamedServer). spec.name)

-- What ServeUntilShutdown does with these servers: an error of the listeners, or listeners for all of
-- them and a run of the goroutines to its end, whose error is returned.
pub data Serves {W : Type 0} (network : Network W) (servers : List NamedServer) (w : W)
    (result : Option Error) : Type 0 where
  not_prepared :
      (e : Error)
      → (prepare network servers w).0 ≡ err e
      → result ≡ some e
      → Serves network servers w result
  ended :
      (listeners : List ℕ) (es : List Event) (t : System)
      → (prepare network servers w).0 ≡ ok listeners
      → Run (start (names_of servers)) es t
      → t.phase ≡ finished
      → result ≡ t.result_err
      → Serves network servers w result

-- All servers had their listeners, and they ran until the context had ended and nothing went wrong.
pub record ServedQuietly {W : Type 0} (network : Network W) (servers : List NamedServer) (w : W)
    : Type 0 where
  pub listeners : List ℕ
  pub prepared : (prepare network servers w).0 ≡ ok listeners
  pub events : List Event
  pub end : System
  pub run : Run (start (names_of servers)) events end
  pub quiet : All IsQuiet events
  pub cancelled : end.cancelled ≡ true

pub Serves-ServedQuietly :
    {W : Type 0} (network : Network W) (servers : List NamedServer) (w : W) (result : Option Error)
    → result ≡ none
    → Serves network servers w result
    → ServedQuietly network servers w
Serves-ServedQuietly network servers w result nil (not_prepared e p r) = cc
Serves-ServedQuietly network servers w result nil (ended listeners es t p run f same) =
    let (quiet, cancelled) = (finished-verdict (names_of servers) run f).0 (sym same ∙ nil) in
    record {
      listeners = listeners;
      prepared = p;
      events = es;
      end = t;
      run = run;
      quiet = quiet;
      cancelled = cancelled;
    }

-- What follows from a step that the command got past.
pub got_past :
    {W V C : Type 0} (prefix : Str) (rest : V → W → Option Error × W) (step : Result V × W)
    → (after_attempt prefix step rest).0 ≡ none
    → ((value : V) (w : W) → step ≡ (ok value, w) → (rest value w).0 ≡ none → C)
    → C
unfolding after_attempt
got_past prefix rest (err e, w) h next = cc
got_past prefix rest (ok value, w) h next = next value w refl h

after_tracing_inv :
    (serve_err shutdown_err : Option Error)
    → after_tracing serve_err shutdown_err ≡ none
    → (serve_err ≡ none) × (shutdown_err ≡ none)
unfolding after_tracing
after_tracing_inv serve_err none h = (h, refl)
after_tracing_inv serve_err (some e) h = cc

pub finish_run_inv :
    {W Provider : Type 0} (runtime : TraceRuntime W Provider) (served : Option Error × W)
    → (finish_run runtime served).0 ≡ none
    → (served.0 ≡ none) × ((runtime.shutdown served.1).0 ≡ none)
unfolding finish_run
finish_run_inv runtime served h = after_tracing_inv served.0 (runtime.shutdown served.1).0 h
