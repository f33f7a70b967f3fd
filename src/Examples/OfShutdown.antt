-- ===== src/Examples/OfShutdown.antt =====
-- Listeners and the shutdown on sample servers.
use cloud_native_service_con.Base.{
  Bool, List, [], ◌∷◌, ◌≡◌, ◌≤◌, ◌+◌, ◌*◌, inl, ◌==◌, ◌||◌, ◌&&◌, not, ltb, none, some, refl, true,
  false, ℕ, arith, length,
}
use cloud_native_service_con.Text.{Str, codes}
use cloud_native_service_con.Errors.{
  Error, Result, err, ok, external, server_closed, is_server_closed,
}
use cloud_native_service_con.Telemetry.Listeners.{NamedServer, Network, prepare}
use cloud_native_service_con.Telemetry.Listeners.Released.{
  IsReleased, NetworkLaws, prepare-IsReleased,
}
use cloud_native_service_con.Telemetry.Shutdown.{
  next_result, real_failure, after_shutdown, Event, Run, ServerResult, System, finished, here,
  start, started, cancels, returns_shut, sees_cancel, shuts_down, takes_next, finishes, no_step,
  then_step, cancel, returned, cancel_seen, shut_down, next_taken, finish,
}
use cloud_native_service_con.Telemetry.Shutdown.Accounts.{IsComplete, finished-IsComplete}
use cloud_native_service_con.Telemetry.Shutdown.Ends.{CanFinish, Run-CanFinish, Run-bounded}

-- Listeners are numbered, and an address that is empty is in use.
record SampleNetwork : Type 0 where
  next : ℕ
  opened : ℕ → Bool

abbrev in_use : Error
in_use = external 98 (codes "address already in use")

abbrev listening : SampleNetwork → SampleNetwork
listening w = record { next = w.next + 1; opened = λ j. w.next == j || w.opened j }

unfoldable sample_listen : Str → SampleNetwork → Result ℕ × SampleNetwork
sample_listen [] w = (err in_use, w)
sample_listen (c ∷ address) w = (ok w.next, listening w)

unfoldable sample_network : Network SampleNetwork
unfolding sample_listen
sample_network = record {
  listen = sample_listen;
  close = λ l w. record w { opened = λ j. not (l == j) && w.opened j };
}

abbrev sample_is_open : SampleNetwork → ℕ → Bool
sample_is_open w j = ltb j w.next && w.opened j

listen_fresh :
    (a : Str) (w : SampleNetwork) (l : ℕ)
    → (sample_listen a w).0 ≡ ok l
    → sample_is_open w l ≡ false
unfolding sample_listen
listen_fresh [] w l h = cc
listen_fresh (c ∷ a) w l h = let same : w.next ≡ l = cc in ground (arith, same)

listen_opens :
    (a : Str) (w : SampleNetwork) (l j : ℕ)
    → (sample_listen a w).0 ≡ ok l
    → sample_is_open (sample_listen a w).1 j ≡ ((l == j) || sample_is_open w j)
unfolding sample_listen
listen_opens [] w l j h = cc
listen_opens (c ∷ a) w l j h = let same : w.next ≡ l = cc in ground (arith, same)

listen_fails :
    (a : Str) (w : SampleNetwork) (e : Error) (j : ℕ)
    → (sample_listen a w).0 ≡ err e
    → sample_is_open (sample_listen a w).1 j ≡ sample_is_open w j
unfolding sample_listen
listen_fails [] w e j h = refl
listen_fails (c ∷ a) w e j h = cc

sample_network-Laws : NetworkLaws sample_network
unfolding sample_network
sample_network-Laws = record {
  is_open = sample_is_open;
  listen_fresh = listen_fresh;
  listen_opens = listen_opens;
  listen_fails = listen_fails;
  closes = λ l j w. ground arith;
}

abbrev sample_servers : List NamedServer
sample_servers =
    record { name = codes "public"; address = some (codes ":8080") }
    ∷ record { name = codes "metrics"; address = some [] }
    ∷ []

abbrev quiet_network : SampleNetwork
quiet_network = record { next = 0; opened = λ j. false }

prepare-IsReleased_example :
    IsReleased sample_network sample_network-Laws quiet_network 2
      (prepare sample_network sample_servers quiet_network)
prepare-IsReleased_example =
    prepare-IsReleased sample_network sample_network-Laws sample_servers quiet_network

abbrev sample_names : List Str
sample_names = codes "public" ∷ []

abbrev closed_result : ServerResult
closed_result = record { name = codes "public"; failure = some server_closed }

abbrev sample_events : List Event
sample_events =
    finish
    ∷ next_taken closed_result
    ∷ returned closed_result
    ∷ shut_down (codes "public") none none
    ∷ cancel_seen
    ∷ cancel
    ∷ []

abbrev sample_end : System
sample_end = record {
  shut = record { name = codes "public"; serving = false } ∷ [];
  pending = [];
  channel = [];
  received = 1;
  cancelled = true;
  phase = finished;
  result_err = none;
}

sample_run : Run (start sample_names) sample_events sample_end
unfolding start is_server_closed next_result real_failure after_shutdown
sample_run =
    then_step
      (then_step
        (then_step
          (then_step (then_step (then_step no_step (cancels refl)) (sees_cancel refl refl))
            (shuts_down (started (codes "public")) [] none none refl refl))
          (returns_shut (here (codes "public") (some server_closed) [])))
        (takes_next closed_result [] refl refl (omega arith) refl))
      (finishes refl refl (omega arith))

finished-IsComplete_example : IsComplete sample_names sample_end
finished-IsComplete_example = finished-IsComplete sample_names sample_run refl

Run-bounded_example : length sample_events ≤ 3 * length sample_names + 3
Run-bounded_example = Run-bounded sample_names sample_run

Run-CanFinish_example : CanFinish sample_end
Run-CanFinish_example = Run-CanFinish sample_names sample_run (inl refl)
