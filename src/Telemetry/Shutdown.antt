-- ===== src/Telemetry/Shutdown.antt =====
-- The second part of ServeUntilShutdown (internal/telemetry/server.go): one goroutine for each server,
-- the channel of their results, and the main goroutine, which waits, shuts all servers down and
-- collects the results. A step is one action of one goroutine, or of the context.
pub mod Accounts
pub mod Ends
pub mod Verdict
use cloud_native_service_con.Base.{
  Bool, List, Option, [], ◌++◌, ◌∷◌, ◌≡◌, ◌+◌, ◌<◌, ◌≤◌, ℕ, none, some, if◌then◌else◌, true, false,
  length,
}
use cloud_native_service_con.Text.{Str, codes}
use cloud_native_service_con.Errors.{Error, errorf, is_server_closed, join, wrap}

-- serverResult
pub record ServerResult : Type 0 where
  pub name : Str
  pub failure : Option Error

-- A server and its goroutine: whether it is in Serve, or has sent its result.
pub record Server : Type 0 where
  pub name : Str
  pub serving : Bool

-- The main goroutine: in the select, in the loops behind it, and returned.
pub data Phase : Type 0 where
  waiting stopping finished : Phase

-- `shut` are the servers on which Shutdown was called, in this order, and `pending` the others. The
-- channel has room for a result of each server, so that no goroutine waits to send.
pub record System : Type 0 where
  pub shut : List Server
  pub pending : List Server
  pub channel : List ServerResult
  pub received : ℕ
  pub cancelled : Bool
  pub phase : Phase
  pub result_err : Option Error

abbrev pub started : Str → Server
started name = record { name = name; serving = true }

unfoldable pub start_all : List Str → List Server
start_all [] = []
start_all (name ∷ names) = started name ∷ start_all names

-- Every goroutine was started, and nothing happened yet.
unfoldable pub start : List Str → System
unfolding start_all
start names = record {
  shut = [];
  pending = start_all names;
  channel = [];
  received = 0;
  cancelled = false;
  phase = waiting;
  result_err = none;
}

-- `result.err != nil && !errors.Is(result.err, http.ErrServerClosed)`
unfoldable pub real_failure : Option Error → Option Error
unfolding is_server_closed
real_failure none = none
real_failure (some e) = if is_server_closed e then none else some e

unfoldable pub serve_error : Str → Error → Error
serve_error name e = wrap (codes "serve " ++ (name ++ codes " HTTP")) e

-- The error after the first result, where `cancelled` is ctx.Err() != nil.
unfoldable pub first_result : Bool → Str → Option Error → Option Error
unfolding serve_error
first_result cancelled name (some e) = some (serve_error name e)
first_result true name none = none
first_result false name none = some (errorf (name ++ codes " HTTP server stopped unexpectedly"))

-- The error after another result.
unfoldable pub next_result : Str → Option Error → Option Error → Option Error
unfolding serve_error join
next_result name (some e) result_err = some (join result_err (serve_error name e))
next_result name none result_err = result_err

-- The error after Close.
unfoldable pub after_close : Str → Option Error → Option Error → Option Error
unfolding join
after_close name (some e) result_err =
    some (join result_err (wrap (codes "close " ++ (name ++ codes " HTTP server")) e))
after_close name none result_err = result_err

-- The error after Shutdown, and after Close, which is called if Shutdown failed.
unfoldable pub after_shutdown : Str → (shutdown close : Option Error) → Option Error → Option Error
unfolding join after_close
after_shutdown name none close result_err = result_err
after_shutdown name (some e) close result_err =
    after_close name close
      (some (join result_err (wrap (codes "shut down " ++ (name ++ codes " HTTP server")) e)))

-- One of the goroutines returns from Serve with an error, or nil, and sends its result.
pub data Returns : List Server → ServerResult → List Server → Type 0 where
  here :
      (name : Str) (failure : Option Error) (rest : List Server)
      → Returns
          (started name ∷ rest)
          (record { name = name; failure = failure })
          (record { name = name; serving = false } ∷ rest)
  there :
      (s : Server) {xs ys : List Server} {r : ServerResult}
      → Returns xs r ys
      → Returns (s ∷ xs) r (s ∷ ys)

-- What happened in a step.
pub data Event : Type 0 where
  cancel : Event
  returned : ServerResult → Event
  first_taken : (cancelled : Bool) → ServerResult → Event
  cancel_seen : Event
  shut_down : Str → (shutdown close : Option Error) → Event
  next_taken : ServerResult → Event
  finish : Event

pub data Step (s : System) : Event → System → Type 0 where
  -- the signal, or another end of the context
  cancels : s.cancelled ≡ false → Step s cancel (record s { cancelled = true })
  returns_pending :
      {r : ServerResult} {servers : List Server}
      → Returns s.pending r servers
      → Step s (returned r) (record s { pending = servers; channel = s.channel ++ (r ∷ []) })
  returns_shut :
      {r : ServerResult} {servers : List Server}
      → Returns s.shut r servers
      → Step s (returned r) (record s { shut = servers; channel = s.channel ++ (r ∷ []) })
  -- the select: `case result := <-results`
  takes_first :
      (r : ServerResult) (rest : List ServerResult)
      → s.phase ≡ waiting
      → s.channel ≡ r ∷ rest
      → Step s (first_taken s.cancelled r) (record s {
        channel = rest;
        received = s.received + 1;
        phase = stopping;
        result_err = first_result s.cancelled r.name (real_failure r.failure);
      })
  -- the select: `case <-ctx.Done()`
  sees_cancel :
      s.phase ≡ waiting → s.cancelled ≡ true → Step s cancel_seen (record s { phase = stopping })
  -- the first loop: Shutdown, and Close if it fails
  shuts_down :
      (server : Server) (rest : List Server) (shutdown close : Option Error)
      → s.phase ≡ stopping
      → s.pending ≡ server ∷ rest
      → Step s (shut_down server.name shutdown close) (record s {
        shut = s.shut ++ (server ∷ []);
        pending = rest;
        result_err = after_shutdown server.name shutdown close s.result_err;
      })
  -- the second loop
  takes_next :
      (r : ServerResult) (rest : List ServerResult)
      → s.phase ≡ stopping
      → s.pending ≡ []
      → s.received < length s.shut
      → s.channel ≡ r ∷ rest
      → Step s (next_taken r) (record s {
        channel = rest;
        received = s.received + 1;
        result_err = next_result r.name (real_failure r.failure) s.result_err;
      })
  finishes :
      s.phase ≡ stopping
      → s.pending ≡ []
      → length s.shut ≤ s.received
      → Step s finish (record s { phase = finished })

-- A sequence of steps, with what happened in it, the last first.
pub data Run (s : System) : List Event → System → Type 0 where
  no_step : Run s [] s
  then_step :
      {es : List Event} {t u : System} {e : Event} → Run s es t → Step t e u → Run s (e ∷ es) u
