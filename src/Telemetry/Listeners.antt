-- ===== src/Telemetry/Listeners.antt =====
-- The first part of ServeUntilShutdown (internal/telemetry/server.go): every server gets its listener,
-- or none keeps one.
pub mod Released
use cloud_native_service_con.Base.{List, Option, [], ◌++◌, ◌∷◌, ℕ, none, some, if◌then◌else◌}
use cloud_native_service_con.Text.{Str, codes, eq_str}
use cloud_native_service_con.Errors.{Result, err, errorf, ok, wrap}

-- NamedServer: the name, and the address of its http.Server, which may be nil.
pub record NamedServer : Type 0 where
  pub name : Str
  pub address : Option Str

-- net.Listen("tcp", address), which gives the number of a listener, and its Close, a library over the
-- states `W` of the network.
pub record Network (W : Type 0) : Type 0 where
  pub listen : Str → W → Result ℕ × W
  pub close : ℕ → W → W

-- spec.Name == "" || spec.Server == nil, and else the address
unfoldable pub configured : NamedServer → Option Str
unfolding eq_str
configured spec = if eq_str spec.name [] then none else spec.address

module _ {W : Type 0} (network : Network W) where
  unfoldable pub close_all : List ℕ → W → W
  close_all [] w = w
  close_all (l ∷ listeners) w = close_all listeners (network.close l w)

  -- The body of the loop over the servers, after net.Listen.
  unfoldable pub listen_answer : Str → Result ℕ → List ℕ → W → Result (List ℕ) × W
  unfolding close_all
  listen_answer name (err e) listeners w =
      (err (wrap (codes "listen for " ++ (name ++ codes " HTTP")) e), close_all listeners w)
  listen_answer name (ok l) listeners w = (ok (listeners ++ (l ∷ [])), w)

  -- The body of the loop: the listeners with that of the server, or an error, all closed.
  unfoldable pub open_listener : Str → Option Str → List ℕ → W → Result (List ℕ) × W
  unfolding close_all listen_answer
  open_listener name none listeners w = (
    err (errorf (codes "HTTP server name and configuration are required")),
    close_all listeners w,
  )
  open_listener name (some address) listeners w =
      let (answer, w') = network.listen address w in listen_answer name answer listeners w'

  -- The loop.
  unfoldable pub open_listeners : List NamedServer → Result (List ℕ) × W → Result (List ℕ) × W
  unfolding open_listener configured
  open_listeners servers (err e, w) = (err e, w)
  open_listeners [] (ok listeners, w) = (ok listeners, w)
  open_listeners (spec ∷ servers) (ok listeners, w) =
      open_listeners servers (open_listener spec.name (configured spec) listeners w)

  -- ServeUntilShutdown up to the start of the servers.
  unfoldable pub prepare : List NamedServer → W → Result (List ℕ) × W
  unfolding open_listeners
  prepare [] w = (err (errorf (codes "at least one HTTP server is required")), w)
  prepare (spec ∷ servers) w = open_listeners (spec ∷ servers) (ok [], w)
