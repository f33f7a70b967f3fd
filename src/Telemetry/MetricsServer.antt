-- ===== src/Telemetry/MetricsServer.antt =====
-- NewMetricsServer (internal/telemetry/server.go), and the http.Server of the other commands
-- (cmd/control-plane-api/main.go, cmd/demo-http/main.go): addresses, bounds on time and headers, and
-- the handler of the path "/healthz".
use cloud_native_service_con.Base.{List, [], ◌∷◌, ℕ, if◌then◌else◌}
use cloud_native_service_con.Text.{Str, codes, eq_str}

-- http.Server; the times are in seconds.
pub record HttpServer (H : Type 0) : Type 0 where
  pub address : Str
  pub handler : H
  pub read_header_timeout : ℕ
  pub read_timeout : ℕ
  pub write_timeout : ℕ
  pub idle_timeout : ℕ
  pub max_header_bytes : ℕ

-- What the handler of "/healthz" writes: header lines, the status, and the body.
pub record PlainAnswer : Type 0 where
  pub headers : List (Str × Str)
  pub status : ℕ
  pub body : Str

-- The function literal in NewMetricsServer, on the method of the request. Fprintln sets no status, so
-- that the connection sends 200.
unfoldable pub metrics_health : Str → PlainAnswer
unfolding eq_str
metrics_health method =
    if eq_str method (codes "GET")
    then (record {
      headers = (codes "Content-Type", codes "application/json") ∷ [];
      status = 200;
      body = codes "{\"status\":\"healthy\"}\n";
    })
    else (record { headers = (codes "Allow", codes "GET") ∷ []; status = 405; body = [] })

-- NewMetricsServer, with the router as a value
unfoldable pub new_metrics_server : {H : Type 0} → Str → H → HttpServer H
new_metrics_server address router = record {
  address = address;
  handler = router;
  read_header_timeout = 5;
  read_timeout = 15;
  write_timeout = 15;
  idle_timeout = 60;
  max_header_bytes = 16384;
}
