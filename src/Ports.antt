-- ===== src/Ports.antt =====
-- Ports: ParsePort of internal/controlplaneapi/config.go and of internal/demohttp/handler.go, and
-- ParseMetricsPort of internal/telemetry/server.go.
pub mod Range
use cloud_native_service_con.Base.{
  Option, [], if◌then◌else◌, none, some, pos, ltb_ℤ, eq_ℤ, ◌||◌, ◌++◌, ℤ,
}
use cloud_native_service_con.Text.{Str, codes, eq_str}
use cloud_native_service_con.Text.Number.{atoi}
use cloud_native_service_con.Errors.{Error, Result, err, errorf, ok}

abbrev pub default_port : ℤ
default_port = pos 8080

abbrev pub default_metrics_port : ℤ
default_metrics_port = pos 9090

-- `quote` is strconv.Quote, which the verb %q writes.
module _ (quote : Str → Str) where
  -- The error that names the variable.
  unfoldable pub port_error : Str → Str → Error
  port_error name value =
      errorf (name ++ codes " must be an integer between 1 and 65535: " ++ quote value)

  -- The tests on what Atoi gave.
  unfoldable pub check_port : Str → Str → Option ℤ → Result ℤ
  unfolding port_error
  check_port name value none = err (port_error name value)
  check_port name value (some port) =
      if ltb_ℤ port (pos 1) || ltb_ℤ (pos 65535) port then err (port_error name value) else ok port

  -- ParsePort of controlplaneapi
  unfoldable pub parse_port : Str → Result ℤ
  unfolding eq_str check_port atoi
  parse_port value =
      if eq_str value [] then ok default_port else check_port (codes "PORT") value (atoi value)

  -- ParsePort of demohttp
  unfoldable pub parse_demo_port : Str → Result ℤ
  unfolding eq_str check_port atoi
  parse_demo_port value =
      if eq_str value [] then ok default_port else check_port (codes "PORT") value (atoi value)

  unfoldable pub differing_port : ℤ → Result ℤ → Result ℤ
  differing_port public_port (err e) = err e
  differing_port public_port (ok port) =
      if eq_ℤ port public_port
      then err (errorf (codes "METRICS_PORT must differ from PORT"))
      else ok port

  -- ParseMetricsPort
  unfoldable pub parse_metrics_port : Str → ℤ → Result ℤ
  unfolding eq_str check_port atoi differing_port
  parse_metrics_port value public_port = differing_port public_port (
      if eq_str value []
      then ok default_metrics_port
      else check_port (codes "METRICS_PORT") value (atoi value))
