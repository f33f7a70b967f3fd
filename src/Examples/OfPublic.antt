-- ===== src/Examples/OfPublic.antt =====
-- A request of the API behind the telemetry, on a connection that keeps what it is sent.
use cloud_native_service_con.Base.{
  List, Option, [], ◌∷◌, ◌++◌, ◌≡◌, none, some, refl, arith, length,
}
use cloud_native_service_con.Text.{Str, codes}
use cloud_native_service_con.Types.{ManagedService}
use cloud_native_service_con.Errors.{err, external, ok}
use cloud_native_service_con.ControlPlaneApi.Http.{Request}
use cloud_native_service_con.ControlPlaneApi.Requests.{CreateRequest}
use cloud_native_service_con.ControlPlaneApi.Handler.Answers.{SetsStatus}
use cloud_native_service_con.Telemetry.Labels.{request_id, valid_request_id}
use cloud_native_service_con.Telemetry.Handler.{Server, TracedRequest, serve_telemetry}
use cloud_native_service_con.Commands.Public.{Connection, api_next, api_options}
use cloud_native_service_con.Commands.Public.Logged.{IsLogged, serve_telemetry-IsLogged}
use cloud_native_service_con.Examples.SampleClient.{
  sample_handler, sample_libraries, sample_objects, sample_post,
}

-- The connection keeps the bodies and takes all their bytes.
abbrev kept_connection : Connection (List Str)
kept_connection = record {
  set_header = λ name value k. k ++ (name ∷ value ∷ []);
  writer = record {
    write_header = λ code k. k;
    write = λ body k. ((length body, none), k ++ (body ∷ []));
  };
  encode = λ payload. codes "{}\n";
  itoa = λ n. codes "2";
}

mux_statuses : SetsStatus sample_libraries.mux
unfolding sample_libraries
mux_statuses = record {
  refused = omega arith;
  redirected = λ method path raw_query. omega arith;
  unmatched = omega arith;
}

abbrev traced_post : TracedRequest (Request (Option CreateRequest))
traced_post = record { request_ids = codes "req-1" ∷ []; method = codes "POST"; rest = sample_post }

abbrev before_post : Server (List ManagedService × List Str)
before_post = record { world = (sample_objects, []); metrics = some []; spans = []; log = [] }

identified_post : request_id (err (external 5 [])) (codes "req-1" ∷ []) ≡ ok (codes "req-1")
unfolding request_id valid_request_id
identified_post = refl

serve_telemetry-IsLogged_example :
    IsLogged kept_connection sample_libraries sample_handler
      (codes "req-1")
      traced_post
      7
      before_post
      []
      (serve_telemetry
        (api_options kept_connection)
        (api_next kept_connection sample_libraries sample_handler)
        (err (external 5 []))
        traced_post
        7
        before_post).1
serve_telemetry-IsLogged_example =
    serve_telemetry-IsLogged kept_connection sample_libraries sample_handler (err (external 5 []))
      (codes "req-1") traced_post 7 before_post [] mux_statuses identified_post refl
