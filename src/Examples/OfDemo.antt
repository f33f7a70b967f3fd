-- ===== src/Examples/OfDemo.antt =====
-- The demo service on a sample request.
use cloud_native_service_con.Base.{Option, [], ℕ, none, refl, ◌≡◌}
use cloud_native_service_con.Text.{Str, codes}
use cloud_native_service_con.ControlPlaneApi.Http.{Request}
use cloud_native_service_con.ControlPlaneApi.Mux.{path_unescape, clean_path, split_slash, segment}
use cloud_native_service_con.DemoHttp.{
  DemoMuxAnswers, DemoResponse, demo_match, demo_route, normalize_demo_route,
}
use cloud_native_service_con.DemoHttp.Routes.{IsFixed, Reads, demo_route-labelled}

abbrev demo_plain : ℕ → DemoResponse
demo_plain status = record { headers = []; status = status; body = none }

abbrev demo_mux : DemoMuxAnswers
demo_mux = record {
  refused = demo_plain 400;
  redirected = λ method path raw_query. demo_plain 307;
  method_refused = λ allowed. demo_plain 405;
  unmatched = demo_plain 404;
}

abbrev health_request : Request (Option Str)
health_request = record {
  request_uri = codes "/healthz";
  method = codes "GET";
  path = codes "/healthz";
  escaped_path = codes "/healthz";
  raw_query = [];
  authorization = [];
  body = none;
}

demo_route-labelled_example :
    Reads health_request.method
    × IsFixed health_request.path
    × (normalize_demo_route health_request.path ≡ health_request.path)
unfolding demo_route clean_path demo_match path_unescape split_slash segment
demo_route-labelled_example = demo_route-labelled health_request refl tt
