-- ===== src/Examples/OfApi.antt =====
-- The control-plane API on sample inputs: tests, and the theorems about it at concrete inputs.
use mathlib.Core.List.{Perm}
use cloud_native_service_con.Base.{map, List, [], pos, refl, true, ◌++◌, ◌∷◌, ◌≡◌, ◌↔◌, some}
use cloud_native_service_con.Text.{Str, codes}
use cloud_native_service_con.Text.Utf8.{rune_count}
use cloud_native_service_con.Text.Hex.{hex_value}
use cloud_native_service_con.Text.Order.{IsSorted}
use cloud_native_service_con.Types.{ManagedService}
use cloud_native_service_con.ControlPlaneApi.Http.{
  item_response, unauthorized, write_json, ManagedServiceResponse, ResponseCondition,
}
use cloud_native_service_con.ControlPlaneApi.Mux.{
  path_unescape, clean_path, match_path, route, route_segments,
}
use cloud_native_service_con.ControlPlaneApi.Auth.{authenticated, is_protected_path}
use cloud_native_service_con.ControlPlaneApi.Auth.Credential.{IsBearer, authenticated_iff}
use cloud_native_service_con.ControlPlaneApi.Store.{
  ManagedServiceStore, controller_runtime_store, new_managed_service, store_create,
}
use cloud_native_service_con.ControlPlaneApi.Store.Scope.{KeepsOthers}
use cloud_native_service_con.ControlPlaneApi.Requests.{
  valid_create_request, replicas_or_default, decode_create_request, new_managed_service_response,
  normalize_route, list_items,
}
use cloud_native_service_con.ControlPlaneApi.Requests.Shown.{
  LabelFor, normalize_route-LabelFor, list_items-IsSorted,
}
use cloud_native_service_con.ControlPlaneApi.Handler.{
  new_handler, create_managed_service, get_managed_service, serve_http,
}
use cloud_native_service_con.ControlPlaneApi.Handler.Access.{
  serve_http-without_credential, with_store,
}
use cloud_native_service_con.ControlPlaneApi.Handler.Creation.{
  CreatesOnce, create_managed_service-CreatesOnce,
}
use cloud_native_service_con.ControlPlaneApi.Handler.Lifecycle.{get-create, serve_http-KeepsOthers}
use cloud_native_service_con.Examples.SampleCluster.{sample_service_object}
use cloud_native_service_con.Examples.SampleClient.{
  sample_client, sample_client-Laws, sample_handler, sample_intruder, sample_libraries,
  sample_objects, sample_post, sample_request, sample_token,
}

abbrev sample_made : ManagedService
sample_made = new_managed_service (codes "blue") (pos 2) (codes "Hi")

abbrev sample_values : List Str
sample_values = (codes "bEARER " ++ sample_token) ∷ []

abbrev empty_store : ManagedServiceStore (List ManagedService)
empty_store = controller_runtime_store sample_client

-- The encoded slash does not lead around the check of the credential.
intruder_refused :
    serve_http sample_libraries sample_handler sample_intruder sample_objects
    ≡ (unauthorized, sample_objects)
unfolding serve_http is_protected_path authenticated
intruder_refused = refl

post_answered :
    (serve_http sample_libraries sample_handler sample_post sample_objects).0.status ≡ 201
unfolding serve_http is_protected_path authenticated new_handler sample_libraries route clean_path
    match_path route_segments path_unescape decode_create_request valid_create_request
    replicas_or_default rune_count controller_runtime_store sample_client new_managed_service
post_answered = refl

item_label :
    normalize_route (codes "/api/v1/managed-services/blue")
    ≡ codes "/api/v1/managed-services/{name}"
unfolding normalize_route
item_label = refl

serve_http-without_credential_example :
    serve_http sample_libraries
      (with_store sample_libraries sample_handler empty_store)
      sample_intruder
      sample_objects
    ≡ serve_http sample_libraries sample_handler sample_intruder sample_objects
unfolding path_unescape authenticated hex_value
serve_http-without_credential_example =
    serve_http-without_credential sample_libraries sample_handler empty_store sample_intruder
      sample_objects refl refl

authenticated_iff_example :
    (authenticated (λ s. s) sample_token sample_values ≡ true)
    ↔ IsBearer (λ s. s) sample_token sample_values
authenticated_iff_example = authenticated_iff (λ s. s) sample_token sample_values

create_managed_service-CreatesOnce_example :
    CreatesOnce sample_libraries sample_handler
      (some sample_request)
      sample_objects
      (create_managed_service sample_libraries sample_handler sample_post sample_objects)
create_managed_service-CreatesOnce_example =
    create_managed_service-CreatesOnce sample_libraries sample_handler sample_post sample_objects

serve_http-KeepsOthers_example :
    KeepsOthers sample_client-Laws sample_objects
      (serve_http sample_libraries sample_handler sample_post sample_objects).1
serve_http-KeepsOthers_example =
    serve_http-KeepsOthers sample_libraries sample_client sample_client-Laws sample_token
      sample_post sample_objects

get-create_example :
    let posted =
      create_managed_service sample_libraries sample_handler sample_post sample_objects in
    let view = new_managed_service_response sample_made in
    (posted.0 ≡ write_json [] 201 (item_response view))
    × ((get_managed_service sample_libraries sample_handler (codes "blue") posted.1).0
        ≡ write_json [] 200 (item_response view))
    × (view.name ≡ codes "blue")
    × (view.replicas ≡ pos 2)
    × (view.message ≡ codes "Hi")
unfolding decode_create_request store_create sample_libraries valid_create_request
    replicas_or_default rune_count sample_client new_managed_service
get-create_example =
    get-create sample_libraries sample_client sample_client-Laws sample_token sample_post
      sample_request sample_objects sample_made refl refl refl

normalize_route-LabelFor_example :
    LabelFor
      (codes "/api/v1/managed-services/blue")
      (normalize_route (codes "/api/v1/managed-services/blue"))
normalize_route-LabelFor_example = normalize_route-LabelFor (codes "/api/v1/managed-services/blue")

list_items-IsSorted_example :
    IsSorted
      (λ (r : ManagedServiceResponse). r.name)
      (list_items (sample_service_object ∷ sample_made ∷ []))
    × Perm
        (list_items (sample_service_object ∷ sample_made ∷ []))
        (map new_managed_service_response (sample_service_object ∷ sample_made ∷ []))
    × IsSorted
        (λ (c : ResponseCondition). c.type_name)
        (new_managed_service_response sample_made).conditions
list_items-IsSorted_example =
    list_items-IsSorted (sample_service_object ∷ sample_made ∷ []) sample_made
