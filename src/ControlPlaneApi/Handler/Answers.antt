-- ===== src/ControlPlaneApi/Handler/Answers.antt =====
-- Every answer of the handler sets a status.
use cloud_native_service_con.Base.{
  Bool, Bool-cases, List, Option, Option-cases, ◌∷◌, [], false, if◌then◌else◌, inl, inr, none, not,
  some, true, ℕ, ℤ, ◌&&◌, ◌++◌, ◌==◌, ◌≢◌, arith,
}
use cloud_native_service_con.Text.{Str, codes, eq_str, trim_prefix}
use cloud_native_service_con.Types.{ManagedService}
use cloud_native_service_con.Errors.{Error, Result, err, ok}
use cloud_native_service_con.ControlPlaneApi.Http.{
  Payload, Request, Response, error_response, identity_response, internal_error,
  managed_service_not_found, method_delete, method_get, method_not_allowed, method_post, not_found,
  unauthorized, write_json, status_response,
}
use cloud_native_service_con.ControlPlaneApi.Auth.{authenticated, is_protected_path}
use cloud_native_service_con.ControlPlaneApi.Mux.{Route}
use cloud_native_service_con.ControlPlaneApi.Requests.{
  CreateRequest, managed_services_route, replicas_or_default, valid_create_request,
  valid_managed_service_name, request_error,
}
use cloud_native_service_con.ControlPlaneApi.Handler.{
  ApiHandler, Libraries, MuxAnswers, create_decoded, create_managed_service, created,
  delete_managed_service, deleted, get_managed_service, get_only, list_managed_services, listed,
  ready_answer, serve_collection, serve_http, serve_item, serve_readiness, serve_route, shown,
  query_rejected,
}

-- The answers that http.ServeMux gives by itself set a status, too.
pub record SetsStatus (mux : MuxAnswers) : Type 0 where
  pub refused : mux.refused.status ≢ 0
  pub redirected : (method path raw_query : Str) → (mux.redirected method path raw_query).status ≢ 0
  pub unmatched : mux.unmatched.status ≢ 0

-- The answer has a status.
abbrev pub HasStatus : Response → Type 0
HasStatus answer = answer.status ≢ 0

HasStatus-if :
    (b : Bool) (x y : Response) → HasStatus x → HasStatus y → HasStatus (if b then x else y)
HasStatus-if true x y p q = p
HasStatus-if false x y p q = q

-- The answer of a handler has a status.
pub record IsAnswered {W : Type 0} (result : Response × W) : Type 0 where
  pub answered : HasStatus result.0

with_status : {W : Type 0} (answer : Response) (w : W) → HasStatus answer → IsAnswered (answer, w)
with_status answer w h = record { answered = h }

IsAnswered-if :
    {W : Type 0} (b : Bool) (x y : Response × W)
    → IsAnswered x
    → IsAnswered y
    → IsAnswered (if b then x else y)
IsAnswered-if true x y p q = p
IsAnswered-if false x y p q = q

write_json-HasStatus :
    (headers : List (Str × Str)) (status : ℕ) (payload : Payload)
    → status ≢ 0
    → HasStatus (write_json headers status payload)
unfolding write_json
write_json-HasStatus headers status payload h = h

method_not_allowed-HasStatus : (allow : Str) → HasStatus (method_not_allowed allow)
unfolding method_not_allowed
method_not_allowed-HasStatus allow = omega arith

listed-HasStatus : (answer : Result (List ManagedService)) → HasStatus (listed answer)
unfolding listed internal_error write_json
listed-HasStatus (ok services) = omega arith
listed-HasStatus (err e) = omega arith

ready_answer-HasStatus : (failure : Option Error) → HasStatus (ready_answer failure)
unfolding ready_answer write_json
ready_answer-HasStatus none = omega arith
ready_answer-HasStatus (some e) = omega arith

module _ {B : Type 0} (lib : Libraries B) where
  created-HasStatus : (answer : Result ManagedService) → HasStatus (created lib answer)
  unfolding created internal_error write_json
  created-HasStatus (ok ms) = omega arith
  created-HasStatus (err e) = HasStatus-if (lib.is_already_exists e) _ _ (omega arith) (omega arith)

  shown-HasStatus : (answer : Result ManagedService) → HasStatus (shown lib answer)
  unfolding shown internal_error managed_service_not_found write_json
  shown-HasStatus (ok ms) = omega arith
  shown-HasStatus (err e) = HasStatus-if (lib.is_not_found e) _ _ (omega arith) (omega arith)

  deleted-HasStatus : (answer : Option Error) → HasStatus (deleted lib answer)
  unfolding deleted internal_error managed_service_not_found write_json
  deleted-HasStatus none = omega arith
  deleted-HasStatus (some e) = HasStatus-if (lib.is_not_found e) _ _ (omega arith) (omega arith)

query_rejected-HasStatus : HasStatus query_rejected
unfolding write_json
query_rejected-HasStatus = omega arith

module _ {B W : Type 0} (lib : Libraries B) (h : ApiHandler W) where
  create_decoded-IsAnswered :
      (request : CreateRequest) (status : ℕ) (w : W)
      → IsAnswered (create_decoded lib h request status w)
  unfolding create_decoded
  create_decoded-IsAnswered request status w =
      let replicas : ℤ = replicas_or_default request.replicas in
      elim (Bool-cases (status == 0)) [
        | inl nothing ↦ rw nothing (
            IsAnswered-if (valid_create_request lib.is_dns_label request replicas) _ _
              (with_status _ _ (created-HasStatus lib _))
              (with_status _ w (
                write_json-HasStatus [] 400 (error_response (codes "invalid request"))
                  (omega arith))))
        | inr set ↦ rw set (
            with_status _ w
              (write_json-HasStatus [] status (request_error status) (λ e. ground arith)))
      ]

  method_not_allowed-IsAnswered : (allow : Str) (w : W) → IsAnswered (method_not_allowed allow, w)
  method_not_allowed-IsAnswered allow w = with_status _ w (method_not_allowed-HasStatus allow)

  serve_collection-IsAnswered : (r : Request B) (w : W) → IsAnswered (serve_collection lib h r w)
  unfolding serve_collection create_managed_service list_managed_services
  serve_collection-IsAnswered r w =
      IsAnswered-if (not (eq_str r.raw_query [])) _ _ (with_status _ w query_rejected-HasStatus) (
        IsAnswered-if (eq_str r.method method_get) _ _
          (with_status _ _ (listed-HasStatus (h.store.list w).0))
          (IsAnswered-if (eq_str r.method method_post) _ _ (create_decoded-IsAnswered _ _ w)
            (method_not_allowed-IsAnswered _ w)))

  serve_item-IsAnswered : (r : Request B) (w : W) → IsAnswered (serve_item lib h r w)
  unfolding serve_item get_managed_service delete_managed_service
  serve_item-IsAnswered r w =
      let name : Str = trim_prefix r.path (managed_services_route ++ codes "/") in
      IsAnswered-if (not (eq_str r.raw_query [])) _ _ (with_status _ w query_rejected-HasStatus) (
        IsAnswered-if (not (valid_managed_service_name lib.is_dns_label name)) _ _
          (with_status _ w (
            write_json-HasStatus [] 400 (error_response (codes "invalid managed service name"))
              (omega arith)))
          (IsAnswered-if (eq_str r.method method_get) _ _
            (with_status _ _ (shown-HasStatus lib (h.store.get name w).0))
            (IsAnswered-if (eq_str r.method method_delete) _ _
              (with_status _ _ (deleted-HasStatus lib (h.store.delete name w).0))
              (method_not_allowed-IsAnswered _ w))))

  serve_readiness-IsAnswered : (w : W) → IsAnswered (serve_readiness lib h w)
  unfolding serve_readiness
  serve_readiness-IsAnswered w = elim (Option-cases h.readiness_check) [
    | inl e ↦ rw e (with_status _ w (ready_answer-HasStatus none))
    | inr (check, e) ↦ rw e (with_status _ (check w).1 (ready_answer-HasStatus (check w).0))
  ]

  get_only-IsAnswered :
      (next : W → Response × W) (r : Request B) (w : W)
      → IsAnswered (next w)
      → IsAnswered (get_only lib h next r w)
  unfolding get_only
  get_only-IsAnswered next r w k =
      IsAnswered-if (eq_str r.method method_get) _ _ k (method_not_allowed-IsAnswered method_get w)

  fixed_answer-IsAnswered :
      (payload : Payload) (r : Request B) (w : W)
      → IsAnswered (get_only lib h (λ w'. (write_json [] 200 payload, w')) r w)
  fixed_answer-IsAnswered payload r w =
      get_only-IsAnswered (λ w'. (write_json [] 200 payload, w')) r w
        (with_status (write_json [] 200 payload) w
          (write_json-HasStatus [] 200 payload (omega arith)))

  serve_route-IsAnswered :
      (rt : Route) (r : Request B) (w : W)
      → SetsStatus lib.mux
      → IsAnswered (serve_route lib h rt r w)
  unfolding serve_route not_found
  serve_route-IsAnswered Route.star r w sets = with_status _ w sets.refused
  serve_route-IsAnswered (Route.redirect to) r w sets =
      with_status _ w (sets.redirected r.method to r.raw_query)
  serve_route-IsAnswered Route.unknown r w sets =
      with_status _ w
        (write_json-HasStatus [] 404 (error_response (codes "not found")) (omega arith))
  serve_route-IsAnswered Route.unmatched r w sets = with_status _ w sets.unmatched
  serve_route-IsAnswered Route.health r w sets =
      fixed_answer-IsAnswered (status_response (codes "healthy")) r w
  serve_route-IsAnswered Route.readiness r w sets =
      get_only-IsAnswered (serve_readiness lib h) r w (serve_readiness-IsAnswered w)
  serve_route-IsAnswered Route.identity r w sets =
      fixed_answer-IsAnswered (identity_response (codes "control-plane-api") (codes "v1")) r w
  serve_route-IsAnswered Route.collection r w sets = serve_collection-IsAnswered r w
  serve_route-IsAnswered Route.item r w sets = serve_item-IsAnswered r w

  -- If the answers of http.ServeMux set a status, every answer of the handler does.
  pub serve_http-HasStatus :
      (r : Request B) (w : W) → SetsStatus lib.mux → HasStatus (serve_http lib h r w).0
  unfolding serve_http unauthorized
  serve_http-HasStatus r w sets =
      (IsAnswered-if
        (is_protected_path r.path
          && not (authenticated lib.hash h.expected_token_hash r.authorization))
        _ _
        (with_status _ w (
          write_json-HasStatus ((codes "WWW-Authenticate", codes "Bearer") ∷ []) 401
            (error_response (codes "unauthorized")) (omega arith)))
        (serve_route-IsAnswered _ r w sets)).answered
