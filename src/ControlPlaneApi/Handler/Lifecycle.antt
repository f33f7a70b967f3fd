-- ===== src/ControlPlaneApi/Handler/Lifecycle.antt =====
-- What requests do to the state behind the store, and that what is created is found.
use cloud_native_service_con.Base.{
  subst, Bool, Option, not, some, true, ℕ, ℤ, ◌≡◌, inl, inr, refl, Option-cases, [], false,
  if◌then◌else◌, ◌&&◌, ◌++◌, ◌==◌,
}
use cloud_native_service_con.Text.{Str, codes, eq_str, trim_prefix}
use cloud_native_service_con.Types.{ManagedService}
use cloud_native_service_con.Errors.{Error, ok}
use cloud_native_service_con.ControlPlaneApi.Http.{
  status_response, identity_response, Request, Response, item_response, write_json, method_delete,
  method_get, method_post,
}
use cloud_native_service_con.ControlPlaneApi.Auth.{authenticated, is_protected_path}
use cloud_native_service_con.ControlPlaneApi.Mux.{Route}
use cloud_native_service_con.ControlPlaneApi.Store.{
  Client, store_create, controller_runtime_store, store_ready,
}
use cloud_native_service_con.ControlPlaneApi.Store.Scope.{
  store_get-store_create, ClientLaws, KeepsOthers, controller_runtime_store-StaysInScope,
}
use cloud_native_service_con.ControlPlaneApi.Requests.{
  new_managed_service_response, CreateRequest, valid_managed_service_name, decode_create_request,
  replicas_or_default, valid_create_request, managed_services_route,
}
use cloud_native_service_con.ControlPlaneApi.Handler.{
  Libraries, shown, ApiHandler, create_decoded, create_managed_service, created, new_handler,
  serve_http, serve_item, get_managed_service, get_only, serve_collection, serve_readiness,
  serve_route,
}

-- What every operation of the store and the readiness check keep from one state to the next.
pub record HandlerKeeps {W : Type 0} (R : W → W → Type 0) (h : ApiHandler W) : Type 0 where
  pub same : (w : W) → R w w
  pub create :
      (name : Str) (replicas : ℤ) (message : Str) (w : W)
      → R w (h.store.create name replicas message w).1
  pub list : (w : W) → R w (h.store.list w).1
  pub get : (name : Str) (w : W) → R w (h.store.get name w).1
  pub delete : (name : Str) (w : W) → R w (h.store.delete name w).1
  pub ready :
      (check : W → Option Error × W) (w : W) → h.readiness_check ≡ some check → R w (check w).1

module _ {B W : Type 0} (lib : Libraries B) (h : ApiHandler W) (R : W → W → Type 0)
    (keeps : HandlerKeeps R h) where
  -- The state behind the answer is so related to `w`.
  record Kept (w : W) (result : Response × W) : Type 0 where
    kept : R w result.1

  unchanged : (w : W) (answer : Response) → Kept w (answer, w)
  unchanged w answer = record { kept = keeps.same w }

  Kept-if :
      (b : Bool) (x y : Response × W) {w : W} → Kept w x → Kept w y → Kept w (if b then x else y)
  Kept-if true x y p q = p
  Kept-if false x y p q = q

  create_decoded-keeps :
      (request : CreateRequest) (status : ℕ) (w : W)
      → Kept w (create_decoded lib h request status w)
  unfolding create_decoded
  create_decoded-keeps request status w =
      let replicas : ℤ = replicas_or_default request.replicas in
      Kept-if (not (status == 0)) _ _ (unchanged w _) (
        Kept-if (valid_create_request lib.is_dns_label request replicas) _ _
          (record { kept = keeps.create request.name replicas request.message w }) (unchanged w _))

  serve_collection-keeps : (r : Request B) (w : W) → Kept w (serve_collection lib h r w)
  unfolding serve_collection create_managed_service
  serve_collection-keeps r w = Kept-if (not (eq_str r.raw_query [])) _ _ (unchanged w _) (
      Kept-if (eq_str r.method method_get) _ _ (record { kept = keeps.list w })
        (Kept-if (eq_str r.method method_post) _ _ (create_decoded-keeps _ _ w) (unchanged w _)))

  serve_item-keeps : (r : Request B) (w : W) → Kept w (serve_item lib h r w)
  unfolding serve_item
  serve_item-keeps r w =
      let name : Str = trim_prefix r.path (managed_services_route ++ codes "/") in
      Kept-if (not (eq_str r.raw_query [])) _ _ (unchanged w _) (
        Kept-if (not (valid_managed_service_name lib.is_dns_label name)) _ _ (unchanged w _) (
          Kept-if (eq_str r.method method_get) _ _ (record { kept = keeps.get name w })
            (Kept-if (eq_str r.method method_delete) _ _ (record { kept = keeps.delete name w })
              (unchanged w _))))

  serve_readiness-keeps : (w : W) → Kept w (serve_readiness lib h w)
  unfolding serve_readiness
  serve_readiness-keeps w = elim (Option-cases h.readiness_check) [
    | inl e ↦ rw e (unchanged w _)
    | inr (check, e) ↦ rw e (record { kept = keeps.ready check w e })
  ]

  get_only-keeps :
      (next : W → Response × W) (r : Request B) (w : W)
      → Kept w (next w)
      → Kept w (get_only lib h next r w)
  unfolding get_only
  get_only-keeps next r w k = Kept-if (eq_str r.method method_get) _ _ k (unchanged w _)

  serve_route-keeps : (rt : Route) (r : Request B) (w : W) → Kept w (serve_route lib h rt r w)
  unfolding serve_route
  serve_route-keeps Route.health r w =
      let answer : Response = write_json [] 200 (status_response (codes "healthy")) in
      get_only-keeps (λ w'. (answer, w')) r w (unchanged w answer)
  serve_route-keeps Route.readiness r w =
      get_only-keeps (serve_readiness lib h) r w (serve_readiness-keeps w)
  serve_route-keeps Route.identity r w =
      let answer : Response =
        write_json [] 200 (identity_response (codes "control-plane-api") (codes "v1")) in
      get_only-keeps (λ w'. (answer, w')) r w (unchanged w answer)
  serve_route-keeps Route.collection r w = serve_collection-keeps r w
  serve_route-keeps Route.item r w = serve_item-keeps r w
  serve_route-keeps _ r w = unchanged w _

  pub serve_http-keeps : (r : Request B) (w : W) → R w (serve_http lib h r w).1
  unfolding serve_http
  serve_http-keeps r w =
      (Kept-if
        (is_protected_path r.path
          && not (authenticated lib.hash h.expected_token_hash r.authorization))
        _ _ (unchanged w _) (serve_route-keeps _ r w)).kept

module _ {B W : Type 0} (lib : Libraries B) (client : Client W) (laws : ClientLaws client)
    (token : Str) where
  -- The handler that main makes.
  abbrev pub main_handler : ApiHandler W
  main_handler = new_handler lib token (controller_runtime_store client) (some (store_ready client))

  main_handler-keeps : HandlerKeeps (KeepsOthers laws) main_handler
  unfolding new_handler controller_runtime_store
  main_handler-keeps =
      let scope = controller_runtime_store-StaysInScope client laws in
      record {
        same = λ w k other. refl;
        create = scope.create;
        list = scope.list;
        get = scope.get;
        delete = scope.delete;
        ready = λ check w e k other.
            let same : store_ready client ≡ check = cc e in
            subst (λ c. laws.objects (c w).1 k ≡ laws.objects w k) same (scope.ready w k other);
      }

  -- If the Kubernetes client keeps its laws, no request whatsoever changes an object outside of the
  -- namespace "applications".
  pub serve_http-KeepsOthers :
      (r : Request B) (w : W) → KeepsOthers laws w (serve_http lib main_handler r w).1
  serve_http-KeepsOthers = serve_http-keeps lib main_handler (KeepsOthers laws) main_handler-keeps

  -- If the Kubernetes client keeps its laws, the body of a POST decodes to a request with acceptable
  -- arguments and the client creates `made` for it, then the POST is answered by 201 and `made`, and
  -- a GET of its name right after by 200 and the same representation, which names the replicas and
  -- the message that were asked for.
  pub get-create :
      (r : Request B) (request : CreateRequest) (w : W) (made : ManagedService)
      → decode_create_request lib.decoder r.body ≡ (request, 0)
      → valid_create_request lib.is_dns_label request (replicas_or_default request.replicas) ≡ true
      → (store_create client request.name
          (replicas_or_default request.replicas)
          request.message
          w).0
        ≡ ok made
      → let posted = create_managed_service lib main_handler r w in
        let view = new_managed_service_response made in
        (posted.0 ≡ write_json [] 201 (item_response view))
        × ((get_managed_service lib main_handler request.name posted.1).0
            ≡ write_json [] 200 (item_response view))
        × (view.name ≡ request.name)
        × (view.replicas ≡ replicas_or_default request.replicas)
        × (view.message ≡ request.message)
  unfolding create_managed_service create_decoded get_managed_service new_handler
      controller_runtime_store created shown new_managed_service_response
  get-create r request w made decoded valid stored =
      let replicas : ℤ = replicas_or_default request.replicas in
      let (read, name, spec) =
        store_get-store_create client laws request.name replicas request.message w made stored in
      rw (decoded, valid, stored) (refl, rw read refl, name, rw spec refl, rw spec refl)
