-- ===== src/ControlPlaneApi/Store/Scope.antt =====
-- The store stays within its namespace, and keeps what it is given.
use cloud_native_service_con.Base.{All, List, Option, ap, some, ℤ, ◌≡◌, ◌≢◌}
use cloud_native_service_con.Text.{Str}
use cloud_native_service_con.Types.{ManagedService, NamespacedName, template_demo_http}
use cloud_native_service_con.Errors.{ok}
use cloud_native_service_con.ControlPlaneApi.Store.{
  Client, ManagedServiceStore, controller_runtime_store, ListOptions, applications_namespace,
  in_applications, new_managed_service, store_create, store_get,
}

abbrev pub key_of : ManagedService → NamespacedName
key_of ms = record { name = ms.meta.name; namespace = ms.meta.namespace }

-- What the documentation of the Kubernetes API says of the client: the objects by key; reading
-- changes none of them; Create and Delete change at most the one that they name; Create stores what
-- it answers, whose name and spec are those that it was sent; Get answers what is stored, and List
-- with a namespace only objects of that namespace.
pub record ClientLaws {W : Type 0} (client : Client W) : Type 0 where
  pub objects : W → NamespacedName → Option ManagedService
  pub list_keeps : (o : ListOptions) (w : W) → objects (client.list o w).1 ≡ objects w
  pub get_keeps : (k : NamespacedName) (w : W) → objects (client.get k w).1 ≡ objects w
  pub create_others :
      (ms : ManagedService) (w : W) (k : NamespacedName)
      → k ≢ key_of ms
      → objects (client.create ms w).1 k ≡ objects w k
  pub delete_others :
      (k j : NamespacedName) (w : W) → j ≢ k → objects (client.delete k w).1 j ≡ objects w j
  pub create_stores :
      (ms made : ManagedService) (w : W)
      → (client.create ms w).0 ≡ ok made
      → (objects (client.create ms w).1 (key_of ms) ≡ some made)
        × (made.spec ≡ ms.spec)
        × (key_of made ≡ key_of ms)
  pub get_reads :
      (k : NamespacedName) (w : W) (ms : ManagedService)
      → objects w k ≡ some ms
      → (client.get k w).0 ≡ ok ms
  pub list_in_namespace :
      (o : ListOptions) (w : W) (items : List ManagedService)
      → (client.list o w).0 ≡ ok items
      → All (λ (ms : ManagedService). ms.meta.namespace ≡ o.in_namespace) items

-- From `w` to `w'` nothing outside of the namespace "applications" changed.
abbrev pub KeepsOthers : {W : Type 0} {client : Client W} → ClientLaws client → W → W → Type 0
KeepsOthers laws w w' =
    (k : NamespacedName)
    → k.namespace ≢ applications_namespace
    → laws.objects w' k ≡ laws.objects w k

-- An operation that leaves everything outside of the namespace alone, whatever it answers.
pub record StaysInScope {W : Type 0} {client : Client W} (laws : ClientLaws client)
    (store : ManagedServiceStore W) : Type 0 where
  pub create :
      (name : Str) (replicas : ℤ) (message : Str) (w : W)
      → KeepsOthers laws w (store.create name replicas message w).1
  pub list : (w : W) → KeepsOthers laws w (store.list w).1
  pub get : (name : Str) (w : W) → KeepsOthers laws w (store.get name w).1
  pub delete : (name : Str) (w : W) → KeepsOthers laws w (store.delete name w).1
  pub ready : (w : W) → KeepsOthers laws w (store.ready w).1

module _ {W : Type 0} (client : Client W) (laws : ClientLaws client) where
  -- If the client keeps its laws, no operation of the store changes an object outside of the namespace
  -- "applications".
  pub controller_runtime_store-StaysInScope : StaysInScope laws (controller_runtime_store client)
  unfolding controller_runtime_store new_managed_service
  controller_runtime_store-StaysInScope = record {
    create = λ name replicas message w k other.
        laws.create_others (new_managed_service name replicas message) w k
          (λ e. other (ap (λ (n : NamespacedName). n.namespace) e));
    list = λ w k other. ap (λ f. f k) (laws.list_keeps _ w);
    get = λ name w k other. ap (λ f. f k) (laws.get_keeps _ w);
    delete = λ name w k other.
        laws.delete_others (in_applications name) k w
          (λ e. other (ap (λ (n : NamespacedName). n.namespace) e));
    ready = λ w k other. ap (λ f. f k) (laws.list_keeps _ w);
  }

  -- If the client keeps its laws, a ManagedService that was created is got by its name at once, with
  -- the template "demo-http" and the replicas and the message that were asked for.
  pub store_get-store_create :
      (name : Str) (replicas : ℤ) (message : Str) (w : W) (made : ManagedService)
      → (store_create client name replicas message w).0 ≡ ok made
      → ((store_get client name (store_create client name replicas message w).1).0 ≡ ok made)
        × (made.meta.name ≡ name)
        × (made.spec
            ≡ record { template = template_demo_http; replicas = some replicas; message = message })
  unfolding store_create store_get new_managed_service
  store_get-store_create name replicas message w made h =
      let (stored, spec, key) =
        laws.create_stores (new_managed_service name replicas message) made w h in
      (
        laws.get_reads (in_applications name) _ made stored,
        ap (λ (n : NamespacedName). n.name) key,
        spec,
      )
