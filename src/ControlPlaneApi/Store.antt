-- ===== src/ControlPlaneApi/Store.antt =====
-- The store (store.go): the operations that the handlers use, as an interface, and their
-- implementation by a Kubernetes client within the namespace "applications".
pub mod Scope
use cloud_native_service_con.Base.{List, Option, none, pos, some, ℕ, ℤ}
use cloud_native_service_con.Text.{Str, codes}
use cloud_native_service_con.Types.{
  ManagedService, NamespacedName, empty_status, template_demo_http,
}
use cloud_native_service_con.Errors.{Error, Result, err, ok}

abbrev pub applications_namespace : Str
applications_namespace = codes "applications"

abbrev pub default_replicas : ℤ
default_replicas = pos 1

-- ManagedServiceStore, over the states `W` of what is behind it
pub record ManagedServiceStore (W : Type 0) : Type 0 where
  pub create : Str → ℤ → Str → W → Result ManagedService × W
  pub list : W → Result (List ManagedService) × W
  pub get : Str → W → Result ManagedService × W
  pub delete : Str → W → Option Error × W
  pub ready : W → Option Error × W

-- client.ListOption: InNamespace and Limit
pub record ListOptions : Type 0 where
  pub in_namespace : Str
  pub limit : Option ℕ

-- client.Client, a library. Create leaves the answer in its argument; Delete names its argument.
pub record Client (W : Type 0) : Type 0 where
  pub create : ManagedService → W → Result ManagedService × W
  pub list : ListOptions → W → Result (List ManagedService) × W
  pub get : NamespacedName → W → Result ManagedService × W
  pub delete : NamespacedName → W → Option Error × W

-- The object that Create sends.
unfoldable pub new_managed_service : Str → ℤ → Str → ManagedService
new_managed_service name replicas message = record {
  meta = record { name = name; namespace = applications_namespace; generation = pos 0 };
  spec = record { template = template_demo_http; replicas = some replicas; message = message };
  status = empty_status;
}

abbrev pub in_applications : Str → NamespacedName
in_applications name = record { name = name; namespace = applications_namespace }

unfoldable pub error_of {ℓ} : {A : Type ℓ} → Result A → Option Error
error_of (ok a) = none
error_of (err e) = some e

module _ {W : Type 0} (client : Client W) where
  unfoldable pub store_create : Str → ℤ → Str → W → Result ManagedService × W
  store_create name replicas message w = client.create (new_managed_service name replicas message) w

  unfoldable pub store_list : W → Result (List ManagedService) × W
  store_list w = client.list (record { in_namespace = applications_namespace; limit = none }) w

  unfoldable pub store_get : Str → W → Result ManagedService × W
  store_get name w = client.get (in_applications name) w

  unfoldable pub store_delete : Str → W → Option Error × W
  store_delete name w = client.delete (in_applications name) w

  unfoldable pub store_ready : W → Option Error × W
  unfolding error_of
  store_ready w =
      let (answer, w') =
        client.list (record { in_namespace = applications_namespace; limit = some 1 }) w in
      (error_of answer, w')

  -- NewControllerRuntimeStore
  unfoldable pub controller_runtime_store : ManagedServiceStore W
  unfolding store_create store_list store_get store_delete store_ready
  controller_runtime_store = record {
    create = store_create;
    list = store_list;
    get = store_get;
    delete = store_delete;
    ready = store_ready;
  }
