-- ===== src/EndToEnd.antt =====
-- The API and the operator on one cluster: a ManagedService that the API creates
-- (internal/controlplaneapi), that the operator reconciles (internal/controller), and that the API then
-- shows. They share nothing but the stored object.
pub mod Deployed
pub mod Shown
use cloud_native_service_con.Base.{List, Option, none, some, ◌≡◌}
use cloud_native_service_con.Text.{Str}
use cloud_native_service_con.Types.{
  Condition, ManagedService, ManagedServiceSpec, NamespacedName, ObjectMeta,
}
use cloud_native_service_con.Controller.Reconcile.{Cluster}
use cloud_native_service_con.Controller.Reconcile.Laws.Persist.{ClusterLaws}
use cloud_native_service_con.ControlPlaneApi.Store.{Client}
use cloud_native_service_con.ControlPlaneApi.Store.Scope.{ClientLaws}
use mathlib.Core.List.{Mem}

-- What of an object the status subresource leaves alone.
unfoldable pub fixed_part : Option ManagedService → Option (ObjectMeta × ManagedServiceSpec)
fixed_part none = none
fixed_part (some ms) = some (ms.meta, ms.spec)

-- The two clients see one cluster: the same objects are stored; the operator's Get changes nothing, and
-- its status patch changes no metadata that the program reads, and no spec; and FindStatusCondition
-- gives a condition of the list, of the type that was asked for.
pub record SharesCluster {W : Type 0} {client : Client W} {c : Cluster W} (laws : ClientLaws client)
    (cluster_laws : ClusterLaws c) : Type 0 where
  pub same_objects : (k : NamespacedName) (w : W) → cluster_laws.stored k w ≡ laws.objects w k
  pub get_keeps :
      (k j : NamespacedName) (w : W) → cluster_laws.stored j (c.get k w).1 ≡ cluster_laws.stored j w
  pub patch_keeps :
      (before ms : ManagedService) (k : NamespacedName) (w : W)
      → fixed_part (cluster_laws.stored k (c.patch_status before ms w).1)
        ≡ fixed_part (cluster_laws.stored k w)
  pub find_member :
      (cs : List Condition) (t : Str) (d : Condition)
      → c.conditions.find cs t ≡ some d
      → Mem d cs × (d.type_name ≡ t)
