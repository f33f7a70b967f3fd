-- ===== src/EndToEnd/Deployed.antt =====
-- What a client sees of its ManagedService once the operator has reconciled it.

use cloud_native_service_con.Base.{ℕ, ◌≡◌, ◌∙◌, ap, refl, ℤ}
use cloud_native_service_con.Text.{Str}
use cloud_native_service_con.Types.{NamespacedName}
use cloud_native_service_con.Controller.Resources.{Settings}
use cloud_native_service_con.Controller.Reconcile.{Cluster, State, reconcile}
use cloud_native_service_con.Controller.Reconcile.Laws.Persist.{ClusterLaws}
use cloud_native_service_con.Controller.Reconcile.Laws.Scope.{ClusterKeeps, reconcile-keeps}
use cloud_native_service_con.Controller.Metrics.{Metrics}
use cloud_native_service_con.ControlPlaneApi.Store.{Client, store_create}
use cloud_native_service_con.ControlPlaneApi.Store.Scope.{ClientLaws}
use cloud_native_service_con.EndToEnd.{SharesCluster, fixed_part}

module _ {W : Type 0} {client : Client W} {c : Cluster W} (laws : ClientLaws client)
    (cluster_laws : ClusterLaws c) (shares : SharesCluster laws cluster_laws) where
  -- From one state to the next every ManagedService keeps its metadata and its spec.
  abbrev pub KeepsSpecs : W → W → Type 0
  KeepsSpecs w w' =
      (k : NamespacedName)
      → fixed_part (cluster_laws.stored k w') ≡ fixed_part (cluster_laws.stored k w)

  cluster-KeepsSpecs : ClusterKeeps KeepsSpecs c
  cluster-KeepsSpecs = record {
    same = λ w k. refl;
    compose = λ u v w first second k. second k ∙ first k;
    get = λ k w j. ap fixed_part (shares.get_keeps k j w);
    deployment = λ d f w k. ap fixed_part (cluster_laws.deployment_keeps k d f w);
    service = λ s f w k. ap fixed_part (cluster_laws.service_keeps k s f w);
    patch = λ before ms w k. shares.patch_keeps before ms k w;
  }

  -- If the clients share one cluster, a reconciliation, however it ends, keeps the metadata and the spec
  -- of every ManagedService.
  pub reconcile-KeepsSpecs :
      (r : Settings) (clock : ℕ → ℕ) (elapsed : ℕ) (k : NamespacedName) (s : State W)
      → KeepsSpecs s.world (reconcile c r clock elapsed k s).1.world
  reconcile-KeepsSpecs r clock elapsed k s =
      reconcile-keeps KeepsSpecs c cluster-KeepsSpecs r clock elapsed k s

-- The state in which the operator starts, after the API's Create.
abbrev pub state_after_create : {W : Type 0} → Client W → Str → ℤ → Str → Metrics → W → State W
state_after_create client name replicas message metrics w = record {
  world = (store_create client name replicas message w).1;
  metrics = metrics;
}
