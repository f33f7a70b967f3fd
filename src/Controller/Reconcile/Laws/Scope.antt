-- ===== src/Controller/Reconcile/Laws/Scope.antt =====
-- What a reconciliation leaves alone.
use cloud_native_service_con.Base.{Bool-cases, Option, none, some, inl, inr, ℕ}
use cloud_native_service_con.Types.{ManagedService, NamespacedName}
use cloud_native_service_con.Errors.{Error, Result, err, ok}
use cloud_native_service_con.Text.{Str}
use cloud_native_service_con.Controller.Workload.{Deployment, Service}
use cloud_native_service_con.Controller.Image.{validate_immutable_image}
use cloud_native_service_con.Controller.Resources.{Settings}
use cloud_native_service_con.Controller.Status.{degraded_status, observed_status}
use cloud_native_service_con.Controller.Reconcile.{
  Cluster, State, after_patch, finish_deployment, finish_service, patch_managed_service_status,
  reconcile, reconcile_deployment, reconcile_found, reconcile_service, reconcile_workload,
  record_degraded_status, update_managed_service_status,
}

-- What every operation of the cluster keeps from one state to the next.
pub record ClusterKeeps {W : Type 0} (R : W → W → Type 0) (c : Cluster W) : Type 0 where
  pub same : (w : W) → R w w
  pub compose : (u v w : W) → R u v → R v w → R u w
  pub get : (k : NamespacedName) (w : W) → R w (c.get k w).1
  pub deployment :
      (d : Deployment) (f : Deployment → Result Deployment) (w : W)
      → R w (c.create_or_update_deployment d f w).1
  pub service :
      (s : Service) (f : Service → Result Service) (w : W)
      → R w (c.create_or_update_service s f w).1
  pub patch : (before ms : ManagedService) (w : W) → R w (c.patch_status before ms w).1

module _ {W : Type 0} (R : W → W → Type 0) (c : Cluster W) (keeps : ClusterKeeps R c) (r : Settings)
    (clock : ℕ → ℕ) where
  after_patch_keeps :
      (before : ManagedService) (answer : Result ManagedService) (s : State W)
      → R s.world (after_patch c r clock before answer s).1.world
  unfolding after_patch
  after_patch_keeps before (err e) s = keeps.same s.world
  after_patch_keeps before (ok p) s = keeps.same s.world

  patch_keeps :
      (before ms : ManagedService) (s : State W)
      → R s.world (patch_managed_service_status c r clock before ms s).1.world
  unfolding patch_managed_service_status
  patch_keeps before ms s = elim (Bool-cases (c.deep_equal before.status ms.status)) [
    | inl same ↦ rw same (keeps.same s.world)
    | inr differ ↦
        let w' = (c.patch_status before ms s.world).1 in
        rw differ (
          keeps.compose s.world w' _ (keeps.patch before ms s.world) (
            after_patch_keeps before (c.patch_status before ms s.world).0
              (record s { world = w' })))
  ]

  degraded_keeps :
      (ms : ManagedService) (reason : Str) (e : Error) (s : State W)
      → R s.world (record_degraded_status c r clock ms reason e s).1.world
  unfolding record_degraded_status
  degraded_keeps ms reason e s = patch_keeps ms (degraded_status c.conditions clock ms reason e) s

  finish_service_keeps :
      (ms : ManagedService) (d : Deployment) (service : Result Service) (s : State W)
      → R s.world (finish_service c r clock ms d service s).1.world
  unfolding finish_service update_managed_service_status
  finish_service_keeps ms d (err e) s = degraded_keeps ms _ e s
  finish_service_keeps ms d (ok v) s = patch_keeps ms (observed_status c.conditions clock ms d) s

  finish_deployment_keeps :
      (ms : ManagedService) (deployment : Result Deployment) (s : State W)
      → R s.world (finish_deployment c r clock ms deployment s).1.world
  unfolding finish_deployment reconcile_service
  finish_deployment_keeps ms (err e) s = degraded_keeps ms _ e s
  finish_deployment_keeps ms (ok d) s =
      let w' = (reconcile_service c r clock ms s.world).1 in
      keeps.compose s.world w' _ (keeps.service _ _ s.world) (
        finish_service_keeps ms d (reconcile_service c r clock ms s.world).0
          (record s { world = w' }))

  workload_keeps :
      (ms : ManagedService) (image : Option Error) (s : State W)
      → R s.world (reconcile_workload c r clock ms image s).1.world
  unfolding reconcile_workload reconcile_deployment
  workload_keeps ms (some e) s = degraded_keeps ms _ e s
  workload_keeps ms none s =
      let w' = (reconcile_deployment c r clock ms s.world).1 in
      keeps.compose s.world w' _ (keeps.deployment _ _ s.world) (
        finish_deployment_keeps ms (reconcile_deployment c r clock ms s.world).0
          (record s { world = w' }))

  found_keeps :
      (found : Result ManagedService) (s : State W)
      → R s.world (reconcile_found c r clock found s).1.world
  unfolding reconcile_found
  found_keeps (err e) s = keeps.same s.world
  found_keeps (ok ms) s = workload_keeps ms (validate_immutable_image r.demo_http_image) s

  -- What every operation of the cluster keeps, a reconciliation keeps, however it ends.
  pub reconcile-keeps :
      (elapsed : ℕ) (k : NamespacedName) (s : State W)
      → R s.world (reconcile c r clock elapsed k s).1.world
  unfolding reconcile
  reconcile-keeps elapsed k s =
      let w' = (c.get k s.world).1 in
      keeps.compose s.world w' _ (keeps.get k s.world)
        (found_keeps (c.get k s.world).0 (record s { world = w' }))
