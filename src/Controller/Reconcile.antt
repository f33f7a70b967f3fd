-- ===== src/Controller/Reconcile.antt =====
-- ManagedServiceReconciler.Reconcile (managedservice_controller.go) with the steps that it calls:
-- reconcileDeployment, reconcileService, updateManagedServiceStatus, recordDegradedStatus and
-- patchManagedServiceStatus. The cluster behind the Kubernetes client is a parameter.
pub mod Laws
use cloud_native_service_con.Base.{Bool, Option, if◌then◌else◌, none, some, ℕ}
use cloud_native_service_con.Text.{Str, codes}
use cloud_native_service_con.Types.{ManagedService, ManagedServiceStatus, NamespacedName}
use cloud_native_service_con.Errors.{Error, Result, err, join, ok, wrap, wrap_err}
use cloud_native_service_con.Controller.Conditions.{ConditionLibrary}
use cloud_native_service_con.Controller.Workload.{Deployment, Service, new_deployment, new_service}
use cloud_native_service_con.Controller.Image.{validate_immutable_image}
use cloud_native_service_con.Controller.Resources.{
  Settings, SetController, mutate_deployment, mutate_service,
}
use cloud_native_service_con.Controller.Metrics.{
  Metrics, ReconcileResult, no_requeue, observe_condition_transitions, observe_reconciliation,
}
use cloud_native_service_con.Controller.Status.{
  observed_status, degraded_status, reason_deployment_reconcile_failed,
  reason_service_reconcile_failed, reason_template_configuration_invalid,
}

-- The libraries that the reconciler calls, over the states `W` of the cluster.
pub record Cluster (W : Type 0) : Type 0 where
  -- client.Client: Get of a ManagedService
  pub get : NamespacedName → W → Result ManagedService × W
  -- controllerutil.CreateOrUpdate of the given new object with the given function
  pub create_or_update_deployment :
      Deployment → (Deployment → Result Deployment) → W → Result Deployment × W
  pub create_or_update_service : Service → (Service → Result Service) → W → Result Service × W
  -- Status().Patch(obj, MergeFrom(before)), which leaves the answer in obj
  pub patch_status : ManagedService → ManagedService → W → Result ManagedService × W
  pub set_controller : SetController
  -- equality.Semantic.DeepEqual
  pub deep_equal : ManagedServiceStatus → ManagedServiceStatus → Bool
  -- apierrors.IsNotFound, the test of client.IgnoreNotFound
  pub is_not_found : Error → Bool
  pub conditions : ConditionLibrary

-- The state: the cluster, and the reconciler's metrics.
pub record State (W : Type 0) : Type 0 where
  pub world : W
  pub metrics : Metrics

module _ {W : Type 0} (c : Cluster W) (r : Settings) (clock : ℕ → ℕ) where
  unfoldable pub reconcile_deployment : ManagedService → W → Result Deployment × W
  reconcile_deployment ms w =
      let (d, w') =
        c.create_or_update_deployment (new_deployment ms.meta.name ms.meta.namespace)
          (mutate_deployment c.set_controller r ms) w in
      (wrap_err (codes "reconcile Deployment") d, w')

  unfoldable pub reconcile_service : ManagedService → W → Result Service × W
  reconcile_service ms w =
      let (s, w') =
        c.create_or_update_service (new_service ms.meta.name ms.meta.namespace)
          (mutate_service c.set_controller ms) w in
      (wrap_err (codes "reconcile Service") s, w')

  -- The answer to the patch: its error, or the observation of the transitions.
  unfoldable pub after_patch :
      ManagedService → Result ManagedService → State W → Option Error × State W
  after_patch before (err e) s = (some (wrap (codes "patch ManagedService status") e), s)
  after_patch before (ok patched) s = (
    none,
    record s {
      metrics =
          observe_condition_transitions c.conditions before.status.conditions
            patched.status.conditions s.metrics;
    },
  )

  unfoldable pub patch_managed_service_status :
      ManagedService → ManagedService → State W → Option Error × State W
  unfolding after_patch
  patch_managed_service_status before ms s =
      if c.deep_equal before.status ms.status
      then (none, s)
      else (let (answer, w') = c.patch_status before ms s.world in
          after_patch before answer (record s { world = w' }))

  unfoldable pub update_managed_service_status :
      ManagedService → Deployment → State W → Option Error × State W
  update_managed_service_status ms d s =
      patch_managed_service_status ms (observed_status c.conditions clock ms d) s

  -- The error of recordDegradedStatus: that of the reconciliation, joined with that of the patch.
  unfoldable pub join_patch : Error → Option Error → Error
  join_patch e none = e
  join_patch e (some patch_err) = join (some e) patch_err

  unfoldable pub record_degraded_status :
      ManagedService → Str → Error → State W → Option Error × State W
  unfolding join_patch
  record_degraded_status ms reason e s =
      let (patched, s') =
        patch_managed_service_status ms (degraded_status c.conditions clock ms reason e) s in
      (some (join_patch e patched), s')

  -- The steps after the Deployment, after the Service, and after the image was approved.
  unfoldable pub finish_service :
      ManagedService → Deployment → Result Service → State W → Option Error × State W
  finish_service ms d (err e) s = record_degraded_status ms reason_service_reconcile_failed e s
  finish_service ms d (ok _) s = update_managed_service_status ms d s

  unfoldable pub finish_deployment :
      ManagedService → Result Deployment → State W → Option Error × State W
  unfolding finish_service
  finish_deployment ms (err e) s = record_degraded_status ms reason_deployment_reconcile_failed e s
  finish_deployment ms (ok d) s =
      let (service, w') = reconcile_service ms s.world in
      finish_service ms d service (record s { world = w' })

  unfoldable pub reconcile_workload :
      ManagedService → Option Error → State W → Option Error × State W
  unfolding finish_deployment
  reconcile_workload ms (some e) s =
      record_degraded_status ms reason_template_configuration_invalid e s
  reconcile_workload ms none s =
      let (deployment, w') = reconcile_deployment ms s.world in
      finish_deployment ms deployment (record s { world = w' })

  -- The body of Reconcile, from the answer to Get. IgnoreNotFound makes nil of a missing object.
  unfoldable pub reconcile_found : Result ManagedService → State W → Option Error × State W
  unfolding reconcile_workload
  reconcile_found (err e) s = (if c.is_not_found e then none else some e, s)
  reconcile_found (ok ms) s = reconcile_workload ms (validate_immutable_image r.demo_http_image) s

  -- Reconcile, which took the time `elapsed`: the body, and then the deferred observation.
  unfoldable pub reconcile :
      ℕ → NamespacedName → State W → (ReconcileResult × Option Error) × State W
  unfolding reconcile_found
  reconcile elapsed req s =
      let (found, w') = c.get req s.world in
      let (reconcile_err, s') = reconcile_found found (record s { world = w' }) in
      (
        (no_requeue, reconcile_err),
        record s' { metrics = observe_reconciliation no_requeue reconcile_err elapsed s'.metrics },
      )
