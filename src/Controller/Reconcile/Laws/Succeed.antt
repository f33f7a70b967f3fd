-- ===== src/Controller/Reconcile/Laws/Succeed.antt =====
-- When a reconciliation returns no error.
use cloud_native_service_con.Base.{ℕ, ◌≡◌}
use cloud_native_service_con.Types.{ManagedService}
use cloud_native_service_con.Errors.{ok}
use cloud_native_service_con.Controller.Workload.{Deployment, Service}
use cloud_native_service_con.Controller.Image.Laws.{IsImmutable}
use cloud_native_service_con.Controller.Resources.{Settings}
use cloud_native_service_con.Controller.Reconcile.{Cluster, reconcile_deployment, reconcile_service}
use cloud_native_service_con.Controller.Reconcile.Laws.Persist.{ClusterLaws}
use cloud_native_service_con.Controller.Reconcile.Laws.Degrade.{AcceptsPatches}

module _ {W : Type 0} (c : Cluster W) (laws : ClusterLaws c) (accepts : AcceptsPatches c)
    (r : Settings) (clock : ℕ → ℕ) where
  -- The image is approved, and the Deployment and then the Service are written without error.
  pub record CanSucceed (ms : ManagedService) (w : W) : Type 0 where
    pub approved : IsImmutable r.demo_http_image
    pub deployment : Deployment
    pub deployed : (reconcile_deployment c r clock ms w).0 ≡ ok deployment
    pub service : Service
    pub served :
        (reconcile_service c r clock ms (reconcile_deployment c r clock ms w).1).0 ≡ ok service
