-- ===== src/Examples/OfSettling.antt =====
-- A second reconciliation of the sample cluster.
use cloud_native_service_con.Base.{pos, refl, some, true, ◌≡◌, ℕ}
use cloud_native_service_con.Text.{codes}
use cloud_native_service_con.Types.{ManagedService, ManagedServiceStatus}
use cloud_native_service_con.Errors.{ok}
use cloud_native_service_con.Controller.Labels.{
  managed_service_labels, managed_service_pod_labels, managed_service_selector,
}
use cloud_native_service_con.Controller.Workload.{Deployment, Service, new_deployment, new_service}
use cloud_native_service_con.Controller.Status.{service_endpoint}
use cloud_native_service_con.Controller.Resources.{
  demo_pod, desired_ports, set_deployment, set_service,
}
use cloud_native_service_con.Controller.Status.{observed_status}
use cloud_native_service_con.Controller.Reconcile.{
  State, reconcile, reconcile_deployment, reconcile_service,
}
use cloud_native_service_con.Examples.SampleCluster.{
  sample_cluster, SampleWorld, sample_cluster-Laws, sample_key, sample_service_object,
  sample_settings, sample_world,
}
use cloud_native_service_con.Controller.Reconcile.Laws.Settle.{unpatched, reconcile-settles}
use cloud_native_service_con.Examples.SampleConditions.{eq_managed_status_refl, sample_conditions}
use cloud_native_service_con.Examples.OfController.{
  controller, sample_clock, sample_state, owned, found_it, reconciled,
}

abbrev first_deployment : Deployment
first_deployment =
    set_deployment sample_settings sample_service_object owned
      (record (new_deployment (codes "portfolio-demo") (codes "applications")) {
        ready_replicas = pos 2;
      })

abbrev settled_object : ManagedService
settled_object =
    observed_status sample_conditions sample_clock sample_service_object first_deployment

abbrev next_state : State SampleWorld
next_state = (reconcile sample_cluster sample_settings sample_clock 7 sample_key sample_state).1

first_deployed :
    (reconcile_deployment sample_cluster sample_settings sample_clock sample_service_object
      (sample_cluster.get sample_key sample_world).1).0
    ≡ ok first_deployment
unfolding controller
first_deployed = refl

first_stored : sample_cluster-Laws.stored sample_key next_state.world ≡ some settled_object
unfolding controller sample_cluster-Laws
first_stored = refl

read_again : (sample_cluster.get sample_key next_state.world).0 ≡ ok settled_object
unfolding controller
read_again = refl

-- The second reconciliation reads another clock.
abbrev later_clock : ℕ → ℕ
later_clock n = 99

deployed_again :
    (reconcile_deployment sample_cluster sample_settings later_clock settled_object
      (sample_cluster.get sample_key next_state.world).1).0
    ≡ ok first_deployment
unfolding controller service_endpoint managed_service_labels managed_service_selector
    managed_service_pod_labels demo_pod
deployed_again = refl

abbrev settled_service : Service
settled_service =
    set_service settled_object owned (new_service (codes "portfolio-demo") (codes "applications"))

served_again :
    (reconcile_service sample_cluster sample_settings later_clock settled_object
      (reconcile_deployment sample_cluster sample_settings later_clock settled_object
        (sample_cluster.get sample_key next_state.world).1).1).0
    ≡ ok settled_service
unfolding controller managed_service_labels managed_service_selector desired_ports
served_again = refl

same_status : (a : ManagedServiceStatus) → sample_cluster.deep_equal a a ≡ true
unfolding sample_cluster
same_status = eq_managed_status_refl

settled_rest :
    (settled_object.meta ≡ sample_service_object.meta)
    × (settled_object.spec ≡ sample_service_object.spec)
unfolding controller
settled_rest = (refl, refl)

reconcile-settles_example :
    reconcile sample_cluster sample_settings later_clock 8 sample_key next_state
    ≡ unpatched sample_cluster sample_cluster-Laws same_status sample_settings later_clock
        settled_object 8
        (sample_cluster.get sample_key next_state.world).1
        next_state.metrics
reconcile-settles_example =
    reconcile-settles sample_cluster sample_cluster-Laws same_status sample_settings later_clock
      sample_clock 7 8 sample_key sample_state next_state sample_service_object settled_object
      first_deployment first_deployment settled_service found_it first_deployed reconciled
      first_stored settled_rest.0 settled_rest.1 read_again deployed_again refl served_again
