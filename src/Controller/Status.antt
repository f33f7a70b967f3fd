-- ===== src/Controller/Status.antt =====
-- The status of a ManagedService (managedservice_status.go).
pub mod Laws
pub mod Settled
use cloud_native_service_con.Base.{Bool, [], false, ltb_ℤ, not, pos, true, ℕ, ◌++◌}
use cloud_native_service_con.Text.{Str, codes}
use cloud_native_service_con.Types.{
  ConditionStatus, ManagedService, ObjectMeta, condition_available, condition_degraded,
  condition_false, condition_progressing, condition_true,
}
use cloud_native_service_con.Errors.{Error, text}
use cloud_native_service_con.Controller.Conditions.{ConditionLibrary}
use cloud_native_service_con.Controller.Labels.{desired_replicas}
use cloud_native_service_con.Controller.Workload.{Deployment}

abbrev pub reason_workload_available : Str
reason_workload_available = codes "WorkloadAvailable"

abbrev pub reason_workload_progressing : Str
reason_workload_progressing = codes "WorkloadProgressing"

abbrev pub reason_reconciliation_failed : Str
reason_reconciliation_failed = codes "ReconciliationFailed"

abbrev pub reason_reconciliation_succeeded : Str
reason_reconciliation_succeeded = codes "ReconciliationSucceeded"

abbrev pub reason_template_configuration_invalid : Str
reason_template_configuration_invalid = codes "TemplateConfigurationInvalid"

abbrev pub reason_deployment_reconcile_failed : Str
reason_deployment_reconcile_failed = codes "DeploymentReconcileFailed"

abbrev pub reason_service_reconcile_failed : Str
reason_service_reconcile_failed = codes "ServiceReconcileFailed"

-- fmt.Sprintf("http://%s.%s.svc.cluster.local", name, namespace)
unfoldable pub service_endpoint : ObjectMeta → Str
service_endpoint m =
    codes "http://" ++ (m.name ++ (codes "." ++ (m.namespace ++ codes ".svc.cluster.local")))

module _ (lib : ConditionLibrary) (clock : ℕ → ℕ) where
  -- setManagedServiceCondition; `n` says which call, and `clock n` is when SetStatusCondition reads
  -- the time.
  unfoldable pub set_managed_service_condition :
      ℕ → ManagedService → Str → ConditionStatus → Str → Str → ManagedService
  set_managed_service_condition n ms condition_type status reason message = record ms {
    status = record (ms.status) {
      conditions = lib.set (clock n) ms.status.conditions (record {
        type_name = condition_type;
        status = status;
        reason = reason;
        message = message;
        observed_generation = ms.meta.generation;
        last_transition = 0;
      });
    };
  }

  -- `deployment.Status.ReadyReplicas >= desiredReplicas(managedService)`
  unfoldable pub is_available : ManagedService → Deployment → Bool
  is_available ms d = not (ltb_ℤ d.ready_replicas (desired_replicas ms))

  set_workload_conditions : Bool → ManagedService → ManagedService
  set_workload_conditions true ms =
      set_managed_service_condition 1
        (set_managed_service_condition 0 ms condition_available condition_true
          reason_workload_available (codes "Deployment has the desired number of ready replicas"))
        condition_progressing condition_false reason_workload_available
        (codes "Reconciliation succeeded")
  set_workload_conditions false ms =
      set_managed_service_condition 1
        (set_managed_service_condition 0 ms condition_available condition_false
          reason_workload_progressing (codes "Deployment is waiting for ready replicas"))
        condition_progressing condition_true reason_workload_progressing
        (codes "Deployment is waiting for ready replicas")

  -- The assignments of updateManagedServiceStatus, under the result of its test.
  unfoldable pub observed_with : Bool → ManagedService → Deployment → ManagedService
  unfolding set_workload_conditions
  observed_with available ms d =
      let observed : ManagedService = record ms {
        status = record (ms.status) {
          observed_generation = ms.meta.generation;
          ready_replicas = d.ready_replicas;
          endpoint = service_endpoint ms.meta;
        };
      } in
      set_managed_service_condition 2 (set_workload_conditions available observed)
        condition_degraded condition_false reason_reconciliation_succeeded
        (codes "Reconciliation succeeded")

  -- updateManagedServiceStatus, up to the patch.
  unfoldable pub observed_status : ManagedService → Deployment → ManagedService
  unfolding is_available
  observed_status ms d = observed_with (is_available ms d) ms d

  -- recordDegradedStatus, up to the patch.
  unfoldable pub degraded_status : ManagedService → Str → Error → ManagedService
  degraded_status ms reason e =
      let failed : ManagedService = record ms {
        status = record (ms.status) {
          observed_generation = ms.meta.generation;
          ready_replicas = pos 0;
          endpoint = [];
        };
      } in
      set_managed_service_condition 2
        (set_managed_service_condition 1
          (set_managed_service_condition 0 failed condition_available condition_false
            reason_reconciliation_failed (codes "Reconciliation failed"))
          condition_progressing condition_false reason_reconciliation_failed
          (codes "Reconciliation failed"))
        condition_degraded condition_true reason (text e)
