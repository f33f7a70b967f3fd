-- ===== src/Controller/Status/Settled.antt =====
-- A status that says what is observed already is not changed.
use cloud_native_service_con.Base.{ℕ, ◌≡◌, refl, ap, true, false, Bool}
use cloud_native_service_con.Text.{Str}
use cloud_native_service_con.Types.{ConditionStatus, ManagedService}
use cloud_native_service_con.Controller.Conditions.{ConditionLaws, ConditionLibrary}
use cloud_native_service_con.Controller.Workload.{Deployment}
use cloud_native_service_con.Controller.Status.{
  is_available, observed_status, observed_with, service_endpoint, set_managed_service_condition,
  set_workload_conditions,
}
use cloud_native_service_con.Controller.Status.Laws.{
  IsObserved, Reports, is_available_complete, is_available_sound,
}

module _ (lib : ConditionLibrary) (laws : ConditionLaws lib) (clock : ℕ → ℕ) where
  -- A condition that is there already is set without a change.
  set_reported :
      (n : ℕ) (ms : ManagedService) (t : Str) (status : ConditionStatus) (reason message : Str)
      → Reports lib ms t status reason message
      → set_managed_service_condition lib clock n ms t status reason message ≡ ms
  unfolding set_managed_service_condition
  set_reported n ms t status reason message r =
      ap (λ cs. record ms { status = record (ms.status) { conditions = cs } })
        (laws.set_same (clock n) ms.status.conditions _ r.condition r.found (record {
          type_name = laws.find_typed ms.status.conditions t r.condition r.found;
          status = r.has_status;
          reason = r.has_reason;
          message = r.has_message;
          observed_generation = r.is_current;
        }))

  -- The plain fields are there already.
  same_fields :
      (ms : ManagedService) (d : Deployment)
      → IsObserved lib ms d ms
      → record ms {
        status = record (ms.status) {
          observed_generation = ms.meta.generation;
          ready_replicas = d.ready_replicas;
          endpoint = service_endpoint ms.meta;
        };
      }
        ≡ ms
  same_fields ms d i = cc (i.observed, i.replicas, i.endpoint)

  settled_with :
      (available : Bool) (ms : ManagedService) (d : Deployment)
      → is_available lib clock ms d ≡ available
      → IsObserved lib ms d ms
      → observed_with lib clock available ms d ≡ ms
  unfolding observed_with set_workload_conditions
  settled_with true ms d e i =
      let (available, progressing) = i.enough (is_available_sound lib clock ms d e) in
      rw (same_fields ms d i) (
        rw (set_reported 0 ms _ _ _ _ available)
          (rw (set_reported 1 ms _ _ _ _ progressing) (set_reported 2 ms _ _ _ _ i.healthy)))
  settled_with false ms d e i =
      let (available, progressing) = i.waiting (is_available_complete lib clock ms d e) in
      rw (same_fields ms d i) (
        rw (set_reported 0 ms _ _ _ _ available)
          (rw (set_reported 1 ms _ _ _ _ progressing) (set_reported 2 ms _ _ _ _ i.healthy)))

  -- If the conditions keep their laws, an object whose status is that of a successful reconciliation of
  -- itself with a Deployment gets the same status from this Deployment again, at any time.
  pub observed_status_settled :
      (ms : ManagedService) (d : Deployment)
      → IsObserved lib ms d ms
      → observed_status lib clock ms d ≡ ms
  unfolding observed_status
  observed_status_settled ms d i = settled_with (is_available lib clock ms d) ms d refl i
