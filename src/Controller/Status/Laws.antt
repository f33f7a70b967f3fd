-- ===== src/Controller/Status/Laws.antt =====
-- What the status says after a reconciliation.
use cloud_native_service_con.Base.{
  some, ℕ, ◌∙◌, ◌≡◌, ◌≢◌, [], pos, ◌≤ℤ◌, refl, Bool-cases, arith, false, inl, inr, ltb_ℤ, not, true,
  ℤ,
}
use cloud_native_service_con.Text.{Str, codes}
use cloud_native_service_con.Types.{
  Condition, ConditionStatus, ManagedService, condition_available, condition_degraded,
  condition_false, condition_progressing, condition_true,
}
use cloud_native_service_con.Errors.{Error, text}
use cloud_native_service_con.Controller.Conditions.{ConditionLibrary, ConditionLaws}
use cloud_native_service_con.Controller.Labels.{desired_replicas}
use cloud_native_service_con.Controller.Workload.{Deployment}
use cloud_native_service_con.Controller.Status.{
  set_managed_service_condition, degraded_status, observed_status, reason_reconciliation_failed,
  reason_reconciliation_succeeded, reason_workload_available, reason_workload_progressing,
  service_endpoint, is_available, observed_with,
}

-- Of the type `t` the status of `ms` has a condition with this status, reason and message, for the
-- generation of the spec.
pub record Reports (lib : ConditionLibrary) (ms : ManagedService) (t : Str)
    (status : ConditionStatus) (reason message : Str) : Type 0 where
  pub condition : Condition
  pub found : lib.find ms.status.conditions t ≡ some condition
  pub has_status : condition.status ≡ status
  pub has_reason : condition.reason ≡ reason
  pub has_message : condition.message ≡ message
  pub is_current : condition.observed_generation ≡ ms.meta.generation

module _ (lib : ConditionLibrary) (laws : ConditionLaws lib) (clock : ℕ → ℕ) where
  set-Reports :
      (n : ℕ) (ms : ManagedService) (t : Str) (status : ConditionStatus) (reason message : Str)
      → Reports lib
          (set_managed_service_condition lib clock n ms t status reason message)
          t
          status
          reason
          message
  unfolding set_managed_service_condition
  set-Reports n ms t status reason message =
      let (d, found, same) = laws.find-set_self (clock n) ms.status.conditions (record {
        type_name = t;
        status = status;
        reason = reason;
        message = message;
        observed_generation = ms.meta.generation;
        last_transition = 0;
      }) in
      record {
        condition = d;
        found = found;
        has_status = same.status;
        has_reason = same.reason;
        has_message = same.message;
        is_current = same.observed_generation;
      }

  Reports-set_other :
      (n : ℕ) (ms : ManagedService) (t : Str) (status : ConditionStatus) (reason message : Str)
      {t' : Str} {status' : ConditionStatus} {reason' message' : Str}
      → t ≢ t'
      → Reports lib ms t' status' reason' message'
      → Reports lib
          (set_managed_service_condition lib clock n ms t status reason message)
          t'
          status'
          reason'
          message'
  unfolding set_managed_service_condition
  Reports-set_other n ms t status reason message {t'} other r = record {
    condition = r.condition;
    found =
        laws.find-set_other (clock n) ms.status.conditions
          (record {
            type_name = t;
            status = status;
            reason = reason;
            message = message;
            observed_generation = ms.meta.generation;
            last_transition = 0;
          })
          t' other
        ∙ r.found;
    has_status = r.has_status;
    has_reason = r.has_reason;
    has_message = r.has_message;
    is_current = r.is_current;
  }

available-ne-progressing : condition_available ≢ condition_progressing
available-ne-progressing = cc

progressing-ne-available : condition_progressing ≢ condition_available
progressing-ne-available = cc

degraded-ne-available : condition_degraded ≢ condition_available
degraded-ne-available = cc

degraded-ne-progressing : condition_degraded ≢ condition_progressing
degraded-ne-progressing = cc

-- The status of a failed reconciliation of `ms`: not available, not progressing, degraded for this
-- reason with the error's text, no ready replicas and no endpoint; the spec is untouched.
pub record IsDegraded (lib : ConditionLibrary) (ms : ManagedService) (reason : Str) (e : Error)
    (after : ManagedService) : Type 0 where
  pub available :
      Reports lib after condition_available condition_false reason_reconciliation_failed
        (codes "Reconciliation failed")
  pub progressing :
      Reports lib after condition_progressing condition_false reason_reconciliation_failed
        (codes "Reconciliation failed")
  pub degraded : Reports lib after condition_degraded condition_true reason (text e)
  pub observed : after.status.observed_generation ≡ ms.meta.generation
  pub no_replicas : after.status.ready_replicas ≡ pos 0
  pub no_endpoint : after.status.endpoint ≡ []
  pub same_meta : after.meta ≡ ms.meta
  pub same_spec : after.spec ≡ ms.spec

-- The status of a successful reconciliation of `ms` that found the Deployment `d`: available exactly
-- if `d` has the desired number of ready replicas, else progressing, and not degraded.
pub record IsObserved (lib : ConditionLibrary) (ms : ManagedService) (d : Deployment)
    (after : ManagedService) : Type 0 where
  pub enough :
      desired_replicas ms ≤ℤ d.ready_replicas
      → Reports lib after condition_available condition_true reason_workload_available
          (codes "Deployment has the desired number of ready replicas")
        × Reports lib after condition_progressing condition_false reason_workload_available
            (codes "Reconciliation succeeded")
  pub waiting :
      ¬ (desired_replicas ms ≤ℤ d.ready_replicas)
      → Reports lib after condition_available condition_false reason_workload_progressing
          (codes "Deployment is waiting for ready replicas")
        × Reports lib after condition_progressing condition_true reason_workload_progressing
            (codes "Deployment is waiting for ready replicas")
  pub healthy :
      Reports lib after condition_degraded condition_false reason_reconciliation_succeeded
        (codes "Reconciliation succeeded")
  pub observed : after.status.observed_generation ≡ ms.meta.generation
  pub replicas : after.status.ready_replicas ≡ d.ready_replicas
  pub endpoint : after.status.endpoint ≡ service_endpoint ms.meta
  pub same_meta : after.meta ≡ ms.meta
  pub same_spec : after.spec ≡ ms.spec

ltb_ℤ-false→≤ℤ : (a b : ℤ) → not (ltb_ℤ a b) ≡ true → b ≤ℤ a
ltb_ℤ-false→≤ℤ a b h = ground arith

ltb_ℤ-true→not_≤ℤ : (a b : ℤ) → not (ltb_ℤ a b) ≡ false → ¬ (b ≤ℤ a)
ltb_ℤ-true→not_≤ℤ a b h k = ground arith

module _ (lib : ConditionLibrary) (clock : ℕ → ℕ) (ms : ManagedService) (d : Deployment) where
  pub is_available_sound :
      is_available lib clock ms d ≡ true → desired_replicas ms ≤ℤ d.ready_replicas
  unfolding is_available
  is_available_sound h = ltb_ℤ-false→≤ℤ d.ready_replicas (desired_replicas ms) h

  pub is_available_complete :
      is_available lib clock ms d ≡ false → ¬ (desired_replicas ms ≤ℤ d.ready_replicas)
  unfolding is_available
  is_available_complete h = ltb_ℤ-true→not_≤ℤ d.ready_replicas (desired_replicas ms) h

module _ (lib : ConditionLibrary) (laws : ConditionLaws lib) (clock : ℕ → ℕ) where
  -- The three conditions, set one after the other.
  set_all-Reports :
      (ms : ManagedService) (a p d : ConditionStatus) (ra ma rp mp rd md : Str)
      → let after =
          set_managed_service_condition lib clock 2
            (set_managed_service_condition lib clock 1
              (set_managed_service_condition lib clock 0 ms condition_available a ra ma)
              condition_progressing
              p
              rp
              mp)
            condition_degraded
            d
            rd
            md in
        Reports lib after condition_available a ra ma
        × Reports lib after condition_progressing p rp mp
        × Reports lib after condition_degraded d rd md
  set_all-Reports ms a p d ra ma rp mp rd md =
      let first = set_managed_service_condition lib clock 0 ms condition_available a ra ma in
      let second = set_managed_service_condition lib clock 1 first condition_progressing p rp mp in
      (
        Reports-set_other lib laws clock 2 second condition_degraded d rd md degraded-ne-available (
            Reports-set_other lib laws clock 1 first condition_progressing p rp mp
              progressing-ne-available
              (set-Reports lib laws clock 0 ms condition_available a ra ma)),
        Reports-set_other lib laws clock 2 second condition_degraded d rd md degraded-ne-progressing
            (set-Reports lib laws clock 1 first condition_progressing p rp mp),
        set-Reports lib laws clock 2 second condition_degraded d rd md,
      )

  -- The status that recordDegradedStatus computes is that of a failed reconciliation, whatever the
  -- status was.
  pub degraded_status-IsDegraded :
      (ms : ManagedService) (reason : Str) (e : Error)
      → IsDegraded lib ms reason e (degraded_status lib clock ms reason e)
  unfolding degraded_status set_managed_service_condition
  degraded_status-IsDegraded ms reason e =
      let (available, progressing, degraded) = set_all-Reports _ _ _ _ _ _ _ _ _ _ in
      record {
        available = available;
        progressing = progressing;
        degraded = degraded;
        observed = refl;
        no_replicas = refl;
        no_endpoint = refl;
        same_meta = refl;
        same_spec = refl;
      }

  observed_with_enough :
      (ms : ManagedService) (d : Deployment)
      → desired_replicas ms ≤ℤ d.ready_replicas
      → IsObserved lib ms d (observed_with lib clock true ms d)
  unfolding observed_with set_managed_service_condition
  observed_with_enough ms d h =
      let (available, progressing, degraded) = set_all-Reports _ _ _ _ _ _ _ _ _ _ in
      record {
        enough = λ _. (available, progressing);
        waiting = λ k. absurd (k h);
        healthy = degraded;
        observed = refl;
        replicas = refl;
        endpoint = refl;
        same_meta = refl;
        same_spec = refl;
      }

  observed_with_waiting :
      (ms : ManagedService) (d : Deployment)
      → ¬ (desired_replicas ms ≤ℤ d.ready_replicas)
      → IsObserved lib ms d (observed_with lib clock false ms d)
  unfolding observed_with set_managed_service_condition
  observed_with_waiting ms d h =
      let (available, progressing, degraded) = set_all-Reports _ _ _ _ _ _ _ _ _ _ in
      record {
        enough = λ k. absurd (h k);
        waiting = λ _. (available, progressing);
        healthy = degraded;
        observed = refl;
        replicas = refl;
        endpoint = refl;
        same_meta = refl;
        same_spec = refl;
      }

  -- The status that updateManagedServiceStatus computes is that of a successful reconciliation,
  -- whatever the status was.
  pub observed_status-IsObserved :
      (ms : ManagedService) (d : Deployment) → IsObserved lib ms d (observed_status lib clock ms d)
  unfolding observed_status
  observed_status-IsObserved ms d = elim (Bool-cases (is_available lib clock ms d)) [
    | inl e ↦ rw e (observed_with_enough ms d (is_available_sound lib clock ms d e))
    | inr e ↦ rw e (observed_with_waiting ms d (is_available_complete lib clock ms d e))
  ]
