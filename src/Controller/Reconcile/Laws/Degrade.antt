-- ===== src/Controller/Reconcile/Laws/Degrade.antt =====
-- The status that is stored after a reconciliation that failed.
use cloud_native_service_con.Base.{
  Bool-cases, Option, inl, inr, none, refl, some, ℕ, ◌∙◌, ◌≡◌, subst,
}
use cloud_native_service_con.Text.{Str}
use cloud_native_service_con.Types.{ManagedService, NamespacedName}
use cloud_native_service_con.Errors.{Error, Result, err, ok}
use cloud_native_service_con.Controller.Workload.{Deployment, Service}
use cloud_native_service_con.Controller.Image.{validate_immutable_image}
use cloud_native_service_con.Controller.Resources.{Settings}
use cloud_native_service_con.Controller.Status.{
  degraded_status, observed_status, reason_deployment_reconcile_failed,
  reason_service_reconcile_failed, reason_template_configuration_invalid,
}
use cloud_native_service_con.Controller.Status.Laws.{IsDegraded, degraded_status-IsDegraded}
use cloud_native_service_con.Controller.Reconcile.{
  Cluster, State, finish_deployment, finish_service, join_patch, patch_managed_service_status,
  reconcile, reconcile_deployment, reconcile_found, reconcile_service, reconcile_workload,
  record_degraded_status, update_managed_service_status,
}
use cloud_native_service_con.Controller.Reconcile.Laws.Persist.{
  ClusterLaws, HasStatus, key_of, patch-HasStatus,
}

-- The cluster accepts every status patch.
abbrev pub AcceptsPatches : {W : Type 0} → Cluster W → Type 0
AcceptsPatches {W} c =
    (before ms : ManagedService) (w : W)
    → (p : ManagedService) × ((c.patch_status before ms w).0 ≡ ok p)

module _ {W : Type 0} (c : Cluster W) (laws : ClusterLaws c) (accepts : AcceptsPatches c)
    (r : Settings) (clock : ℕ → ℕ) where
  -- The status with which a reconciliation of `ms` with the error `e` ends.
  pub record IsFailed (k : NamespacedName) (ms : ManagedService) (e : Error) (w : W) : Type 0 where
    pub reason : Str
    pub after : ManagedService
    pub degraded : IsDegraded c.conditions ms reason e after
    pub persisted : HasStatus c laws r clock k after w

  pub patch_works :
      (before ms : ManagedService) (s : State W)
      → (patch_managed_service_status c r clock before ms s).0 ≡ none
  unfolding patch_managed_service_status
  patch_works before ms s = elim (Bool-cases (c.deep_equal before.status ms.status)) [
    | inl same ↦ rw same refl
    | inr differ ↦ let (p, answered) = accepts before ms s.world in rw differ (rw answered refl)
  ]

  record_degraded_status-IsFailed :
      (k : NamespacedName) (ms : ManagedService) (reason : Str) (e e' : Error) (s : State W)
      → laws.stored k s.world ≡ some ms
      → key_of ms ≡ k
      → (record_degraded_status c r clock ms reason e s).0 ≡ some e'
      → IsFailed k ms e' (record_degraded_status c r clock ms reason e s).1.world
  unfolding record_degraded_status
  record_degraded_status-IsFailed k ms reason e e' s at key h =
      let after : ManagedService = degraded_status c.conditions clock ms reason e in
      let kept : IsDegraded c.conditions ms reason e after =
        degraded_status-IsDegraded c.conditions laws.condition_laws clock ms reason e in
      let same : e ≡ e' = cc (rw (patch_works ms after s, join_patch) at h) in
      record {
        reason = reason;
        after = after;
        degraded =
            subst
              (λ x.
                IsDegraded c.conditions ms reason x
                  (degraded_status c.conditions clock ms reason e))
              same kept;
        persisted =
            patch-HasStatus c laws r clock k ms after s at (rw kept.same_meta key)
              (patch_works ms after s);
      }

  finish_service-IsFailed :
      (k : NamespacedName) (ms : ManagedService) (d : Deployment) (service : Result Service)
      (e : Error) (s : State W)
      → laws.stored k s.world ≡ some ms
      → key_of ms ≡ k
      → (finish_service c r clock ms d service s).0 ≡ some e
      → IsFailed k ms e (finish_service c r clock ms d service s).1.world
  unfolding finish_service update_managed_service_status
  finish_service-IsFailed k ms d (err e') e s at key h =
      record_degraded_status-IsFailed k ms reason_service_reconcile_failed e' e s at key h
  finish_service-IsFailed k ms d (ok _) e s at key h =
      cc (patch_works ms (observed_status c.conditions clock ms d) s)

  finish_deployment-IsFailed :
      (k : NamespacedName) (ms : ManagedService) (deployment : Result Deployment) (e : Error)
      (s : State W)
      → laws.stored k s.world ≡ some ms
      → key_of ms ≡ k
      → (finish_deployment c r clock ms deployment s).0 ≡ some e
      → IsFailed k ms e (finish_deployment c r clock ms deployment s).1.world
  unfolding finish_deployment reconcile_service
  finish_deployment-IsFailed k ms (err e') e s at key h =
      record_degraded_status-IsFailed k ms reason_deployment_reconcile_failed e' e s at key h
  finish_deployment-IsFailed k ms (ok d) e s at key h =
      finish_service-IsFailed k ms d _ e _ (laws.service_keeps k _ _ s.world ∙ at) key h

  reconcile_workload-IsFailed :
      (k : NamespacedName) (ms : ManagedService) (image : Option Error) (e : Error) (s : State W)
      → laws.stored k s.world ≡ some ms
      → key_of ms ≡ k
      → (reconcile_workload c r clock ms image s).0 ≡ some e
      → IsFailed k ms e (reconcile_workload c r clock ms image s).1.world
  unfolding reconcile_workload reconcile_deployment
  reconcile_workload-IsFailed k ms (some e') e s at key h =
      record_degraded_status-IsFailed k ms reason_template_configuration_invalid e' e s at key h
  reconcile_workload-IsFailed k ms none e s at key h =
      finish_deployment-IsFailed k ms _ e _ (laws.deployment_keeps k _ _ s.world ∙ at) key h

  -- If the cluster keeps its laws and accepts status patches, and Reconcile returns an error for a
  -- ManagedService that it read, then a status is stored afterwards that says not available, not
  -- progressing and degraded, with the text of this very error.
  pub reconcile-IsFailed :
      (elapsed : ℕ) (k : NamespacedName) (s : State W) (ms : ManagedService) (e : Error)
      → (c.get k s.world).0 ≡ ok ms
      → (reconcile c r clock elapsed k s).0.1 ≡ some e
      → IsFailed k ms e (reconcile c r clock elapsed k s).1.world
  unfolding reconcile reconcile_found
  reconcile-IsFailed elapsed k s ms e found h =
      let (key, at) = laws.get_ok k s.world ms found in
      rw found (
        reconcile_workload-IsFailed k ms (validate_immutable_image r.demo_http_image) e
          (record s { world = (c.get k s.world).1 }) at key (rw found at h))
