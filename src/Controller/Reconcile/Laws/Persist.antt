-- ===== src/Controller/Reconcile/Laws/Persist.antt =====
-- The status that is stored after a reconciliation.
use cloud_native_service_con.Base.{
  Bool-cases, Option, inl, inr, none, refl, some, true, ℕ, ◌≡◌, ◌∙◌,
}
use cloud_native_service_con.Types.{ManagedService, NamespacedName, ManagedServiceStatus}
use cloud_native_service_con.Errors.{Result, err, ok, Error}
use cloud_native_service_con.Controller.Conditions.{ConditionLaws}
use cloud_native_service_con.Controller.Workload.{Deployment, Service}
use cloud_native_service_con.Controller.Image.{validate_immutable_image}
use cloud_native_service_con.Controller.Image.Laws.{IsImmutable, validate_immutable_image_iff}
use cloud_native_service_con.Controller.Resources.{Settings}
use cloud_native_service_con.Controller.Status.{observed_status}
use cloud_native_service_con.Controller.Status.Laws.{observed_status-IsObserved, IsObserved}
use cloud_native_service_con.Controller.Reconcile.{
  Cluster, State, after_patch, patch_managed_service_status, finish_service, record_degraded_status,
  update_managed_service_status, finish_deployment, reconcile, reconcile_deployment,
  reconcile_found, reconcile_service, reconcile_workload,
}

abbrev pub key_of : ManagedService → NamespacedName
key_of ms = record { name = ms.meta.name; namespace = ms.meta.namespace }

-- What the reconciler relies on: the stored ManagedServices change by a status patch alone (no other
-- writer is at work during the reconciliation), and an answer without error tells the truth.
pub record ClusterLaws {W : Type 0} (c : Cluster W) : Type 0 where
  pub stored : NamespacedName → W → Option ManagedService
  pub get_ok :
      (k : NamespacedName) (w : W) (ms : ManagedService)
      → (c.get k w).0 ≡ ok ms
      → (key_of ms ≡ k) × (stored k (c.get k w).1 ≡ some ms)
  pub deployment_keeps :
      (k : NamespacedName) (d : Deployment) (f : Deployment → Result Deployment) (w : W)
      → stored k (c.create_or_update_deployment d f w).1 ≡ stored k w
  pub service_keeps :
      (k : NamespacedName) (s : Service) (f : Service → Result Service) (w : W)
      → stored k (c.create_or_update_service s f w).1 ≡ stored k w
  pub patch_ok :
      (before ms p : ManagedService) (w : W)
      → (c.patch_status before ms w).0 ≡ ok p
      → (stored (key_of ms) (c.patch_status before ms w).1 ≡ some p) × (p.status ≡ ms.status)
  pub deep_equal_sound : (a b : ManagedServiceStatus) → c.deep_equal a b ≡ true → a ≡ b
  pub condition_laws : ConditionLaws c.conditions

module _ {W : Type 0} (c : Cluster W) (laws : ClusterLaws c) (r : Settings) (clock : ℕ → ℕ) where
  -- Under the key of `ms` an object with the status of `after` is stored.
  pub record HasStatus (k : NamespacedName) (after : ManagedService) (w : W) : Type 0 where
    pub object : ManagedService
    pub found : laws.stored k w ≡ some object
    pub same : object.status ≡ after.status

  after_patch-HasStatus :
      (k : NamespacedName) (before ms : ManagedService) (s : State W)
      (answer : Result ManagedService)
      → ((p : ManagedService) → answer ≡ ok p → HasStatus k ms s.world)
      → (after_patch c r clock before answer s).0 ≡ none
      → HasStatus k ms (after_patch c r clock before answer s).1.world
  unfolding after_patch
  after_patch-HasStatus k before ms s (err e) h none_left = cc
  after_patch-HasStatus k before ms s (ok p) h none_left = h p refl

  pub patch-HasStatus :
      (k : NamespacedName) (before ms : ManagedService) (s : State W)
      → laws.stored k s.world ≡ some before
      → key_of ms ≡ k
      → (patch_managed_service_status c r clock before ms s).0 ≡ none
      → HasStatus k ms (patch_managed_service_status c r clock before ms s).1.world
  unfolding patch_managed_service_status
  patch-HasStatus k before ms s at key h =
      elim (Bool-cases (c.deep_equal before.status ms.status)) [
        | inl same ↦ rw same (record {
          object = before;
          found = at;
          same = laws.deep_equal_sound before.status ms.status same;
        })
        | inr differ ↦ rw differ (
            after_patch-HasStatus k before ms
              (record s { world = (c.patch_status before ms s.world).1 })
              (c.patch_status before ms s.world).0
              (λ p answered.
                let (kept, same) = laws.patch_ok before ms p s.world answered in
                record { object = p; found = rw (← key) kept; same = same })
              (rw differ at h))
      ]

  -- The state when the steps of the workload are done: `ms` is still stored as it was read.
  finish_service-HasStatus :
      (k : NamespacedName) (ms : ManagedService) (d : Deployment) (service : Result Service)
      (s : State W)
      → laws.stored k s.world ≡ some ms
      → key_of ms ≡ k
      → (finish_service c r clock ms d service s).0 ≡ none
      → (v : Service) × (service ≡ ok v)
        × HasStatus k
            (observed_status c.conditions clock ms d)
            (finish_service c r clock ms d service s).1.world
  unfolding finish_service update_managed_service_status record_degraded_status
  finish_service-HasStatus k ms d (err e) s at key h = cc
  finish_service-HasStatus k ms d (ok v) s at key h = (
    v,
    refl,
    patch-HasStatus k ms (observed_status c.conditions clock ms d) s at
        (rw (observed_status-IsObserved c.conditions laws.condition_laws clock ms d).same_meta key)
        h,
  )

  -- The end of a reconciliation of `ms` without error that began to write in the world `w`.
  pub record IsReconciled (k : NamespacedName) (ms : ManagedService) (w w' : W) : Type 0 where
    pub approved : IsImmutable r.demo_http_image
    pub deployment : Deployment
    pub service : Service
    pub deployed : (reconcile_deployment c r clock ms w).0 ≡ ok deployment
    pub served :
        (reconcile_service c r clock ms (reconcile_deployment c r clock ms w).1).0 ≡ ok service
    pub after : ManagedService
    pub observed : IsObserved c.conditions ms deployment after
    pub persisted : HasStatus k after w'

  reconcile_deployment_keeps :
      (k : NamespacedName) (ms : ManagedService) (w : W)
      → laws.stored k (reconcile_deployment c r clock ms w).1 ≡ laws.stored k w
  unfolding reconcile_deployment
  reconcile_deployment_keeps k ms w = laws.deployment_keeps k _ _ w

  reconcile_service_keeps :
      (k : NamespacedName) (ms : ManagedService) (w : W)
      → laws.stored k (reconcile_service c r clock ms w).1 ≡ laws.stored k w
  unfolding reconcile_service
  reconcile_service_keeps k ms w = laws.service_keeps k _ _ w

  finish_deployment-HasStatus :
      (k : NamespacedName) (ms : ManagedService) (deployment : Result Deployment) (s : State W)
      → laws.stored k s.world ≡ some ms
      → key_of ms ≡ k
      → (finish_deployment c r clock ms deployment s).0 ≡ none
      → (d : Deployment) × (v : Service) × (deployment ≡ ok d)
        × ((reconcile_service c r clock ms s.world).0 ≡ ok v)
        × HasStatus k
            (observed_status c.conditions clock ms d)
            (finish_deployment c r clock ms deployment s).1.world
  unfolding finish_deployment record_degraded_status
  finish_deployment-HasStatus k ms (err e) s at key h = cc
  finish_deployment-HasStatus k ms (ok d) s at key h =
      let (v, served, persisted) =
        finish_service-HasStatus k ms d (reconcile_service c r clock ms s.world).0
          (record s { world = (reconcile_service c r clock ms s.world).1 })
          (reconcile_service_keeps k ms s.world ∙ at) key h in
      (d, v, refl, served, persisted)

  reconcile_workload-IsReconciled :
      (k : NamespacedName) (ms : ManagedService) (s : State W)
      → laws.stored k s.world ≡ some ms
      → key_of ms ≡ k
      → (image : Option Error) → validate_immutable_image r.demo_http_image ≡ image
      → (reconcile_workload c r clock ms image s).0 ≡ none
      → IsReconciled k ms s.world (reconcile_workload c r clock ms image s).1.world
  unfolding reconcile_workload record_degraded_status
  reconcile_workload-IsReconciled k ms s at key (some e) image h = cc
  reconcile_workload-IsReconciled k ms s at key none image h =
      let (d, v, deployed, served, persisted) =
        finish_deployment-HasStatus k ms (reconcile_deployment c r clock ms s.world).0
          (record s { world = (reconcile_deployment c r clock ms s.world).1 })
          (reconcile_deployment_keeps k ms s.world ∙ at) key h in
      record {
        approved = (validate_immutable_image_iff r.demo_http_image).0 image;
        deployment = d;
        service = v;
        deployed = deployed;
        served = served;
        after = observed_status c.conditions clock ms d;
        observed = observed_status-IsObserved c.conditions laws.condition_laws clock ms d;
        persisted = persisted;
      }

  pub reconcile-IsReconciled :
      (elapsed : ℕ) (k : NamespacedName) (s : State W) (ms : ManagedService)
      → (c.get k s.world).0 ≡ ok ms
      → (reconcile c r clock elapsed k s).0.1 ≡ none
      → IsReconciled k ms (c.get k s.world).1 (reconcile c r clock elapsed k s).1.world
  unfolding reconcile reconcile_found
  reconcile-IsReconciled elapsed k s ms found h =
      let (key, at) = laws.get_ok k s.world ms found in
      rw found (
        reconcile_workload-IsReconciled k ms (record s { world = (c.get k s.world).1 }) at key
          (validate_immutable_image r.demo_http_image) refl (rw found at h))
