-- ===== src/Controller/Reconcile/Laws/Settle.antt =====
-- A reconciliation that finds what the one before it left behind changes no status.
use cloud_native_service_con.Base.{◌≡◌, Option, ap, none, refl, some, subst, sym, true, ℕ, ◌∙◌}
use cloud_native_service_con.Types.{ManagedService, ManagedServiceStatus, NamespacedName}
use cloud_native_service_con.Errors.{Error, ok}
use cloud_native_service_con.Controller.Conditions.{ConditionLibrary}
use cloud_native_service_con.Controller.Workload.{Deployment, Service}
use cloud_native_service_con.Controller.Image.Laws.{IsImmutable, validate_immutable_image_iff}
use cloud_native_service_con.Controller.Labels.{desired_replicas}
use cloud_native_service_con.Controller.Metrics.{
  Metrics, ReconcileResult, no_requeue, observe_reconciliation,
}
use cloud_native_service_con.Controller.Resources.{Settings}
use cloud_native_service_con.Controller.Status.{service_endpoint}
use cloud_native_service_con.Controller.Status.Laws.{IsObserved}
use cloud_native_service_con.Controller.Status.Settled.{observed_status_settled}
use cloud_native_service_con.Controller.Reconcile.{
  Cluster, State, finish_deployment, finish_service, patch_managed_service_status, reconcile,
  reconcile_deployment, reconcile_found, reconcile_service, reconcile_workload,
  update_managed_service_status,
}
use cloud_native_service_con.Controller.Reconcile.Laws.Persist.{ClusterLaws, reconcile-IsReconciled}

same_replicas : (a b : ManagedService) → a.spec ≡ b.spec → desired_replicas a ≡ desired_replicas b
unfolding desired_replicas
same_replicas a b h = cc

-- The object `o` with the status of `after` and the rest of `ms` is observed itself, with a Deployment
-- of as many ready replicas.
IsObserved-self :
    (lib : ConditionLibrary) (ms after o : ManagedService) (d found : Deployment)
    → o.meta ≡ ms.meta
    → o.spec ≡ ms.spec
    → o.status ≡ after.status
    → found.ready_replicas ≡ d.ready_replicas
    → IsObserved lib ms d after
    → IsObserved lib o found o
IsObserved-self lib ms after o d found meta spec status ready i =
    let whole : o ≡ after = cc (meta, spec, status, i.same_meta, i.same_spec) in
    let wanted : desired_replicas after ≡ desired_replicas ms =
      same_replicas after ms i.same_spec in
    subst (λ x. IsObserved lib x found x) (sym whole)
      (record {
        enough = λ h. i.enough (rw (wanted, ready) at h);
        waiting = λ h. i.waiting (rw (wanted, ready) at h);
        healthy = i.healthy;
        observed = i.observed ∙ ap (λ m. m.generation) (sym i.same_meta);
        replicas = i.replicas ∙ sym ready;
        endpoint = i.endpoint ∙ ap service_endpoint (sym i.same_meta);
        same_meta = refl;
        same_spec = refl;
      })

module _ {W : Type 0} (c : Cluster W) (laws : ClusterLaws c)
    (same : (a : ManagedServiceStatus) → c.deep_equal a a ≡ true) (r : Settings)
    (clock : ℕ → ℕ) where
  patch_nothing :
      (ms : ManagedService) (s : State W)
      → patch_managed_service_status c r clock ms ms s ≡ (none, s)
  unfolding patch_managed_service_status
  patch_nothing ms s = rw (same ms.status) refl

  -- The end of a reconciliation that changed no status.
  abbrev pub unpatched :
      ManagedService → ℕ → W → Metrics → (ReconcileResult × Option Error) × State W
  unpatched ms elapsed w metrics = (
    (no_requeue, none),
    record {
      world = (reconcile_service c r clock ms (reconcile_deployment c r clock ms w).1).1;
      metrics = observe_reconciliation no_requeue none elapsed metrics;
    },
  )

  reconcile-unpatched :
      (elapsed : ℕ) (k : NamespacedName) (s : State W) (ms : ManagedService) (d : Deployment)
      (v : Service)
      → (c.get k s.world).0 ≡ ok ms
      → IsImmutable r.demo_http_image
      → (reconcile_deployment c r clock ms (c.get k s.world).1).0 ≡ ok d
      → (reconcile_service c r clock ms (reconcile_deployment c r clock ms (c.get k s.world).1).1).0
        ≡ ok v
      → IsObserved c.conditions ms d ms
      → reconcile c r clock elapsed k s ≡ unpatched ms elapsed (c.get k s.world).1 s.metrics
  unfolding reconcile reconcile_found reconcile_workload finish_deployment finish_service
      update_managed_service_status
  reconcile-unpatched elapsed k s ms d v found immutable deployed served i =
      rw
        (
          found,
          (validate_immutable_image_iff r.demo_http_image).1 immutable,
          deployed,
          served,
          observed_status_settled c.conditions laws.condition_laws clock ms d i,
          patch_nothing ms _,
        )
        refl

  -- If the cluster keeps its laws and DeepEqual finds equal what is, and a reconciliation returned no
  -- error, then a later one, if it reads the object with the status that was stored and with its
  -- metadata and spec unchanged, and writes a Deployment with as many ready replicas, and the Service,
  -- without error, returns no error, sends no status patch, and counts no transition.
  pub reconcile-settles :
      (before : ℕ → ℕ) (elapsed later : ℕ) (k : NamespacedName) (s next : State W)
      (ms o : ManagedService) (d found : Deployment) (v : Service)
      → (c.get k s.world).0 ≡ ok ms
      → (reconcile_deployment c r before ms (c.get k s.world).1).0 ≡ ok d
      → (reconcile c r before elapsed k s).0.1 ≡ none
      → laws.stored k (reconcile c r before elapsed k s).1.world ≡ some o
      → o.meta ≡ ms.meta
      → o.spec ≡ ms.spec
      → (c.get k next.world).0 ≡ ok o
      → (reconcile_deployment c r clock o (c.get k next.world).1).0 ≡ ok found
      → found.ready_replicas ≡ d.ready_replicas
      → (reconcile_service c r clock o
          (reconcile_deployment c r clock o (c.get k next.world).1).1).0
        ≡ ok v
      → reconcile c r clock later k next ≡ unpatched o later (c.get k next.world).1 next.metrics
  reconcile-settles before elapsed later k s next ms o d found v read deployed h stored meta spec
        again redeployed ready served =
      let i = reconcile-IsReconciled c laws r before elapsed k s ms read h in
      let same_deployment : i.deployment ≡ d = cc (i.deployed, deployed) in
      let same_object : i.persisted.object ≡ o = cc (i.persisted.found, stored) in
      reconcile-unpatched later k next o found v again i.approved redeployed served (
        IsObserved-self c.conditions ms i.after o i.deployment found meta spec
          (ap (λ (m : ManagedService). m.status) (sym same_object) ∙ i.persisted.same)
          (ready ∙ ap (λ (x : Deployment). x.ready_replicas) (sym same_deployment)) i.observed)
