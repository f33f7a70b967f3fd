-- ===== src/Controller/Reconcile/Laws/Guard.antt =====
-- The image is checked before anything is written.
use cloud_native_service_con.Base.{Option-cases, inl, inr, refl, some, ℕ, ◌≡◌}
use cloud_native_service_con.Types.{ManagedService, NamespacedName}
use cloud_native_service_con.Errors.{Error, Result, err, ok}
use cloud_native_service_con.Controller.Workload.{Deployment, Service}
use cloud_native_service_con.Controller.Image.{validate_immutable_image}
use cloud_native_service_con.Controller.Image.Laws.{IsImmutable, validate_immutable_image_iff}
use cloud_native_service_con.Controller.Resources.{Settings}
use cloud_native_service_con.Controller.Reconcile.{
  Cluster, State, patch_managed_service_status, reconcile, reconcile_found, reconcile_workload,
  record_degraded_status,
}

module _ {W : Type 0} (c : Cluster W) (r : Settings) (clock : ℕ → ℕ) where
  -- The cluster whose writes of Deployments and Services are others.
  abbrev pub with_writes :
      (Deployment → (Deployment → Result Deployment) → W → Result Deployment × W)
      → (Service → (Service → Result Service) → W → Result Service × W)
      → Cluster W
  with_writes f g = record c { create_or_update_deployment = f; create_or_update_service = g }

  found_guard :
      (f : Deployment → (Deployment → Result Deployment) → W → Result Deployment × W)
      (g : Service → (Service → Result Service) → W → Result Service × W)
      (found : Result ManagedService) (s : State W) (e : Error)
      → validate_immutable_image r.demo_http_image ≡ some e
      → reconcile_found (with_writes f g) r clock found s ≡ reconcile_found c r clock found s
  unfolding reconcile_found record_degraded_status patch_managed_service_status
  found_guard f g (err e') s e h = refl
  found_guard f g (ok ms) s e h = rw (h, reconcile_workload) refl

  -- With an image that is not an immutable reference, a reconciliation comes out the same whatever
  -- writing a Deployment or a Service would do: it writes neither.
  pub reconcile-image_guard :
      (f : Deployment → (Deployment → Result Deployment) → W → Result Deployment × W)
      (g : Service → (Service → Result Service) → W → Result Service × W) (elapsed : ℕ)
      (req : NamespacedName) (s : State W)
      → ¬ IsImmutable r.demo_http_image
      → reconcile (with_writes f g) r clock elapsed req s ≡ reconcile c r clock elapsed req s
  unfolding reconcile
  reconcile-image_guard f g elapsed req s h =
      elim (Option-cases (validate_immutable_image r.demo_http_image)) [
        | inl e ↦ absurd (h ((validate_immutable_image_iff r.demo_http_image).0 e))
        | inr (e, rejected) ↦
            rw
              (found_guard f g (c.get req s.world).0 (record s { world = (c.get req s.world).1 }) e
                rejected)
              refl
      ]
