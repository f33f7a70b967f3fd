-- ===== src/Controller/Resources/Drift.antt =====
-- Drift: whatever object the operator finds, it writes the desired one, and a second write changes
-- nothing.
use cloud_native_service_con.Base.{List, refl, some, ◌≡◌, ap, inl, inr, ◌⊎◌}
use cloud_native_service_con.Text.{Str, codes, eq_str}
use cloud_native_service_con.Errors.{Result, err, ok, wrap_err, ◌>>=◌, Error, text, wrap}
use cloud_native_service_con.Types.{ManagedService}
use cloud_native_service_con.Controller.Labels.{
  Labels, managed_service_labels, managed_service_pod_labels, managed_service_selector,
}
use cloud_native_service_con.Controller.Workload.{Deployment, ChildMeta, OwnerReference, Service}
use cloud_native_service_con.Controller.Resources.{
  Settings, SetController, mutate_deployment, mutate_service, set_deployment, desired_ports,
  set_service,
}
use cloud_native_service_con.Controller.Resources.Desired.{
  IsDesiredDeployment, IsDesiredService, demo_pod-IsDesiredPod, desired_replicas_cases,
}

-- What controllerutil.SetControllerReference documents: the reference that it has set is found and
-- kept, whatever the labels.
abbrev pub KeepsReference : SetController → Type 0
KeepsReference set_controller =
    (ms : ManagedService) (m : ChildMeta) (labels : Labels) (owners : List OwnerReference)
    → set_controller ms m ≡ ok owners
    → set_controller ms (record m { labels = labels; owners = owners }) ≡ ok owners

-- What a mutate function did that returned no error: the controller reference was set.
mutated_inv {ℓ κ} :
    {U : Type κ} {V : Type ℓ} (prefix : Str) (first : Result V) (next : V → U) (made : U)
    → (wrap_err prefix first >>= λ value. ok (next value)) ≡ ok made
    → (value : V) × (first ≡ ok value) × (made ≡ next value)
unfolding wrap_err
mutated_inv prefix (err failure) next made h = cc
mutated_inv prefix (ok value) next made h = (value, refl, cc)

-- What a mutate function returns: what was written, if SetControllerReference gave owners, or its error,
-- wrapped.
abbrev pub Writes :
    {D : Type 0} → Str → Result (List OwnerReference) → (D → Type 0) → Result D → Type 0
Writes {D} text set desired result =
    ((owners : List OwnerReference) × (d : D) × (set ≡ ok owners) × (result ≡ ok d) × desired d)
    ⊎ ((e : Error) × (set ≡ err e) × (result ≡ err (wrap text e)))

mutated-Writes :
    {D : Type 0} (text : Str) (set : Result (List OwnerReference)) (desired : D → Type 0)
    (next : List OwnerReference → D)
    → ((owners : List OwnerReference) → set ≡ ok owners → desired (next owners))
    → Writes text set desired (wrap_err text set >>= λ owners. ok (next owners))
unfolding wrap_err
mutated-Writes text (ok owners) desired next h =
    inl (owners, next owners, refl, refl, h owners refl)
mutated-Writes text (err e) desired next h = inr (e, refl, refl)

module _ (set_controller : SetController) (r : Settings) (ms : ManagedService) where
  pub mutate_deployment_inv :
      (found d : Deployment)
      → mutate_deployment set_controller r ms found ≡ ok d
      → (owners : List OwnerReference) × (set_controller ms found.meta ≡ ok owners)
        × (d ≡ set_deployment r ms owners found)
  unfolding mutate_deployment
  mutate_deployment_inv found d h =
      mutated_inv (codes "set Deployment controller reference") (set_controller ms found.meta)
        (λ owners. set_deployment r ms owners found) _ h

  set_deployment-IsDesiredDeployment :
      (owners : List OwnerReference) (found : Deployment)
      → set_controller ms found.meta ≡ ok owners
      → IsDesiredDeployment set_controller r ms found (set_deployment r ms owners found)
  unfolding set_deployment managed_service_labels managed_service_selector
      managed_service_pod_labels eq_str
  set_deployment-IsDesiredDeployment owners found set = record {
    owned = record { name = refl; namespace = refl; labels = refl; owners = set };
    replicas = elim (desired_replicas_cases ms) [
      | inl (default, one) ↦ inl (default, ap some one)
      | inr (n, asked, same) ↦ inr (n, asked, ap some same)
    ];
    selector = refl;
    pod_labels = refl;
    pod = demo_pod-IsDesiredPod r ms;
    min_ready_seconds = refl;
    paused = refl;
    ready_replicas = refl;
  }

  -- Whatever Deployment is found, the mutate function returns the error of SetControllerReference,
  -- wrapped, or writes the desired Deployment, with the owners that it gave. Its labels and selector are
  -- those of the ManagedService, and its replicas too, or one where that names none; its pods have these
  -- labels and the one for OTLP clients, and a single container, with the configured image, the message
  -- of the ManagedService, the ports 8080 and 9090, the two probes and no privileges, and the pull secret
  -- if one is configured. Its name, its namespace and the fields that the operator does not manage stay.
  pub mutate_deployment-IsDesiredDeployment :
      (found : Deployment)
      → Writes
          (codes "set Deployment controller reference")
          (set_controller ms found.meta)
          (IsDesiredDeployment set_controller r ms found)
          (mutate_deployment set_controller r ms found)
  unfolding mutate_deployment
  mutate_deployment-IsDesiredDeployment found =
      mutated-Writes (codes "set Deployment controller reference") (set_controller ms found.meta)
        (IsDesiredDeployment set_controller r ms found) (λ owners. set_deployment r ms owners found)
        (λ owners set. set_deployment-IsDesiredDeployment owners found set)

  -- If SetControllerReference keeps a reference that it has set, a Deployment that the operator has
  -- written is written again unchanged.
  pub mutate_deployment_idempotent :
      KeepsReference set_controller
      → (found d : Deployment) → mutate_deployment set_controller r ms found ≡ ok d
      → mutate_deployment set_controller r ms d ≡ ok d
  unfolding mutate_deployment wrap_err
  mutate_deployment_idempotent keeps found d h =
      let (owners, set, e) = mutate_deployment_inv found d h in
      rw e (rw (keeps ms found.meta (managed_service_labels ms) owners set) refl)

  pub mutate_service_inv :
      (found s : Service)
      → mutate_service set_controller ms found ≡ ok s
      → (owners : List OwnerReference) × (set_controller ms found.meta ≡ ok owners)
        × (s ≡ set_service ms owners found)
  unfolding mutate_service
  mutate_service_inv found s h =
      mutated_inv (codes "set Service controller reference") (set_controller ms found.meta)
        (λ owners. set_service ms owners found) _ h

  -- Whatever Service is found, the mutate function returns the error of SetControllerReference, wrapped,
  -- or writes the desired Service, with the owners that it gave. It is of the type ClusterIP, selects the
  -- pods of the ManagedService by name and instance, leads its ports 80 and 9090 to the ports "http" and
  -- "metrics" of the pods, and has the labels of the ManagedService. Its name, its namespace and the
  -- address that the cluster gave it stay.
  pub mutate_service-IsDesiredService :
      (found : Service)
      → Writes
          (codes "set Service controller reference")
          (set_controller ms found.meta)
          (IsDesiredService set_controller ms found)
          (mutate_service set_controller ms found)
  unfolding mutate_service set_service desired_ports managed_service_labels managed_service_selector
      eq_str
  mutate_service-IsDesiredService found =
      mutated-Writes (codes "set Service controller reference") (set_controller ms found.meta)
        (IsDesiredService set_controller ms found) (λ owners. set_service ms owners found)
        (λ owners set. record {
          owned = record { name = refl; namespace = refl; labels = refl; owners = set };
          service_type = refl;
          selector = refl;
          ports = refl;
          cluster_ip = refl;
        })

  -- If SetControllerReference keeps a reference that it has set, a Service that the operator has
  -- written is written again unchanged.
  pub mutate_service_idempotent :
      KeepsReference set_controller
      → (found s : Service) → mutate_service set_controller ms found ≡ ok s
      → mutate_service set_controller ms s ≡ ok s
  unfolding mutate_service wrap_err
  mutate_service_idempotent keeps found s h =
      let (owners, set, e) = mutate_service_inv found s h in
      rw e (rw (keeps ms found.meta (managed_service_labels ms) owners set) refl)
