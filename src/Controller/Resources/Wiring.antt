-- ===== src/Controller/Resources/Wiring.antt =====
-- How the objects of one ManagedService fit together, and keep apart from those of another.
use cloud_native_service_con.Base.{All, any, arith, refl, true, ◌≡◌, ◌≢◌}
use cloud_native_service_con.Text.{Str, eq_str}
use cloud_native_service_con.Types.{ManagedService}
use cloud_native_service_con.Errors.{ok}
use cloud_native_service_con.Controller.Resources.Drift.{mutate_deployment_inv, mutate_service_inv}
use cloud_native_service_con.Controller.Labels.{
  Selects, label, managed_service_pod_labels, managed_service_selector,
}
use cloud_native_service_con.Controller.Workload.{
  Deployment, ContainerPort, PodSpec, Service, ServicePort,
}
use cloud_native_service_con.Controller.Resources.{
  Settings, demo_pod, set_deployment, set_service, SetController, mutate_deployment, mutate_service,
}

-- The container of the pod has a port of that name.
abbrev pub HasPort : PodSpec → Str → Type 0
HasPort pod name =
    any (λ c. any (λ (p : ContainerPort). eq_str p.name name) c.ports) pod.containers ≡ true

-- The selector of the Deployment and of the Service is part of the labels of the pods.
selector-pod_labels :
    (ms : ManagedService) → Selects (managed_service_selector ms) (managed_service_pod_labels ms)
unfolding managed_service_selector managed_service_pod_labels label eq_str
selector-pod_labels ms = (refl, (refl, tt))

-- Of the Deployment and the Service that the operator writes for a ManagedService, whatever it
-- found, both selectors match the labels of the pods, and each port of the Service leads to a port
-- that the pods have.
pub service-reaches-pods :
    (set_controller : SetController) (r : Settings) (ms : ManagedService) (found d : Deployment)
    (found' s : Service)
    → mutate_deployment set_controller r ms found ≡ ok d
    → mutate_service set_controller ms found' ≡ ok s
    → Selects d.selector d.pod_labels
      × Selects s.selector d.pod_labels
      × All (λ (p : ServicePort). HasPort d.pod p.target_port) s.ports
unfolding set_deployment set_service demo_pod eq_str
service-reaches-pods set_controller r ms found d found' s written written' =
    let (owners, _, e) = mutate_deployment_inv set_controller r ms found d written in
    let (owners', _, e') = mutate_service_inv set_controller r ms found' s written' in
    rw (e, e') (selector-pod_labels ms, selector-pod_labels ms, (refl, (refl, tt)))

-- The selector of one ManagedService does not match the pods of another name.
pub selector-other_pods :
    (a b : ManagedService)
    → a.meta.name ≢ b.meta.name
    → ¬ Selects (managed_service_selector a) (managed_service_pod_labels b)
unfolding managed_service_selector managed_service_pod_labels label eq_str
selector-other_pods a b other (_, (same, _)) = other (ground arith)
