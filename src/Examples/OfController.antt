-- ===== src/Examples/OfController.antt =====
-- The operator on the sample cluster: tests, and the theorems about it at concrete inputs.
use cloud_native_service_con.Base.{
  All, List, [], none, pos, refl, some, true, ℕ, ◌++◌, ◌+◌, ◌↔◌, ◌∷◌, ◌≡◌,
}
use cloud_native_service_con.Text.{after_prefix, codes}
use cloud_native_service_con.Text.Search.{cut}
use cloud_native_service_con.Text.Hex.{decode_hex}
use cloud_native_service_con.Types.{
  condition_available, condition_degraded, condition_false, condition_progressing, condition_true,
}
use cloud_native_service_con.Errors.{Error, err, ok, text, wrap, wrap_err}
use cloud_native_service_con.Controller.Labels.{Selects, desired_replicas}
use cloud_native_service_con.Controller.Workload.{
  Deployment, OwnerReference, Service, ServicePort, new_deployment, new_service,
}
use cloud_native_service_con.Controller.Image.{
  validate_immutable_image, invalid_digest, not_immutable,
}
use cloud_native_service_con.Controller.Image.Laws.{IsImmutable, validate_immutable_image_iff}
use cloud_native_service_con.Controller.Resources.{
  Settings, mutate_deployment, mutate_service, set_deployment, set_service,
}
use cloud_native_service_con.Controller.Resources.Desired.{IsDesiredDeployment, IsDesiredService}
use cloud_native_service_con.Controller.Resources.Drift.{
  Writes, mutate_deployment-IsDesiredDeployment, mutate_deployment_idempotent,
  mutate_service-IsDesiredService,
}
use cloud_native_service_con.Controller.Resources.Wiring.{HasPort, service-reaches-pods}
use cloud_native_service_con.Controller.Metrics.{
  Event, duration, observe_condition_transitions, observe_reconciliation, reconciliation,
  record_events, success, transition, transitions,
}
use cloud_native_service_con.Controller.Status.{
  observed_status, degraded_status, observed_with, set_managed_service_condition,
}
use cloud_native_service_con.Controller.Reconcile.{
  State, finish_deployment, patch_managed_service_status, reconcile, reconcile_deployment,
  reconcile_service, record_degraded_status, update_managed_service_status,
}
use cloud_native_service_con.Controller.Reconcile.Laws.Guard.{with_writes, reconcile-image_guard}
use cloud_native_service_con.Controller.Reconcile.Laws.Degrade.{IsFailed, reconcile-IsFailed}
use cloud_native_service_con.Controller.Reconcile.Laws.Observe.{
  IsTransition, outcome_for, reconcile-metrics,
}
use cloud_native_service_con.Examples.SampleCluster.{
  sample_cluster, SampleWorld, eq_key, failing_cluster, failing_cluster-Laws,
  failing_cluster-accepts, quota, sample_digest, sample_image, sample_key, sample_service_object,
  sample_set_controller, sample_set_controller-Keeps, sample_settings, sample_world,
}

-- Opens the operator and the sample cluster for the tests below.
unfoldable pub controller : Unit {0}
unfolding observed_with set_managed_service_condition reconcile reconcile_deployment
    reconcile_service finish_deployment update_managed_service_status record_degraded_status
    patch_managed_service_status observed_status degraded_status validate_immutable_image cut
    after_prefix decode_hex sample_cluster failing_cluster eq_key mutate_deployment mutate_service
    wrap_err observe_reconciliation observe_condition_transitions transitions record_events text
    desired_replicas
controller = tt

abbrev pub sample_clock : ℕ → ℕ
sample_clock n = 10 + n

abbrev pub sample_state : State SampleWorld
sample_state = record { world = sample_world; metrics = some [] }

pub approved : validate_immutable_image sample_image ≡ none
unfolding controller
approved = refl

rejected :
    (validate_immutable_image (codes "ghcr.io/demo:latest") ≡ some not_immutable)
    × (validate_immutable_image (codes "@sha256:" ++ sample_digest) ≡ some not_immutable)
    × (validate_immutable_image (codes "ghcr.io/demo@sha256:0g") ≡ some invalid_digest)
unfolding controller
rejected = (refl, refl, refl)

validate_immutable_image_iff_example :
    (validate_immutable_image sample_image ≡ none) ↔ IsImmutable sample_image
validate_immutable_image_iff_example = validate_immutable_image_iff sample_image

-- What reconcile does with an image that is a tag.
abbrev tagged : Settings
tagged = record { demo_http_image = codes "demo:latest"; image_pull_secret_name = [] }

tagged_not-IsImmutable : ¬ IsImmutable tagged.demo_http_image
unfolding controller
tagged_not-IsImmutable i = cc ((validate_immutable_image_iff (codes "demo:latest")).1 i)

reconcile-image_guard_example :
    reconcile
      (with_writes sample_cluster tagged sample_clock
        (λ d f w. (err quota, w))
        (λ s f w. (err quota, w)))
      tagged
      sample_clock
      7
      sample_key
      sample_state
    ≡ reconcile sample_cluster tagged sample_clock 7 sample_key sample_state
reconcile-image_guard_example =
    reconcile-image_guard sample_cluster tagged sample_clock (λ d f w. (err quota, w))
      (λ s f w. (err quota, w)) 7 sample_key sample_state tagged_not-IsImmutable

pub found_it : (sample_cluster.get sample_key sample_world).0 ≡ ok sample_service_object
unfolding controller
found_it = refl

pub reconciled :
    (reconcile sample_cluster sample_settings sample_clock 7 sample_key sample_state).0.1 ≡ none
unfolding controller
reconciled = refl

found_failing : (failing_cluster.get sample_key sample_world).0 ≡ ok sample_service_object
unfolding controller
found_failing = refl

abbrev service_error : Error
service_error = wrap (codes "reconcile Service") quota

failed :
    (reconcile failing_cluster sample_settings sample_clock 7 sample_key sample_state).0.1
    ≡ some service_error
unfolding controller
failed = refl

reconcile-IsFailed_example :
    IsFailed failing_cluster failing_cluster-Laws failing_cluster-accepts sample_settings
      sample_clock sample_key sample_service_object service_error
      (reconcile failing_cluster sample_settings sample_clock 7 sample_key sample_state).1.world
reconcile-IsFailed_example =
    reconcile-IsFailed failing_cluster failing_cluster-Laws failing_cluster-accepts sample_settings
      sample_clock 7 sample_key sample_state sample_service_object service_error found_failing
      failed

-- The transitions of a first reconciliation: all three conditions are new.
first_metrics :
    (reconcile sample_cluster sample_settings sample_clock 7 sample_key sample_state).1.metrics
    ≡ some (
        transition condition_available condition_true
        ∷ transition condition_progressing condition_false
        ∷ transition condition_degraded condition_false
        ∷ reconciliation success
        ∷ duration success 7
        ∷ [])
unfolding controller
first_metrics = refl

reconcile-metrics_example :
    (ts : List Event) × ((reconcile sample_cluster sample_settings sample_clock 7 sample_key
        sample_state).1.metrics
      ≡ some (
          ([] ++ ts)
          ++ (reconciliation (
                outcome_for
                  (reconcile sample_cluster sample_settings sample_clock 7 sample_key
                    sample_state).0.1)
              ∷ duration
                  (outcome_for
                    (reconcile sample_cluster sample_settings sample_clock 7 sample_key
                      sample_state).0.1)
                  7
              ∷ [])))
    × All IsTransition ts
reconcile-metrics_example =
    reconcile-metrics sample_cluster sample_settings sample_clock 7 sample_key sample_state [] refl

abbrev found_deployment : Deployment
found_deployment = record (new_deployment (codes "portfolio-demo") (codes "applications")) {
  replicas = some (pos 9);
  paused = true;
  ready_replicas = pos 1;
}

abbrev pub owned : List OwnerReference
owned = record { owner = codes "portfolio-demo"; is_controller = true } ∷ []

abbrev written_deployment : Deployment
written_deployment = set_deployment sample_settings sample_service_object owned found_deployment

written :
    mutate_deployment sample_set_controller sample_settings sample_service_object found_deployment
    ≡ ok written_deployment
unfolding mutate_deployment wrap_err sample_set_controller
written = refl

mutate_deployment-IsDesiredDeployment_example :
    Writes
      (codes "set Deployment controller reference")
      (ok owned)
      (IsDesiredDeployment sample_set_controller sample_settings sample_service_object
        found_deployment)
      (mutate_deployment sample_set_controller sample_settings sample_service_object
        found_deployment)
unfolding sample_set_controller
mutate_deployment-IsDesiredDeployment_example =
    mutate_deployment-IsDesiredDeployment sample_set_controller sample_settings
      sample_service_object found_deployment

mutate_deployment_idempotent_example :
    mutate_deployment sample_set_controller sample_settings sample_service_object written_deployment
    ≡ ok written_deployment
mutate_deployment_idempotent_example =
    mutate_deployment_idempotent sample_set_controller sample_settings sample_service_object
      sample_set_controller-Keeps found_deployment written_deployment written

abbrev found_service : Service
found_service = record (new_service (codes "portfolio-demo") (codes "applications")) {
  cluster_ip = codes "10.0.0.7";
}

abbrev written_service : Service
written_service = set_service sample_service_object owned found_service

written' :
    mutate_service sample_set_controller sample_service_object found_service ≡ ok written_service
unfolding mutate_service wrap_err sample_set_controller
written' = refl

mutate_service-IsDesiredService_example :
    Writes
      (codes "set Service controller reference")
      (ok owned)
      (IsDesiredService sample_set_controller sample_service_object found_service)
      (mutate_service sample_set_controller sample_service_object found_service)
unfolding sample_set_controller
mutate_service-IsDesiredService_example =
    mutate_service-IsDesiredService sample_set_controller sample_settings sample_service_object
      found_service

service-reaches-pods_example :
    Selects written_deployment.selector written_deployment.pod_labels
    × Selects written_service.selector written_deployment.pod_labels
    × All (λ (p : ServicePort). HasPort written_deployment.pod p.target_port) written_service.ports
service-reaches-pods_example =
    service-reaches-pods sample_set_controller sample_settings sample_service_object
      found_deployment written_deployment found_service written_service written written'
