-- ===== src/Controller/Resources/Desired.antt =====
-- The Deployment and the Service of a ManagedService, written out as the manifests they amount to
-- (managedservice_resources.go).
use cloud_native_service_con.Base.{
  [], false, none, pos, refl, some, true, ℤ, ◌∷◌, ◌≡◌, ◌≢◌, ◌⊎◌, inl, inr, Bool-cases, Option-cases,
}
use cloud_native_service_con.Text.{Str, codes, eq_str, eq_str_iff}
use cloud_native_service_con.Errors.{ok}
use cloud_native_service_con.Types.{ManagedService}
use cloud_native_service_con.Controller.Labels.{Labels, desired_replicas}
use cloud_native_service_con.Controller.Workload.{
  Container, Deployment, EnvVar, PodSpec, Probe, Service, tcp, ChildMeta,
}
use cloud_native_service_con.Controller.Resources.{
  SetController, Settings, demo_container, demo_pod, http_probe, pull_secrets,
}

-- The labels of both objects, and what their selectors ask for.
abbrev pub selector_of : ManagedService → Labels
selector_of ms =
    (codes "app.kubernetes.io/name", codes "managed-service")
    ∷ (codes "app.kubernetes.io/instance", ms.meta.name)
    ∷ []

abbrev pub labels_of : ManagedService → Labels
labels_of ms =
    (codes "app.kubernetes.io/name", codes "managed-service")
    ∷ (codes "app.kubernetes.io/instance", ms.meta.name)
    ∷ (codes "app.kubernetes.io/managed-by", codes "platform-operator")
    ∷ (codes "platform.eoghanclancy.eu/template", ms.spec.template)
    ∷ []

-- The name and the namespace that were found, the labels, and the owners that SetControllerReference
-- gave.
pub record IsOwned (set_controller : SetController) (ms : ManagedService) (found meta : ChildMeta)
    : Type 0 where
  pub name : meta.name ≡ found.name
  pub namespace : meta.namespace ≡ found.namespace
  pub labels : meta.labels ≡ labels_of ms
  pub owners : set_controller ms found ≡ ok meta.owners

-- An HTTP probe of the port "http", first after `delay` seconds, then every five, with two seconds for
-- an answer; six failures in a row count.
pub record IsProbe (path : Str) (delay : ℤ) (p : Probe) : Type 0 where
  pub of_path : p.path ≡ path
  pub port : p.port ≡ codes "http"
  pub scheme : p.scheme ≡ codes "HTTP"
  pub delayed : p.initial_delay_seconds ≡ delay
  pub timeout : p.timeout_seconds ≡ pos 2
  pub period : p.period_seconds ≡ pos 5
  pub successes : p.success_threshold ≡ pos 1
  pub failures : p.failure_threshold ≡ pos 6

abbrev variable : Str → Str → EnvVar
variable name value = record { name = name; value = value }

-- The container: the configured image, with the message of the ManagedService, two ports, bounded
-- resources, two probes, and no privileges.
pub record IsDesiredContainer (r : Settings) (ms : ManagedService) (c : Container) : Type 0 where
  pub name : c.name ≡ codes "demo-http"
  pub image : c.image ≡ r.demo_http_image
  pub pulled : c.image_pull_policy ≡ codes "IfNotPresent"
  pub ports :
      c.ports
      ≡ record { name = codes "http"; container_port = pos 8080; protocol = tcp }
        ∷ record { name = codes "metrics"; container_port = pos 9090; protocol = tcp }
        ∷ []
  pub env :
      c.env
      ≡ variable (codes "MESSAGE") ms.spec.message
        ∷ variable (codes "METRICS_PORT") (codes "9090")
        ∷ variable (codes "OTEL_SERVICE_NAME") (codes "demo-http")
        ∷ []
  pub requests : c.requests ≡ record { cpu = codes "5m"; memory = codes "16Mi" }
  pub limits : c.limits ≡ record { cpu = codes "50m"; memory = codes "32Mi" }
  pub not_escalated : c.security.allow_privilege_escalation ≡ false
  pub no_capabilities : c.security.drop_capabilities ≡ codes "ALL" ∷ []
  pub read_only : c.security.read_only_root_filesystem ≡ true
  pub not_root : c.security.run_as_non_root ≡ true
  pub liveness : IsProbe (codes "/healthz") (pos 10) c.liveness
  pub readiness : IsProbe (codes "/readyz") (pos 2) c.readiness
  pub message_path : c.termination_message_path ≡ codes "/dev/termination-log"
  pub message_policy : c.termination_message_policy ≡ codes "File"

-- The pod: that container alone, the pull secret if one is configured, no credential of the cluster,
-- and a user that is not root.
pub record IsDesiredPod (r : Settings) (ms : ManagedService) (pod : PodSpec) : Type 0 where
  pub container : (c : Container) × (pod.containers ≡ c ∷ []) × IsDesiredContainer r ms c
  pub secrets :
      ((r.image_pull_secret_name ≡ []) × (pod.image_pull_secrets ≡ []))
      ⊎ ((r.image_pull_secret_name ≢ []) × (pod.image_pull_secrets ≡ r.image_pull_secret_name ∷ []))
  pub no_token : pod.automount_service_account_token ≡ some false
  pub no_links : pod.enable_service_links ≡ some false
  pub user :
      pod.security
      ≡ some (record {
        run_as_group = pos 65532;
        run_as_non_root = true;
        run_as_user = pos 65532;
        seccomp_profile = codes "RuntimeDefault";
      })
  pub dns_policy : pod.dns_policy ≡ codes "ClusterFirst"
  pub restarts : pod.restart_policy ≡ codes "Always"
  pub scheduler : pod.scheduler_name ≡ codes "default-scheduler"
  pub grace_period : pod.termination_grace_period_seconds ≡ some (pos 10)

-- `d` is the desired Deployment of `ms`, and what the operator does not manage is that of `found`.
pub record IsDesiredDeployment (set_controller : SetController) (r : Settings) (ms : ManagedService)
    (found d : Deployment) : Type 0 where
  pub owned : IsOwned set_controller ms found.meta d.meta
  pub replicas :
      ((ms.spec.replicas ≡ none) × (d.replicas ≡ some (pos 1)))
      ⊎ ((n : ℤ) × (ms.spec.replicas ≡ some n) × (d.replicas ≡ some n))
  pub selector : d.selector ≡ selector_of ms
  pub pod_labels :
      d.pod_labels
      ≡ (codes "app.kubernetes.io/name", codes "managed-service")
        ∷ (codes "app.kubernetes.io/instance", ms.meta.name)
        ∷ (codes "app.kubernetes.io/managed-by", codes "platform-operator")
        ∷ (codes "platform.eoghanclancy.eu/template", ms.spec.template)
        ∷ (codes "observability.eoghanclancy.eu/otlp-client", codes "managed-service")
        ∷ []
  pub pod : IsDesiredPod r ms d.pod
  pub min_ready_seconds : d.min_ready_seconds ≡ found.min_ready_seconds
  pub paused : d.paused ≡ found.paused
  pub ready_replicas : d.ready_replicas ≡ found.ready_replicas

-- `s` is the desired Service of `ms`, and what the operator does not manage is that of `found`.
pub record IsDesiredService (set_controller : SetController) (ms : ManagedService)
    (found s : Service) : Type 0 where
  pub owned : IsOwned set_controller ms found.meta s.meta
  pub service_type : s.service_type ≡ codes "ClusterIP"
  pub selector : s.selector ≡ selector_of ms
  pub ports :
      s.ports
      ≡ record { name = codes "http"; port = pos 80; protocol = tcp; target_port = codes "http" }
        ∷ record {
          name = codes "metrics";
          port = pos 9090;
          protocol = tcp;
          target_port = codes "metrics";
        }
        ∷ []
  pub cluster_ip : s.cluster_ip ≡ found.cluster_ip

http_probe-IsProbe : (path : Str) (delay : ℤ) → IsProbe path delay (http_probe path delay)
unfolding http_probe
http_probe-IsProbe path delay = record {
  of_path = refl;
  port = refl;
  scheme = refl;
  delayed = refl;
  timeout = refl;
  period = refl;
  successes = refl;
  failures = refl;
}

demo_container-IsDesiredContainer :
    (r : Settings) (ms : ManagedService) → IsDesiredContainer r ms (demo_container r ms)
unfolding demo_container
demo_container-IsDesiredContainer r ms = record {
  name = refl;
  image = refl;
  pulled = refl;
  ports = refl;
  env = refl;
  requests = refl;
  limits = refl;
  not_escalated = refl;
  no_capabilities = refl;
  read_only = refl;
  not_root = refl;
  liveness = http_probe-IsProbe (codes "/healthz") (pos 10);
  readiness = http_probe-IsProbe (codes "/readyz") (pos 2);
  message_path = refl;
  message_policy = refl;
}

pull_secrets_cases :
    (r : Settings)
    → ((r.image_pull_secret_name ≡ []) × (pull_secrets r ≡ []))
      ⊎ ((r.image_pull_secret_name ≢ []) × (pull_secrets r ≡ r.image_pull_secret_name ∷ []))
unfolding pull_secrets
pull_secrets_cases r = elim (Bool-cases (eq_str r.image_pull_secret_name [])) [
  | inl empty ↦ rw empty (inl ((eq_str_iff r.image_pull_secret_name []).0 empty, refl))
  | inr given ↦
      rw given (inr ((λ e. cc (given, (eq_str_iff r.image_pull_secret_name []).1 e)), refl))
]

pub demo_pod-IsDesiredPod : (r : Settings) (ms : ManagedService) → IsDesiredPod r ms (demo_pod r ms)
unfolding demo_pod
demo_pod-IsDesiredPod r ms = record {
  container = (demo_container r ms, refl, demo_container-IsDesiredContainer r ms);
  secrets = pull_secrets_cases r;
  no_token = refl;
  no_links = refl;
  user = refl;
  dns_policy = refl;
  restarts = refl;
  scheduler = refl;
  grace_period = refl;
}

pub desired_replicas_cases :
    (ms : ManagedService)
    → ((ms.spec.replicas ≡ none) × (desired_replicas ms ≡ pos 1))
      ⊎ ((n : ℤ) × (ms.spec.replicas ≡ some n) × (desired_replicas ms ≡ n))
unfolding desired_replicas
desired_replicas_cases ms = elim (Option-cases ms.spec.replicas) [
  | inl e ↦ rw e (inl (refl, refl))
  | inr (n, e) ↦ rw e (inr (n, refl, refl))
]
