-- ===== src/Controller/Resources.antt =====
-- The desired Deployment and Service (managedservice_resources.go): the functions that
-- controllerutil.CreateOrUpdate calls on the object that it found, or on a new one.
pub mod Desired
pub mod Drift
pub mod Wiring
use cloud_native_service_con.Base.{List, [], false, if◌then◌else◌, pos, some, true, ℤ, ◌∷◌}
use cloud_native_service_con.Text.{Str, codes, eq_str}
use cloud_native_service_con.Errors.{Result, ok, wrap_err, ◌>>=◌}
use cloud_native_service_con.Types.{ManagedService}
use cloud_native_service_con.Controller.Labels.{
  desired_replicas, managed_service_labels, managed_service_pod_labels, managed_service_selector,
}
use cloud_native_service_con.Controller.Workload.{
  Deployment, ChildMeta, Container, OwnerReference, PodSpec, Probe, Service, ServicePort, tcp,
}

-- The configuration fields of ManagedServiceReconciler.
pub record Settings : Type 0 where
  pub demo_http_image : Str
  pub image_pull_secret_name : Str

-- controllerutil.SetControllerReference(owner, controlled, scheme), a library function: the owner
-- references of the controlled object with the owner's added, or an error.
abbrev pub SetController : Type 0
SetController = ManagedService → ChildMeta → Result (List OwnerReference)

abbrev pub container_name : Str
container_name = codes "demo-http"

abbrev pub http_port_name : Str
http_port_name = codes "http"

abbrev pub metrics_port_name : Str
metrics_port_name = codes "metrics"

abbrev pub container_port : ℤ
container_port = pos 8080

abbrev pub metrics_container_port : ℤ
metrics_container_port = pos 9090

abbrev pub service_port : ℤ
service_port = pos 80

-- managedServiceHTTPProbe
unfoldable pub http_probe : Str → ℤ → Probe
http_probe path initial_delay_seconds = record {
  path = path;
  port = http_port_name;
  scheme = codes "HTTP";
  initial_delay_seconds = initial_delay_seconds;
  timeout_seconds = pos 2;
  period_seconds = pos 5;
  success_threshold = pos 1;
  failure_threshold = pos 6;
}

unfoldable pub demo_container : Settings → ManagedService → Container
unfolding http_probe
demo_container r ms = record {
  name = container_name;
  image = r.demo_http_image;
  image_pull_policy = codes "IfNotPresent";
  ports =
      record { name = http_port_name; container_port = container_port; protocol = tcp }
      ∷ record { name = metrics_port_name; container_port = metrics_container_port; protocol = tcp }
      ∷ [];
  env =
      record { name = codes "MESSAGE"; value = ms.spec.message }
      ∷ record { name = codes "METRICS_PORT"; value = codes "9090" }
      ∷ record { name = codes "OTEL_SERVICE_NAME"; value = container_name }
      ∷ [];
  requests = record { cpu = codes "5m"; memory = codes "16Mi" };
  limits = record { cpu = codes "50m"; memory = codes "32Mi" };
  security = record {
    allow_privilege_escalation = false;
    drop_capabilities = codes "ALL" ∷ [];
    read_only_root_filesystem = true;
    run_as_non_root = true;
  };
  liveness = http_probe (codes "/healthz") (pos 10);
  readiness = http_probe (codes "/readyz") (pos 2);
  termination_message_path = codes "/dev/termination-log";
  termination_message_policy = codes "File";
}

-- `imagePullSecrets`: nil unless a Secret is configured.
unfoldable pub pull_secrets : Settings → List Str
pull_secrets r = if eq_str r.image_pull_secret_name [] then [] else r.image_pull_secret_name ∷ []

unfoldable pub demo_pod : Settings → ManagedService → PodSpec
unfolding pull_secrets demo_container
demo_pod r ms = record {
  automount_service_account_token = some false;
  dns_policy = codes "ClusterFirst";
  enable_service_links = some false;
  image_pull_secrets = pull_secrets r;
  restart_policy = codes "Always";
  scheduler_name = codes "default-scheduler";
  security = some (record {
    run_as_group = pos 65532;
    run_as_non_root = true;
    run_as_user = pos 65532;
    seccomp_profile = codes "RuntimeDefault";
  });
  termination_grace_period_seconds = some (pos 10);
  containers = demo_container r ms ∷ [];
}

-- What the function of reconcileDeployment sets, once the owner is set.
unfoldable pub set_deployment :
    Settings → ManagedService → List OwnerReference → Deployment → Deployment
set_deployment r ms owners d = record d {
  meta = record (d.meta) { labels = managed_service_labels ms; owners = owners };
  replicas = some (desired_replicas ms);
  selector = managed_service_selector ms;
  pod_labels = managed_service_pod_labels ms;
  pod = demo_pod r ms;
}

-- The function that reconcileDeployment hands to CreateOrUpdate.
unfoldable pub mutate_deployment :
    SetController → Settings → ManagedService → Deployment → Result Deployment
unfolding set_deployment
mutate_deployment set_controller r ms d = do
  owners ← wrap_err (codes "set Deployment controller reference") (set_controller ms d.meta)
  ok (set_deployment r ms owners d)

unfoldable pub desired_ports : List ServicePort
desired_ports =
    record {
      name = http_port_name;
      port = service_port;
      protocol = tcp;
      target_port = http_port_name;
    }
    ∷ record {
      name = metrics_port_name;
      port = metrics_container_port;
      protocol = tcp;
      target_port = metrics_port_name;
    }
    ∷ []

-- What the function of reconcileService sets, once the owner is set.
unfoldable pub set_service : ManagedService → List OwnerReference → Service → Service
unfolding desired_ports
set_service ms owners s = record s {
  meta = record (s.meta) { labels = managed_service_labels ms; owners = owners };
  service_type = codes "ClusterIP";
  selector = managed_service_selector ms;
  ports = desired_ports;
}

-- The function that reconcileService hands to CreateOrUpdate.
unfoldable pub mutate_service : SetController → ManagedService → Service → Result Service
unfolding set_service
mutate_service set_controller ms s = do
  owners ← wrap_err (codes "set Service controller reference") (set_controller ms s.meta)
  ok (set_service ms owners s)
