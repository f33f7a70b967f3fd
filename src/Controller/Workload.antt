-- ===== src/Controller/Workload.antt =====
-- The Kubernetes objects that the operator writes: the fields of apps/v1 Deployment and core/v1
-- Service that managedservice_resources.go sets or reads. A pointer is an `Option`; inside the parts that
-- the code writes whole (a container, a probe, a security context), where each pointer is set, it is
-- the value.
use cloud_native_service_con.Base.{Bool, List, Option, [], false, none, pos, ℤ}
use cloud_native_service_con.Text.{Str}
use cloud_native_service_con.Controller.Labels.{Labels}

-- metav1.OwnerReference
pub record OwnerReference : Type 0 where
  pub owner : Str
  pub is_controller : Bool

-- metav1.ObjectMeta of an owned object
pub record ChildMeta : Type 0 where
  pub name : Str
  pub namespace : Str
  pub labels : Labels
  pub owners : List OwnerReference

pub data Protocol : Type 0 where
  tcp udp sctp : Protocol

pub record ContainerPort : Type 0 where
  pub name : Str
  pub container_port : ℤ
  pub protocol : Protocol

pub record EnvVar : Type 0 where
  pub name : Str
  pub value : Str

-- resource.MustParse(text) stands as its text.
pub record Quantities : Type 0 where
  pub cpu : Str
  pub memory : Str

pub record Probe : Type 0 where
  pub path : Str
  pub port : Str
  pub scheme : Str
  pub initial_delay_seconds : ℤ
  pub timeout_seconds : ℤ
  pub period_seconds : ℤ
  pub success_threshold : ℤ
  pub failure_threshold : ℤ

-- corev1.SecurityContext
pub record SecurityContext : Type 0 where
  pub allow_privilege_escalation : Bool
  pub drop_capabilities : List Str
  pub read_only_root_filesystem : Bool
  pub run_as_non_root : Bool

pub record Container : Type 0 where
  pub name : Str
  pub image : Str
  pub image_pull_policy : Str
  pub ports : List ContainerPort
  pub env : List EnvVar
  pub requests : Quantities
  pub limits : Quantities
  pub security : SecurityContext
  pub liveness : Probe
  pub readiness : Probe
  pub termination_message_path : Str
  pub termination_message_policy : Str

-- corev1.PodSecurityContext
pub record PodSecurityContext : Type 0 where
  pub run_as_group : ℤ
  pub run_as_non_root : Bool
  pub run_as_user : ℤ
  pub seccomp_profile : Str

pub record PodSpec : Type 0 where
  pub automount_service_account_token : Option Bool
  pub dns_policy : Str
  pub enable_service_links : Option Bool
  pub image_pull_secrets : List Str
  pub restart_policy : Str
  pub scheduler_name : Str
  pub security : Option PodSecurityContext
  pub termination_grace_period_seconds : Option ℤ
  pub containers : List Container

-- `min_ready_seconds` and `paused` stand for what the operator leaves as it finds it.
pub record Deployment : Type 0 where
  pub meta : ChildMeta
  pub replicas : Option ℤ
  pub selector : Labels
  pub pod_labels : Labels
  pub pod : PodSpec
  pub min_ready_seconds : ℤ
  pub paused : Bool
  pub ready_replicas : ℤ

pub record ServicePort : Type 0 where
  pub name : Str
  pub port : ℤ
  pub protocol : Protocol
  pub target_port : Str

-- `cluster_ip` stands for what the operator leaves as it finds it.
pub record Service : Type 0 where
  pub meta : ChildMeta
  pub service_type : Str
  pub selector : Labels
  pub ports : List ServicePort
  pub cluster_ip : Str

-- A new object with a name and a namespace: the zero value of every other field.
abbrev pub new_meta : Str → Str → ChildMeta
new_meta name namespace = record { name = name; namespace = namespace; labels = []; owners = [] }

abbrev zero_pod : PodSpec
zero_pod = record {
  automount_service_account_token = none;
  dns_policy = [];
  enable_service_links = none;
  image_pull_secrets = [];
  restart_policy = [];
  scheduler_name = [];
  security = none;
  termination_grace_period_seconds = none;
  containers = [];
}

abbrev pub new_deployment : Str → Str → Deployment
new_deployment name namespace = record {
  meta = new_meta name namespace;
  replicas = none;
  selector = [];
  pod_labels = [];
  pod = zero_pod;
  min_ready_seconds = pos 0;
  paused = false;
  ready_replicas = pos 0;
}

abbrev pub new_service : Str → Str → Service
new_service name namespace = record {
  meta = new_meta name namespace;
  service_type = [];
  selector = [];
  ports = [];
  cluster_ip = [];
}
