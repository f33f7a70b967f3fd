-- ===== src/Examples/SampleCluster.antt =====
-- A cluster that keeps its laws, and a ManagedService in it.
use cloud_native_service_con.Base.{
  Bool, Bool-cases, List, Option, [], and-eq-true, ap, arith, false, if◌then◌else◌, inl, inr, none,
  pos, refl, some, subst, sym, true, ℤ, ◌&&◌, ◌++◌, ◌||◌, ◌∙◌, ◌∷◌, ◌≡◌,
}
use cloud_native_service_con.Text.{Str, codes, eq_str, eq_str_iff, eq_str_refl}
use cloud_native_service_con.Types.{
  ManagedService, NamespacedName, empty_status, template_demo_http,
}
use cloud_native_service_con.Errors.{Error, Result, err, external, ok}
use cloud_native_service_con.Controller.Workload.{Deployment, OwnerReference, Service}
use cloud_native_service_con.Controller.Resources.{Settings, SetController}
use cloud_native_service_con.Controller.Resources.Drift.{KeepsReference}
use cloud_native_service_con.Controller.Reconcile.{Cluster}
use cloud_native_service_con.Controller.Reconcile.Laws.Persist.{ClusterLaws, key_of}
use cloud_native_service_con.Examples.SampleConditions.{
  sample_conditions, eq_managed_status, eq_managed_status_sound, sample_conditions-Laws,
}

-- The ManagedServices, and the number of ready replicas that every Deployment reports.
pub record SampleWorld : Type 0 where
  pub services : NamespacedName → Option ManagedService
  pub ready : ℤ

abbrev pub missing : Error
missing = external 404 (codes "not found")

abbrev pub quota : Error
quota = external 403 (codes "exceeded quota")

unfoldable pub eq_key : NamespacedName → NamespacedName → Bool
unfolding eq_str
eq_key a b = eq_str a.name b.name && eq_str a.namespace b.namespace

pub eq_key_refl : (k : NamespacedName) → eq_key k k ≡ true
unfolding eq_key
eq_key_refl k = ground (arith, eq_str_refl k.name, eq_str_refl k.namespace)

pub eq_key_sound : (a b : NamespacedName) → eq_key a b ≡ true → a ≡ b
unfolding eq_key
eq_key_sound a b h = ground (
  arith,
  (eq_str_iff a.name b.name).0
      ((and-eq-true (eq_str a.name b.name) (eq_str a.namespace b.namespace)).0 h).0,
  (eq_str_iff a.namespace b.namespace).0
      ((and-eq-true (eq_str a.name b.name) (eq_str a.namespace b.namespace)).0 h).1,
)

answer_get : NamespacedName → Option ManagedService → Result ManagedService
unfolding eq_key
answer_get k none = err missing
answer_get k (some ms) = if eq_key (key_of ms) k then ok ms else err missing

pub sample_get : NamespacedName → SampleWorld → Result ManagedService × SampleWorld
unfolding answer_get
sample_get k w = (answer_get k (w.services k), w)

-- A new Deployment is made by the function, and reports its ready replicas.
sample_deployment :
    Deployment → (Deployment → Result Deployment) → SampleWorld → Result Deployment × SampleWorld
sample_deployment d f w = (f (record d { ready_replicas = w.ready }), w)

sample_service : Service → (Service → Result Service) → SampleWorld → Result Service × SampleWorld
sample_service s f w = (f s, w)

failing_service : Service → (Service → Result Service) → SampleWorld → Result Service × SampleWorld
failing_service s f w = (err quota, w)

pub sample_patch :
    ManagedService → ManagedService → SampleWorld → Result ManagedService × SampleWorld
unfolding eq_key
sample_patch before ms w =
    (ok ms, record w { services = λ k. if eq_key (key_of ms) k then some ms else w.services k })

-- The owner reference of the ManagedService, set once.
has_owner : Str → List OwnerReference → Bool
unfolding eq_str
has_owner name [] = false
has_owner name (o ∷ os) = eq_str o.owner name || has_owner name os

unfoldable pub sample_set_controller : SetController
unfolding has_owner
sample_set_controller ms m = ok (
    if has_owner ms.meta.name m.owners
    then m.owners
    else record { owner = ms.meta.name; is_controller = true } ∷ m.owners)

unfoldable pub sample_cluster : Cluster SampleWorld
unfolding sample_get sample_deployment sample_service sample_patch sample_set_controller
    sample_conditions eq_managed_status
sample_cluster = record {
  get = sample_get;
  create_or_update_deployment = sample_deployment;
  create_or_update_service = sample_service;
  patch_status = sample_patch;
  set_controller = sample_set_controller;
  deep_equal = eq_managed_status;
  is_not_found = λ e. false;
  conditions = sample_conditions;
}

-- The same cluster, in which no Service can be made.
unfoldable pub failing_cluster : Cluster SampleWorld
unfolding sample_cluster failing_service
failing_cluster = record sample_cluster { create_or_update_service = failing_service }

pub sample_get_ok :
    (k : NamespacedName) (w : SampleWorld) (ms : ManagedService)
    → (sample_get k w).0 ≡ ok ms
    → (key_of ms ≡ k) × (w.services k ≡ some ms)
unfolding sample_get
sample_get_ok k w ms h = answer_get_ok k (w.services k) ms h refl
  where
    answer_get_ok :
        (k' : NamespacedName) (o : Option ManagedService) (m : ManagedService)
        → answer_get k' o ≡ ok m
        → w.services k ≡ o
        → (key_of m ≡ k') × (w.services k ≡ some m)
    answer_get_ok k' none m e same = cc
    answer_get_ok k' (some n) m e same = elim (Bool-cases (eq_key (key_of n) k')) [
      | inl yes' ↦
          let eq : n ≡ m = cc (rw (yes', answer_get) at e) in
          (subst (λ x. key_of x ≡ k') eq (eq_key_sound (key_of n) k' yes'), same ∙ ap some eq)
      | inr no' ↦ cc (rw (no', answer_get) at e)
    ]

pub patch_ok :
    (before ms p : ManagedService) (w : SampleWorld)
    → (sample_patch before ms w).0 ≡ ok p
    → ((sample_patch before ms w).1.services (key_of ms) ≡ some p) × (p.status ≡ ms.status)
unfolding sample_patch
patch_ok before ms p w h =
    let eq : ms ≡ p = cc in
    (rw (eq_key_refl (key_of ms)) (ap some eq), sym (ap (λ (m : ManagedService). m.status) eq))

unfoldable pub sample_cluster-Laws : ClusterLaws sample_cluster
unfolding sample_cluster
sample_cluster-Laws = record {
  stored = λ k w. w.services k;
  get_ok = sample_get_ok;
  deployment_keeps = λ k d f w. refl;
  service_keeps = λ k s f w. refl;
  patch_ok = patch_ok;
  deep_equal_sound = eq_managed_status_sound;
  condition_laws = sample_conditions-Laws;
}

pub failing_cluster-Laws : ClusterLaws failing_cluster
unfolding failing_cluster
failing_cluster-Laws = record {
  stored = λ k w. w.services k;
  get_ok = sample_get_ok;
  deployment_keeps = λ k d f w. refl;
  service_keeps = λ k s f w. refl;
  patch_ok = patch_ok;
  deep_equal_sound = eq_managed_status_sound;
  condition_laws = sample_conditions-Laws;
}

pub failing_cluster-accepts :
    (before ms : ManagedService) (w : SampleWorld)
    → (p : ManagedService) × ((failing_cluster.patch_status before ms w).0 ≡ ok p)
unfolding failing_cluster
failing_cluster-accepts before ms w = (ms, refl)

has_owner-cons :
    (name : Str) (os : List OwnerReference)
    → has_owner name (record { owner = name; is_controller = true } ∷ os) ≡ true
unfolding has_owner
has_owner-cons name os = rw (eq_str_refl name) refl

pub sample_set_controller-Keeps : KeepsReference sample_set_controller
unfolding sample_set_controller
sample_set_controller-Keeps ms m labels owners h =
    elim (Bool-cases (has_owner ms.meta.name m.owners)) [
      | inl old ↦ let eq : m.owners ≡ owners = cc (rw old at h) in rw (← eq) (rw old refl)
      | inr new ↦
          let eq : record { owner = ms.meta.name; is_controller = true } ∷ m.owners ≡ owners =
            cc (rw new at h) in
          rw (← eq) (rw (has_owner-cons ms.meta.name m.owners) refl)
    ]

abbrev pub sample_service_object : ManagedService
sample_service_object = record {
  meta = record {
    name = codes "portfolio-demo";
    namespace = codes "applications";
    generation = pos 3;
  };
  spec = record { template = template_demo_http; replicas = some (pos 2); message = codes "Hello" };
  status = empty_status;
}

abbrev pub sample_key : NamespacedName
sample_key = key_of sample_service_object

abbrev pub sample_world : SampleWorld
sample_world = record {
  services = λ k. if eq_key sample_key k then some sample_service_object else none;
  ready = pos 2;
}

abbrev pub sample_digest : Str
sample_digest = codes "0123456789abcdef0123456789abcdef0123456789abcdef0123456789ABCDEF"

abbrev pub sample_image : Str
sample_image = codes "ghcr.io/demo@sha256:" ++ sample_digest

abbrev pub sample_settings : Settings
sample_settings = record { demo_http_image = sample_image; image_pull_secret_name = [] }
