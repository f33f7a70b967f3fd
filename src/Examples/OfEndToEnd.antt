-- ===== src/Examples/OfEndToEnd.antt =====
-- One cluster, on which the API's client and the operator's keep their laws, and what a client of the
-- API sees of a ManagedService that the operator reconciled there.
use cloud_native_service_con.Base.{
  All, Bool-cases, Option, [], ap, if◌then◌else◌, inl, inr, none, refl, some, subst, sym, ◌∙◌, ◌≡◌,
  ◌≢◌, pos,
}
use cloud_native_service_con.Text.{codes}
use cloud_native_service_con.Types.{ManagedService, NamespacedName}
use cloud_native_service_con.Errors.{Result, err, ok}
use cloud_native_service_con.Controller.Reconcile.{Cluster, State}
use cloud_native_service_con.Controller.Reconcile.Laws.Persist.{ClusterLaws, key_of}
use cloud_native_service_con.ControlPlaneApi.Store.{Client, new_managed_service}
use cloud_native_service_con.ControlPlaneApi.Store.Scope.{ClientLaws}
use cloud_native_service_con.EndToEnd.Deployed.{state_after_create}
use cloud_native_service_con.Examples.SampleConditions.{
  eq_managed_status_sound, sample_conditions-Laws,
}
use cloud_native_service_con.Examples.SampleCluster.{
  SampleWorld, eq_key, eq_key_refl, eq_key_sound, missing, sample_cluster, sample_get_ok,
}
use cloud_native_service_con.Examples.SampleClient.{exists}

-- The state with another object under a key.
abbrev put : NamespacedName → Option ManagedService → SampleWorld → SampleWorld
put k o w = record w { services = λ j. if eq_key k j then o else w.services j }

create_in :
    Option ManagedService → ManagedService → SampleWorld → Result ManagedService × SampleWorld
create_in none ms w = (ok ms, put (key_of ms) (some ms) w)
create_in (some m) ms w = (err exists, w)

found_in : Option ManagedService → Result ManagedService
found_in none = err missing
found_in (some m) = ok m

unfoldable shared_client : Client SampleWorld
unfolding create_in found_in eq_key
shared_client = record {
  create = λ ms w. create_in (w.services (key_of ms)) ms w;
  list = λ o w. (ok [], w);
  get = λ k w. (found_in (w.services k), w);
  delete = λ k w. (none, put k none w);
}

-- The patch of the status of the object that is there.
patch_in :
    Option ManagedService → ManagedService → SampleWorld → Result ManagedService × SampleWorld
patch_in none ms w = (err missing, w)
patch_in (some old) ms w = (
  ok (record old { status = ms.status }),
  put (key_of ms) (some (record old { status = ms.status })) w,
)

unfoldable shared_cluster : Cluster SampleWorld
unfolding sample_cluster patch_in
shared_cluster = record sample_cluster {
  patch_status = λ before ms w. patch_in (w.services (key_of ms)) ms w;
}

put_self :
    (k : NamespacedName) (o : Option ManagedService) (w : SampleWorld) → (put k o w).services k ≡ o
put_self k o w = rw (eq_key_refl k) refl

put_other :
    (k j : NamespacedName) (o : Option ManagedService) (w : SampleWorld)
    → j ≢ k
    → (put k o w).services j ≡ w.services j
put_other k j o w other = elim (Bool-cases (eq_key k j)) [
  | inl same ↦ absurd (other (sym (eq_key_sound k j same)))
  | inr different ↦ rw different refl
]

create_in_others :
    (o : Option ManagedService) (ms : ManagedService) (w : SampleWorld) (k : NamespacedName)
    → k ≢ key_of ms
    → (create_in o ms w).1.services k ≡ w.services k
unfolding create_in
create_in_others none ms w k other = put_other (key_of ms) k (some ms) w other
create_in_others (some m) ms w k other = refl

create_in_stores :
    (o : Option ManagedService) (ms made : ManagedService) (w : SampleWorld)
    → (create_in o ms w).0 ≡ ok made
    → ((create_in o ms w).1.services (key_of ms) ≡ some made)
      × (made.spec ≡ ms.spec)
      × (key_of made ≡ key_of ms)
unfolding create_in
create_in_stores none ms made w h =
    let same : ms ≡ made = cc in
    (
      put_self (key_of ms) (some ms) w ∙ ap some same,
      ap (λ (m : ManagedService). m.spec) (sym same),
      ap key_of (sym same),
    )
create_in_stores (some m) ms made w h = cc

shared_client-Laws : ClientLaws shared_client
unfolding shared_client found_in
shared_client-Laws = record {
  objects = λ w k. w.services k;
  list_keeps = λ o w. refl;
  get_keeps = λ k w. refl;
  create_others = λ ms w k. create_in_others (w.services (key_of ms)) ms w k;
  delete_others = λ k j w. put_other k j none w;
  create_stores = λ ms made w. create_in_stores (w.services (key_of ms)) ms made w;
  get_reads = λ k w ms h. ap found_in h;
  list_in_namespace = λ o w items h.
      let same : [] ≡ items = cc in
      subst (All (λ (ms : ManagedService). ms.meta.namespace ≡ o.in_namespace)) same tt;
}

patch_in_ok :
    (o : Option ManagedService) (ms p : ManagedService) (w : SampleWorld)
    → (patch_in o ms w).0 ≡ ok p
    → ((patch_in o ms w).1.services (key_of ms) ≡ some p) × (p.status ≡ ms.status)
unfolding patch_in
patch_in_ok none ms p w h = cc
patch_in_ok (some old) ms p w h =
    let same : record old { status = ms.status } ≡ p = cc in
    (
      put_self (key_of ms) (some (record old { status = ms.status })) w ∙ ap some same,
      ap (λ (m : ManagedService). m.status) (sym same),
    )

shared_cluster-Laws : ClusterLaws shared_cluster
unfolding shared_cluster sample_cluster
shared_cluster-Laws = record {
  stored = λ k w. w.services k;
  get_ok = sample_get_ok;
  deployment_keeps = λ k d f w. refl;
  service_keeps = λ k s f w. refl;
  patch_ok = λ before ms p w. patch_in_ok (w.services (key_of ms)) ms p w;
  deep_equal_sound = eq_managed_status_sound;
  condition_laws = sample_conditions-Laws;
}

-- A cluster without ManagedServices, where every Deployment has one ready replica.
abbrev empty_world : SampleWorld
empty_world = record { services = λ k. none; ready = pos 1 }

abbrev asked_for : ManagedService
asked_for = new_managed_service (codes "blue") (pos 2) (codes "Hi")

abbrev start_state : State SampleWorld
start_state =
    state_after_create shared_client (codes "blue") (pos 2) (codes "Hi") (some []) empty_world
