-- ===== src/Examples/SampleClient.antt =====
-- A Kubernetes client over a list of objects, that keeps its laws, and a handler with it.
use cloud_native_service_con.Base.{
  All, Bool-cases, List, Option, [], if◌then◌else◌, inl, inr, none, refl, some, ◌∷◌, ◌≡◌, ◌≢◌, ap,
  sym, ◌∙◌, not, pos, subst, true, ℕ, ◌++◌,
}
use cloud_native_service_con.Text.{Str, codes, eq_str, contains_byte, eq_str_iff}
use cloud_native_service_con.Types.{ManagedService, NamespacedName}
use cloud_native_service_con.Errors.{Error, Result, err, external, ok}
use cloud_native_service_con.ControlPlaneApi.Store.{Client}
use cloud_native_service_con.ControlPlaneApi.Store.Scope.{ClientLaws, key_of}
use cloud_native_service_con.ControlPlaneApi.Requests.{
  CreateRequest, DecodeError, end_of_input, too_large,
}
use cloud_native_service_con.ControlPlaneApi.Http.{Request, Response}
use cloud_native_service_con.ControlPlaneApi.Handler.{ApiHandler, Libraries}
use cloud_native_service_con.ControlPlaneApi.Handler.Lifecycle.{main_handler}
use cloud_native_service_con.Examples.SampleCluster.{
  eq_key, eq_key_refl, eq_key_sound, missing, sample_service_object,
}

plain : ℕ → Response
plain status = record { headers = []; status = status; body = none }

abbrev pub exists : Error
exists = external 409 (codes "already exists")

unfoldable pub find_object : NamespacedName → List ManagedService → Option ManagedService
unfolding eq_key
find_object k [] = none
find_object k (m ∷ ms) = let rest = find_object k ms in if eq_key (key_of m) k then some m else rest

unfoldable remove_object : NamespacedName → List ManagedService → List ManagedService
unfolding eq_key
remove_object k [] = []
remove_object k (m ∷ ms) =
    let rest = remove_object k ms in if eq_key (key_of m) k then rest else m ∷ rest

unfoldable of_namespace : Str → List ManagedService → List ManagedService
unfolding eq_str
of_namespace n [] = []
of_namespace n (m ∷ ms) =
    let rest = of_namespace n ms in if eq_str m.meta.namespace n then m ∷ rest else rest

create_absent :
    Option ManagedService
    → ManagedService
    → List ManagedService
    → Result ManagedService × List ManagedService
create_absent none ms w = (ok ms, ms ∷ w)
create_absent (some m) ms w = (err exists, w)

found : Option ManagedService → Result ManagedService
found none = err missing
found (some m) = ok m

unfoldable pub sample_client : Client (List ManagedService)
unfolding create_absent found find_object remove_object of_namespace
sample_client = record {
  create = λ ms w. create_absent (find_object (key_of ms) w) ms w;
  list = λ o w. (ok (of_namespace o.in_namespace w), w);
  get = λ k w. (found (find_object k w), w);
  delete = λ k w. (none, remove_object k w);
}

find_object-cons :
    (k : NamespacedName) (m : ManagedService) (w : List ManagedService)
    → k ≢ key_of m
    → find_object k (m ∷ w) ≡ find_object k w
unfolding find_object
find_object-cons k m w other = elim (Bool-cases (eq_key (key_of m) k)) [
  | inl same ↦ absurd (other (sym (eq_key_sound (key_of m) k same)))
  | inr different ↦ rw different refl
]

create_absent_others :
    (o : Option ManagedService) (ms : ManagedService) (w : List ManagedService) (k : NamespacedName)
    → k ≢ key_of ms
    → find_object k (create_absent o ms w).1 ≡ find_object k w
unfolding create_absent
create_absent_others none ms w k other = find_object-cons k ms w other
create_absent_others (some m) ms w k other = refl

create_absent_stores :
    (o : Option ManagedService) (ms made : ManagedService) (w : List ManagedService)
    → (create_absent o ms w).0 ≡ ok made
    → (find_object (key_of ms) (create_absent o ms w).1 ≡ some made)
      × (made.spec ≡ ms.spec)
      × (key_of made ≡ key_of ms)
unfolding create_absent find_object
create_absent_stores none ms made w h =
    let same : ms ≡ made = cc in
    (
      rw (eq_key_refl (key_of ms)) (ap some same),
      ap (λ (m : ManagedService). m.spec) (sym same),
      ap key_of (sym same),
    )
create_absent_stores (some m) ms made w h = cc

remove_object_others :
    (k j : NamespacedName) (w : List ManagedService)
    → j ≢ k
    → find_object j (remove_object k w) ≡ find_object j w
unfolding remove_object find_object
remove_object_others k j [] other = refl
remove_object_others k j (m ∷ w) other = elim (Bool-cases (eq_key (key_of m) k)) [
  | inl same ↦ rw same (
      remove_object_others k j w other
      ∙ sym (find_object-cons j m w (λ e. other (e ∙ eq_key_sound (key_of m) k same))))
  | inr different ↦ rw (different, remove_object_others k j w other) refl
]

of_namespace-All :
    (n : Str) (w : List ManagedService)
    → All (λ (ms : ManagedService). ms.meta.namespace ≡ n) (of_namespace n w)
unfolding of_namespace
of_namespace-All n [] = tt
of_namespace-All n (m ∷ w) = elim (Bool-cases (eq_str m.meta.namespace n)) [
  | inl same ↦ rw same ((eq_str_iff m.meta.namespace n).0 same, of_namespace-All n w)
  | inr different ↦ rw different (of_namespace-All n w)
]

pub sample_client-Laws : ClientLaws sample_client
unfolding sample_client found
sample_client-Laws = record {
  objects = λ w k. find_object k w;
  list_keeps = λ o w. refl;
  get_keeps = λ k w. refl;
  create_others = λ ms w k. create_absent_others (find_object (key_of ms) w) ms w k;
  delete_others = λ k j w. remove_object_others k j w;
  create_stores = λ ms made w. create_absent_stores (find_object (key_of ms) w) ms made w;
  get_reads = λ k w ms h. ap found h;
  list_in_namespace = λ o w items h.
      let same : of_namespace o.in_namespace w ≡ items = cc in
      subst (All (λ (ms : ManagedService). ms.meta.namespace ≡ o.in_namespace)) same
        (of_namespace-All o.in_namespace w);
}

-- A body is its decoded request, or none for one that is too large.
unfoldable pub sample_libraries : Libraries (Option CreateRequest)
unfolding contains_byte plain
sample_libraries = record {
  hash = λ s. s;
  is_dns_label = λ s. not (contains_byte s b'/');
  is_not_found = λ e. true;
  is_already_exists = λ e. true;
  decoder = record { first_value = first_value; second_value = λ n body. some end_of_input };
  mux = record {
    refused = plain 400;
    redirected = λ method path raw_query. plain 301;
    unmatched = plain 404;
  };
}
  where
    first_value : ℕ → Option CreateRequest → CreateRequest × Option DecodeError
    first_value n none = (record { name = []; replicas = none; message = [] }, some too_large)
    first_value n (some request) = (request, none)

abbrev pub sample_token : Str
sample_token = codes "0123456789abcdef0123456789abcdef"

abbrev pub sample_handler : ApiHandler (List ManagedService)
sample_handler = main_handler sample_libraries sample_client sample_client-Laws sample_token

abbrev pub sample_request : CreateRequest
sample_request = record { name = codes "blue"; replicas = some (pos 2); message = codes "Hi" }

abbrev pub sample_post : Request (Option CreateRequest)
sample_post = record {
  request_uri = codes "/api/v1/managed-services";
  method = codes "POST";
  path = codes "/api/v1/managed-services";
  escaped_path = codes "/api/v1/managed-services";
  raw_query = [];
  authorization = (codes "Bearer " ++ sample_token) ∷ [];
  body = some sample_request;
}

-- A way around the check of the path, if there were one, without a credential.
abbrev pub sample_intruder : Request (Option CreateRequest)
sample_intruder = record {
  request_uri = codes "/api%2fv1/managed-services/portfolio-demo";
  method = codes "DELETE";
  path = codes "/api/v1/managed-services/portfolio-demo";
  escaped_path = codes "/api%2fv1/managed-services/portfolio-demo";
  raw_query = [];
  authorization = [];
  body = none;
}

abbrev pub sample_objects : List ManagedService
sample_objects = sample_service_object ∷ []
