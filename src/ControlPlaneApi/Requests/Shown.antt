-- ===== src/ControlPlaneApi/Requests/Shown.antt =====
-- What the API shows: lists in order, and route labels from a fixed set.
use mathlib.Core.List.{Perm}
use cloud_native_service_con.Base.{
  List, [], false, map, ◌++◌, ◌≡◌, ◌≢◌, ◌⊎◌, Bool, Bool-cases, Option-cases, arith, inl, inr, not,
  refl, true, ◌&&◌, ◌||◌, any, ap, length, length-append, subst, ◌↔◌, ◌∙◌, ◌∷◌,
}
use cloud_native_service_con.Text.{
  Str, codes, contains_byte, after_prefix, eq_str, eq_str_iff, eq_str_refl, trim_prefix, OneOf,
  any-eq_str_iff, eq_str-false,
}
use cloud_native_service_con.Text.Search.{after_prefix_iff, after_prefix-append}
use cloud_native_service_con.Text.Order.{IsSorted, sort_by-IsSorted, sort_by-perm}
use cloud_native_service_con.Types.{ManagedService}
use cloud_native_service_con.ControlPlaneApi.Http.{ManagedServiceResponse, ResponseCondition}
use cloud_native_service_con.ControlPlaneApi.Auth.{api_v1_route}
use cloud_native_service_con.ControlPlaneApi.Requests.{
  list_items, normalize_route, health_route, managed_services_route, new_managed_service_response,
  readiness_route,
}

-- The items of a list are the shown ManagedServices, each once, in the order of their names, and the
-- conditions of a shown ManagedService are in the order of their types.
pub list_items-IsSorted :
    (services : List ManagedService) (ms : ManagedService)
    → IsSorted (λ (r : ManagedServiceResponse). r.name) (list_items services)
      × Perm (list_items services) (map new_managed_service_response services)
      × IsSorted
          (λ (c : ResponseCondition). c.type_name)
          (new_managed_service_response ms).conditions
unfolding list_items
list_items-IsSorted services ms = (
  sort_by-IsSorted (λ (r : ManagedServiceResponse). r.name) _,
  sort_by-perm (λ (r : ManagedServiceResponse). r.name) _,
  sort_by-IsSorted (λ (c : ResponseCondition). c.type_name) _,
)

-- One of the four routes that are a single path.
abbrev pub IsFixedPath : Str → Type 0
IsFixedPath path =
    OneOf path
      (codes "/healthz" ∷ codes "/readyz" ∷ codes "/api/v1" ∷ codes "/api/v1/managed-services" ∷ [])

-- The path of an item: a name of one segment behind the collection's path.
pub record IsItemPath (path : Str) : Type 0 where
  pub name : Str
  pub parts : path ≡ codes "/api/v1/managed-services/" ++ name
  pub present : name ≢ []
  pub single : contains_byte name b'/' ≡ false

-- The label for a path: the path itself if it is fixed, the template of the item route if it is the
-- path of an item, and "unknown" if it is neither.
abbrev pub LabelFor : Str → Str → Type 0
LabelFor path label =
    (IsFixedPath path × (label ≡ path))
    ⊎ ((¬ IsFixedPath path) × IsItemPath path × (label ≡ codes "/api/v1/managed-services/{name}"))
    ⊎ ((¬ IsFixedPath path) × (¬ IsItemPath path) × (label ≡ codes "unknown"))

-- The tests of NormalizeRoute.
abbrev fixed_test : Str → Bool
fixed_test path =
    eq_str path health_route
    || (eq_str path readiness_route
        || (eq_str path api_v1_route || eq_str path managed_services_route))

abbrev item_test : Str → Bool
item_test path =
    let name = trim_prefix path (managed_services_route ++ codes "/") in
    not (eq_str name path) && (not (eq_str name []) && not (contains_byte name b'/'))

any-four :
    (p : Str → Bool) (a b c d : Str) → any p (a ∷ b ∷ c ∷ d ∷ []) ≡ (p a || (p b || (p c || p d)))
any-four p a b c d = ground arith

fixed_test_iff : (path : Str) → (fixed_test path ≡ true) ↔ IsFixedPath path
fixed_test_iff path =
    subst (λ (t : Bool). (t ≡ true) ↔ IsFixedPath path)
      (any-four (eq_str path) health_route readiness_route api_v1_route managed_services_route)
      (any-eq_str_iff path
        (health_route ∷ readiness_route ∷ api_v1_route ∷ managed_services_route ∷ []))

item_tests :
    (a b c : Bool) → (not a && (not b && not c)) ≡ true → (a ≡ false) × (b ≡ false) × (c ≡ false)
item_tests a b c h = ground arith

trim_prefix-parts : (s p : Str) → eq_str (trim_prefix s p) s ≡ false → s ≡ p ++ trim_prefix s p
unfolding trim_prefix
trim_prefix-parts s p h = elim (Option-cases (after_prefix s p)) [
  | inl e ↦ cc (eq_str_refl s, rw (e, trim_prefix) at h)
  | inr (rest, e) ↦ rw (e, trim_prefix) ((after_prefix_iff s p rest).0 e)
]

item_path : (path : Str) → item_test path ≡ true → IsItemPath path
item_path path h =
    let name : Str = trim_prefix path (managed_services_route ++ codes "/") in
    let (trimmed, present, single) =
      item_tests (eq_str name path) (eq_str name []) (contains_byte name b'/') h in
    record {
      name = name;
      parts = trim_prefix-parts path (managed_services_route ++ codes "/") trimmed;
      present = λ e. cc ((eq_str_iff name []).1 e);
      single = single;
    }

trim_prefix-append : (p name : Str) → trim_prefix (p ++ name) p ≡ name
unfolding trim_prefix
trim_prefix-append p name = rw (after_prefix-append p name, trim_prefix) refl

longer : (name : Str) → name ≢ codes "/api/v1/managed-services/" ++ name
longer name e = omega (arith, length-append (codes "/api/v1/managed-services/") name, ap length e)

item_path_tested : (path : Str) → IsItemPath path → item_test path ≡ true
item_path_tested path i =
    let prefix : Str = codes "/api/v1/managed-services/" in
    let trimmed : trim_prefix path prefix ≡ i.name =
      ap (λ (s : Str). trim_prefix s prefix) i.parts ∙ trim_prefix-append prefix i.name in
    let other : eq_str i.name path ≡ false =
      eq_str-false i.name path (λ e. longer i.name (e ∙ i.parts)) in
    rw (trimmed, other, eq_str-false i.name [] i.present, i.single) refl

-- The label that NormalizeRoute gives to a path is the path itself if it is one of the four fixed
-- routes, the template of the item route if it is no fixed route and has exactly one more segment, not
-- empty, behind the collection's path, and "unknown" if it is neither.
pub normalize_route-LabelFor : (path : Str) → LabelFor path (normalize_route path)
unfolding normalize_route
normalize_route-LabelFor path = elim (Bool-cases (fixed_test path)) [
  | inl fixed ↦ rw fixed (inl ((fixed_test_iff path).0 fixed, refl))
  | inr free ↦
      let unfixed : ¬ IsFixedPath path = λ i. cc (free, (fixed_test_iff path).1 i) in
      elim (Bool-cases (item_test path)) [
        | inl named ↦ rw (free, named) (inr (inl (unfixed, item_path path named, refl)))
        | inr unnamed ↦
            rw (free, unnamed)
              (inr (inr (unfixed, (λ i. cc (unnamed, item_path_tested path i)), refl)))
      ]
]
