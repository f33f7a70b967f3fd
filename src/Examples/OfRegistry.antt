-- ===== src/Examples/OfRegistry.antt =====
-- A registry that keeps its laws, and the two sets of metrics in it.
use cloud_native_service_con.Base.{
  Bool, Bool-cases, List, Option, [], and-eq-true, ap, false, if◌then◌else◌, inl, inr, none, refl,
  some, sym, true, ◌&&◌, ◌∙◌, ◌∷◌, ◌≡◌, ◌≢◌,
}
use cloud_native_service_con.Text.{Str, codes, eq_str, eq_str_iff, eq_str_refl}
use cloud_native_service_con.Errors.{Error, err, external, ok}
use cloud_native_service_con.Registry.{
  Collector, ManagedServiceMetrics, RegisterError, Registerer, already, condition_transitions_vec,
  http_metrics, new_http_metrics, new_managed_service_metrics, reconcile_duration_vec,
  reconciliations_vec, refused,
}
use cloud_native_service_con.Registry.Laws.{IsSame, RegistryLaws}
use cloud_native_service_con.Registry.Reused.{AreRegistered, new_managed_service_metrics-reused}
use cloud_native_service_con.Registry.Fresh.{AreFresh, new_http_metrics_once}

abbrev clash : Error
clash = external 1 (codes "duplicate metrics collector registration attempted")

unfoldable eq_strs : List Str → List Str → Bool
unfolding eq_str
eq_strs [] [] = true
eq_strs (a ∷ as') (b ∷ bs) = eq_str a b && eq_strs as' bs
eq_strs _ _ = false

eq_strs_refl : (ss : List Str) → eq_strs ss ss ≡ true
unfolding eq_strs
eq_strs_refl [] = refl
eq_strs_refl (s ∷ ss) = rw (eq_str_refl s) (eq_strs_refl ss)

eq_strs_sound : (as' bs : List Str) → eq_strs as' bs ≡ true → as' ≡ bs
unfolding eq_strs
eq_strs_sound [] [] h = refl
eq_strs_sound [] (b ∷ bs) h = cc
eq_strs_sound (a ∷ as') [] h = cc
eq_strs_sound (a ∷ as') (b ∷ bs) h =
    let parts : (eq_str a b ≡ true) × (eq_strs as' bs ≡ true) = (and-eq-true _ _).0 h in
    let first : a ≡ b = (eq_str_iff a b).0 parts.0 in
    let rest : as' ≡ bs = eq_strs_sound as' bs parts.1 in cc

-- The collector with this name; the labels of the wrapper make no difference.
unfoldable with_name : List Collector → Str → Option Collector
unfolding eq_str
with_name [] name = none
with_name (c ∷ cs) name =
    let rest = with_name cs name in if eq_str c.name name then some c else rest

unfoldable answer_register :
    Option Collector → Collector → List Collector → Option RegisterError × List Collector
unfolding eq_str eq_strs
answer_register none c w = (none, c ∷ w)
answer_register (some existing) c w =
    if eq_str existing.help c.help && eq_strs existing.labels c.labels
    then (some (already existing clash), w)
    else (some (refused clash), w)

unfoldable pub sample_registry : Registerer (List Collector)
unfolding answer_register with_name
sample_registry = record { register = λ labels c w. answer_register (with_name w c.name) c w }

with_name_named :
    (w : List Collector) (name : Str) (c : Collector) → with_name w name ≡ some c → c.name ≡ name
unfolding with_name
with_name_named [] name c h = cc
with_name_named (d ∷ w) name c h = elim (Bool-cases (eq_str d.name name)) [
  | inl same ↦
      let eq : d ≡ c = cc (rw same at h) in
      ap (λ (x : Collector). x.name) (sym eq) ∙ (eq_str_iff d.name name).0 same
  | inr other ↦ with_name_named w name c (rw other at h)
]

answer_new :
    (found : Option Collector) (c : Collector) (w : List Collector)
    → with_name w c.name ≡ found
    → (answer_register found c w).0 ≡ none
    → (with_name w c.name ≡ none) × (with_name (answer_register found c w).1 c.name ≡ some c)
unfolding answer_register with_name
answer_new none c w at h = (at, rw (eq_str_refl c.name) refl)
answer_new (some existing) c w at h =
    elim (Bool-cases (eq_str existing.help c.help && eq_strs existing.labels c.labels)) [
      | inl same ↦ cc (rw same at h)
      | inr other ↦ cc (rw other at h)
    ]

answer_already :
    (found : Option Collector) (c existing : Collector) (e : Error) (w : List Collector)
    → with_name w c.name ≡ found
    → (answer_register found c w).0 ≡ some (already existing e)
    → (with_name w c.name ≡ some existing)
      × (existing.help ≡ c.help)
      × (existing.labels ≡ c.labels)
      × (existing.name ≡ c.name)
      × ((answer_register found c w).1 ≡ w)
unfolding answer_register
answer_already none c existing e w at h = cc
answer_already (some old) c existing e w at h =
    elim (Bool-cases (eq_str old.help c.help && eq_strs old.labels c.labels)) [
      | inl same ↦
          let eq : old ≡ existing = cc (rw same at h) in
          let parts = (and-eq-true (eq_str old.help c.help) (eq_strs old.labels c.labels)).0 same in
          let back : existing ≡ old = sym eq in
          (
            at ∙ ap some eq,
            ap (λ (x : Collector). x.help) back ∙ (eq_str_iff old.help c.help).0 parts.0,
            ap (λ (x : Collector). x.labels) back ∙ eq_strs_sound old.labels c.labels parts.1,
            with_name_named w c.name existing (at ∙ ap some eq),
            rw same refl,
          )
      | inr other ↦ cc (rw other at h)
    ]

answer_same :
    (c existing : Collector) (w : List Collector)
    → IsSame existing c
    → answer_register (some existing) c w ≡ (some (already existing clash), w)
unfolding answer_register
answer_same c existing w i =
    rw (i.same_help, i.same_labels) (rw (eq_str_refl c.help, eq_strs_refl c.labels) refl)

answer_others :
    (found : Option Collector) (c : Collector) (w : List Collector) (name : Str)
    → name ≢ c.name
    → with_name (answer_register found c w).1 name ≡ with_name w name
unfolding answer_register with_name
answer_others none c w name other = elim (Bool-cases (eq_str c.name name)) [
  | inl same ↦ absurd (other (sym ((eq_str_iff c.name name).0 same)))
  | inr differs ↦ rw differs refl
]
answer_others (some existing) c w name other =
    elim (Bool-cases (eq_str existing.help c.help && eq_strs existing.labels c.labels)) [
      | inl same ↦ rw same refl
      | inr differs ↦ rw differs refl
    ]

sample_registry-Laws : RegistryLaws sample_registry
unfolding sample_registry
sample_registry-Laws = record {
  registered = λ w labels name. with_name w name;
  new_registered = λ labels c w h. answer_new (with_name w c.name) c w refl h;
  already_registered =
      λ labels c existing e w h. answer_already (with_name w c.name) c existing e w refl h;
  answers_already = λ labels c existing w at i. (clash, rw at (answer_same c existing w i));
  others_kept = λ labels labels' c w name other. answer_others (with_name w c.name) c w name other;
}

abbrev operator_metrics : ManagedServiceMetrics
operator_metrics = record {
  reconciliations = reconciliations_vec 0;
  reconcile_duration = reconcile_duration_vec 1;
  condition_transitions = condition_transitions_vec 2;
}

abbrev operator_collectors : List Collector
operator_collectors =
    condition_transitions_vec 2 ∷ reconcile_duration_vec 1 ∷ reconciliations_vec 0 ∷ []

operator_made :
    new_managed_service_metrics (some sample_registry) 0 []
    ≡ (ok operator_metrics, operator_collectors)
unfolding new_managed_service_metrics sample_registry
operator_made = refl

new_managed_service_metrics-reused_example :
    AreRegistered sample_registry sample_registry-Laws operator_collectors operator_metrics
    × (new_managed_service_metrics (some sample_registry) 3 operator_collectors
        ≡ (ok operator_metrics, operator_collectors))
new_managed_service_metrics-reused_example =
    new_managed_service_metrics-reused sample_registry sample_registry-Laws 0 3 []
      operator_collectors operator_metrics operator_made

abbrev demo_collectors : List Collector
demo_collectors =
    (http_metrics 0).requests_in_flight
    ∷ (http_metrics 0).request_duration
    ∷ (http_metrics 0).requests_total
    ∷ []

demo_made :
    new_http_metrics (some sample_registry) (codes "demo-http") 0 []
    ≡ (ok (http_metrics 0), demo_collectors)
unfolding new_http_metrics sample_registry
demo_made = refl

new_http_metrics_once_example :
    AreFresh sample_registry sample_registry-Laws
      (codes "demo-http")
      0
      demo_collectors
      (http_metrics 0)
    × ((e : Error) × (new_http_metrics (some sample_registry) (codes "demo-http") 3 demo_collectors
          ≡ (err e, demo_collectors)))
new_http_metrics_once_example =
    new_http_metrics_once sample_registry sample_registry-Laws (codes "demo-http") 0 3 []
      demo_collectors (http_metrics 0) demo_made
