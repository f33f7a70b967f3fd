-- ===== src/Controller/Labels.antt =====
-- The label maps of managedservice_resources.go. A Go map[string]string is an association list with
-- one entry for each key; the program builds these maps and never iterates over them.
use cloud_native_service_con.Base.{
  All, List, Option, [], arith, if◌then◌else◌, none, pos, refl, some, ℤ, ◌∷◌, ◌≡◌,
}
use cloud_native_service_con.Text.{Str, codes, eq_str, eq_str_iff}
use cloud_native_service_con.Types.{ManagedService}

abbrev pub Labels : Type 0
Labels = List (Str × Str)

-- labels[key]
unfoldable pub label : Str → Labels → Option Str
label key [] = none
label key ((k, v) ∷ rest) = if eq_str k key then some v else label key rest

-- labels[key] = value
unfoldable pub set_label : Str → Str → Labels → Labels
set_label key value [] = (key, value) ∷ []
set_label key value ((k, v) ∷ rest) =
    if eq_str k key then (key, value) ∷ rest else (k, v) ∷ set_label key value rest

abbrev pub application_name_label : Str
application_name_label = codes "app.kubernetes.io/name"

abbrev pub application_instance_label : Str
application_instance_label = codes "app.kubernetes.io/instance"

abbrev pub managed_service_application_name : Str
managed_service_application_name = codes "managed-service"

abbrev pub managed_by_label : Str
managed_by_label = codes "app.kubernetes.io/managed-by"

abbrev pub template_label : Str
template_label = codes "platform.eoghanclancy.eu/template"

abbrev pub platform_operator_name : Str
platform_operator_name = codes "platform-operator"

abbrev pub otlp_client_label : Str
otlp_client_label = codes "observability.eoghanclancy.eu/otlp-client"

abbrev pub managed_service_otlp_client : Str
managed_service_otlp_client = codes "managed-service"

unfoldable pub managed_service_selector : ManagedService → Labels
managed_service_selector ms =
    (application_name_label, managed_service_application_name)
    ∷ (application_instance_label, ms.meta.name)
    ∷ []

unfoldable pub managed_service_labels : ManagedService → Labels
unfolding managed_service_selector set_label
managed_service_labels ms =
    set_label template_label ms.spec.template
      (set_label managed_by_label platform_operator_name (managed_service_selector ms))

unfoldable pub managed_service_pod_labels : ManagedService → Labels
unfolding managed_service_labels
managed_service_pod_labels ms =
    set_label otlp_client_label managed_service_otlp_client (managed_service_labels ms)

-- desiredReplicas
unfoldable pub desired_replicas : ManagedService → ℤ
desired_replicas ms = elim ms.spec.replicas [ none ↦ pos 1 | some n ↦ n ]

-- A label selector matches the labels that hold each of its entries.
abbrev pub Selects : Labels → Labels → Type 0
Selects selector labels = All (λ e. label e.0 labels ≡ some e.1) selector

pub label-set_label :
    (key value j : Str) (m : Labels)
    → label j (set_label key value m) ≡ (if eq_str key j then some value else label j m)
unfolding label set_label
label-set_label key value j [] = refl
label-set_label key value j ((k, v) ∷ m) =
    ground
      (arith, eq_str_iff key j, eq_str_iff k key, eq_str_iff k j, label-set_label key value j m)
