-- ===== src/Types.antt =====
-- The ManagedService resource (api/v1alpha1/managedservice_types.go) and the parts of the
-- Kubernetes types that it is made of: of ObjectMeta and Condition the fields that the program
-- reads or writes.
use cloud_native_service_con.Base.{Bool, List, Option, [], arith, false, pos, true, ℕ, ℤ, ◌↔◌, ◌≡◌}
use cloud_native_service_con.Text.{Str, codes}

-- metav1.ConditionStatus: "True", "False", "Unknown"
pub data ConditionStatus : Type 0 where
  condition_true condition_false condition_unknown : ConditionStatus

unfoldable pub eq_status : ConditionStatus → ConditionStatus → Bool
eq_status condition_true condition_true = true
eq_status condition_false condition_false = true
eq_status condition_unknown condition_unknown = true
eq_status _ _ = false

-- metav1.Condition
pub record Condition : Type 0 where
  pub type_name : Str
  pub status : ConditionStatus
  pub reason : Str
  pub message : Str
  pub observed_generation : ℤ
  pub last_transition : ℕ

-- metav1.ObjectMeta
pub record ObjectMeta : Type 0 where
  pub name : Str
  pub namespace : Str
  pub generation : ℤ

-- types.NamespacedName
pub record NamespacedName : Type 0 where
  pub name : Str
  pub namespace : Str

abbrev pub template_demo_http : Str
template_demo_http = codes "demo-http"

abbrev pub condition_available : Str
condition_available = codes "Available"

abbrev pub condition_progressing : Str
condition_progressing = codes "Progressing"

abbrev pub condition_degraded : Str
condition_degraded = codes "Degraded"

pub record ManagedServiceSpec : Type 0 where
  pub template : Str
  pub replicas : Option ℤ
  pub message : Str

pub record ManagedServiceStatus : Type 0 where
  pub observed_generation : ℤ
  pub ready_replicas : ℤ
  pub endpoint : Str
  pub conditions : List Condition

pub record ManagedService : Type 0 where
  pub meta : ObjectMeta
  pub spec : ManagedServiceSpec
  pub status : ManagedServiceStatus

-- The status of a resource that the controller has not seen.
abbrev pub empty_status : ManagedServiceStatus
empty_status = record {
  observed_generation = pos 0;
  ready_replicas = pos 0;
  endpoint = [];
  conditions = [];
}

pub eq_status_iff : (a b : ConditionStatus) → (eq_status a b ≡ true) ↔ (a ≡ b)
unfolding eq_status
eq_status_iff condition_true condition_true = ground arith
eq_status_iff condition_true condition_false = ground arith
eq_status_iff condition_true condition_unknown = ground arith
eq_status_iff condition_false condition_true = ground arith
eq_status_iff condition_false condition_false = ground arith
eq_status_iff condition_false condition_unknown = ground arith
eq_status_iff condition_unknown condition_true = ground arith
eq_status_iff condition_unknown condition_false = ground arith
eq_status_iff condition_unknown condition_unknown = ground arith
