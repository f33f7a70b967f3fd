-- ===== src/Controller/Conditions.antt =====
-- The library functions on conditions, k8s.io/apimachinery/pkg/api/meta: parameters of the model,
-- with what their documentation says as laws, and functions that meet the laws.
use cloud_native_service_con.Base.{List, Option, some, ℕ, ◌≡◌, ◌≢◌}
use cloud_native_service_con.Text.{Str}
use cloud_native_service_con.Types.{Condition}

-- `set now conditions c` is meta.SetStatusCondition(&conditions, c) at the time `now`;
-- `find conditions t` is meta.FindStatusCondition(conditions, t).
pub record ConditionLibrary : Type 0 where
  pub set : ℕ → List Condition → Condition → List Condition
  pub find : List Condition → Str → Option Condition

-- The fields of a condition, apart from the time of its last transition.
pub record SameCondition (c d : Condition) : Type 0 where
  pub type_name : c.type_name ≡ d.type_name
  pub status : c.status ≡ d.status
  pub reason : c.reason ≡ d.reason
  pub message : c.message ≡ d.message
  pub observed_generation : c.observed_generation ≡ d.observed_generation

-- "If the condition of the specified type already exists, all fields of the existing condition are
-- updated; otherwise it is appended", and LastTransitionTime changes only with the status; and
-- FindStatusCondition "finds the conditionType in conditions".
pub record ConditionLaws (lib : ConditionLibrary) : Type 0 where
  pub find-set_self :
      (now : ℕ) (cs : List Condition) (c : Condition)
      → (d : Condition) × (lib.find (lib.set now cs c) c.type_name ≡ some d) × SameCondition d c
  pub find-set_other :
      (now : ℕ) (cs : List Condition) (c : Condition) (t : Str)
      → c.type_name ≢ t
      → lib.find (lib.set now cs c) t ≡ lib.find cs t
  pub set_same :
      (now : ℕ) (cs : List Condition) (c d : Condition)
      → lib.find cs c.type_name ≡ some d
      → SameCondition d c
      → lib.set now cs c ≡ cs
  pub find_typed :
      (cs : List Condition) (t : Str) (d : Condition) → lib.find cs t ≡ some d → d.type_name ≡ t
