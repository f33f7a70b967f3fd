-- ===== src/Controller/Metrics.antt =====
-- ManagedServiceMetrics (managedservice_metrics.go). The collectors are Prometheus'; what the
-- program does to them is a sequence of events, one for each call of Inc and Observe.
use cloud_native_service_con.Base.{
  Bool, List, Option, [], false, if◌then◌else◌, ltb_ℤ, none, pos, some, ℕ, ℤ, ◌++◌, ◌||◌, ◌∷◌,
}
use cloud_native_service_con.Text.{Str}
use cloud_native_service_con.Types.{
  Condition, ConditionStatus, condition_available, condition_degraded, condition_progressing,
  eq_status,
}
use cloud_native_service_con.Errors.{Error}
use cloud_native_service_con.Controller.Conditions.{ConditionLibrary}

pub data Outcome : Type 0 where
  success error requeue : Outcome

pub data Event : Type 0 where
  -- reconciliations.WithLabelValues(outcome).Inc()
  reconciliation : Outcome → Event
  -- reconcileDuration.WithLabelValues(outcome).Observe(duration)
  duration : Outcome → ℕ → Event
  -- conditionTransitions.WithLabelValues(type, status).Inc()
  transition : Str → ConditionStatus → Event

-- *ManagedServiceMetrics: nil, or the events so far.
abbrev pub Metrics : Type 0
Metrics = Option (List Event)

-- ctrl.Result
pub record ReconcileResult : Type 0 where
  pub requeue_after : ℤ
  pub requeue_now : Bool

-- The zero ctrl.Result, which every path of Reconcile returns.
abbrev pub no_requeue : ReconcileResult
no_requeue = record { requeue_after = pos 0; requeue_now = false }

unfoldable pub outcome_of : ReconcileResult → Option Error → Outcome
outcome_of result (some e) = error
outcome_of result none =
    if ltb_ℤ (pos 0) result.requeue_after || result.requeue_now then requeue else success

unfoldable pub record_events : List Event → Metrics → Metrics
record_events new none = none
record_events new (some events) = some (events ++ new)

-- observeReconciliation
unfoldable pub observe_reconciliation : ReconcileResult → Option Error → ℕ → Metrics → Metrics
unfolding outcome_of
observe_reconciliation result reconcile_err time =
    let o = outcome_of result reconcile_err in
    record_events (reconciliation o ∷ duration o time ∷ [])

abbrev pub managed_service_condition_types : List Str
managed_service_condition_types =
    condition_available ∷ condition_progressing ∷ condition_degraded ∷ []

-- The test of the loop in observeConditionTransitions: the condition is there, and it is new or its
-- status is.
unfoldable pub has_transition : Option Condition → Option Condition → Option ConditionStatus
has_transition before none = none
has_transition none (some after) = some after.status
has_transition (some before) (some after) =
    if eq_status before.status after.status then none else some after.status

unfoldable pub transition_event : Str → Option ConditionStatus → List Event
transition_event t none = []
transition_event t (some status) = transition t status ∷ []

module _ (lib : ConditionLibrary) where
  unfoldable pub transitions : List Condition → List Condition → List Str → List Event
  unfolding has_transition transition_event
  transitions before after [] = []
  transitions before after (t ∷ ts) =
      transition_event t (has_transition (lib.find before t) (lib.find after t))
      ++ transitions before after ts

  -- observeConditionTransitions
  unfoldable pub observe_condition_transitions : List Condition → List Condition → Metrics → Metrics
  observe_condition_transitions before after =
      record_events (transitions before after managed_service_condition_types)
