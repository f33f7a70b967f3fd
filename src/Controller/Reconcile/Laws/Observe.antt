-- ===== src/Controller/Reconcile/Laws/Observe.antt =====
-- What a reconciliation adds to the metrics.
use cloud_native_service_con.Base.{
  All, All-append, Bool-cases, List, Option, [], ap, append-nil, inl, inr, none, refl, some, sym, ℕ,
  ◌++◌, ◌∷◌, ◌≡◌, ◌∙◌,
}
use cloud_native_service_con.Text.{Str}
use cloud_native_service_con.Types.{ManagedService, NamespacedName, Condition, ConditionStatus}
use cloud_native_service_con.Errors.{Error, Result, err, ok}
use cloud_native_service_con.Controller.Conditions.{ConditionLibrary}
use cloud_native_service_con.Controller.Workload.{Deployment, Service}
use cloud_native_service_con.Controller.Resources.{Settings}
use cloud_native_service_con.Controller.Metrics.{
  Metrics, Event, Outcome, duration, error, managed_service_condition_types, no_requeue,
  observe_condition_transitions, observe_reconciliation, reconciliation, record_events, success,
  transition, transition_event, transitions,
}
use cloud_native_service_con.Controller.Reconcile.{
  Cluster, State, after_patch, finish_deployment, finish_service, patch_managed_service_status,
  reconcile, reconcile_found, reconcile_workload, record_degraded_status,
  update_managed_service_status,
}

abbrev pub IsTransition : Event → Type 0
IsTransition (reconciliation o) = ⊥
IsTransition (duration o t) = ⊥
IsTransition (transition t status) = Unit

-- From `before` to `after` only transitions of conditions were counted.
pub record CountsTransitions (before after : Metrics) : Type 0 where
  pub events : List Event
  pub added : after ≡ record_events events before
  pub only : All IsTransition events

record_events-nil : (m : Metrics) → m ≡ record_events [] m
unfolding record_events
record_events-nil none = refl
record_events-nil (some events) = ap some (sym (append-nil events))

CountsTransitions-refl : (m : Metrics) → CountsTransitions m m
CountsTransitions-refl m = record { events = []; added = record_events-nil m; only = tt }

transition_event-only :
    (t : Str) (o : Option ConditionStatus) → All IsTransition (transition_event t o)
unfolding transition_event
transition_event-only t none = tt
transition_event-only t (some status) = (tt, tt)

transitions-only :
    (lib : ConditionLibrary) (before after : List Condition) (ts : List Str)
    → All IsTransition (transitions lib before after ts)
unfolding transitions
transitions-only lib before after [] = tt
transitions-only lib before after (t ∷ ts) =
    All-append IsTransition (transition_event t _) _ (transition_event-only t _)
      (transitions-only lib before after ts)

-- The outcome that stands for what Reconcile returned.
abbrev pub outcome_for : Option Error → Outcome
outcome_for none = success
outcome_for (some e) = error

observe_appends :
    (e : Option Error) (elapsed : ℕ) (m : Metrics) (events : List Event)
    → m ≡ some events
    → observe_reconciliation no_requeue e elapsed m
      ≡ some (events ++ (reconciliation (outcome_for e) ∷ duration (outcome_for e) elapsed ∷ []))
unfolding observe_reconciliation record_events
observe_appends none elapsed m events h = rw h refl
observe_appends (some e) elapsed m events h = rw h refl

record_events-some :
    (new events : List Event) (m m' : Metrics)
    → m ≡ some events
    → m' ≡ record_events new m
    → m' ≡ some (events ++ new)
unfolding record_events
record_events-some new events m m' h k = k ∙ rw h refl

module _ {W : Type 0} (c : Cluster W) (r : Settings) (clock : ℕ → ℕ) where
  after_patch-Counts :
      (before : ManagedService) (answer : Result ManagedService) (s : State W)
      → CountsTransitions s.metrics (after_patch c r clock before answer s).1.metrics
  unfolding after_patch observe_condition_transitions
  after_patch-Counts before (err e) s = CountsTransitions-refl s.metrics
  after_patch-Counts before (ok p) s = record {
    events = _;
    added = refl;
    only =
        transitions-only c.conditions before.status.conditions p.status.conditions
          managed_service_condition_types;
  }

  patch-Counts :
      (before ms : ManagedService) (s : State W)
      → CountsTransitions s.metrics (patch_managed_service_status c r clock before ms s).1.metrics
  unfolding patch_managed_service_status
  patch-Counts before ms s = elim (Bool-cases (c.deep_equal before.status ms.status)) [
    | inl same ↦ rw same (CountsTransitions-refl s.metrics)
    | inr differ ↦ rw differ (after_patch-Counts before _ _)
  ]

  finish_service-Counts :
      (ms : ManagedService) (d : Deployment) (service : Result Service) (s : State W)
      → CountsTransitions s.metrics (finish_service c r clock ms d service s).1.metrics
  unfolding finish_service update_managed_service_status record_degraded_status
  finish_service-Counts ms d (err e) s = patch-Counts ms _ s
  finish_service-Counts ms d (ok _) s = patch-Counts ms _ s

  finish_deployment-Counts :
      (ms : ManagedService) (deployment : Result Deployment) (s : State W)
      → CountsTransitions s.metrics (finish_deployment c r clock ms deployment s).1.metrics
  unfolding finish_deployment record_degraded_status
  finish_deployment-Counts ms (err e) s = patch-Counts ms _ s
  finish_deployment-Counts ms (ok d) s = finish_service-Counts ms d _ _

  reconcile_workload-Counts :
      (ms : ManagedService) (image : Option Error) (s : State W)
      → CountsTransitions s.metrics (reconcile_workload c r clock ms image s).1.metrics
  unfolding reconcile_workload record_degraded_status
  reconcile_workload-Counts ms (some e) s = patch-Counts ms _ s
  reconcile_workload-Counts ms none s = finish_deployment-Counts ms _ _

  reconcile_found-Counts :
      (found : Result ManagedService) (s : State W)
      → CountsTransitions s.metrics (reconcile_found c r clock found s).1.metrics
  unfolding reconcile_found
  reconcile_found-Counts (err e) s = CountsTransitions-refl s.metrics
  reconcile_found-Counts (ok ms) s = reconcile_workload-Counts ms _ s

  -- A reconciliation adds to the metrics some transitions of conditions, then one count and one
  -- duration, both under the outcome `error` if it returned an error, and else under `success`.
  pub reconcile-metrics :
      (elapsed : ℕ) (k : NamespacedName) (s : State W) (events : List Event)
      → s.metrics ≡ some events
      → (ts : List Event) × (let o = outcome_for (reconcile c r clock elapsed k s).0.1 in
          (reconcile c r clock elapsed k s).1.metrics
          ≡ some ((events ++ ts) ++ (reconciliation o ∷ duration o elapsed ∷ [])))
        × All IsTransition ts
  unfolding reconcile observe_reconciliation
  reconcile-metrics elapsed k s events e =
      let counts =
        reconcile_found-Counts (c.get k s.world).0 (record s { world = (c.get k s.world).1 }) in
      (
        counts.events,
        observe_appends _ elapsed _ (events ++ counts.events)
            (record_events-some counts.events events s.metrics _ e counts.added),
        counts.only,
      )
