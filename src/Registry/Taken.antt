-- ===== src/Registry/Taken.antt =====
-- What NewManagedServiceMetrics asks of a registry, and takes from it.
use cloud_native_service_con.Base.{
  Bool-cases, List, Option, [], ◌∷◌, ◌+◌, ◌≡◌, ◌∙◌, ap, sym, some, none, ℕ, refl, ◌⊎◌, inl, inr,
  subst,
}
use cloud_native_service_con.Text.{Str, codes}
use cloud_native_service_con.Errors.{Error, Result, err, ok}
use cloud_native_service_con.Registry.{
  Collector, Kind, ManagedServiceMetrics, RegisterError, Registerer, already,
  condition_transitions_vec, counter_vec, histogram_vec, is_kind, reconcile_duration_vec,
  reconciliations_vec, refused, register_vec, registered_collector, finish_duration,
  finish_reconciliations, finish_transitions, new_managed_service_metrics,
}
use cloud_native_service_con.Registry.Laws.{is_kind_iff}

module _ {W : Type 0} (registry : Registerer W) where
  -- The three calls that made the metrics.
  pub record Made (handle : ℕ) (w w' : W) (m : ManagedServiceMetrics) : Type 0 where
    pub first : W
    pub second : W
    pub counter :
        register_vec registry (reconciliations_vec handle) w ≡ (ok m.reconciliations, first)
    pub histogram :
        register_vec registry (reconcile_duration_vec (handle + 1)) first
        ≡ (ok m.reconcile_duration, second)
    pub transitions :
        register_vec registry (condition_transitions_vec (handle + 2)) second
        ≡ (ok m.condition_transitions, w')

  transitions_inv :
      (a d : Collector) (answer : Result Collector × W) (m : ManagedServiceMetrics) (w' : W)
      → finish_transitions registry a d answer ≡ (ok m, w')
      → (m.reconciliations ≡ a)
        × (m.reconcile_duration ≡ d)
        × (answer ≡ (ok m.condition_transitions, w'))
  unfolding finish_transitions
  transitions_inv a d (err e, w) m w' h = cc
  transitions_inv a d (ok t, w) m w' h =
      let made : record { reconciliations = a; reconcile_duration = d; condition_transitions = t }
          ≡ m =
        cc in
      let world : w ≡ w' = cc in
      subst
        (λ (n : ManagedServiceMetrics).
          (n.reconciliations ≡ a)
          × (n.reconcile_duration ≡ d)
          × (◌≡◌ {A = Result Collector × W} (ok t, w) (ok n.condition_transitions, w')))
        made (refl, refl, ap (λ (u : W). (ok t, u)) world)

  duration_inv :
      (handle : ℕ) (a : Collector) (answer : Result Collector × W) (m : ManagedServiceMetrics)
      (w' : W)
      → finish_duration registry handle a answer ≡ (ok m, w')
      → (second : W) × (m.reconciliations ≡ a)
        × (answer ≡ (ok m.reconcile_duration, second))
        × (register_vec registry (condition_transitions_vec (handle + 2)) second
            ≡ (ok m.condition_transitions, w'))
  unfolding finish_duration
  duration_inv handle a (err e, w) m w' h = cc
  duration_inv handle a (ok d, w) m w' h =
      let (first, second, third) =
        transitions_inv a d (register_vec registry (condition_transitions_vec (handle + 2)) w) m w'
          h in
      (w, first, ap (λ (c : Collector). (ok c, w)) (sym second), third)

  pub reconciliations_inv :
      (handle : ℕ) (w : W) (answer : Result Collector × W) (m : ManagedServiceMetrics) (w' : W)
      → register_vec registry (reconciliations_vec handle) w ≡ answer
      → finish_reconciliations registry handle answer ≡ (ok m, w')
      → Made handle w w' m
  unfolding finish_reconciliations
  reconciliations_inv handle w (err e, u) m w' a h = cc
  reconciliations_inv handle w (ok c, u) m w' a h =
      let (second, first, histogram, transitions) =
        duration_inv handle c (register_vec registry (reconcile_duration_vec (handle + 1)) u) m w'
          h in
      record {
        first = u;
        second = second;
        counter = a ∙ ap (λ (x : Collector). (ok x, u)) (sym first);
        histogram = histogram;
        transitions = transitions;
      }

  -- A collector of this kind, name and labels was offered to the registry, which took it from `w` to
  -- `w'`; `x` is the one offered, or one of the same kind that the registry named as registered already.
  pub record IsTaken (kind : Kind) (name : Str) (labels : List Str) (x : Collector) (w w' : W)
      : Type 0 where
    pub offered : Collector
    pub of_kind : offered.kind ≡ kind
    pub of_name : offered.name ≡ name
    pub of_labels : offered.labels ≡ labels
    pub taken :
        ((registry.register [] offered w ≡ (none, w')) × (x ≡ offered))
        ⊎ ((e : Error) × (registry.register [] offered w ≡ (some (already x e), w'))
            × (x.kind ≡ kind))

  answer-IsTaken :
      (c x : Collector) (w w' : W) (answer : Option RegisterError)
      → registry.register [] c w ≡ (answer, w')
      → registered_collector c answer ≡ ok x
      → IsTaken c.kind c.name c.labels x w w'
  unfolding registered_collector
  answer-IsTaken c x w w' none a h = record {
    offered = c;
    of_kind = refl;
    of_name = refl;
    of_labels = refl;
    taken = inl (a, cc);
  }
  answer-IsTaken c x w w' (some (refused e)) a h = cc
  answer-IsTaken c x w w' (some (already existing e)) a h =
      elim (Bool-cases (is_kind existing.kind c.kind)) [
        | inr other ↦ cc (rw other at h)
        | inl kind ↦
            let same : existing ≡ x = cc (rw kind at h) in
            subst (λ y. IsTaken c.kind c.name c.labels y w w') same
              (record {
                offered = c;
                of_kind = refl;
                of_name = refl;
                of_labels = refl;
                taken = inr (e, a, is_kind_iff existing.kind c.kind kind);
              })
      ]

  register_vec-IsTaken :
      (c x : Collector) (w w' : W)
      → register_vec registry c w ≡ (ok x, w')
      → IsTaken c.kind c.name c.labels x w w'
  unfolding register_vec
  register_vec-IsTaken c x w w' h =
      answer-IsTaken c x w w' (registry.register [] c w).0
        (ap (λ (u : W). ((registry.register [] c w).0, u))
          (ap (λ (a : Result Collector × W). a.1) h))
        (ap (λ (a : Result Collector × W). a.0) h)

  -- The three metrics of the operator, one after the other.
  pub record AreTaken (m : ManagedServiceMetrics) (w w' : W) : Type 0 where
    pub first : W
    pub second : W
    pub reconciliations :
        IsTaken counter_vec
          (codes "managedservice_reconciliations_total")
          (codes "outcome" ∷ [])
          m.reconciliations
          w
          first
    pub reconcile_duration :
        IsTaken histogram_vec
          (codes "managedservice_reconcile_duration_seconds")
          (codes "outcome" ∷ [])
          m.reconcile_duration
          first
          second
    pub condition_transitions :
        IsTaken counter_vec
          (codes "managedservice_condition_transitions_total")
          (codes "condition" ∷ codes "status" ∷ [])
          m.condition_transitions
          second
          w'

  pub new_managed_service_metrics-AreTaken :
      (handle : ℕ) (w w' : W) (m : ManagedServiceMetrics)
      → new_managed_service_metrics (some registry) handle w ≡ (ok m, w')
      → AreTaken m w w'
  unfolding new_managed_service_metrics
  new_managed_service_metrics-AreTaken handle w w' m h =
      let made =
        reconciliations_inv handle w (register_vec registry (reconciliations_vec handle) w) m w'
          refl h in
      record {
        first = made.first;
        second = made.second;
        reconciliations = register_vec-IsTaken _ _ _ _ made.counter;
        reconcile_duration = register_vec-IsTaken _ _ _ _ made.histogram;
        condition_transitions = register_vec-IsTaken _ _ _ _ made.transitions;
      }
