-- ===== src/Registry/Reused.antt =====
-- Collectors that are registered already are used again.
use cloud_native_service_con.Base.{◌≡◌, ◌≢◌, ap, refl, some, subst, ℕ, ◌+◌}
use cloud_native_service_con.Text.{eq_str}
use cloud_native_service_con.Errors.{Result, ok}
use cloud_native_service_con.Registry.{
  Collector, ManagedServiceMetrics, Registerer, condition_transitions_vec, reconcile_duration_vec,
  reconciliations_vec, register_vec, finish_duration, finish_reconciliations, finish_transitions,
  new_managed_service_metrics,
}
use cloud_native_service_con.Registry.Laws.{
  RegistryLaws, IsRegistered, differ, register_vec-IsRegistered, register_vec_again,
  register_vec_keeps,
}
use cloud_native_service_con.Registry.Taken.{Made, reconciliations_inv}

module _ {W : Type 0} (registry : Registerer W) (laws : RegistryLaws registry) where
  -- The collectors of the metrics are registered.
  pub record AreRegistered (w : W) (m : ManagedServiceMetrics) : Type 0 where
    pub reconciliations : IsRegistered registry laws w (reconciliations_vec 0) m.reconciliations
    pub reconcile_duration :
        IsRegistered registry laws w (reconcile_duration_vec 0) m.reconcile_duration
    pub condition_transitions :
        IsRegistered registry laws w (condition_transitions_vec 0) m.condition_transitions

  with_handle :
      (w : W) (c x : Collector) (handle : ℕ)
      → IsRegistered registry laws w c x
      → IsRegistered registry laws w (record c { handle = handle }) x
  with_handle w c x handle i = record {
    found = i.found;
    same = record {
      same_kind = i.same.same_kind;
      same_name = i.same.same_name;
      same_help = i.same.same_help;
      same_labels = i.same.same_labels;
    };
  }

  kept_after :
      (c d x y : Collector) (w w' : W)
      → register_vec registry c w ≡ (ok y, w')
      → d.name ≢ c.name
      → IsRegistered registry laws w d x
      → IsRegistered registry laws w' d x
  kept_after c d x y w w' h other i =
      subst (λ u. IsRegistered registry laws u d x) (ap (λ (a : Result Collector × W). a.1) h)
        (register_vec_keeps registry laws c d x w other i)

  Made-AreRegistered :
      (handle : ℕ) (w w' : W) (m : ManagedServiceMetrics)
      → Made registry handle w w' m
      → AreRegistered w' m
  unfolding eq_str
  Made-AreRegistered handle w w' m made =
      let counter : IsRegistered registry laws made.first (reconciliations_vec handle)
          m.reconciliations =
        register_vec-IsRegistered registry laws (reconciliations_vec handle) m.reconciliations w
          made.first made.counter in
      let histogram : IsRegistered registry laws made.second (reconcile_duration_vec (handle + 1))
          m.reconcile_duration =
        register_vec-IsRegistered registry laws (reconcile_duration_vec (handle + 1))
          m.reconcile_duration made.first made.second made.histogram in
      record {
        reconciliations = with_handle w' (reconciliations_vec handle) m.reconciliations 0 (
            kept_after _ _ _ _ made.second w' made.transitions (differ _ _ refl)
              (kept_after _ _ _ _ made.first made.second made.histogram (differ _ _ refl) counter));
        reconcile_duration =
            with_handle w' (reconcile_duration_vec (handle + 1)) m.reconcile_duration 0
              (kept_after _ _ _ _ made.second w' made.transitions (differ _ _ refl) histogram);
        condition_transitions =
            with_handle w' (condition_transitions_vec (handle + 2)) m.condition_transitions 0
              (register_vec-IsRegistered registry laws _ _ made.second w' made.transitions);
      }

  AreRegistered-again :
      (handle : ℕ) (w : W) (m : ManagedServiceMetrics)
      → AreRegistered w m
      → new_managed_service_metrics (some registry) handle w ≡ (ok m, w)
  unfolding new_managed_service_metrics finish_reconciliations finish_duration finish_transitions
  AreRegistered-again handle w m are =
      rw
        (
          register_vec_again registry laws (reconciliations_vec handle) m.reconciliations w
              (with_handle w (reconciliations_vec 0) m.reconciliations handle are.reconciliations),
          register_vec_again registry laws (reconcile_duration_vec (handle + 1))
              m.reconcile_duration w
              (with_handle w (reconcile_duration_vec 0) m.reconcile_duration (handle + 1)
                are.reconcile_duration),
          register_vec_again registry laws (condition_transitions_vec (handle + 2))
              m.condition_transitions w
              (with_handle w (condition_transitions_vec 0) m.condition_transitions (handle + 2)
                are.condition_transitions),
        )
        refl

  -- If the registry keeps its laws and NewManagedServiceMetrics returns no error, then its collectors
  -- are registered, and another call with the same registry returns these very collectors and changes
  -- nothing.
  pub new_managed_service_metrics-reused :
      (handle again : ℕ) (w w' : W) (m : ManagedServiceMetrics)
      → new_managed_service_metrics (some registry) handle w ≡ (ok m, w')
      → AreRegistered w' m × (new_managed_service_metrics (some registry) again w' ≡ (ok m, w'))
  unfolding new_managed_service_metrics
  new_managed_service_metrics-reused handle again w w' m h =
      let are = Made-AreRegistered handle w w' m (
        reconciliations_inv registry handle w (register_vec registry (reconciliations_vec handle) w)
          m w' refl h) in
      (are, AreRegistered-again again w' m are)
