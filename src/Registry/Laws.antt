-- ===== src/Registry/Laws.antt =====
-- What the documentation of the Prometheus registry promises, and what it means for one collector.
use cloud_native_service_con.Base.{
  Bool-cases, List, Option, [], ◌≡◌, ◌≢◌, ◌∙◌, ap, inl, inr, none, refl, some, true, subst, false,
}
use cloud_native_service_con.Text.{Str, eq_str, eq_str_iff}
use cloud_native_service_con.Errors.{Error, Result, ok}
use cloud_native_service_con.Registry.{
  Collector, Kind, RegisterError, Registerer, already, counter_vec, gauge_vec, histogram_vec,
  is_kind, refused, register_vec, registered_collector,
}

-- The same descriptor.
pub record IsSame (a b : Collector) : Type 0 where
  pub same_kind : a.kind ≡ b.kind
  pub same_name : a.name ≡ b.name
  pub same_help : a.help ≡ b.help
  pub same_labels : a.labels ≡ b.labels

-- What the documentation of package prometheus says: Register without an error registers the
-- collector, which was not registered; if one with the same name, help and labels is registered, the
-- answer is AlreadyRegisteredError with it, and nothing changes; and other names are not touched.
pub record RegistryLaws {W : Type 0} (registry : Registerer W) : Type 0 where
  pub registered : W → List (Str × Str) → Str → Option Collector
  pub new_registered :
      (labels : List (Str × Str)) (c : Collector) (w : W)
      → (registry.register labels c w).0 ≡ none
      → (registered w labels c.name ≡ none)
        × (registered (registry.register labels c w).1 labels c.name ≡ some c)
  pub already_registered :
      (labels : List (Str × Str)) (c existing : Collector) (e : Error) (w : W)
      → (registry.register labels c w).0 ≡ some (already existing e)
      → (registered w labels c.name ≡ some existing)
        × (existing.help ≡ c.help)
        × (existing.labels ≡ c.labels)
        × (existing.name ≡ c.name)
        × ((registry.register labels c w).1 ≡ w)
  pub answers_already :
      (labels : List (Str × Str)) (c existing : Collector) (w : W)
      → registered w labels c.name ≡ some existing
      → IsSame existing c
      → (e : Error) × (registry.register labels c w ≡ (some (already existing e), w))
  pub others_kept :
      (labels labels' : List (Str × Str)) (c : Collector) (w : W) (name : Str)
      → name ≢ c.name
      → registered (registry.register labels c w).1 labels' name ≡ registered w labels' name

pub differ : (a b : Str) → eq_str a b ≡ false → a ≢ b
differ a b h e = cc (h, (eq_str_iff a b).1 e)

pub is_kind_iff : (a b : Kind) → is_kind a b ≡ true → a ≡ b
unfolding is_kind
is_kind_iff counter_vec counter_vec h = refl
is_kind_iff counter_vec histogram_vec h = cc
is_kind_iff counter_vec gauge_vec h = cc
is_kind_iff histogram_vec counter_vec h = cc
is_kind_iff histogram_vec histogram_vec h = refl
is_kind_iff histogram_vec gauge_vec h = cc
is_kind_iff gauge_vec counter_vec h = cc
is_kind_iff gauge_vec histogram_vec h = cc
is_kind_iff gauge_vec gauge_vec h = refl

is_kind_refl : (a : Kind) → is_kind a a ≡ true
unfolding is_kind
is_kind_refl counter_vec = refl
is_kind_refl histogram_vec = refl
is_kind_refl gauge_vec = refl

module _ {W : Type 0} (registry : Registerer W) (laws : RegistryLaws registry) where
  -- In the state `w` the collector `x` is registered, with the descriptor of `c`.
  pub record IsRegistered (w : W) (c x : Collector) : Type 0 where
    pub found : laws.registered w [] c.name ≡ some x
    pub same : IsSame x c

  answer-IsRegistered :
      (c x : Collector) (w : W) (answer : Option RegisterError)
      → (registry.register [] c w).0 ≡ answer
      → registered_collector c answer ≡ ok x
      → IsRegistered (registry.register [] c w).1 c x
  unfolding registered_collector
  answer-IsRegistered c x w none a h =
      let same : c ≡ x = cc in
      subst (IsRegistered (registry.register [] c w).1 c) same (record {
        found = (laws.new_registered [] c w a).1;
        same = record { same_kind = refl; same_name = refl; same_help = refl; same_labels = refl };
      })
  answer-IsRegistered c x w (some (refused e)) a h = cc
  answer-IsRegistered c x w (some (already existing e)) a h =
      elim (Bool-cases (is_kind existing.kind c.kind)) [
        | inr other ↦ cc (rw other at h)
        | inl kind ↦
            let same : existing ≡ x = cc (rw kind at h) in
            let (found, help, labels, name, kept) = laws.already_registered [] c existing e w a in
            subst (IsRegistered (registry.register [] c w).1 c) same (record {
              found = ap (λ u. laws.registered u [] c.name) kept ∙ found;
              same = record {
                same_kind = is_kind_iff existing.kind c.kind kind;
                same_name = name;
                same_help = help;
                same_labels = labels;
              };
            })
      ]

  pub register_vec-IsRegistered :
      (c x : Collector) (w w' : W) → register_vec registry c w ≡ (ok x, w') → IsRegistered w' c x
  unfolding register_vec
  register_vec-IsRegistered c x w w' h =
      subst (λ u. IsRegistered u c x) (ap (λ (a : Result Collector × W). a.1) h)
        (answer-IsRegistered c x w (registry.register [] c w).0 refl
          (ap (λ (a : Result Collector × W). a.0) h))

  pub register_vec_keeps :
      (c d x : Collector) (w : W)
      → d.name ≢ c.name
      → IsRegistered w d x
      → IsRegistered (register_vec registry c w).1 d x
  unfolding register_vec
  register_vec_keeps c d x w other i = record {
    found = laws.others_kept [] [] c w d.name other ∙ i.found;
    same = i.same;
  }

  pub register_vec_again :
      (c x : Collector) (w : W) → IsRegistered w c x → register_vec registry c w ≡ (ok x, w)
  unfolding register_vec registered_collector
  register_vec_again c x w i =
      let (e, answered) = laws.answers_already [] c x w i.found i.same in
      rw (answered, i.same.same_kind, is_kind_refl c.kind) refl
