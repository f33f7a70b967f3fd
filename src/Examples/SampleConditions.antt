-- ===== src/Examples/SampleConditions.antt =====
-- Functions that keep the laws of the library on conditions.
use mathlib.Core.List.{Mem, mem-cons_self, mem-cons_of_mem}
use cloud_native_service_con.Base.{
  ==_iff, Bool, Bool-cases, List, Option, [], and-eq-true, arith, eq_ℤ, eq_ℤ_iff, false,
  if◌then◌else◌, inl, inr, none, refl, some, true, ℕ, ◌&&◌, ◌==◌, ◌∷◌, ◌≡◌, ◌≢◌, subst,
}
use cloud_native_service_con.Text.{Str, eq_str, eq_str_iff, eq_str_refl}
use cloud_native_service_con.Types.{Condition, ManagedServiceStatus, eq_status, eq_status_iff}
use cloud_native_service_con.Controller.Conditions.{ConditionLibrary, ConditionLaws, SameCondition}

find_condition : List Condition → Str → Option Condition
find_condition [] t = none
find_condition (c ∷ cs) t = if eq_str c.type_name t then some c else find_condition cs t

-- The new condition, which keeps the old time if the status is the same.
merge : ℕ → Condition → Condition → Condition
merge now old c = record c {
  last_transition = if eq_status old.status c.status then old.last_transition else now;
}

set_condition : ℕ → List Condition → Condition → List Condition
set_condition now [] c = record c { last_transition = now } ∷ []
set_condition now (d ∷ cs) c =
    if eq_str d.type_name c.type_name then merge now d c ∷ cs else d ∷ set_condition now cs c

unfoldable pub sample_conditions : ConditionLibrary
unfolding find_condition set_condition merge eq_str eq_status
sample_conditions = record { set = set_condition; find = find_condition }

find-set_self :
    (now : ℕ) (cs : List Condition) (c : Condition)
    → (d : Condition) × (find_condition (set_condition now cs c) c.type_name ≡ some d)
      × SameCondition d c
unfolding find_condition set_condition merge
find-set_self now [] c = (
  record c { last_transition = now },
  rw (eq_str_refl c.type_name) refl,
  record {
    type_name = refl;
    status = refl;
    reason = refl;
    message = refl;
    observed_generation = refl;
  },
)
find-set_self now (d ∷ cs) c = elim (Bool-cases (eq_str d.type_name c.type_name)) [
  | inl same ↦ (
    merge now d c,
    rw same (rw (eq_str_refl c.type_name) refl),
    record {
      type_name = refl;
      status = refl;
      reason = refl;
      message = refl;
      observed_generation = refl;
    },
  )
  | inr other ↦
      let (e, found, same) = find-set_self now cs c in (e, rw other (rw other found), same)
]

find-set_other :
    (now : ℕ) (cs : List Condition) (c : Condition) (t : Str)
    → c.type_name ≢ t
    → find_condition (set_condition now cs c) t ≡ find_condition cs t
unfolding find_condition set_condition merge
find-set_other now [] c t other = ground (arith, eq_str_iff c.type_name t)
find-set_other now (d ∷ cs) c t other = ground (
  arith,
  eq_str_iff c.type_name t,
  eq_str_iff d.type_name c.type_name,
  find-set_other now cs c t other,
)

merge_same : (now : ℕ) (c d : Condition) → SameCondition d c → merge now d c ≡ d
unfolding merge
merge_same now c d same = ground (
  arith,
  same.status,
  same.type_name,
  same.reason,
  same.message,
  same.observed_generation,
  (eq_status_iff d.status c.status).1 same.status,
)

set_same :
    (now : ℕ) (cs : List Condition) (c d : Condition)
    → find_condition cs c.type_name ≡ some d
    → SameCondition d c
    → set_condition now cs c ≡ cs
unfolding find_condition set_condition
set_same now [] c d found same = cc
set_same now (e ∷ cs) c d found same = ground (arith, set_same now cs c d, merge_same now c d same)

find_condition_member :
    (cs : List Condition) (t : Str) (d : Condition)
    → find_condition cs t ≡ some d
    → Mem d cs × (d.type_name ≡ t)
unfolding find_condition
find_condition_member [] t d h = cc
find_condition_member (c ∷ cs) t d h = elim (Bool-cases (eq_str c.type_name t)) [
  | inl same ↦
      let eq : c ≡ d = cc (rw same at h) in
      (
        subst (λ x. Mem x (c ∷ cs)) eq mem-cons_self,
        subst (λ x. x.type_name ≡ t) eq ((eq_str_iff c.type_name t).0 same),
      )
  | inr other ↦
      let (member, typed) = find_condition_member cs t d (rw other at h) in
      (mem-cons_of_mem c member, typed)
]

pub sample_conditions-Laws : ConditionLaws sample_conditions
unfolding sample_conditions
sample_conditions-Laws = record {
  find-set_self = find-set_self;
  find-set_other = find-set_other;
  set_same = set_same;
  find_typed = λ cs t d h. (find_condition_member cs t d h).1;
}

pub sample_find_member :
    (cs : List Condition) (t : Str) (d : Condition)
    → sample_conditions.find cs t ≡ some d
    → Mem d cs × (d.type_name ≡ t)
unfolding sample_conditions
sample_find_member = find_condition_member

-- Equality of statuses.
unfoldable pub eq_condition : Condition → Condition → Bool
unfolding eq_str eq_status
eq_condition a b =
    eq_str a.type_name b.type_name
    && (eq_status a.status b.status
        && (eq_str a.reason b.reason
            && (eq_str a.message b.message
                && (eq_ℤ a.observed_generation b.observed_generation
                    && a.last_transition == b.last_transition))))

eq_conditions : List Condition → List Condition → Bool
eq_conditions [] [] = true
eq_conditions (a ∷ as') (b ∷ bs) = eq_condition a b && eq_conditions as' bs
eq_conditions _ _ = false

unfoldable pub eq_managed_status : ManagedServiceStatus → ManagedServiceStatus → Bool
unfolding eq_conditions eq_condition
eq_managed_status a b =
    eq_ℤ a.observed_generation b.observed_generation
    && (eq_ℤ a.ready_replicas b.ready_replicas
        && (eq_str a.endpoint b.endpoint && eq_conditions a.conditions b.conditions))

both_true : (p q : Bool) → (p && q) ≡ true → (p ≡ true) × (q ≡ true)
both_true p q h = (and-eq-true p q).0 h

eq_condition_sound : (a b : Condition) → eq_condition a b ≡ true → a ≡ b
unfolding eq_condition
eq_condition_sound a b h =
    let (h1, t1) = both_true _ _ h in
    let (h2, t2) = both_true _ _ t1 in
    let (h3, t3) = both_true _ _ t2 in
    let (h4, t4) = both_true _ _ t3 in
    let (h5, h6) = both_true _ _ t4 in
    ground (
      arith,
      (eq_str_iff a.type_name b.type_name).0 h1,
      (eq_status_iff a.status b.status).0 h2,
      (eq_str_iff a.reason b.reason).0 h3,
      (eq_str_iff a.message b.message).0 h4,
      (eq_ℤ_iff a.observed_generation b.observed_generation).0 h5,
      (==_iff a.last_transition b.last_transition).0 h6,
    )

eq_conditions_sound : (as' bs : List Condition) → eq_conditions as' bs ≡ true → as' ≡ bs
unfolding eq_conditions
eq_conditions_sound [] [] h = refl
eq_conditions_sound [] (b ∷ bs) h = cc
eq_conditions_sound (a ∷ as') [] h = cc
eq_conditions_sound (a ∷ as') (b ∷ bs) h =
    let (p, q) = both_true _ _ h in cc (eq_condition_sound a b p, eq_conditions_sound as' bs q)

pub eq_managed_status_sound : (a b : ManagedServiceStatus) → eq_managed_status a b ≡ true → a ≡ b
unfolding eq_managed_status
eq_managed_status_sound a b h =
    let (h1, t1) = both_true _ _ h in
    let (h2, t2) = both_true _ _ t1 in
    let (h3, h4) = both_true _ _ t2 in
    ground (
      arith,
      (eq_ℤ_iff a.observed_generation b.observed_generation).0 h1,
      (eq_ℤ_iff a.ready_replicas b.ready_replicas).0 h2,
      (eq_str_iff a.endpoint b.endpoint).0 h3,
      eq_conditions_sound a.conditions b.conditions h4,
    )

eq_condition_refl : (a : Condition) → eq_condition a a ≡ true
unfolding eq_condition
eq_condition_refl a =
    rw
      (
        eq_str_refl a.type_name,
        (eq_status_iff a.status a.status).1 refl,
        eq_str_refl a.reason,
        eq_str_refl a.message,
        (eq_ℤ_iff a.observed_generation a.observed_generation).1 refl,
        (==_iff a.last_transition a.last_transition).1 refl,
      )
      refl

eq_conditions_refl : (cs : List Condition) → eq_conditions cs cs ≡ true
unfolding eq_conditions
eq_conditions_refl [] = refl
eq_conditions_refl (c ∷ cs) = rw (eq_condition_refl c, eq_conditions_refl cs) refl

pub eq_managed_status_refl : (a : ManagedServiceStatus) → eq_managed_status a a ≡ true
unfolding eq_managed_status
eq_managed_status_refl a =
    rw
      (
        (eq_ℤ_iff a.observed_generation a.observed_generation).1 refl,
        (eq_ℤ_iff a.ready_replicas a.ready_replicas).1 refl,
        eq_str_refl a.endpoint,
        eq_conditions_refl a.conditions,
      )
      refl
