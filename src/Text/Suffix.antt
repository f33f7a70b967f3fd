-- ===== src/Text/Suffix.antt =====
-- bytes.HasSuffix, as a decision, and what it decides.
use cloud_native_service_con.Base.{
  ap, Bool-cases, Option-cases, inl, inr, false, length, length-append, Option, [], ◌∷◌, ◌++◌, ◌≡◌,
  refl, some, none, if◌then◌else◌, ℕ, arith,
}
use cloud_native_service_con.Text.{Str, eq_str, eq_str_iff, eq_str_refl}

-- The text before the suffix, if the text ends with it.
unfoldable pub before_suffix : Str → Str → Option Str
unfolding eq_str
before_suffix [] suffix = if eq_str [] suffix then some [] else none
before_suffix (c ∷ s) suffix =
    let later = before_suffix s suffix in
    if eq_str (c ∷ s) suffix then some [] else elim later [ none ↦ none | some t ↦ some (c ∷ t) ]

pub before_suffix_sound : (s suffix t : Str) → before_suffix s suffix ≡ some t → s ≡ t ++ suffix
unfolding before_suffix
before_suffix_sound [] suffix t h = elim (Bool-cases (eq_str [] suffix)) [
  | inl same ↦ cc (rw same at h, (eq_str_iff [] suffix).0 same)
  | inr other ↦ cc (rw other at h)
]
before_suffix_sound (c ∷ s) suffix t h = elim (Bool-cases (eq_str (c ∷ s) suffix)) [
  | inl same ↦
      let empty : [] ≡ t = cc (rw same at h) in rw (← empty) ((eq_str_iff (c ∷ s) suffix).0 same)
  | inr other ↦ elim (Option-cases (before_suffix s suffix)) [
    | inl e ↦ cc (rw (other, e) at h)
    | inr (rest, e) ↦
        let longer : c ∷ rest ≡ t = cc (rw (other, e) at h) in
        rw (← longer) (ap (λ (u : Str). c ∷ u) (before_suffix_sound s suffix rest e))
  ]
]

longer_differs : (c : ℕ) (t suffix : Str) → eq_str (c ∷ (t ++ suffix)) suffix ≡ false
longer_differs c t suffix = elim (Bool-cases (eq_str (c ∷ (t ++ suffix)) suffix)) [
  | inl same ↦ absurd (
      omega
        (arith, ap length ((eq_str_iff (c ∷ (t ++ suffix)) suffix).0 same), length-append t suffix))
  | inr other ↦ other
]

pub before_suffix-append : (t suffix : Str) → before_suffix (t ++ suffix) suffix ≡ some t
unfolding before_suffix eq_str
before_suffix-append [] [] = refl
before_suffix-append [] (c ∷ suffix) = rw (eq_str_refl (c ∷ suffix)) refl
before_suffix-append (c ∷ t) suffix =
    rw (longer_differs c t suffix, before_suffix-append t suffix) refl

-- What stands before a suffix is determined.
pub suffix_cancel : (t u suffix : Str) → t ++ suffix ≡ u ++ suffix → t ≡ u
suffix_cancel t u suffix h = cc (
  before_suffix-append t suffix,
  before_suffix-append u suffix,
  ap (λ s. before_suffix s suffix) h,
)
