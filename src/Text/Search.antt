-- ===== src/Text/Search.antt =====
-- Laws of prefixes, of searches for bytes, and of strings.Cut.
use cloud_native_service_con.Base.{
  ◌≡◌, refl, ◌↔◌, inl, inr, true, Option, none, some, [], ◌∷◌, ◌++◌, arith, Option-cases, ap, false,
  ℕ, ◌⊎◌, append_assoc, sym, ◌∙◌,
}
use cloud_native_service_con.Text.{Str, after_prefix, has_prefix, contains_byte}

pub after_prefix_iff : (s p rest : Str) → (after_prefix s p ≡ some rest) ↔ (s ≡ p ++ rest)
unfolding after_prefix
after_prefix_iff s [] rest = ground arith
after_prefix_iff [] (p ∷ ps) rest = ground arith
after_prefix_iff (c ∷ s) (p ∷ ps) rest = ground (arith, after_prefix_iff s ps rest)

pub after_prefix-append : (p rest : Str) → after_prefix (p ++ rest) p ≡ some rest
after_prefix-append p rest = (after_prefix_iff (p ++ rest) p rest).1 refl

pub has_prefix_sound : (s p : Str) → has_prefix s p ≡ true → (rest : Str) × (s ≡ p ++ rest)
unfolding has_prefix
has_prefix_sound s p h = elim (Option-cases (after_prefix s p)) [
  | inl e ↦ cc (rw (e, has_prefix) at h)
  | inr (rest, e) ↦ (rest, (after_prefix_iff s p rest).0 e)
]

pub has_prefix-append : (p rest : Str) → has_prefix (p ++ rest) p ≡ true
unfolding has_prefix
has_prefix-append p rest = rw (after_prefix-append p rest, has_prefix)

-- strings.Cut(s, sep): the parts around the first occurrence of a nonempty separator.
unfoldable pub cut : Str → Str → Option (Str × Str)
unfolding after_prefix
cut [] sep = none
cut (c ∷ s) sep =
    let later = cut s sep in
    elim (after_prefix (c ∷ s) sep) [
      | some rest ↦ some ([], rest)
      | none ↦ elim later [ none ↦ none | some (before, after) ↦ some (c ∷ before, after) ]
    ]

-- The step of the search: at the separator, or behind the first byte.
unfoldable pub cut_step : ℕ → Option Str → Option (Str × Str) → Option (Str × Str)
cut_step c (some rest) later = some ([], rest)
cut_step c none none = none
cut_step c none (some (before, after)) = some (c ∷ before, after)

pub cut-cons :
    (c : ℕ) (s sep : Str) → cut (c ∷ s) sep ≡ cut_step c (after_prefix (c ∷ s) sep) (cut s sep)
unfolding cut cut_step
cut-cons c s sep = ground arith

cut_step_inv :
    (c : ℕ) (here : Option Str) (later : Option (Str × Str)) (before after : Str)
    → cut_step c here later ≡ some (before, after)
    → ((here ≡ some after) × (before ≡ []))
      ⊎ ((rest : Str) × (here ≡ none) × (later ≡ some (rest, after)) × (before ≡ c ∷ rest))
unfolding cut_step
cut_step_inv c (some rest) later before after h = inl (cc, cc)
cut_step_inv c none none before after h = cc
cut_step_inv c none (some (b, a)) before after h = inr (b, refl, cc, cc)

cut-nil : (sep : Str) → cut [] sep ≡ none
unfolding cut
cut-nil sep = refl

-- A cut text is the two parts around the separator.
pub cut_sound :
    (s sep before after : Str) → cut s sep ≡ some (before, after) → s ≡ before ++ (sep ++ after)
cut_sound [] sep before after h = cc (cut-nil sep)
cut_sound (c ∷ s) sep before after h =
    elim (cut_step_inv c (after_prefix (c ∷ s) sep) (cut s sep) before after (rw cut-cons at h)) [
      | inl (here, empty) ↦ rw empty ((after_prefix_iff (c ∷ s) sep after).0 here)
      | inr (rest, missed, later, longer) ↦
          rw longer (ap (λ t. c ∷ t) (cut_sound s sep rest after later))
    ]

-- `sep` occurs in `s`.
abbrev pub Occurs : Str → Str → Type 0
Occurs sep s = (before : Str) × (after : Str) × (s ≡ before ++ (sep ++ after))

-- An occurrence of `s` at the start of a text in which the byte `a`, which `s` lacks, stands behind
-- `before`, lies within `before`.
overlap :
    (s before : Str) (a : ℕ) (t rest : Str)
    → before ++ (a ∷ t) ≡ s ++ rest
    → contains_byte s a ≡ false
    → (v : Str) × (before ≡ s ++ v)
unfolding contains_byte
overlap [] before a t rest e h = (before, refl)
overlap (x ∷ s) [] a t rest e h = absurd (ground arith)
overlap (x ∷ s) (b ∷ before) a t rest e h =
    let (v, same) = overlap s before a t rest (ground arith) (ground arith) in (v, ground arith)

-- A separator whose first byte does not come again in it, and which does not occur in `before`, is
-- found behind `before`.
pub cut_complete :
    (a : ℕ) (sep before after : Str)
    → contains_byte sep a ≡ false
    → ¬ Occurs (a ∷ sep) before
    → cut (before ++ ((a ∷ sep) ++ after)) (a ∷ sep) ≡ some (before, after)
unfolding cut_step
cut_complete a sep [] after h first =
    rw cut-cons (rw (after_prefix-append (a ∷ sep) after, cut_step))
cut_complete a sep (c ∷ before) after h first =
    let miss : after_prefix (c ∷ (before ++ ((a ∷ sep) ++ after))) (a ∷ sep) ≡ none =
      elim (Option-cases (after_prefix (c ∷ (before ++ ((a ∷ sep) ++ after))) (a ∷ sep))) [
        | inl e ↦ e
        | inr (rest, e) ↦
            let same =
              (after_prefix_iff (c ∷ (before ++ ((a ∷ sep) ++ after))) (a ∷ sep) rest).0 e in
            let (v, inside) = overlap sep before a (sep ++ after) rest (ground arith) h in
            absurd (first ([], v, ground arith))
      ] in
    let ih =
      cut_complete a sep before after h (λ o. first (c ∷ o.0, o.1, ap (λ (t : Str). c ∷ t) o.2)) in
    rw cut-cons (rw (miss, ih, cut_step))

nil_has_none : (a : ℕ) (sep u v : Str) → [] ≡ u ++ ((a ∷ sep) ++ v) → ⊥
nil_has_none a sep [] v e = cc
nil_has_none a sep (x ∷ u) v e = cc

-- An occurrence in what is cut off starts at its first byte or lies behind it.
cut_first_later :
    (a : ℕ) (sep : Str) (c : ℕ) (s rest after u v : Str)
    → after_prefix (c ∷ s) (a ∷ sep) ≡ none
    → cut s (a ∷ sep) ≡ some (rest, after)
    → ¬ Occurs (a ∷ sep) rest
    → c ∷ rest ≡ u ++ ((a ∷ sep) ++ v)
    → ⊥
cut_first_later a sep c s rest after [] v missed later none_behind e =
    let whole : c ∷ s ≡ (a ∷ sep) ++ (v ++ ((a ∷ sep) ++ after)) =
      ap (λ (t : Str). c ∷ t) (cut_sound s (a ∷ sep) rest after later)
      ∙ (ap (λ (t : Str). t ++ ((a ∷ sep) ++ after)) e
          ∙ append_assoc (a ∷ sep) v ((a ∷ sep) ++ after)) in
    cc ((after_prefix_iff (c ∷ s) (a ∷ sep) (v ++ ((a ∷ sep) ++ after))).1 whole)
cut_first_later a sep c s rest after (x ∷ u) v missed later none_behind e =
    none_behind (u, v, ground arith)

-- What is cut off in front holds no separator.
pub cut_first :
    (a : ℕ) (sep s before after : Str)
    → cut s (a ∷ sep) ≡ some (before, after)
    → ¬ Occurs (a ∷ sep) before
cut_first a sep [] before after h o = cc (cut-nil (a ∷ sep))
cut_first a sep (c ∷ s) before after h (u, v, e) =
    elim (cut_step_inv c (after_prefix (c ∷ s) (a ∷ sep)) (cut s (a ∷ sep)) before after
      (rw cut-cons at h)) [
        | inl (here, empty) ↦ nil_has_none a sep u v (sym empty ∙ e)
        | inr (rest, missed, later, longer) ↦
            cut_first_later a sep c s rest after u v missed later
              (cut_first a sep s rest after later) (sym longer ∙ e)
      ]
