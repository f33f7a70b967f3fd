-- ===== src/Text/Order.antt =====
-- slices.SortFunc by strings.Compare of a key. Its order of items with one key is not specified; the
-- model is insertion sort.
use mathlib.Core.List.{Perm}
use mathlib.Core.List.Perm
use cloud_native_service_con.Base.{
  Bool-cases, List, [], arith, false, if◌then◌else◌, inl, inr, refl, true, ◌∷◌, ◌≡◌,
}
use cloud_native_service_con.Text.{Str, str_le}

pub str_le_total : (a b : Str) → str_le a b ≡ false → str_le b a ≡ true
unfolding str_le
str_le_total [] b h = cc
str_le_total (a ∷ as') [] h = refl
str_le_total (a ∷ as') (b ∷ bs) h = ground (arith, str_le_total as' bs)

module _ {ℓ} {A : Type ℓ} (key : A → Str) where
  unfoldable pub insert_by : A → List A → List A
  insert_by x [] = x ∷ []
  insert_by x (y ∷ ys) = if str_le (key x) (key y) then x ∷ y ∷ ys else y ∷ insert_by x ys

  unfoldable pub sort_by : List A → List A
  unfolding insert_by
  sort_by [] = []
  sort_by (x ∷ xs) = insert_by x (sort_by xs)

  -- Each key is at most the next.
  abbrev pub IsSortedFrom : A → List A → Type 0
  IsSortedFrom x [] = Unit
  IsSortedFrom x (y ∷ ys) = (str_le (key x) (key y) ≡ true) × IsSortedFrom y ys

  abbrev pub IsSorted : List A → Type 0
  IsSorted [] = Unit
  IsSorted (x ∷ xs) = IsSortedFrom x xs

  insert_by-IsSortedFrom :
      (z x : A) (xs : List A)
      → str_le (key z) (key x) ≡ true
      → IsSortedFrom z xs
      → IsSortedFrom z (insert_by x xs)
  unfolding insert_by
  insert_by-IsSortedFrom z x [] p h = (p, tt)
  insert_by-IsSortedFrom z x (y ∷ ys) p (q, h) = elim (Bool-cases (str_le (key x) (key y))) [
    | inl here ↦ rw here (p, (here, h))
    | inr later ↦ rw later (q, insert_by-IsSortedFrom y x ys (str_le_total (key x) (key y) later) h)
  ]

  insert_by-IsSorted : (x : A) (xs : List A) → IsSorted xs → IsSorted (insert_by x xs)
  unfolding insert_by
  insert_by-IsSorted x [] h = tt
  insert_by-IsSorted x (y ∷ ys) h = elim (Bool-cases (str_le (key x) (key y))) [
    | inl here ↦ rw here (here, h)
    | inr later ↦ rw later (insert_by-IsSortedFrom y x ys (str_le_total (key x) (key y) later) h)
  ]

  pub sort_by-IsSorted : (xs : List A) → IsSorted (sort_by xs)
  unfolding sort_by
  sort_by-IsSorted [] = tt
  sort_by-IsSorted (x ∷ xs) = insert_by-IsSorted x (sort_by xs) (sort_by-IsSorted xs)

  insert_by-perm : (x : A) (xs : List A) → Perm (insert_by x xs) (x ∷ xs)
  unfolding insert_by
  insert_by-perm x [] = Perm.refl (x ∷ [])
  insert_by-perm x (y ∷ ys) = elim (Bool-cases (str_le (key x) (key y))) [
    | inl here ↦ rw here (Perm.refl (x ∷ y ∷ ys))
    | inr later ↦ rw later (Perm.trans (Perm.cons y (insert_by-perm x ys)) (Perm.swap x y ys))
  ]

  pub sort_by-perm : (xs : List A) → Perm (sort_by xs) xs
  unfolding sort_by
  sort_by-perm [] = Perm.refl []
  sort_by-perm (x ∷ xs) = Perm.trans (insert_by-perm x (sort_by xs)) (Perm.cons x (sort_by-perm xs))
