-- ===== src/Text/Fold.antt =====
-- strings.EqualFold against an ASCII word. A letter of the word folds to itself and to its other case
-- only: k and s, which fold to letters beyond ASCII too, must not stand in it.
use cloud_native_service_con.Base.{
  ℕ, Bool, [], false, if◌then◌else◌, leb, true, ◌&&◌, ◌+◌, ◌==◌, ◌∷◌,
}
use cloud_native_service_con.Text.{Str}

-- 'A'-'Z' to 'a'-'z'
unfoldable pub to_lower : ℕ → ℕ
to_lower c = if leb b'A' c && leb c b'Z' then c + 32 else c

unfoldable pub equal_fold : Str → Str → Bool
unfolding to_lower
equal_fold [] [] = true
equal_fold [] (b ∷ bs) = false
equal_fold (a ∷ as') [] = false
equal_fold (a ∷ as') (b ∷ bs) = to_lower a == to_lower b && equal_fold as' bs
