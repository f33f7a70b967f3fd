-- ===== src/ControlPlaneApi/Auth.antt =====
-- Bearer authentication (handler.go): authenticated and isProtectedPath.
pub mod Credential
use cloud_native_service_con.Base.{
  Bool, List, Option, [], false, if◌then◌else◌, none, not, some, ◌++◌, ◌||◌, ◌∷◌,
}
use cloud_native_service_con.Text.{Str, codes, contains_any, eq_str, has_prefix}
use cloud_native_service_con.Text.Search.{cut}
use cloud_native_service_con.Text.Fold.{equal_fold}

abbrev pub api_v1_route : Str
api_v1_route = codes "/api/v1"

unfoldable pub is_protected_path : Str → Bool
unfolding eq_str has_prefix
is_protected_path path = eq_str path api_v1_route || has_prefix path (api_v1_route ++ codes "/")

abbrev pub white_space : Str
white_space = 32 ∷ 9 ∷ 13 ∷ 10 ∷ []

-- `hash` is sha256.Sum256, and the comparison subtle.ConstantTimeCompare of two digests.
module _ (hash : Str → Str) (expected : Str) where
  check_credential : Option (Str × Str) → Bool
  unfolding eq_str equal_fold contains_any
  check_credential none = false
  check_credential (some (scheme, credential)) =
      if not (equal_fold scheme (codes "Bearer"))
        || (eq_str credential [] || contains_any credential white_space)
      then false
      else eq_str expected (hash credential)

  -- authenticated, on the values of the Authorization header
  unfoldable pub authenticated : List Str → Bool
  unfolding check_credential cut
  authenticated [] = false
  authenticated (value ∷ []) = check_credential (cut value (codes " "))
  authenticated (value ∷ value' ∷ values) = false
