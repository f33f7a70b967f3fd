-- ===== src/ControlPlaneApi/Auth/Credential.antt =====
-- Which requests are authenticated.
use cloud_native_service_con.Base.{
  List, Option-cases, [], ap, arith, false, inl, inr, refl, some, true, ◌++◌, ◌↔◌, ◌∷◌, ◌≡◌, ◌≢◌,
  Bool, if◌then◌else◌, not, sym, ◌||◌,
}
use cloud_native_service_con.Text.{
  Str, codes, contains_any, contains_byte, eq_str, eq_str_iff, eq_str_refl,
}
use cloud_native_service_con.Text.Search.{cut, cut_sound, cut_complete}
use cloud_native_service_con.Text.Fold.{equal_fold}
use cloud_native_service_con.ControlPlaneApi.Auth.{authenticated, check_credential, white_space}

-- One value: the scheme in any case, the first space, and a credential without white space whose
-- digest is the expected one.
pub record IsBearer (hash : Str → Str) (expected : Str) (values : List Str) : Type 0 where
  pub scheme : Str
  pub credential : Str
  pub single : values ≡ (scheme ++ (codes " " ++ credential)) ∷ []
  pub bearer : equal_fold scheme (codes "Bearer") ≡ true
  pub present : credential ≢ []
  pub solid : contains_any credential white_space ≡ false
  pub matches : hash credential ≡ expected

guards_inv :
    (a b c d : Bool)
    → (if not a || (b || c) then false else d) ≡ true
    → (a ≡ true) × (b ≡ false) × (c ≡ false) × (d ≡ true)
guards_inv a b c d h = ground arith

check_credential_sound :
    (hash : Str → Str) (expected scheme credential : Str)
    → check_credential hash expected (some (scheme, credential)) ≡ true
    → (equal_fold scheme (codes "Bearer") ≡ true)
      × (credential ≢ [])
      × (contains_any credential white_space ≡ false)
      × (hash credential ≡ expected)
unfolding check_credential
check_credential_sound hash expected scheme credential h =
    let (bearer, present, solid, matches) =
      guards_inv (equal_fold scheme (codes "Bearer")) (eq_str credential [])
        (contains_any credential white_space) (eq_str expected (hash credential)) h in
    (
      bearer,
      λ e. cc ((eq_str_iff credential []).1 e),
      solid,
      sym ((eq_str_iff expected (hash credential)).0 matches),
    )

check_credential_complete :
    (hash : Str → Str) (expected scheme credential : Str)
    → equal_fold scheme (codes "Bearer") ≡ true
    → credential ≢ []
    → contains_any credential white_space ≡ false
    → hash credential ≡ expected
    → check_credential hash expected (some (scheme, credential)) ≡ true
unfolding check_credential
check_credential_complete hash expected scheme [] bearer present solid matches =
    absurd (present refl)
check_credential_complete hash expected scheme (c ∷ credential) bearer present solid matches =
    rw (bearer, solid, matches) (eq_str_refl expected)

occurs-contains :
    (s before after : Str) → s ≡ before ++ (codes " " ++ after) → contains_byte s 32 ≡ true
unfolding contains_byte
occurs-contains [] [] after e = cc
occurs-contains [] (b ∷ before) after e = cc
occurs-contains (c ∷ s) [] after e = ground arith
occurs-contains (c ∷ s) (b ∷ before) after e = ground (arith, occurs-contains s before after)

-- A scheme that folds to "bearer" has no space.
equal_fold-no_space :
    (s word : Str)
    → equal_fold s word ≡ true
    → contains_byte word 32 ≡ false
    → contains_byte s 32 ≡ false
unfolding equal_fold contains_byte
equal_fold-no_space [] word h k = refl
equal_fold-no_space (a ∷ s) [] h k = cc
equal_fold-no_space (a ∷ s) (b ∷ word) h k = ground (arith, equal_fold-no_space s word)

authenticated_sound :
    (hash : Str → Str) (expected : Str) (values : List Str)
    → authenticated hash expected values ≡ true
    → IsBearer hash expected values
unfolding authenticated
authenticated_sound hash expected [] h = cc
authenticated_sound hash expected (v ∷ v' ∷ values) h = cc
authenticated_sound hash expected (value ∷ []) h = elim (Option-cases (cut value (codes " "))) [
  | inl e ↦ cc (rw (e, check_credential) at h)
  | inr ((scheme, credential), e) ↦
      let (bearer, present, solid, matches) =
        check_credential_sound hash expected scheme credential (rw e at h) in
      record {
        scheme = scheme;
        credential = credential;
        single = ap (λ (v : Str). v ∷ []) (cut_sound value (codes " ") scheme credential e);
        bearer = bearer;
        present = present;
        solid = solid;
        matches = matches;
      }
]

authenticated_complete :
    (hash : Str → Str) (expected : Str) (values : List Str)
    → IsBearer hash expected values
    → authenticated hash expected values ≡ true
unfolding authenticated
authenticated_complete hash expected values b =
    let no_space : contains_byte b.scheme 32 ≡ false =
      equal_fold-no_space b.scheme (codes "Bearer") b.bearer (unfold contains_byte in refl) in
    let found : cut (b.scheme ++ (codes " " ++ b.credential)) (codes " ")
        ≡ some (b.scheme, b.credential) =
      cut_complete 32 [] b.scheme b.credential (unfold contains_byte in refl)
        (λ o. cc (no_space, occurs-contains b.scheme o.0 o.1 o.2)) in
    rw b.single (
      rw found (
        check_credential_complete hash expected b.scheme b.credential b.bearer b.present b.solid
          b.matches))

-- A request is authenticated exactly when its Authorization header has one value, made of the scheme
-- "Bearer" in any case, one space, and a credential without white space that has the expected digest.
pub authenticated_iff :
    (hash : Str → Str) (expected : Str) (values : List Str)
    → (authenticated hash expected values ≡ true) ↔ IsBearer hash expected values
authenticated_iff hash expected values =
    (authenticated_sound hash expected values, authenticated_complete hash expected values)
