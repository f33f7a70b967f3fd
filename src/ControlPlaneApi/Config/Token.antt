-- ===== src/ControlPlaneApi/Config/Token.antt =====
-- Which files hold which token.
use cloud_native_service_con.Base.{
  subst, ap, Option-cases, [], ◌∷◌, ◌++◌, ◌≡◌, ◌≢◌, ◌≤◌, ◌↔◌, ◌⊎◌, arith, inl, inr, length, ℕ, true,
  false, refl, Bool-cases, Option, append_assoc, ltb, none, some, sym, ◌∙◌,
}
use cloud_native_service_con.Text.{Str, codes, contains_any, contains_byte, eq_str, eq_str_iff}
use cloud_native_service_con.Text.Suffix.{
  before_suffix, before_suffix_sound, before_suffix-append, suffix_cancel,
}
use cloud_native_service_con.Errors.{Result, ok, Result-cases}
use cloud_native_service_con.ControlPlaneApi.Config.{
  check_token, load_token, trim_trailing_line_ending, read_token, without,
}

abbrev line_endings : Str
line_endings = codes "\r\n"

-- A token: at least 32 bytes, none of them a line ending.
pub record IsToken (token : Str) : Type 0 where
  pub long : 32 ≤ length token
  pub one_line : contains_any token (codes "\r\n") ≡ false

-- The contents of a file with the token: the token, and at most one line ending.
abbrev pub HoldsToken : Str → Str → Type 0
HoldsToken contents token =
    (contents ≡ token) ⊎ (contents ≡ token ++ codes "\n") ⊎ (contents ≡ token ++ codes "\r\n")

contains_any-append :
    (s : Str) (c : ℕ) (rest chars : Str)
    → contains_byte chars c ≡ true
    → contains_any (s ++ (c ∷ rest)) chars ≡ true
unfolding contains_any
contains_any-append [] c rest chars h = ground arith
contains_any-append (d ∷ s) c rest chars h = ground (arith, contains_any-append s c rest chars h)

no_suffix :
    (token t : Str) (c : ℕ) (rest : Str)
    → contains_any token line_endings ≡ false
    → contains_byte line_endings c ≡ true
    → token ≢ t ++ (c ∷ rest)
no_suffix token t c rest h hc e =
    cc (contains_any-append t c rest line_endings hc, ap (λ s. contains_any s line_endings) e)

without-HoldsToken :
    (contents : Str) (long short : Option Str)
    → before_suffix contents (codes "\r\n") ≡ long
    → before_suffix contents (codes "\n") ≡ short
    → HoldsToken contents (without long short contents)
unfolding without
without-HoldsToken contents (some t) short e f =
    inr (inr (before_suffix_sound contents (codes "\r\n") t e))
without-HoldsToken contents none (some t) e f =
    inr (inl (before_suffix_sound contents (codes "\n") t f))
without-HoldsToken contents none none e f = inl refl

trim_trailing_line_ending-HoldsToken :
    (contents : Str) → HoldsToken contents (trim_trailing_line_ending contents)
unfolding trim_trailing_line_ending
trim_trailing_line_ending-HoldsToken contents = without-HoldsToken contents _ _ refl refl

-- No text with this suffix holds a token without line endings in that way.
before_suffix-none :
    (contents suffix : Str)
    → ((t : Str) → contents ≢ t ++ suffix)
    → before_suffix contents suffix ≡ none
before_suffix-none contents suffix h = elim (Option-cases (before_suffix contents suffix)) [
  | inl e ↦ e
  | inr (t, e) ↦ absurd (h t (before_suffix_sound contents suffix t e))
]

plain_before :
    (token t : Str)
    → contains_any token line_endings ≡ false
    → token ++ codes "\n" ≢ t ++ codes "\r\n"
unfolding contains_byte
plain_before token t one_line e = no_suffix token t 13 [] one_line refl (
    suffix_cancel token (t ++ codes "\r") (codes "\n")
      (e ∙ sym (append_assoc t (codes "\r") (codes "\n"))))

trim_trailing_line_ending_complete :
    (contents token : Str)
    → contains_any token line_endings ≡ false
    → HoldsToken contents token
    → trim_trailing_line_ending contents ≡ token
unfolding trim_trailing_line_ending without contains_byte
trim_trailing_line_ending_complete contents token one_line (inl e) =
    let long : before_suffix token (codes "\r\n") ≡ none =
      before_suffix-none token (codes "\r\n")
        (λ t. no_suffix token t 13 (codes "\n") one_line refl) in
    let short : before_suffix token (codes "\n") ≡ none =
      before_suffix-none token (codes "\n") (λ t. no_suffix token t 10 [] one_line refl) in
    rw e (
      cc (
        ap (λ o. without o (before_suffix token (codes "\n")) token) long,
        ap (λ o. without none o token) short,
      ))
trim_trailing_line_ending_complete contents token one_line (inr (inl e)) =
    let whole = token ++ codes "\n" in
    let long : before_suffix whole (codes "\r\n") ≡ none =
      before_suffix-none whole (codes "\r\n") (λ t. plain_before token t one_line) in
    rw e (
      ap (λ o. without o (before_suffix whole (codes "\n")) whole) long
      ∙ ap (λ o. without none o whole) (before_suffix-append token (codes "\n")))
trim_trailing_line_ending_complete contents token one_line (inr (inr e)) =
    let whole = token ++ codes "\r\n" in
    rw e (
      ap (λ o. without o (before_suffix whole (codes "\n")) whole)
        (before_suffix-append token (codes "\r\n")))

check_token_sound : (t token : Str) → check_token t ≡ ok token → (t ≡ token) × IsToken token
unfolding check_token
check_token_sound t token h = elim (Bool-cases (eq_str t [])) [
  | inl e ↦ cc (rw e at h)
  | inr e ↦ elim (Bool-cases (contains_any t line_endings)) [
    | inl f ↦ cc (rw (e, f) at h)
    | inr f ↦ elim (Bool-cases (ltb (length t) 32)) [
      | inl g ↦ cc (rw (e, f, g) at h)
      | inr g ↦
          let same : t ≡ token = cc (rw (e, f, g) at h) in
          (same, rw (← same) (record { long = ground arith; one_line = f }))
    ]
  ]
]

check_token_complete : (token : Str) → IsToken token → check_token token ≡ ok token
unfolding check_token
check_token_complete [] i = absurd (omega (arith, i.long))
check_token_complete (c ∷ token) i =
    let long : ltb (length (c ∷ token)) 32 ≡ false = ground (arith, i.long) in
    rw (i.one_line, long) refl

-- LoadToken returns a token exactly when the path is not empty and the file can be read and holds the
-- token, with at most one line ending behind it; and a token has at least 32 bytes and no line ending.
pub load_token_iff :
    (read_file : Str → Result Str) (path token : Str)
    → (load_token read_file path ≡ ok token) ↔ (
        (path ≢ [])
        × ((contents : Str) × (read_file path ≡ ok contents) × HoldsToken contents token)
        × IsToken token)
unfolding load_token read_token
load_token_iff read_file path token = (
  λ h. elim (Bool-cases (eq_str path [])) [
    | inl e ↦ cc (rw e at h)
    | inr e ↦ elim (Result-cases (read_file path)) [
      | inr (failure, f) ↦ cc (rw (e, f) at h)
      | inl (contents, f) ↦
          let (same, i) =
            check_token_sound (trim_trailing_line_ending contents) token (rw (e, f) at h) in
          (
            λ empty. cc ((eq_str_iff path []).1 empty),
            (
              contents,
              f,
              subst (HoldsToken contents) same (trim_trailing_line_ending-HoldsToken contents),
            ),
            i,
          )
    ]
  ],
  λ (present, (contents, f, holds), i).
      let e : eq_str path [] ≡ false = elim (Bool-cases (eq_str path [])) [
        | inl empty ↦ absurd (present ((eq_str_iff path []).0 empty))
        | inr other ↦ other
      ] in
      rw (e, f, trim_trailing_line_ending_complete contents token i.one_line holds)
        (check_token_complete token i),
)
