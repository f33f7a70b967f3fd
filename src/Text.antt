-- ===== src/Text.antt =====
-- Go strings: sequences of bytes, with the functions of `strings` and `bytes` that the program
-- calls (strings.Cut, HasPrefix, TrimPrefix, ContainsAny, Contains, Compare, EqualFold).
pub mod Search
pub mod Fold
pub mod Utf8
pub mod Order
pub mod Suffix
pub mod Number
pub mod Hex
use Prim.Native.Char.{code}
use Prim.Native.String
use cloud_native_service_con.Base.{
  ℕ, String, ◌≡◌, refl, ◌↔◌, Bool, true, false, ◌&&◌, ◌||◌, Option, none, some, List, [], ◌∷◌,
  arith, ltb, ◌==◌, if◌then◌else◌, any, inl, inr, or-eq-true, ◌⊎◌, Bool-cases, ◌≢◌,
}

abbrev pub Str : Type 0
Str = List ℕ

-- The bytes of an ASCII literal.
abbrev pub codes : String → Str
codes String.[] = []
codes (String.◌∷◌ c s) = code c ∷ codes s

-- a == b
unfoldable pub eq_str : Str → Str → Bool
eq_str [] [] = true
eq_str [] (b ∷ bs) = false
eq_str (a ∷ as') [] = false
eq_str (a ∷ as') (b ∷ bs) = a == b && eq_str as' bs

pub eq_str_iff : (a b : Str) → (eq_str a b ≡ true) ↔ (a ≡ b)
unfolding eq_str
eq_str_iff [] [] = (λ _. refl, λ _. refl)
eq_str_iff [] (b ∷ bs) = ground arith
eq_str_iff (a ∷ as') [] = ground arith
eq_str_iff (a ∷ as') (b ∷ bs) = ground (arith, eq_str_iff as' bs)

pub eq_str_refl : (a : Str) → eq_str a a ≡ true
eq_str_refl a = (eq_str_iff a a).1 refl

pub eq_str-false : (a b : Str) → a ≢ b → eq_str a b ≡ false
eq_str-false a b differ = elim (Bool-cases (eq_str a b)) [
  | inl same ↦ absurd (differ ((eq_str_iff a b).0 same))
  | inr other ↦ other
]

-- The string is one of those listed.
abbrev pub OneOf : Str → List Str → Type 0
OneOf s [] = ⊥
OneOf s (x ∷ xs) = (s ≡ x) ⊎ OneOf s xs

pub any-eq_str_iff : (s : Str) (xs : List Str) → (any (eq_str s) xs ≡ true) ↔ OneOf s xs
any-eq_str_iff s [] = (λ h. cc, λ h. absurd h)
any-eq_str_iff s (x ∷ xs) = (
  λ h. elim ((or-eq-true (eq_str s x) (any (eq_str s) xs)).0 h) [
    | inl same ↦ inl ((eq_str_iff s x).0 same)
    | inr rest ↦ inr ((any-eq_str_iff s xs).0 rest)
  ],
  λ h. (or-eq-true (eq_str s x) (any (eq_str s) xs)).1 (elim h [
    | inl same ↦ inl ((eq_str_iff s x).1 same)
    | inr rest ↦ inr ((any-eq_str_iff s xs).1 rest)
  ]),
)

-- strings.TrimPrefix as a decision: the rest behind the prefix, if the text begins with it.
unfoldable pub after_prefix : Str → Str → Option Str
after_prefix s [] = some s
after_prefix [] (p ∷ ps) = none
after_prefix (c ∷ s) (p ∷ ps) = if c == p then after_prefix s ps else none

-- strings.HasPrefix(s, prefix)
unfoldable pub has_prefix : Str → Str → Bool
unfolding after_prefix
has_prefix s p = elim (after_prefix s p) [ none ↦ false | some _ ↦ true ]

-- strings.TrimPrefix(s, prefix)
unfoldable pub trim_prefix : Str → Str → Str
unfolding after_prefix
trim_prefix s p = elim (after_prefix s p) [ none ↦ s | some rest ↦ rest ]

-- strings.Contains(s, "/") and strings.ContainsRune for an ASCII rune
unfoldable pub contains_byte : Str → ℕ → Bool
contains_byte [] b = false
contains_byte (c ∷ s) b = c == b || contains_byte s b

-- strings.ContainsAny(s, chars), for ASCII chars
unfoldable pub contains_any : Str → Str → Bool
unfolding contains_byte
contains_any [] chars = false
contains_any (c ∷ s) chars = contains_byte chars c || contains_any s chars

-- strings.Compare(a, b) <= 0: lexical order of bytes
unfoldable pub str_le : Str → Str → Bool
str_le [] b = true
str_le (a ∷ as') [] = false
str_le (a ∷ as') (b ∷ bs) = ltb a b || (a == b && str_le as' bs)
