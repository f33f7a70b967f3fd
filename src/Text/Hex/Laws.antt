-- ===== src/Text/Hex/Laws.antt =====
-- What hex.DecodeString accepts, and that it inverts hex.EncodeToString.
use cloud_native_service_con.Base.{
  All, List, [], arith, length, refl, some, ℕ, ◌%◌, ◌+◌, ◌/◌, ◌<◌, ◌∷◌, ◌≡◌, Option, Option-cases,
  inl, inr, none, suc, zero, ◌*◌,
}
use cloud_native_service_con.Text.{Str}
use cloud_native_service_con.Text.Hex.{
  IsHexDigit, IsHexDigit-hex_digit, decode_hex, encode_hex, hex_value-hex_digit, decode_pair,
  hex_value, hex_value-none_iff,
}

pub decode_hex-encode_hex :
    (bs : List ℕ) → All (λ b. b < 256) bs → decode_hex (encode_hex bs) ≡ some bs
unfolding decode_hex encode_hex
decode_hex-encode_hex [] h = refl
decode_hex-encode_hex (b ∷ bs) (p, h) =
    rw
      (
        hex_value-hex_digit (b / 16) (omega arith),
        hex_value-hex_digit (b % 16) (omega arith),
        decode_hex-encode_hex bs h,
      )
      (ground arith)

decode_pair_inv :
    (x y : Option ℕ) (r : Option (List ℕ)) {bs : List ℕ}
    → decode_pair x y r ≡ some bs
    → (a : ℕ) × (b : ℕ) × (rest : List ℕ) × (x ≡ some a)
      × (y ≡ some b)
      × (r ≡ some rest)
      × (bs ≡ (a * 16 + b) ∷ rest)
unfolding decode_pair
decode_pair_inv none y r h = cc
decode_pair_inv (some a) none r h = cc
decode_pair_inv (some a) (some b) none h = cc
decode_pair_inv (some a) (some b) (some rest) h = (a, b, rest, refl, refl, refl, cc)

digit_of_value : (c v : ℕ) → hex_value c ≡ some v → IsHexDigit c
digit_of_value c v h = (hex_value-none_iff c).0 (λ e. cc)

value_of_digit : (c : ℕ) → IsHexDigit c → (v : ℕ) × (hex_value c ≡ some v)
value_of_digit c h = elim (Option-cases (hex_value c)) [
  | inl e ↦ absurd ((hex_value-none_iff c).1 h e)
  | inr found ↦ found
]

-- A decoded text has an even number of hexadecimal digits, two for each byte.
pub decode_hex_sound :
    (s : Str) (bs : List ℕ)
    → decode_hex s ≡ some bs
    → (length s ≡ length bs + length bs) × All IsHexDigit s
unfolding decode_hex
decode_hex_sound [] bs h = (ground arith, tt)
decode_hex_sound (a ∷ []) bs h = cc
decode_hex_sound (a ∷ b ∷ s) bs h =
    let (v, w, rest, first, second, later, same) =
      decode_pair_inv (hex_value a) (hex_value b) (decode_hex s) h in
    let (even, digits) = decode_hex_sound s rest later in
    (rw same (omega arith), (digit_of_value a v first, (digit_of_value b w second, digits)))

pub decode_hex_complete :
    (n : ℕ) (s : Str)
    → length s ≡ n + n
    → All IsHexDigit s
    → (bs : List ℕ) × (decode_hex s ≡ some bs) × (length bs ≡ n)
unfolding decode_hex
decode_hex_complete zero [] e h = ([], refl, refl)
decode_hex_complete zero (a ∷ s) e h = absurd (omega arith)
decode_hex_complete (suc n) [] e h = absurd (omega arith)
decode_hex_complete (suc n) (a ∷ []) e h = absurd (omega arith)
decode_hex_complete (suc n) (a ∷ b ∷ s) e (p, (q, h)) =
    let (v, first) = value_of_digit a p in
    let (w, second) = value_of_digit b q in
    let (bs, later, size) = decode_hex_complete n s (omega arith) h in
    ((v * 16 + w) ∷ bs, rw (first, second, later) refl, omega arith)

pub length-encode_hex : (bs : List ℕ) → length (encode_hex bs) ≡ length bs + length bs
unfolding encode_hex
length-encode_hex [] = refl
length-encode_hex (b ∷ bs) = omega (arith, length-encode_hex bs)

pub IsHexDigit-encode_hex : (bs : List ℕ) → All (λ b. b < 256) bs → All IsHexDigit (encode_hex bs)
unfolding encode_hex
IsHexDigit-encode_hex [] h = tt
IsHexDigit-encode_hex (b ∷ bs) (p, h) = (
  IsHexDigit-hex_digit (b / 16) (omega arith),
  (IsHexDigit-hex_digit (b % 16) (omega arith), IsHexDigit-encode_hex bs h),
)
