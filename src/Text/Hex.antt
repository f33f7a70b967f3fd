-- ===== src/Text/Hex.antt =====
-- encoding/hex: EncodeToString and DecodeString.
pub mod Laws
use cloud_native_service_con.Base.{
  List, Option, [], arith, if◌then◌else◌, leb, ltb, none, some, true, ℕ, ◌%◌, ◌&&◌, ◌*◌, ◌+◌, ◌-◌,
  ◌/◌, ◌<◌, ◌↔◌, ◌∷◌, ◌≡◌, ◌⊎◌,
}
use cloud_native_service_con.Text.{Str}

-- The digit of a value below 16: "0123456789abcdef"[v].
unfoldable pub hex_digit : ℕ → ℕ
hex_digit v = if ltb v 10 then v + b'0' else v + 87

-- The value of a hexadecimal digit of either case.
unfoldable pub hex_value : ℕ → Option ℕ
hex_value c =
    if leb b'0' c && leb c b'9'
    then some (c - b'0')
    else if leb b'a' c && leb c b'f'
    then some (c - 87)
    else if leb b'A' c && leb c b'F'
    then some (c - 55)
    else none

-- hex.EncodeToString
unfoldable pub encode_hex : List ℕ → Str
unfolding hex_digit
encode_hex [] = []
encode_hex (b ∷ bs) = hex_digit (b / 16) ∷ hex_digit (b % 16) ∷ encode_hex bs

unfoldable pub decode_pair : Option ℕ → Option ℕ → Option (List ℕ) → Option (List ℕ)
decode_pair (some a) (some b) (some bs) = some ((a * 16 + b) ∷ bs)
decode_pair _ _ _ = none

-- hex.DecodeString: an error (none) on an odd length or another character.
unfoldable pub decode_hex : Str → Option (List ℕ)
unfolding hex_value decode_pair
decode_hex [] = some []
decode_hex (a ∷ []) = none
decode_hex (a ∷ b ∷ s) = decode_pair (hex_value a) (hex_value b) (decode_hex s)

-- A hexadecimal digit of either case.
abbrev pub IsHexDigit : ℕ → Type 0
IsHexDigit c =
    (leb b'0' c && leb c b'9' ≡ true)
    ⊎ (leb b'a' c && leb c b'f' ≡ true)
    ⊎ (leb b'A' c && leb c b'F' ≡ true)

pub hex_value-none_iff : (c : ℕ) → (hex_value c ≡ none → ⊥) ↔ IsHexDigit c
unfolding hex_value
hex_value-none_iff c = ground arith

pub hex_value-hex_digit : (v : ℕ) → v < 16 → hex_value (hex_digit v) ≡ some v
unfolding hex_value hex_digit
hex_value-hex_digit v h = ground arith

pub IsHexDigit-hex_digit : (v : ℕ) → v < 16 → IsHexDigit (hex_digit v)
unfolding hex_digit
IsHexDigit-hex_digit v h = ground arith
