-- ===== src/Text/Number.antt =====
-- strconv.Atoi for a 64-bit int: an optional sign, decimal digits, and the range check.
use cloud_native_service_con.Base.{
  Option, [], ◌∷◌, if◌then◌else◌, leb, none, some, pos, negsuc, ◌&&◌, ◌*◌, ◌+◌, ◌-◌, ◌==◌, ℕ, ℤ,
}
use cloud_native_service_con.Text.{Str}

-- The value of the digits behind those with the value `acc`; none if another byte is among them.
unfoldable pub digits_value : ℕ → Str → Option ℕ
digits_value acc [] = some acc
digits_value acc (c ∷ s) =
    let rest = digits_value (acc * 10 + (c - b'0')) s in
    if leb b'0' c && leb c b'9' then rest else none

-- At least one digit.
unfoldable pub unsigned_value : Str → Option ℕ
unfolding digits_value
unsigned_value [] = none
unsigned_value (c ∷ s) = digits_value 0 (c ∷ s)

abbrev pub max_int : ℕ
max_int = 9223372036854775807

unfoldable pub positive_int : Option ℕ → Option ℤ
positive_int none = none
positive_int (some n) = if leb n max_int then some (pos n) else none

unfoldable pub negative_int : Option ℕ → Option ℤ
negative_int none = none
negative_int (some n) =
    if n == 0 then some (pos 0) else if leb n (max_int + 1) then some (negsuc (n - 1)) else none

-- strconv.Atoi: none is an error
unfoldable pub atoi : Str → Option ℤ
unfolding positive_int negative_int unsigned_value
atoi [] = none
atoi (c ∷ s) =
    if c == b'-'
    then negative_int (unsigned_value s)
    else if c == b'+'
    then positive_int (unsigned_value s)
    else positive_int (unsigned_value (c ∷ s))
