-- ===== src/Text/Utf8.antt =====
-- utf8.RuneCountInString: the number of runes of a text, each byte of a broken encoding being one.
use cloud_native_service_con.Base.{
  ℕ, All, Bool, [], ap, arith, drop, false, if◌then◌else◌, leb, length, refl, suc, zero, ◌&&◌, ◌<◌,
  ◌==◌, ◌∷◌, ◌≡◌, ◌≤◌,
}
use cloud_native_service_con.Text.{Str}

-- The byte at the head of `s` is there and lies in a range.
byte_in : ℕ → ℕ → Str → Bool
byte_in lo hi [] = false
byte_in lo hi (c ∷ s) = leb lo c && leb c hi

-- The range of the second byte behind each first byte of a longer encoding.
second_in : ℕ → Str → Bool
unfolding byte_in
second_in c s =
    if c == 0xE0
    then byte_in 0xA0 0xBF s
    else if c == 0xED
    then byte_in 0x80 0x9F s
    else if c == 0xF0
    then byte_in 0x90 0xBF s
    else if c == 0xF4
    then byte_in 0x80 0x8F s
    else byte_in 0x80 0xBF s

-- How many bytes behind the first byte `c` belong to the rune.
unfoldable pub rune_tail : ℕ → Str → ℕ
unfolding second_in
rune_tail c s =
    if leb 0xC2 c && leb c 0xDF
    then if second_in c s then 1 else 0
    else if leb 0xE0 c && leb c 0xEF
    then if second_in c s && byte_in 0x80 0xBF (drop 1 s) then 2 else 0
    else if leb 0xF0 c && leb c 0xF4
    then if second_in c s && (byte_in 0x80 0xBF (drop 1 s) && byte_in 0x80 0xBF (drop 2 s))
      then 3
      else 0
    else 0

count_from : ℕ → Str → ℕ
unfolding rune_tail
count_from skip [] = 0
count_from zero (c ∷ s) = suc (count_from (rune_tail c s) s)
count_from (suc skip) (c ∷ s) = count_from skip s

unfoldable pub rune_count : Str → ℕ
unfolding count_from
rune_count s = count_from 0 s

count_from-le : (skip : ℕ) (s : Str) → count_from skip s ≤ length s
unfolding count_from
count_from-le skip [] = omega arith
count_from-le zero (c ∷ s) = omega (arith, count_from-le (rune_tail c s) s)
count_from-le (suc skip) (c ∷ s) = omega (arith, count_from-le skip s)

-- There are no more runes than bytes.
pub rune_count-le-length : (s : Str) → rune_count s ≤ length s
unfolding rune_count
rune_count-le-length s = count_from-le 0 s

pub count_ascii : (s : Str) → All (λ c. c < 128) s → rune_count s ≡ length s
unfolding rune_count count_from
count_ascii [] h = refl
count_ascii (c ∷ s) (p, h) =
    let tail_zero : rune_tail c s ≡ 0 = unfold rune_tail in ground arith in
    rw tail_zero (ap suc (count_ascii s h))

counts : rune_count (0x61 ∷ 0xC3 ∷ 0xA9 ∷ 0xF0 ∷ 0x9F ∷ 0x98 ∷ 0x80 ∷ 0xC3 ∷ []) ≡ 4
unfolding rune_count
counts = refl
