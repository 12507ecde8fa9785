-- ===== src/Utils/Number.antt =====
-- `StrToInt`, `max_value`, `min_value`, `sum_value` and `utils_crc` of src/utils.c. A string is the list of its
-- bytes in front of the terminating zero. An `int` sum past its range has no value, `none`.
pub mod Parse
pub mod Extreme
use psuart.Prelude.{
  ℕ, zero, suc, ◌+◌, ◌-◌, ◌*◌, ◌^◌, ◌≤◌, List, [], ◌∷◌, Option, some, none, ◌>>=◌, Bool, true,
  false, ◌&&◌, ◌||◌, leb, ltb, ◌==◌, if◌then◌else◌, u8,
}
use psuart.Prelude.Int.{ℤ, pos, negsuc, neg, ltb_ℤ, add_ℤ}

abbrev pub int_max : ℕ
int_max = 2 ^ 31 - 1

-- `value * radix + c - down`, the sum with `c` first
abbrev pub next_value : ℕ → ℕ → ℕ → ℕ → Option ℕ
next_value radix value c down =
    if leb (value * radix + c) int_max then some (value * radix + c - down) else none

-- The body of the loop. A letter of radix 16 is taken in lower case; then a lower one has
-- `- 'a' + 10`, which is - 87, and a capital `- 'A' + 10`, which is - 55.
unfoldable pub digit_step : ℕ → ℕ → ℕ → Option ℕ
digit_step radix value c =
    if leb b'0' c && leb c b'9'
    then next_value radix value c b'0'
    else if radix == 16 && (leb b'a' c && leb c b'f')
    then next_value radix value c 87
    else if radix == 16 && (leb b'A' c && leb c b'F')
    then next_value radix value (c + 32) 55
    else some value

unfoldable pub digit_loop : ℕ → ℕ → List ℕ → Option ℕ
unfolding digit_step
digit_loop radix value [] = some value
digit_loop radix value (c ∷ str) = digit_step radix value c >>= λ v. digit_loop radix v str

-- the radix that a number's first characters announce, and what stands behind them
unfoldable pub split_radix : List ℕ → ℕ × List ℕ
split_radix [] = (10, [])
split_radix (c ∷ []) = if c == b'0' then (8, []) else (10, c ∷ [])
split_radix (c ∷ x ∷ str) =
    if c == b'0' && (x == b'x' || x == b'X')
    then (16, str)
    else if c == b'0'
    then (8, x ∷ str)
    else (10, c ∷ x ∷ str)

unfoldable pub magnitude : List ℕ → Option ℕ
unfolding split_radix digit_loop
magnitude str = let (radix, digits) = split_radix str in digit_loop radix 0 digits

unfoldable pub str_to_int : List ℕ → Option ℤ
unfolding magnitude
str_to_int [] = some (pos 0)
str_to_int (c ∷ str) =
    if c == b'-'
    then (magnitude str >>= λ value. some (neg value))
    else (magnitude (c ∷ str) >>= λ value. some (pos value))

-- `max_value(a, ...)`: `a` counts the arguments behind it, and is the value to start from.
unfoldable pub max_loop : ℤ → List ℤ → ℤ
max_loop ret [] = ret
max_loop ret (step ∷ args) = max_loop (if ltb_ℤ step ret then ret else step) args

unfoldable pub max_value : ℕ → List ℤ → ℤ
unfolding max_loop
max_value a args = max_loop (pos a) args

unfoldable pub min_loop : ℤ → List ℤ → ℤ
min_loop ret [] = ret
min_loop ret (step ∷ args) = min_loop (if ltb_ℤ ret step then ret else step) args

unfoldable pub min_value : ℕ → List ℤ → ℤ
unfolding min_loop
min_value a args = min_loop (pos a) args

-- the loop of `utils_crc`, over an `unsigned char`
unfoldable pub crc_loop : ℕ → List ℕ → ℕ
crc_loop ret [] = ret
crc_loop ret (b ∷ buf) = crc_loop (u8 (ret + u8 b)) buf

unfoldable pub utils_crc : List ℕ → ℕ
unfolding crc_loop
utils_crc buf = crc_loop 0 buf

-- whether an `int` holds the value
abbrev pub is_int : ℤ → Bool
is_int (pos n) = leb n int_max
is_int (negsuc n) = leb n int_max

-- the loop of `sum_value`; a sum that no `int` holds is undefined, `none`
unfoldable pub sum_loop : ℤ → List ℤ → Option ℤ
sum_loop ret [] = some ret
sum_loop ret (step ∷ args) =
    let rest = sum_loop (add_ℤ ret step) args in if is_int (add_ℤ ret step) then rest else none

unfoldable pub sum_value : ℕ → List ℤ → Option ℤ
unfolding sum_loop
sum_value a args = sum_loop (pos a) args
