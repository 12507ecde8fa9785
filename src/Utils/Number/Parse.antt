-- ===== src/Utils/Number/Parse.antt =====
-- What `StrToInt` makes of a well-formed number, and of a badly formed one.
use psuart.Prelude.{
  ℕ, ◌+◌, ◌-◌, ◌*◌, ◌≤◌, ◌<◌, ◌≡◌, ◌≢◌, refl, ◌∙◌, arith, List, [], ◌∷◌, map, some, ◌>>=◌, ltb,
  if◌then◌else◌, ◌⊎◌, inl, inr,
}
use psuart.Prelude.Int.{pos, neg}
use psuart.Utils.Number.{int_max, digit_step, digit_loop, split_radix, magnitude, str_to_int}

-- the value of digits, most significant first, behind `value`
abbrev pub horner : ℕ → ℕ → List ℕ → ℕ
horner radix value [] = value
horner radix value (d ∷ ds) = horner radix (value * radix + d) ds

-- the character of a digit, a small letter from 10 on
abbrev pub digit_char : ℕ → ℕ
digit_char d = if ltb d 10 then b'0' + d else b'a' + d - 10

-- each digit is below `radix`
abbrev pub AreDigits : ℕ → List ℕ → Type 0
AreDigits radix [] = Unit {0}
AreDigits radix (d ∷ ds) = (d < radix) × AreDigits radix ds

horner-le : (radix value : ℕ) (ds : List ℕ) → 0 < radix → value ≤ horner radix value ds
horner-le radix value [] h = omega arith
horner-le radix value (d ∷ ds) h =
    let grown : value ≤ value * radix = grind arith in
    omega (arith, horner-le radix (value * radix + d) ds h)

digit_step_lem :
    (radix value d : ℕ)
    → d < radix
    → radix ≤ 16
    → (radix ≤ 10) ⊎ (radix ≡ 16)
    → value * radix + d + 87 ≤ int_max
    → digit_step radix value (digit_char d) ≡ some (value * radix + d)
unfolding digit_step
digit_step_lem radix value d h small kind fits = ground arith

digit_loop_lem :
    (radix value : ℕ) (ds : List ℕ)
    → AreDigits radix ds
    → 0 < radix
    → radix ≤ 16
    → (radix ≤ 10) ⊎ (radix ≡ 16)
    → horner radix value ds + 87 ≤ int_max
    → digit_loop radix value (map digit_char ds) ≡ some (horner radix value ds)
unfolding digit_loop
digit_loop_lem radix value [] h more small kind fits = refl
digit_loop_lem radix value (d ∷ ds) h more small kind fits =
    let below = horner-le radix (value * radix + d) ds more in
    rw (digit_step_lem radix value d h.0 small kind (omega arith))
      (digit_loop_lem radix (value * radix + d) ds h.1 more small kind fits)

-- `text` is a number in decimal, octal or hexadecimal digits, which `StrToInt` tells apart by their
-- first characters.
pub data IsNumber : ℕ → List ℕ → List ℕ → Type 0 where
  decimal :
      (d : ℕ) (ds : List ℕ)
      → AreDigits 10 (d ∷ ds)
      → 0 < d
      → IsNumber 10 (d ∷ ds) (map digit_char (d ∷ ds))
  octal : (ds : List ℕ) → AreDigits 8 ds → IsNumber 8 ds (b'0' ∷ map digit_char ds)
  hexadecimal : (ds : List ℕ) → AreDigits 16 ds → IsNumber 16 ds (b'0' ∷ b'x' ∷ map digit_char ds)

split_radix_decimal : (c : ℕ) (str : List ℕ) → c ≢ b'0' → split_radix (c ∷ str) ≡ (10, c ∷ str)
unfolding split_radix
split_radix_decimal c [] h = ground arith
split_radix_decimal c (x ∷ str) h = ground arith

split_radix_octal :
    (ds : List ℕ) → AreDigits 8 ds → split_radix (b'0' ∷ map digit_char ds) ≡ (8, map digit_char ds)
unfolding split_radix
split_radix_octal [] h = refl
split_radix_octal (d ∷ ds) h = ground arith

digits_value :
    (radix : ℕ) (ds : List ℕ)
    → AreDigits radix ds
    → (radix ≡ 8) ⊎ ((radix ≡ 10) ⊎ (radix ≡ 16))
    → horner radix 0 ds + 87 ≤ int_max
    → digit_loop radix 0 (map digit_char ds) ≡ some (horner radix 0 ds)
digits_value radix ds h kind fits =
    digit_loop_lem radix 0 ds h (ground arith) (ground arith) (ground arith) fits

magnitude_lem :
    {radix : ℕ} {ds text : List ℕ}
    → IsNumber radix ds text
    → horner radix 0 ds + 87 ≤ int_max
    → magnitude text ≡ some (horner radix 0 ds)
unfolding magnitude
magnitude_lem (decimal d ds h lead) fits =
    rw (split_radix_decimal (digit_char d) (map digit_char ds) (λ e. ground arith))
      (digits_value 10 (d ∷ ds) h (inr (inl refl)) fits)
magnitude_lem (octal ds h) fits = rw (split_radix_octal ds h) (digits_value 8 ds h (inl refl) fits)
magnitude_lem (hexadecimal ds h) fits = digits_value 16 ds h (inr (inr refl)) fits

str_to_int_pos :
    {radix : ℕ} {ds text : List ℕ}
    → IsNumber radix ds text
    → str_to_int text ≡ (magnitude text >>= λ value. some (pos value))
unfolding str_to_int
str_to_int_pos (decimal d ds h lead) = ground arith
str_to_int_pos (octal ds h) = refl
str_to_int_pos (hexadecimal ds h) = refl

-- Decimal digits of which the first is not 0, octal digits behind `0`, and hexadecimal digits behind
-- `0x` whose letters are small are read by their radix, with or without a minus sign, if the value is at
-- most 2 ^ 31 - 88: the bound leaves room for the last character's code, which is added before it is
-- taken down.
pub str_to_int_lem :
    {radix : ℕ} {ds text : List ℕ}
    → IsNumber radix ds text
    → horner radix 0 ds + 87 ≤ int_max
    → (str_to_int text ≡ some (pos (horner radix 0 ds)))
      × (str_to_int (b'-' ∷ text) ≡ some (neg (horner radix 0 ds)))
unfolding str_to_int
str_to_int_lem n fits = (str_to_int_pos n ∙ rw (magnitude_lem n fits), rw (magnitude_lem n fits))

-- A capital letter among hexadecimal digits counts 32 too many: `A` is 42.
pub str_to_int_capital :
    (k : ℕ) (ds : List ℕ)
    → k < 6
    → AreDigits 16 ds
    → horner 16 (42 + k) ds + 87 ≤ int_max
    → str_to_int (b'0' ∷ b'x' ∷ (b'A' + k) ∷ map digit_char ds) ≡ some (pos (horner 16 (42 + k) ds))
unfolding str_to_int magnitude digit_loop
str_to_int_capital k ds small h fits =
    let step : digit_step 16 0 (b'A' + k) ≡ some (42 + k) = unfold digit_step in ground arith in
    rw step (rw (digit_loop_lem 16 (42 + k) ds h (omega arith) (omega arith) (inr refl) fits))
