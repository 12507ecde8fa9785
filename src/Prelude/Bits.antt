-- ===== src/Prelude/Bits.antt =====
-- The bit operations at variables: what a shifted byte joined to another byte is, and checks of a
-- law over every byte by evaluation.
use Prim.Native.Nat.{
  ℕ, zero, suc, ◌+◌, ◌-◌, ◌*◌, ◌/◌, ◌%◌, ◌≤◌, ◌<◌, ◌^◌, max, bit_or, digits, bit_or-bitwise,
}
use mathlib.Core.Path.{◌≡◌, refl, ap, sym, ◌∙◌}
use mathlib.Core.Bool.{Bool, true, false}
use native.Mathlib.Nat.{pow-suc}
use native.Mathlib.Omega.{arith}
use psuart.Prelude.Tests.{◌==◌, ==_iff, if◌then◌else◌}

-- whether a test holds at each number under a bound
unfoldable pub every_below : ℕ → (ℕ → Bool) → Bool
every_below zero test = true
every_below (suc bound) test = if test bound then every_below bound test else false

pub every_below_lem :
    (bound : ℕ) (test : ℕ → Bool) (k : ℕ)
    → every_below bound test ≡ true
    → k < bound
    → test k ≡ true
unfolding every_below
every_below_lem zero test k passed under = absurd (omega arith)
every_below_lem (suc bound) test k passed under = ground (arith, every_below_lem bound test k)

-- `bit_or` with the number of digits that are looked at written out
abbrev joined_digits : ℕ → ℕ → ℕ → ℕ
joined_digits fuel x y = digits (λ rest. rest) max fuel x y

-- One more digit changes nothing where all digits of `x` are looked at.
one_more : (x y fuel : ℕ) → x ≤ fuel → joined_digits (suc fuel) x y ≡ joined_digits fuel x y
one_more zero y zero seen = refl
one_more zero y (suc fuel) seen = refl
one_more (suc x) y zero seen = absurd (omega arith)
one_more (suc x) y (suc fuel) seen = omega (arith, one_more (suc x / 2) (y / 2) fuel (omega arith))

spare : (k x y : ℕ) → joined_digits (k + x) x y ≡ joined_digits x x y
spare zero x y = ap (λ (fuel : ℕ). joined_digits fuel x y) {x = 0 + x} (omega arith)
spare (suc k) x y =
    ap (λ (fuel : ℕ). joined_digits fuel x y) {x = suc k + x} {y = suc (k + x)} (omega arith)
    ∙ (one_more x y (k + x) (omega arith) ∙ spare k x y)

zero-bit_or : (y : ℕ) → bit_or 0 y ≡ y
zero-bit_or y = bit_or-bitwise 0 y

-- the digit at the front apart from the others
pub bit_or_halves : (x y : ℕ) → bit_or x y ≡ bit_or (x / 2) (y / 2) * 2 + max (x % 2) (y % 2)
bit_or_halves zero y = omega (arith, zero-bit_or y, zero-bit_or (y / 2))
bit_or_halves (suc x) y =
    let half = suc x / 2 in
    let split : x - half + half ≡ x = omega arith in
    let enough : joined_digits x half (y / 2) ≡ joined_digits half half (y / 2) =
      ap (λ (fuel : ℕ). joined_digits fuel half (y / 2)) (sym split)
      ∙ spare (x - half) half (y / 2) in
    omega (arith, enough, bit_or-bitwise half (y / 2), bit_or-bitwise (suc x) y)

or_zero_table : every_below 256 (λ x. bit_or x 0 == x) ≡ true
unfolding every_below
or_zero_table = refl

bit_or-zero : (h : ℕ) → h < 256 → bit_or h 0 ≡ h
bit_or-zero h lt = (==_iff _ h).0 (every_below_lem 256 _ h or_zero_table lt)

-- A byte shifted up by `k` bits and joined to a number of `k` bits is their sum.
bit_or_shifted : (k h l : ℕ) → h < 256 → l < 2 ^ k → bit_or (h * 2 ^ k) l ≡ h * 2 ^ k + l
bit_or_shifted zero h l byte fits = ground (arith, bit_or-zero h byte)
bit_or_shifted (suc k) h l byte fits =
    let double : h * 2 ^ suc k ≡ h * 2 ^ k * 2 =
      omega (arith, ap (λ (t : ℕ). h * t) (pow-suc 2 k)) in
    ground
      (arith, double, pow-suc 2 k, bit_or_halves (h * 2 ^ suc k) l, bit_or_shifted k h (l / 2) byte)

-- A byte shifted up by eight bits and joined to another byte.
pub bit_or_bytes : (h l : ℕ) → h < 256 → l < 256 → bit_or (h * 256) l ≡ h * 256 + l
bit_or_bytes h l byte fits = bit_or_shifted 8 h l byte fits

le-bit_or_fuel : (fuel a b : ℕ) → a + b ≤ fuel → (a ≤ bit_or a b) × (b ≤ bit_or a b)
le-bit_or_fuel zero a b h = omega arith
le-bit_or_fuel (suc fuel) zero b h = omega (arith, zero-bit_or b)
le-bit_or_fuel (suc fuel) (suc a) b h =
    omega (arith, bit_or_halves (suc a) b, le-bit_or_fuel fuel (suc a / 2) (b / 2) (omega arith))

-- Joining bits takes none away.
pub le-bit_or : (a b : ℕ) → (a ≤ bit_or a b) × (b ≤ bit_or a b)
le-bit_or a b = le-bit_or_fuel (a + b) a b (omega arith)
