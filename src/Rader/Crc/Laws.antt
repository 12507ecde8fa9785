-- ===== src/Rader/Crc/Laws.antt =====
-- What the checksum of a packet detects.
use psuart.Prelude.{
  ℕ, zero, suc, ◌+◌, ◌*◌, ◌<◌, ◌≡◌, ◌≢◌, refl, sym, ap, ◌∙◌, arith, Bool, true, List, [], ◌∷◌, ◌++◌,
  ltb, ◌==◌, ==_iff, ◌&&◌, bit_xor, if◌then◌else◌,
}
use psuart.Prelude.Bits.{every_below, every_below_lem}
use psuart.Rader.Crc.{shift_bits, crc_byte, crc_from, crc8}

-- all elements are bytes
abbrev pub AreBytes : List ℕ → Type 0
AreBytes [] = Unit {0}
AreBytes (b ∷ bs) = (b < 256) × AreBytes bs

abbrev xor_row : ℕ → ℕ → Bool
xor_row a b = ltb (bit_xor a b) 256 && bit_xor a (bit_xor a b) == b && bit_xor a b == bit_xor b a

xor_table : every_below 256 (λ a. every_below 256 (xor_row a)) ≡ true
unfolding every_below
xor_table = refl

-- On bytes the exclusive or is a byte, is undone by itself and commutes.
xor_bytes :
    (a b : ℕ)
    → a < 256
    → b < 256
    → (bit_xor a b < 256) × (bit_xor a (bit_xor a b) ≡ b) × (bit_xor a b ≡ bit_xor b a)
xor_bytes a b p q =
    let row = every_below_lem 256 (λ x. every_below 256 (xor_row x)) a xor_table p in
    let cell : xor_row a b ≡ true = every_below_lem 256 (xor_row a) b row q in ground arith

xor_self_table : every_below 256 (λ a. bit_xor a a == 0) ≡ true
unfolding every_below
xor_self_table = refl

xor_self : (a : ℕ) → a < 256 → bit_xor a a ≡ 0
xor_self a p = (==_iff _ 0).0 (every_below_lem 256 _ a xor_self_table p)

-- the shift of one bit backwards
unshift_bit : ℕ → ℕ
unshift_bit crc = if ltb crc 128 then crc * 2 else bit_xor crc 0x8c * 2 + 1

unshift_bits : ℕ → ℕ → ℕ
unshift_bits zero crc = crc
unshift_bits (suc left) crc = unshift_bits left (unshift_bit crc)

abbrev shift_row : ℕ → Bool
shift_row x = ltb (shift_bits 8 x) 256 && unshift_bits 8 (shift_bits 8 x) == x

shift_table : every_below 256 (λ x. shift_row x) ≡ true
unfolding every_below shift_bits unshift_bits unshift_bit
shift_table = refl

shift_byte : (x : ℕ) → x < 256 → (shift_bits 8 x < 256) × (unshift_bits 8 (shift_bits 8 x) ≡ x)
shift_byte x p =
    let cell : shift_row x ≡ true = every_below_lem 256 (λ y. shift_row y) x shift_table p in
    ground arith

shift_bits-zero : shift_bits 8 0 ≡ 0
unfolding shift_bits
shift_bits-zero = refl

pub crc_byte-lt : (crc b : ℕ) → crc < 256 → b < 256 → crc_byte crc b < 256
unfolding crc_byte
crc_byte-lt crc b p q = (shift_byte (bit_xor crc b) (xor_bytes crc b p q).0).0

shift_injective : (x y : ℕ) → x < 256 → y < 256 → shift_bits 8 x ≡ shift_bits 8 y → x ≡ y
shift_injective x y p q e = sym (shift_byte x p).1 ∙ ap (unshift_bits 8) e ∙ (shift_byte y q).1

xor_injective : (a b c : ℕ) → a < 256 → b < 256 → c < 256 → bit_xor a b ≡ bit_xor a c → b ≡ c
xor_injective a b c p q r e = sym (xor_bytes a b p q).1 ∙ ap (bit_xor a) e ∙ (xor_bytes a c p r).1

crc_byte-injective :
    (crc a b : ℕ) → crc < 256 → a < 256 → b < 256 → crc_byte crc a ≡ crc_byte crc b → a ≡ b
unfolding crc_byte
crc_byte-injective crc a b p q r e =
    xor_injective crc a b p q r
      (shift_injective _ _ (xor_bytes crc a p q).0 (xor_bytes crc b p r).0 e)

crc_byte-injective_left :
    (c d b : ℕ) → c < 256 → d < 256 → b < 256 → crc_byte c b ≡ crc_byte d b → c ≡ d
unfolding crc_byte
crc_byte-injective_left c d b p q r e = xor_injective b c d r p q (
    sym (xor_bytes c b p r).2
    ∙ shift_injective _ _ (xor_bytes c b p r).0 (xor_bytes d b q r).0 e
    ∙ (xor_bytes d b q r).2)

crc_from-injective :
    (c d : ℕ) (ys : List ℕ)
    → c < 256
    → d < 256
    → AreBytes ys
    → crc_from c ys ≡ crc_from d ys
    → c ≡ d
unfolding crc_from
crc_from-injective c d [] p q h e = e
crc_from-injective c d (y ∷ ys) p q h e = crc_byte-injective_left c d y p q h.0 (
    crc_from-injective (crc_byte c y) (crc_byte d y) ys (crc_byte-lt c y p h.0)
      (crc_byte-lt d y q h.0) h.1 e)

crc_from-append : (c : ℕ) (xs ys : List ℕ) → crc_from c (xs ++ ys) ≡ crc_from (crc_from c xs) ys
unfolding crc_from
crc_from-append c [] ys = refl
crc_from-append c (x ∷ xs) ys = crc_from-append (crc_byte c x) xs ys

crc_from-lt : (c : ℕ) (xs : List ℕ) → c < 256 → AreBytes xs → crc_from c xs < 256
unfolding crc_from
crc_from-lt c [] p h = p
crc_from-lt c (x ∷ xs) p h = crc_from-lt (crc_byte c x) xs (crc_byte-lt c x p h.0) h.1

-- The checksum of bytes is a byte.
pub crc8-lt : (xs : List ℕ) → AreBytes xs → crc8 xs < 256
unfolding crc8
crc8-lt xs h = crc_from-lt 0 xs (omega arith) h

-- One wrong byte changes the checksum, wherever it stands and whatever surrounds it.
pub crc8_detects_byte :
    (xs : List ℕ) (a b : ℕ) (ys : List ℕ)
    → AreBytes xs
    → AreBytes ys
    → a < 256
    → b < 256
    → a ≢ b
    → crc8 (xs ++ a ∷ ys) ≢ crc8 (xs ++ b ∷ ys)
unfolding crc8 crc_from
crc8_detects_byte xs a b ys hx hy p q ne e =
    let c = crc_from 0 xs in
    let lt : c < 256 = crc_from-lt 0 xs (omega arith) hx in
    let split = sym (crc_from-append 0 xs (a ∷ ys)) ∙ e ∙ crc_from-append 0 xs (b ∷ ys) in
    ne (
      crc_byte-injective c a b lt p q (
        crc_from-injective (crc_byte c a) (crc_byte c b) ys (crc_byte-lt c a lt p)
          (crc_byte-lt c b lt q) hy split))

-- Bytes followed by their own checksum have the checksum 0.
pub crc8_residue : (xs : List ℕ) → AreBytes xs → crc8 (xs ++ crc8 xs ∷ []) ≡ 0
unfolding crc8 crc_from crc_byte
crc8_residue xs h =
    let c = crc_from 0 xs in
    crc_from-append 0 xs (c ∷ [])
    ∙ ap (shift_bits 8) (xor_self c (crc_from-lt 0 xs (omega arith) h))
    ∙ shift_bits-zero
