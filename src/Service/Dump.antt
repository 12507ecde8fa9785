-- ===== src/Service/Dump.antt =====
-- `dump_buffer` of src/psuservice.c: the lines that it prints.
use psuart.Prelude.{
  ℕ, zero, suc, ◌+◌, ◌-◌, ◌*◌, ◌≤◌, ◌≡◌, refl, sym, ap, ap₂, ◌∙◌, arith, List, [], ◌∷◌, ◌++◌,
  append_assoc, Option, some, none, ◌>>=◌, false, ltb, ◌==◌, if◌then◌else◌, length, length-take,
  take, drop, take-append-drop, min, ge→ltb, length-drop, eq-nil_of_length, ◌/◌, ◌%◌,
}
use psuart.Rader.Crc.Laws.{AreBytes}
use native.Mathlib.Decide.{dec_le}
use psuart.Utils.Hex.{hex_encode, hex_char}
use psuart.Utils.Hex.Laws.{encoded, hex_encode_lem}

-- `buf` behind HexEncode, which leaves it empty if it fails
abbrev pub line_of : Option (List ℕ) → List ℕ
line_of none = []
line_of (some text) = text

-- the loop, on fuel
unfoldable pub dump_loop : ℕ → List ℕ → ℕ → Option (List (List ℕ))
dump_loop zero p size = if size == 0 then some [] else none
dump_loop (suc fuel) p size =
    let rest = dump_loop fuel (drop 16 p) (size - 16) in
    if size == 0
    then some []
    else hex_encode p (min 16 size) 40 >>= λ written.
        rest >>= λ lines. some (line_of written ∷ lines)

unfoldable pub dump_buffer : List ℕ → ℕ → Option (List (List ℕ))
dump_buffer p size = dump_loop size p size

-- all the lines, one behind the other
abbrev pub all_lines : List (List ℕ) → List ℕ
all_lines [] = []
all_lines (line ∷ lines) = line ++ all_lines lines

encoded-append : (xs ys : List ℕ) → encoded (xs ++ ys) ≡ encoded xs ++ encoded ys
encoded-append [] ys = refl
encoded-append (x ∷ xs) ys =
    ap (λ more. hex_char (x / 16) ∷ hex_char (x % 16) ∷ more) (encoded-append xs ys)

AreBytes-take : (n : ℕ) (xs : List ℕ) → AreBytes xs → AreBytes (take n xs)
AreBytes-take zero xs h = tt
AreBytes-take (suc n) [] h = tt
AreBytes-take (suc n) (x ∷ xs) h = (h.0, AreBytes-take n xs h.1)

AreBytes-drop : (n : ℕ) (xs : List ℕ) → AreBytes xs → AreBytes (drop n xs)
AreBytes-drop zero xs h = h
AreBytes-drop (suc n) [] h = tt
AreBytes-drop (suc n) (x ∷ xs) h = AreBytes-drop n xs h.1

drop-longer : (n : ℕ) (xs ys : List ℕ) → n ≤ length xs → drop n (xs ++ ys) ≡ drop n xs ++ ys
drop-longer zero xs ys h = refl
drop-longer (suc n) [] ys h = absurd (omega arith)
drop-longer (suc n) (x ∷ xs) ys h = drop-longer n xs ys (omega arith)

dump_loop_empty : (fuel : ℕ) (p : List ℕ) → dump_loop fuel p 0 ≡ some []
unfolding dump_loop
dump_loop_empty zero p = refl
dump_loop_empty (suc fuel) p = refl

-- one line: the first sixteen bytes, or all there are
line_lem :
    (bytes rest : List ℕ)
    → AreBytes bytes
    → hex_encode (bytes ++ rest) (min 16 (length bytes)) 40 ≡ some (some (encoded (take 16 bytes)))
line_lem bytes rest h =
    let size : min 16 (length bytes) ≡ length (take 16 bytes) =
      omega (arith, length-take 16 bytes) in
    let parts : bytes ++ rest ≡ take 16 bytes ++ (drop 16 bytes ++ rest) =
      ap (λ (all : List ℕ). all ++ rest) (sym (take-append-drop 16 bytes))
      ∙ append_assoc (take 16 bytes) (drop 16 bytes) rest in
    let room : ltb 40 (2 * length (take 16 bytes) + 1) ≡ false =
      ge→ltb 40 (2 * length (take 16 bytes) + 1) (omega (arith, length-take 16 bytes)) in
    ap₂ (λ b n. hex_encode b n 40) parts size
    ∙ hex_encode_lem (take 16 bytes) (drop 16 bytes ++ rest) 40 (AreBytes-take 16 bytes h)
    ∙ rw room

abbrev Prints : List ℕ → Option (List (List ℕ)) → Type 0
Prints bytes printed =
    (lines : List (List ℕ)) × (printed ≡ some lines) × (all_lines lines ≡ encoded bytes)

dump_loop_lem :
    (fuel : ℕ) (bytes rest : List ℕ)
    → length bytes ≤ fuel
    → AreBytes bytes
    → Prints bytes (dump_loop fuel (bytes ++ rest) (length bytes))
unfolding dump_loop
dump_loop_lem zero [] rest enough h = ([], refl, refl)
dump_loop_lem zero (b ∷ bytes) rest enough h = absurd (omega arith)
dump_loop_lem (suc fuel) [] rest enough h = ([], refl, refl)
dump_loop_lem (suc fuel) (b ∷ bytes) rest enough h =
    let all = b ∷ bytes in
    let behind : Prints (drop 16 all) (dump_loop fuel (drop 16 (all ++ rest)) (length all - 16)) =
      elim (dec_le 16 (length all)) [
        | yes more ↦
            let size : length all - 16 ≡ length (drop 16 all) = omega (arith, length-drop 16 all) in
            rw (drop-longer 16 all rest more, size)
              (dump_loop_lem fuel (drop 16 all) rest (omega (arith, length-drop 16 all))
                (AreBytes-drop 16 all h))
        | no last ↦
            let none_left : drop 16 all ≡ [] =
              eq-nil_of_length (drop 16 all) (omega (arith, length-drop 16 all)) in
            let size : length all - 16 ≡ 0 = omega arith in
            ([], rw size (dump_loop_empty fuel (drop 16 (all ++ rest))), rw none_left)
      ] in
    let (lines, e, same) = behind in
    let some_bytes : (length all == 0) ≡ false = ground arith in
    (
      encoded (take 16 all) ∷ lines,
      rw (some_bytes, line_lem all rest h, e),
      ap (λ (more : List ℕ). encoded (take 16 all) ++ more) same
          ∙ sym (encoded-append (take 16 all) (drop 16 all))
          ∙ ap encoded (take-append-drop 16 all),
    )

-- The dump of the first bytes of an array ends, reads no others, and prints two digits for each of them,
-- in their order.
pub dump_buffer_lem :
    (bytes rest : List ℕ)
    → AreBytes bytes
    → (lines : List (List ℕ)) × (dump_buffer (bytes ++ rest) (length bytes) ≡ some lines)
      × (all_lines lines ≡ encoded bytes)
unfolding dump_buffer
dump_buffer_lem bytes rest h = dump_loop_lem (length bytes) bytes rest (omega arith) h
