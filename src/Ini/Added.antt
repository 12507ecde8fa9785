-- ===== src/Ini/Added.antt =====
-- What a write leaves in a file of src/ini.c that has other sections only.
use psuart.Prelude.{
  ℕ, suc, ◌+◌, ◌-◌, ◌<◌, ◌≡◌, refl, sym, ap, ◌∙◌, subst, arith, List, [], ◌∷◌, ◌++◌, Option, some,
  none, true, false, ◌||◌, lt→ltb, ◌==◌, length, length-append, take, take-append, min, replicate,
}
use psuart.Ini.{
  max_file_size, at_line_end, at_brace, at_section_end, at_header, parse_loop, parse_file,
  parse_round,
}
use psuart.Ini.Profile.{read_profile_string, section_entry, new_text, look_up, write_profile_string}
use psuart.Ini.Layout.{AreNot, place, first_or, IsName}
use psuart.Ini.Found.{
  Piece, other, header, with_pieces, pieces_size, rounds, last_piece, AreSkipped,
  parse_loop_skipped, starts_solid,
}
use psuart.Ini.Place.{
  KeyPlace, IsPlace, front, text_with, with_pieces-append, length-with_pieces, rounds-le,
}
use psuart.Ini.RoundTrip.{
  is_control, array, controls_lem, before_plain, load_ini_file_lem, read_lem,
}
use psuart.Ini.Fresh.{fresh, fresh_lem, fresh-IsPlace}

-- the pieces of a file, and the end of a line behind them
abbrev with_line_end : List Piece → List Piece
with_line_end pieces = pieces ++ other b'\n' ∷ []

-- the text of the file with the new section
abbrev pub added : List Piece → List ℕ → List ℕ → KeyPlace
added pieces section key = record (fresh section key) { pieces = with_line_end pieces }

with_line_end-with_pieces :
    (pieces : List Piece) (tail : List ℕ)
    → with_pieces (with_line_end pieces) tail ≡ with_pieces pieces (b'\n' ∷ tail)
with_line_end-with_pieces [] tail = refl
with_line_end-with_pieces (other c ∷ pieces) tail =
    ap (λ rest. c ∷ rest) (with_line_end-with_pieces pieces tail)
with_line_end-with_pieces (header name ∷ pieces) tail =
    ap (λ rest. b'[' ∷ (name ++ b']' ∷ rest)) (with_line_end-with_pieces pieces tail)

with_line_end-last_piece :
    (p : ℕ) (pieces : List Piece) → last_piece p (with_line_end pieces) ≡ b'\n'
with_line_end-last_piece p [] = refl
with_line_end-last_piece p (other c ∷ pieces) = with_line_end-last_piece c pieces
with_line_end-last_piece p (header name ∷ pieces) = with_line_end-last_piece b']' pieces

no_header : (p : ℕ) → at_header p b'\n' ≡ false
unfolding at_header
no_header p = ground arith

with_line_end-AreSkipped :
    (section : List ℕ) (p : ℕ) (pieces : List Piece)
    → AreSkipped section p pieces
    → AreSkipped section p (with_line_end pieces)
with_line_end-AreSkipped section p [] h = (refl, no_header p, tt)
with_line_end-AreSkipped section p (other c ∷ pieces) (more, plain, rest) =
    (more, plain, with_line_end-AreSkipped section c pieces rest)
with_line_end-AreSkipped section p (header name ∷ pieces) (starts, plain, differs, rest) =
    (starts, plain, differs, with_line_end-AreSkipped section b']' pieces rest)

added-IsPlace :
    (section key : List ℕ) (pieces : List Piece)
    → AreSkipped section b'\n' pieces
    → IsPlace section key (fresh section key)
    → IsPlace section key (added pieces section key)
unfolding at_header
added-IsPlace section key pieces skipped h = record {
  skipped = with_line_end-AreSkipped section b'\n' pieces skipped;
  starts = rw (with_line_end-last_piece b'\n' pieces) refl;
  named_plain = h.named_plain;
  same = h.same;
  space = h.space;
  others = h.others;
  solid = h.solid;
  key_named = h.key_named;
  key_starts = h.key_starts;
  key_plain = h.key_plain;
}

-- the file in front, and behind the write
abbrev pub other_sections : List Piece → List ℕ
other_sections pieces = with_pieces pieces []

abbrev pub with_section : List Piece → List ℕ → List ℕ → List ℕ → List ℕ
with_section pieces section key value =
    other_sections pieces ++ b'\n' ∷ section_entry section key value

added_lem :
    (pieces : List Piece) (section key value : List ℕ)
    → with_section pieces section key value ≡ text_with (added pieces section key) value
added_lem pieces section key value =
    let tail = value ++ b'\n' ∷ [] in
    with_pieces-append pieces [] (b'\n' ∷ section_entry section key value)
    ∙ ap (λ rest. with_pieces pieces (b'\n' ∷ rest)) (fresh_lem section key value)
    ∙ sym (with_pieces-append pieces (b'\n' ∷ front (fresh section key)) tail)
    ∙ ap (λ rest. rest ++ tail) (sym (with_line_end-with_pieces pieces (front (fresh section key))))

pub at_text_end :
    (fuel : ℕ) (section key : List ℕ) (sec : Option (ℕ × ℕ)) (i p : ℕ) (rest : List ℕ)
    → parse_loop (suc fuel) section key sec (place i p (0 ∷ rest))
      ≡ some (record { section = sec; key = none })
unfolding parse_loop parse_round
at_text_end fuel section key sec i p rest = refl

-- The search comes to the end of the text without the section.
parse_file_passes :
    (section key : List ℕ) (pieces : List Piece) (zeros : List ℕ)
    → AreSkipped section b'\n' pieces
    → parse_file section key (other_sections pieces ++ 0 ∷ zeros)
      ≡ some (record { section = none; key = none })
unfolding parse_file
parse_file_passes section key pieces zeros skipped =
    let bytes = with_pieces pieces (0 ∷ zeros) in
    let fuel = length bytes - rounds pieces in
    let enough : length bytes + 1 ≡ rounds pieces + suc fuel =
      omega (arith, length-with_pieces pieces (0 ∷ zeros), rounds-le pieces) in
    rw (with_pieces-append pieces [] (0 ∷ zeros), enough)
      (parse_loop_skipped (suc fuel) section key none 0 b'\n' pieces (0 ∷ zeros) skipped
        ∙ at_text_end fuel section key none (0 + pieces_size pieces) (last_piece b'\n' pieces)
            zeros)

-- what is searched
abbrev pub zeros_behind : List ℕ → List ℕ
zeros_behind text = replicate (max_file_size - length text - 1) 0

pub array_zero :
    (text : List ℕ) → length text < max_file_size → array text ≡ text ++ 0 ∷ zeros_behind text
array_zero text small =
    let one : max_file_size - length text ≡ suc (max_file_size - length text - 1) = omega arith in
    ap (λ n. text ++ replicate n 0) one

module _ (section key value : List ℕ) (pieces : List Piece)
    (skipped : AreSkipped section b'\n' pieces) (some_bytes : 0 < length (other_sections pieces))
    (before_plain' : AreNot is_control (other_sections pieces))
    (plain : AreNot is_control (with_section pieces section key value))
    (small : length (with_section pieces section key value) < max_file_size) where
  other_small : length (other_sections pieces) < max_file_size
  other_small =
      omega (arith, length-append (other_sections pieces) (b'\n' ∷ section_entry section key value))

  new_text_added :
      new_text section key value
        (array (other_sections pieces))
        (length (other_sections pieces))
        (record { section = none; key = none })
      ≡ some (with_section pieces section key value)
  unfolding new_text
  new_text_added =
      let text = other_sections pieces in
      let there : (length text == 0) ≡ false = ground arith in
      rw (there, take-append text (replicate (max_file_size - length text) 0) (length text) refl)

  write_added :
      0 < length section
      → 0 < length key
      → write_profile_string section key (some value) (some (other_sections pieces)) true
        ≡ some (some (with_section pieces section key value), 1)
  unfolding write_profile_string look_up
  write_added some_section some_key =
      let text = with_section pieces section key value in
      let checked : (length section == 0 || length key == 0) ≡ false = ground arith in
      let searched : parse_file section key (array (other_sections pieces))
          ≡ some (record { section = none; key = none }) =
        ap (parse_file section key) (array_zero (other_sections pieces) other_small)
        ∙ parse_file_passes section key pieces (zeros_behind (other_sections pieces)) skipped in
      rw (
        checked,
        load_ini_file_lem (other_sections pieces) before_plain' other_small,
        searched,
        new_text_added,
        lt→ltb (length text) max_file_size small,
        before_plain 0 text (controls_lem text plain).0,
      )

-- Into a file that has other sections only, a write puts the section with the key behind all that is
-- there, which stays, and a read then gives the value, as far as there is room. The texts have no zero,
-- no byte that reads as EOF, and less than 16384 bytes; section, key and value are as in a new file.
pub write_read_added :
    (section key value : List ℕ) (pieces : List Piece) (size : ℕ) (default_value : Option (List ℕ))
    → AreSkipped section b'\n' pieces
    → 0 < length (other_sections pieces)
    → AreNot is_control (other_sections pieces)
    → AreNot at_brace section
    → IsName key key
    → at_section_end b'\n' (first_or key b'=') ≡ false
    → starts_solid key ≡ true
    → AreNot at_line_end key
    → AreNot at_line_end value
    → AreNot is_control (with_section pieces section key value)
    → length (with_section pieces section key value) < max_file_size
    → 0 < length section
    → 0 < length key
    → 0 < size
    → (write_profile_string section key (some value) (some (other_sections pieces)) true
        ≡ some (some (with_section pieces section key value), 1))
      × (read_profile_string section key size default_value
            (some (with_section pieces section key value))
          ≡ some (some (take (min (size - 1) (length value)) value), 1))
write_read_added section key value pieces size default_value skipped some_bytes plain' braces named
      starts solid key_plain simple plain small some_section some_key room =
    let same = added_lem pieces section key value in
    (
      write_added section key value pieces skipped some_bytes plain' plain small some_section
          some_key,
      rw same (
          read_lem (added pieces section key)
            (added-IsPlace section key pieces skipped
              (fresh-IsPlace section key braces named starts solid key_plain))
            value simple refl (subst (AreNot is_control) same plain)
            (subst (λ (bytes : List ℕ). length bytes < max_file_size) same small) size default_value
            some_section some_key room),
    )
