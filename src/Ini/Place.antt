-- ===== src/Ini/Place.antt =====
-- Where a key stands in the text of a file of src/ini.c, and that the search finds it there.
use psuart.Prelude.{
  ℕ, suc, ◌+◌, ◌-◌, ◌≤◌, ◌≡◌, refl, ap, ◌∙◌, subst, arith, List, [], ◌∷◌, ◌++◌, append_assoc, some,
  none, true, false, length, length-append,
}
use psuart.Ini.{
  at_brace, not_space, at_line_end, strncmp_eq, at_header, at_section_end, on_search, parse_loop,
  parse_file,
}
use psuart.Ini.Layout.{
  AreNot, last_of, place, IsName, first_or, with_lines, lines_size, AreOthers, last_end,
  find_key_lem,
}
use psuart.Ini.Found.{
  Piece, other, header, with_pieces, pieces_size, rounds, last_piece, AreSkipped,
  parse_loop_skipped, own_round, starts_solid,
}

-- the parts of a text in which a key stands, but for its value
pub record KeyPlace : Type 0 where
  pub pieces : List Piece
  pub named : List ℕ
  pub spaces : List ℕ
  pub lines : List (List ℕ × ℕ)
  pub name : List ℕ
  pub after : List ℕ

-- the text in front of other bytes that follow the `=`
abbrev pub with_place : KeyPlace → List ℕ → List ℕ
with_place l tail =
    with_pieces l.pieces
      (b'[' ∷ (l.named ++ b']' ∷ (l.spaces ++ with_lines l.lines (l.name ++ b'=' ∷ tail))))

-- the text up to the `=`, and with a value
abbrev pub front : KeyPlace → List ℕ
front l = with_place l []

abbrev pub text_with : KeyPlace → List ℕ → List ℕ
text_with l value = front l ++ (value ++ l.after)

-- The key stands here: in the first section whose name is taken for the section's, on the first line
-- there whose name is taken for the key.
pub record IsPlace (section key : List ℕ) (l : KeyPlace) : Type 0 where
  pub skipped : AreSkipped section b'\n' l.pieces
  pub starts : at_header (last_piece b'\n' l.pieces) b'[' ≡ true
  pub named_plain : AreNot at_brace l.named
  pub same : strncmp_eq l.named section ≡ true
  pub space : AreNot not_space l.spaces
  pub others : AreOthers key (last_of b']' l.spaces) l.lines
  pub solid : starts_solid (with_lines l.lines l.name) ≡ true
  pub key_named : IsName key l.name
  pub key_starts :
      at_section_end (last_end (last_of b']' l.spaces) l.lines) (first_or l.name b'=') ≡ false
  pub key_plain : AreNot at_line_end l.name

pub with_pieces-append :
    (pieces : List Piece) (xs ys : List ℕ)
    → with_pieces pieces xs ++ ys ≡ with_pieces pieces (xs ++ ys)
with_pieces-append [] xs ys = refl
with_pieces-append (other c ∷ pieces) xs ys = ap (◌∷◌ c) (with_pieces-append pieces xs ys)
with_pieces-append (header name ∷ pieces) xs ys = ap (◌∷◌ b'[') (
    append_assoc name (b']' ∷ with_pieces pieces xs) ys
    ∙ ap (λ rest. name ++ b']' ∷ rest) (with_pieces-append pieces xs ys))

pub with_lines-append :
    (lines : List (List ℕ × ℕ)) (xs ys : List ℕ)
    → with_lines lines xs ++ ys ≡ with_lines lines (xs ++ ys)
with_lines-append [] xs ys = refl
with_lines-append (line ∷ lines) xs ys =
    append_assoc line.0 (line.1 ∷ with_lines lines xs) ys
    ∙ ap (λ rest. line.0 ++ line.1 ∷ rest) (with_lines-append lines xs ys)

front-append : (l : KeyPlace) (tail : List ℕ) → front l ++ tail ≡ with_place l tail
front-append l tail =
    let inner = with_lines l.lines (l.name ++ b'=' ∷ []) in
    with_pieces-append l.pieces (b'[' ∷ (l.named ++ b']' ∷ (l.spaces ++ inner))) tail
    ∙ ap (λ rest. with_pieces l.pieces (b'[' ∷ rest))
        (append_assoc l.named (b']' ∷ (l.spaces ++ inner)) tail)
    ∙ ap (λ rest. with_pieces l.pieces (b'[' ∷ (l.named ++ b']' ∷ rest)))
        (append_assoc l.spaces inner tail)
    ∙ ap (λ rest. with_pieces l.pieces (b'[' ∷ (l.named ++ b']' ∷ (l.spaces ++ rest))))
        (with_lines-append l.lines (l.name ++ b'=' ∷ []) tail)
    ∙ ap
        (λ rest.
          with_pieces l.pieces (b'[' ∷ (l.named ++ b']' ∷ (l.spaces ++ with_lines l.lines rest))))
        (append_assoc l.name (b'=' ∷ []) tail)

pub length-with_pieces :
    (pieces : List Piece) (tail : List ℕ)
    → length (with_pieces pieces tail) ≡ pieces_size pieces + length tail
length-with_pieces [] tail = omega arith
length-with_pieces (other c ∷ pieces) tail = omega (arith, length-with_pieces pieces tail)
length-with_pieces (header name ∷ pieces) tail =
    omega
      (arith, length-with_pieces pieces tail, length-append name (b']' ∷ with_pieces pieces tail))

pub length-with_lines :
    (lines : List (List ℕ × ℕ)) (tail : List ℕ)
    → length (with_lines lines tail) ≡ lines_size lines + length tail
length-with_lines [] tail = omega arith
length-with_lines (line ∷ lines) tail =
    omega
      (arith, length-with_lines lines tail, length-append line.0 (line.1 ∷ with_lines lines tail))

pub rounds-le : (pieces : List Piece) → rounds pieces ≤ pieces_size pieces
rounds-le [] = omega arith
rounds-le (other c ∷ pieces) = omega (arith, rounds-le pieces)
rounds-le (header name ∷ pieces) = omega (arith, rounds-le pieces)

pub lines-le : (lines : List (List ℕ × ℕ)) → length lines ≤ lines_size lines
lines-le [] = omega arith
lines-le (line ∷ lines) = omega (arith, lines-le lines)

length-front :
    (l : KeyPlace)
    → length (front l)
      ≡ pieces_size l.pieces
        + 1
        + length l.named
        + 1
        + length l.spaces
        + lines_size l.lines
        + length l.name
        + 1
length-front l =
    let inner = with_lines l.lines (l.name ++ b'=' ∷ []) in
    omega (
      arith,
      length-with_pieces l.pieces (b'[' ∷ (l.named ++ b']' ∷ (l.spaces ++ inner))),
      length-append l.named (b']' ∷ (l.spaces ++ inner)),
      length-append l.spaces inner,
      length-with_lines l.lines (l.name ++ b'=' ∷ []),
      length-append l.name (b'=' ∷ []),
    )

starts_solid-append : (xs ys : List ℕ) → starts_solid xs ≡ true → starts_solid (xs ++ ys) ≡ true
starts_solid-append [] ys h = absurd (cc)
starts_solid-append (c ∷ xs) ys h = h

module _ {section key : List ℕ} (l : KeyPlace) (h : IsPlace section key l) (value : List ℕ) (e : ℕ)
    (rest : List ℕ) (plain : AreNot at_line_end value) (ends : at_line_end e ≡ true) where
  abbrev tail : List ℕ
  tail = value ++ e ∷ rest

  abbrev body_at : ℕ
  body_at = 0 + pieces_size l.pieces + 1 + length l.named + 1 + length l.spaces

  abbrev line_at : ℕ
  line_at = body_at + lines_size l.lines

  parse_loop_found :
      (fuel : ℕ)
      → parse_loop
          (rounds l.pieces + suc (length l.lines + suc fuel))
          section
          key
          none
          (place 0 b'\n' (with_place l tail))
        ≡ some (record {
          section = some (0 + pieces_size l.pieces + 1, body_at);
          key = some (
            line_at,
            line_at + length l.name - 1,
            line_at + length l.name + 1,
            line_at + length (l.name ++ b'=' ∷ value),
          );
        })
  unfolding on_search
  parse_loop_found fuel =
      let body = with_lines l.lines (l.name ++ b'=' ∷ tail) in
      let solid : starts_solid body ≡ true =
        subst (λ bytes. starts_solid bytes ≡ true) (with_lines-append l.lines l.name (b'=' ∷ tail))
          (starts_solid-append (with_lines l.lines l.name) (b'=' ∷ tail) h.solid) in
      parse_loop_skipped (suc (length l.lines + suc fuel)) section key none 0 b'\n' l.pieces
        (b'[' ∷ (l.named ++ b']' ∷ (l.spaces ++ body))) h.skipped
      ∙ own_round (length l.lines + suc fuel) section key (0 + pieces_size l.pieces)
          (last_piece b'\n' l.pieces) l.named l.spaces body h.starts h.named_plain h.same h.space
          solid
      ∙ rw (
          find_key_lem fuel key body_at (last_of b']' l.spaces) l.lines l.name value e rest h.others
            h.key_named h.key_starts h.key_plain plain ends)

  -- The search finds the key where it stands, and its value behind the `=`, up to the end of the line.
  pub parse_file_found :
      (sec : ℕ × ℕ) × (key_s : ℕ) × (key_e : ℕ) × (parse_file section key (front l ++ tail)
        ≡ some (record {
          section = some sec;
          key = some (key_s, key_e, length (front l), length (front l) + length value);
        }))
  unfolding parse_file
  parse_file_found =
      let bytes = with_place l tail in
      let fuel = length bytes + 1 - rounds l.pieces - length l.lines - 2 in
      let size = length-front l in
      let total = ap length (front-append l tail) in
      let enough : length bytes + 1 ≡ rounds l.pieces + suc (length l.lines + suc fuel) =
        omega (
          arith,
          size,
          total,
          length-append (front l) tail,
          rounds-le l.pieces,
          lines-le l.lines,
        ) in
      let value_s : line_at + length l.name + 1 ≡ length (front l) = omega (arith, size) in
      let value_e : line_at + length (l.name ++ b'=' ∷ value) ≡ length (front l) + length value =
        omega (arith, size, length-append l.name (b'=' ∷ value)) in
      (
        (0 + pieces_size l.pieces + 1, body_at),
        line_at,
        line_at + length l.name - 1,
        rw (front-append l tail, enough) (rw (value_s, value_e) at (parse_loop_found fuel)),
      )
