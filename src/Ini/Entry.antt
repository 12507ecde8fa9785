-- ===== src/Ini/Entry.antt =====
-- A section in a file of src/ini.c that does not set the key, and that the search finds it.
use psuart.Prelude.{
  ℕ, suc, ◌+◌, ◌-◌, ◌≡◌, ap, ◌∙◌, subst, arith, List, [], ◌∷◌, ◌++◌, append_assoc, some, none, true,
  length, length-append,
}
use psuart.Ini.{
  strncmp_eq, at_brace, not_space, at_section_end, at_header, parse_loop, parse_file, find_key,
  line_round, on_search, passed,
}
use psuart.Ini.Layout.{
  AreNot, last_of, place, first_or, with_lines, lines_size, AreOthers, last_end, find_key_others,
}
use psuart.Ini.Found.{
  Piece, other, header, with_pieces, pieces_size, rounds, last_piece, AreSkipped,
  parse_loop_skipped, own_round, starts_solid,
}
use psuart.Ini.Place.{
  with_pieces-append, with_lines-append, length-with_pieces, length-with_lines, rounds-le, lines-le,
}
use psuart.Ini.Added.{at_text_end}

-- the parts of a text with the section: what is in front, its header, the lines in it, what follows
pub record SectionPlace : Type 0 where
  pub pieces : List Piece
  pub named : List ℕ
  pub spaces : List ℕ
  pub lines : List (List ℕ × ℕ)
  pub later : List Piece

-- the text up to the first line of the section, in front of other bytes
abbrev pub with_head : SectionPlace → List ℕ → List ℕ
with_head s tail = with_pieces s.pieces (b'[' ∷ (s.named ++ b']' ∷ (s.spaces ++ tail)))

-- the lines of the section and what follows
abbrev pub with_body : SectionPlace → List ℕ → List ℕ
with_body s tail = with_lines s.lines (with_pieces s.later tail)

abbrev pub text_of : SectionPlace → List ℕ
text_of s = with_head s (with_body s [])

-- the byte in front of what follows the section
abbrev last_of_body : SectionPlace → ℕ
last_of_body s = last_end (last_of b']' s.spaces) s.lines

-- The first section whose name is taken for the section's is here, no line in it sets the key, and no
-- further section has a name that is taken for it.
pub record HasSection (section key : List ℕ) (s : SectionPlace) : Type 0 where
  pub skipped : AreSkipped section b'\n' s.pieces
  pub starts : at_header (last_piece b'\n' s.pieces) b'[' ≡ true
  pub named_plain : AreNot at_brace s.named
  pub same : strncmp_eq s.named section ≡ true
  pub space : AreNot not_space s.spaces
  pub solid : starts_solid (with_body s [] ++ 0 ∷ []) ≡ true
  pub others : AreOthers key (last_of b']' s.spaces) s.lines
  pub ends : at_section_end (last_of_body s) (first_or (with_pieces s.later []) 0) ≡ true
  pub skipped_later : AreSkipped section (last_of_body s) s.later

starts_solid_other :
    (xs ys zs : List ℕ) → starts_solid (xs ++ 0 ∷ ys) ≡ true → starts_solid (xs ++ 0 ∷ zs) ≡ true
starts_solid_other [] ys zs h = h
starts_solid_other (x ∷ xs) ys zs h = h

-- the search in a section ends in front of what follows
section_ends :
    (fuel : ℕ) (key : List ℕ) (i p : ℕ) (later : List Piece) (zeros : List ℕ)
    → at_section_end p (first_or (with_pieces later []) 0) ≡ true
    → find_key (suc fuel) key (place i p (with_pieces later (0 ∷ zeros)))
      ≡ some (passed (place i p (with_pieces later (0 ∷ zeros))))
unfolding find_key line_round
section_ends fuel key i p [] zeros ends = rw ends
section_ends fuel key i p (other c ∷ later) zeros ends = rw ends
section_ends fuel key i p (header name ∷ later) zeros ends = rw ends

module _ {section key : List ℕ} (s : SectionPlace) (h : HasSection section key s)
    (zeros : List ℕ) where
  abbrev body_at : ℕ
  body_at = 0 + pieces_size s.pieces + 1 + length s.named + 1 + length s.spaces

  abbrev found_section : ℕ × ℕ
  found_section = (0 + pieces_size s.pieces + 1, body_at)

  search_passes :
      (fuel : ℕ)
      → find_key
          (length s.lines + suc fuel)
          key
          (place body_at (last_of b']' s.spaces) (with_body s (0 ∷ zeros)))
        ≡ some (
            passed (
              place
                (body_at + lines_size s.lines)
                (last_of_body s)
                (with_pieces s.later (0 ∷ zeros))))
  search_passes fuel =
      find_key_others (suc fuel) key body_at (last_of b']' s.spaces) s.lines
        (with_pieces s.later (0 ∷ zeros)) h.others
      ∙ section_ends fuel key (body_at + lines_size s.lines) (last_of_body s) s.later zeros h.ends

  with_body-append : with_body s [] ++ 0 ∷ zeros ≡ with_body s (0 ∷ zeros)
  with_body-append =
      with_lines-append s.lines (with_pieces s.later []) (0 ∷ zeros)
      ∙ ap (with_lines s.lines) (with_pieces-append s.later [] (0 ∷ zeros))

  -- The outer loop notes the section, and goes on behind it to the end of the text.
  parse_loop_unset :
      (fuel f1 f2 : ℕ)
      → fuel ≡ length s.lines + suc f1
      → fuel ≡ rounds s.later + suc f2
      → parse_loop
          (rounds s.pieces + suc fuel)
          section
          key
          none
          (place 0 b'\n' (with_head s (with_body s (0 ∷ zeros))))
        ≡ some (record { section = some found_section; key = none })
  unfolding on_search
  parse_loop_unset fuel f1 f2 e1 e2 =
      let body = with_body s (0 ∷ zeros) in
      let solid : starts_solid body ≡ true =
        subst (λ bytes. starts_solid bytes ≡ true) with_body-append
          (starts_solid_other (with_body s []) [] zeros h.solid) in
      let passes : find_key fuel key (place body_at (last_of b']' s.spaces) body)
          ≡ some (
              passed (
                place (body_at + lines_size s.lines) (last_of_body s)
                  (with_pieces s.later (0 ∷ zeros)))) =
        ap (λ f. find_key f key (place body_at (last_of b']' s.spaces) body)) e1
        ∙ search_passes f1 in
      parse_loop_skipped (suc fuel) section key none 0 b'\n' s.pieces
        (b'[' ∷ (s.named ++ b']' ∷ (s.spaces ++ body))) h.skipped
      ∙ own_round fuel section key (0 + pieces_size s.pieces) (last_piece b'\n' s.pieces) s.named
          s.spaces body h.starts h.named_plain h.same h.space solid
      ∙ rw passes (
          ap
            (λ f. parse_loop f section key (some found_section) (
              place (body_at + lines_size s.lines) (last_of_body s)
                (with_pieces s.later (0 ∷ zeros))))
            e2
          ∙ parse_loop_skipped (suc f2) section key (some found_section)
              (body_at + lines_size s.lines) (last_of_body s) s.later (0 ∷ zeros) h.skipped_later
          ∙ at_text_end f2 section key (some found_section)
              (body_at + lines_size s.lines + pieces_size s.later)
              (last_piece (last_of_body s) s.later) zeros)

pub with_head-append :
    (s : SectionPlace) (xs ys : List ℕ) → with_head s xs ++ ys ≡ with_head s (xs ++ ys)
with_head-append s xs ys =
    with_pieces-append s.pieces (b'[' ∷ (s.named ++ b']' ∷ (s.spaces ++ xs))) ys
    ∙ ap (λ rest. with_pieces s.pieces (b'[' ∷ rest))
        (append_assoc s.named (b']' ∷ (s.spaces ++ xs)) ys)
    ∙ ap (λ rest. with_pieces s.pieces (b'[' ∷ (s.named ++ b']' ∷ rest)))
        (append_assoc s.spaces xs ys)

length-with_head :
    (s : SectionPlace) (tail : List ℕ)
    → length (with_head s tail)
      ≡ pieces_size s.pieces + 1 + length s.named + 1 + length s.spaces + length tail
length-with_head s tail = omega (
  arith,
  length-with_pieces s.pieces (b'[' ∷ (s.named ++ b']' ∷ (s.spaces ++ tail))),
  length-append s.named (b']' ∷ (s.spaces ++ tail)),
  length-append s.spaces tail,
)

length-with_body :
    (s : SectionPlace) (tail : List ℕ)
    → length (with_body s tail) ≡ lines_size s.lines + pieces_size s.later + length tail
length-with_body s tail =
    omega
      (arith, length-with_lines s.lines (with_pieces s.later tail), length-with_pieces s.later tail)

-- The search finds the section, and no key.
pub parse_file_unset :
    {section key : List ℕ} (s : SectionPlace)
    → HasSection section key s
    → (zeros : List ℕ)
    → (sec_s : ℕ) × (parse_file section key (text_of s ++ 0 ∷ zeros)
        ≡ some (record { section = some (sec_s, length (with_head s [])); key = none }))
unfolding parse_file
parse_file_unset {section} {key} s h zeros =
    let bytes = with_head s (with_body s (0 ∷ zeros)) in
    let fuel = length bytes - rounds s.pieces in
    let size : length bytes
        ≡ pieces_size s.pieces
          + 1
          + length s.named
          + 1
          + length s.spaces
          + (lines_size s.lines + pieces_size s.later + (1 + length zeros)) =
      omega (arith, length-with_head s (with_body s (0 ∷ zeros)), length-with_body s (0 ∷ zeros)) in
    let few = rounds-le s.pieces in
    let enough : length bytes + 1 ≡ rounds s.pieces + suc fuel = omega (arith, size, few) in
    let for_lines : fuel ≡ length s.lines + suc (fuel - length s.lines - 1) =
      omega (arith, size, few, lines-le s.lines) in
    let for_later : fuel ≡ rounds s.later + suc (fuel - rounds s.later - 1) =
      omega (arith, size, few, rounds-le s.later) in
    let at_body : body_at s h zeros ≡ length (with_head s []) =
      omega (arith, length-with_head s []) in
    let shape : text_of s ++ 0 ∷ zeros ≡ bytes =
      with_head-append s (with_body s []) (0 ∷ zeros)
      ∙ ap (with_head s) (with_body-append s h zeros) in
    let found =
      parse_loop_unset s h zeros fuel (fuel - length s.lines - 1) (fuel - rounds s.later - 1)
        for_lines for_later in
    (0 + pieces_size s.pieces + 1, rw (shape, enough) (rw at_body at found))
