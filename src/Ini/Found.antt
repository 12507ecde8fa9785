-- ===== src/Ini/Found.antt =====
-- Where a key stands in the text of a file, sections of other names in front of it, and that the search
-- of src/ini.c finds it there.
use psuart.Prelude.{
  ℕ, suc, ◌+◌, ◌≡◌, refl, ◌∙◌, arith, List, [], ◌∷◌, ◌++◌, Option, none, ◌>>=◌, Bool, true, false,
  length,
}
use psuart.Ini.{
  end_of_string, scan_from, at_brace, not_space, strncmp_eq, at_header, find_key, on_search,
  on_header, parse_round, read_header, skip_to_body, parse_loop,
}
use psuart.Ini.Layout.{AreNot, last_of, place, scan_lem, between_lem}

-- What stands in front of a section: bytes at which no section starts, and sections of another name.
pub data Piece : Type 0 where
  other : ℕ → Piece
  header : List ℕ → Piece

abbrev pub with_pieces : List Piece → List ℕ → List ℕ
with_pieces [] tail = tail
with_pieces (other c ∷ pieces) tail = c ∷ with_pieces pieces tail
with_pieces (header name ∷ pieces) tail = b'[' ∷ (name ++ b']' ∷ with_pieces pieces tail)

abbrev pub pieces_size : List Piece → ℕ
pieces_size [] = 0
pieces_size (other c ∷ pieces) = 1 + pieces_size pieces
pieces_size (header name ∷ pieces) = 1 + length name + 1 + pieces_size pieces

-- the rounds that the outer loop takes for them
abbrev pub rounds : List Piece → ℕ
rounds [] = 0
rounds (other c ∷ pieces) = 1 + rounds pieces
rounds (header name ∷ pieces) = 2 + rounds pieces

-- the byte in front of what follows them
abbrev pub last_piece : ℕ → List Piece → ℕ
last_piece p [] = p
last_piece p (other c ∷ pieces) = last_piece c pieces
last_piece p (header name ∷ pieces) = last_piece b']' pieces

abbrev pub AreSkipped : List ℕ → ℕ → List Piece → Type 0
AreSkipped section p [] = Unit {0}
AreSkipped section p (other c ∷ pieces) =
    (end_of_string c ≡ false) × (at_header p c ≡ false) × AreSkipped section c pieces
AreSkipped section p (header name ∷ pieces) =
    (at_header p b'[' ≡ true)
    × AreNot at_brace name
    × (strncmp_eq name section ≡ false)
    × AreSkipped section b']' pieces

at_header-false : (p : ℕ) → at_header p b']' ≡ false
unfolding at_header
at_header-false p = ground arith

module _ (fuel : ℕ) (section key : List ℕ) (sec : Option (ℕ × ℕ)) (i p : ℕ) where
  other_round :
      (c : ℕ) (rest : List ℕ)
      → end_of_string c ≡ false
      → at_header p c ≡ false
      → parse_loop (suc fuel) section key sec (place i p (c ∷ rest))
        ≡ parse_loop fuel section key sec (place (i + 1) c rest)
  unfolding parse_loop parse_round
  other_round c rest more plain = rw (more, plain)

  header_round :
      (name rest : List ℕ)
      → at_header p b'[' ≡ true
      → AreNot at_brace name
      → parse_loop (suc fuel) section key sec (place i p (b'[' ∷ (name ++ b']' ∷ rest)))
        ≡ on_header
            (strncmp_eq name section)
            (parse_loop fuel section key)
            (find_key fuel key)
            sec
            (place (i + 1) b'[' (name ++ b']' ∷ rest))
            (place (i + 1 + length name) (last_of b'[' name) (b']' ∷ rest))
  unfolding parse_loop parse_round read_header scan_from
  header_round name rest starts plain = rw (
    starts,
    scan_lem at_brace (i + 1) b'[' name b']' rest plain refl,
    between_lem (i + 1) (i + 1 + length name) b'[' (last_of b'[' name) name (b']' ∷ rest)
        (b']' ∷ rest) refl,
  )

-- The outer loop passes over what stands in front of the section.
pub parse_loop_skipped :
    (fuel : ℕ) (section key : List ℕ) (sec : Option (ℕ × ℕ)) (i p : ℕ) (pieces : List Piece)
    (tail : List ℕ)
    → AreSkipped section p pieces
    → parse_loop (rounds pieces + fuel) section key sec (place i p (with_pieces pieces tail))
      ≡ parse_loop fuel section key sec (place (i + pieces_size pieces) (last_piece p pieces) tail)
unfolding on_header
parse_loop_skipped fuel section key sec i p [] tail h =
    let same : i + 0 ≡ i = omega arith in
    let none_yet : 0 + fuel ≡ fuel = omega arith in rw (same, none_yet)
parse_loop_skipped fuel section key sec i p (other c ∷ pieces) tail (more, plain, rest) =
    let fewer : rounds (other c ∷ pieces) + fuel ≡ suc (rounds pieces + fuel) = omega arith in
    let moved : i + 1 + pieces_size pieces ≡ i + pieces_size (other c ∷ pieces) = omega arith in
    rw fewer (
      other_round (rounds pieces + fuel) section key sec i p c (with_pieces pieces tail) more plain
      ∙ (rw moved at (parse_loop_skipped fuel section key sec (i + 1) c pieces tail rest)))
parse_loop_skipped fuel section key sec i p (header name ∷ pieces) tail
      (starts, plain, differs, rest) =
    let fewer : rounds (header name ∷ pieces) + fuel ≡ suc (suc (rounds pieces + fuel)) =
      omega arith in
    let moved : i + 1 + length name + 1 + pieces_size pieces
        ≡ i + pieces_size (header name ∷ pieces) =
      omega arith in
    rw fewer (
      header_round (suc (rounds pieces + fuel)) section key sec i p name (with_pieces pieces tail)
        starts plain
      ∙ rw differs (
          other_round (rounds pieces + fuel) section key sec (i + 1 + length name)
            (last_of b'[' name) b']' (with_pieces pieces tail) refl
            (at_header-false (last_of b'[' name))
          ∙ (rw moved at (
              parse_loop_skipped fuel section key sec (i + 1 + length name + 1) b']' pieces tail
                rest))))

-- bytes of which the first is no space
abbrev pub starts_solid : List ℕ → Bool
starts_solid [] = false
starts_solid (c ∷ rest) = not_space c

-- The section that is looked for, up to the search in its lines.
pub own_round :
    (fuel : ℕ) (section key : List ℕ) (i p : ℕ) (named spaces body : List ℕ)
    → at_header p b'[' ≡ true
    → AreNot at_brace named
    → strncmp_eq named section ≡ true
    → AreNot not_space spaces
    → starts_solid body ≡ true
    → parse_loop (suc fuel) section key none (place i p (b'[' ∷ (named ++ b']' ∷ (spaces ++ body))))
      ≡ (find_key fuel key
            (place (i + 1 + length named + 1 + length spaces) (last_of b']' spaces) body)
          >>= on_search
              (parse_loop fuel section key)
              (i + 1, i + 1 + length named + 1 + length spaces))
unfolding on_header skip_to_body scan_from
own_round fuel section key i p named spaces [] starts plain same space solid = absurd (cc)
own_round fuel section key i p named spaces (c ∷ rest) starts plain same space solid =
    header_round fuel section key none i p named (spaces ++ c ∷ rest) starts plain
    ∙ rw (same, scan_lem not_space (i + 1 + length named + 1) b']' spaces c rest space solid)
