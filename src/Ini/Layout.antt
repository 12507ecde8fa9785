-- ===== src/Ini/Layout.antt =====
-- Where a key stands in the text of a file, and that the search finds it there.
use psuart.Prelude.{
  ℕ, suc, ◌+◌, ◌-◌, ◌≡◌, refl, sym, ap, ◌∙◌, arith, List, [], ◌∷◌, ◌++◌, append_assoc, some, none,
  Bool, true, false, ◌==◌, length, take-append,
}
use psuart.Ini.{
  Cursor, newline, scan, scan_from, at_line_end, between, strncmp_eq, split_equals, line_name,
  at_section_end, found_at, on_line, line_round, find_key,
}

-- no byte at which this stops
abbrev pub AreNot : (ℕ → Bool) → List ℕ → Type 0
AreNot stop [] = Unit {0}
AreNot stop (c ∷ cs) = (stop c ≡ false) × AreNot stop cs

-- the byte in front of what follows these
abbrev pub last_of : ℕ → List ℕ → ℕ
last_of p [] = p
last_of p (c ∷ cs) = last_of c cs

abbrev pub place : ℕ → ℕ → List ℕ → Cursor
place i p rest = record { index = i; prev = p; rest = rest }

pub scan_lem :
    (stop : ℕ → Bool) (i p : ℕ) (xs : List ℕ) (c : ℕ) (rest : List ℕ)
    → AreNot stop xs
    → stop c ≡ true
    → scan stop i p (xs ++ c ∷ rest) ≡ some (place (i + length xs) (last_of p xs) (c ∷ rest))
unfolding scan
scan_lem stop i p [] c rest h e = let same : i + 0 ≡ i = omega arith in rw (e, same)
scan_lem stop i p (x ∷ xs) c rest h e =
    let moved : i + 1 + length xs ≡ i + length (x ∷ xs) = omega arith in
    rw h.0 (rw moved at (scan_lem stop (i + 1) x xs c rest h.1 e))

pub between_lem :
    (i j p q : ℕ) (xs rest tail : List ℕ)
    → j ≡ i + length xs
    → between (place i p (xs ++ rest)) (place j q tail) ≡ xs
between_lem i j p q xs rest tail e = take-append xs rest (j - i) (omega (arith, e))

split_equals_lem :
    (name value : List ℕ)
    → AreNot (λ c. c == b'=') name
    → split_equals (name ++ b'=' ∷ value) ≡ some (name, value)
split_equals_lem [] value h = refl
split_equals_lem (c ∷ name) value h = rw (h.0, split_equals_lem name value h.1)

-- a name in front of `=` that the key is taken to be
pub record IsName (key name : List ℕ) : Type 0 where
  pub first : ℕ
  pub others : List ℕ
  pub made_of : name ≡ first ∷ others
  pub no_comment : (first == b';') ≡ false
  pub no_equals : AreNot (λ c. c == b'=') (first ∷ others)
  pub same : strncmp_eq (first ∷ others) key ≡ true

pub line_name_lem :
    (key name value : List ℕ) → IsName key name → line_name key (name ++ b'=' ∷ value) ≡ some name
unfolding line_name
line_name_lem key name value h =
    rw h.made_of
      (rw (h.no_comment, h.no_equals.0, split_equals_lem h.others value h.no_equals.1, h.same))

abbrev pub first_or : List ℕ → ℕ → ℕ
first_or [] e = e
first_or (c ∷ cs) e = c

-- One round of the search in a section, on a line that a byte ends.
line_round_lem :
    (fuel : ℕ) (key : List ℕ) (i p : ℕ) (line : List ℕ) (e : ℕ) (rest : List ℕ)
    → at_section_end p (first_or line e) ≡ false
    → AreNot at_line_end line
    → at_line_end e ≡ true
    → find_key (suc fuel) key (place i p (line ++ e ∷ rest))
      ≡ on_line
          (line_name key line)
          (find_key fuel key)
          (place i p (line ++ e ∷ rest))
          (place (i + length line) (last_of p line) (e ∷ rest))
unfolding find_key line_round scan_from
line_round_lem fuel key i p [] e rest more h ends = rw (
  more,
  scan_lem at_line_end i p [] e rest h ends,
  between_lem i (i + 0) p p [] (e ∷ rest) (e ∷ rest) refl,
)
line_round_lem fuel key i p (c ∷ cs) e rest more h ends = rw (
  more,
  scan_lem at_line_end i p (c ∷ cs) e rest h ends,
  between_lem i (i + length (c ∷ cs)) p (last_of c cs) (c ∷ cs) (e ∷ rest) (e ∷ rest) refl,
)

-- lines, each with the byte that ends it, in front of other bytes
abbrev pub with_lines : List (List ℕ × ℕ) → List ℕ → List ℕ
with_lines [] tail = tail
with_lines (line ∷ lines) tail = line.0 ++ line.1 ∷ with_lines lines tail

abbrev pub lines_size : List (List ℕ × ℕ) → ℕ
lines_size [] = 0
lines_size (line ∷ lines) = length line.0 + 1 + lines_size lines

-- lines of a section that do not set the key
abbrev pub AreOthers : List ℕ → ℕ → List (List ℕ × ℕ) → Type 0
AreOthers key p [] = Unit {0}
AreOthers key p (line ∷ lines) =
    AreNot at_line_end line.0
    × (newline line.1 ≡ true)
    × (at_section_end p (first_or line.0 line.1) ≡ false)
    × (line_name key line.0 ≡ none)
    × AreOthers key line.1 lines

-- the byte in front of what follows lines
abbrev pub last_end : ℕ → List (List ℕ × ℕ) → ℕ
last_end p [] = p
last_end p (line ∷ lines) = last_end line.1 lines

newline-at_line_end : (c : ℕ) → newline c ≡ true → at_line_end c ≡ true
newline-at_line_end c h = rw h

-- The search passes over lines that do not set the key.
pub find_key_others :
    (fuel : ℕ) (key : List ℕ) (i p : ℕ) (lines : List (List ℕ × ℕ)) (tail : List ℕ)
    → AreOthers key p lines
    → find_key (length lines + fuel) key (place i p (with_lines lines tail))
      ≡ find_key fuel key (place (i + lines_size lines) (last_end p lines) tail)
unfolding on_line find_key
find_key_others fuel key i p [] tail h =
    let same : i + 0 ≡ i = omega arith in
    let none_yet : 0 + fuel ≡ fuel = omega arith in rw (same, none_yet)
find_key_others fuel key i p (line ∷ lines) tail (plain, ended, more, other, rest) =
    let fewer : length (line ∷ lines) + fuel ≡ suc (length lines + fuel) = omega arith in
    let moved : i + length line.0 + 1 + lines_size lines ≡ i + lines_size (line ∷ lines) =
      omega arith in
    rw fewer (
      line_round_lem (length lines + fuel) key i p line.0 line.1 (with_lines lines tail) more plain
        (newline-at_line_end line.1 ended)
      ∙ rw other
          (rw moved at (find_key_others fuel key (i + length line.0 + 1) line.1 lines tail rest)))

AreNot-append :
    (stop : ℕ → Bool) (xs : List ℕ) (c : ℕ) (ys : List ℕ)
    → AreNot stop xs
    → stop c ≡ false
    → AreNot stop ys
    → AreNot stop (xs ++ c ∷ ys)
AreNot-append stop [] c ys h e k = (e, k)
AreNot-append stop (x ∷ xs) c ys h e k = (h.0, AreNot-append stop xs c ys h.1 e k)

-- The search finds the key on its line, behind lines that do not set it.
pub find_key_lem :
    (fuel : ℕ) (key : List ℕ) (i p : ℕ) (lines : List (List ℕ × ℕ)) (name value : List ℕ) (e : ℕ)
    (rest : List ℕ)
    → AreOthers key p lines
    → IsName key name
    → at_section_end (last_end p lines) (first_or name b'=') ≡ false
    → AreNot at_line_end name
    → AreNot at_line_end value
    → at_line_end e ≡ true
    → find_key
        (length lines + suc fuel)
        key
        (place i p (with_lines lines (name ++ b'=' ∷ (value ++ e ∷ rest))))
      ≡ some (
          found_at
            (i + lines_size lines)
            name
            (i + lines_size lines + length (name ++ b'=' ∷ value)))
unfolding on_line
find_key_lem fuel key i p lines name value e rest h named starts plain simple ends =
    let line = name ++ b'=' ∷ value in
    let first_same : first_or line e ≡ first_or name b'=' = rw named.made_of in
    let at_line = place (i + lines_size lines) (last_end p lines) (line ++ e ∷ rest) in
    find_key_others (suc fuel) key i p lines (name ++ b'=' ∷ (value ++ e ∷ rest)) h
    ∙ ap (λ bytes. find_key (suc fuel) key (place (i + lines_size lines) (last_end p lines) bytes))
        (sym (append_assoc name (b'=' ∷ value) (e ∷ rest)))
    ∙ line_round_lem fuel key (i + lines_size lines) (last_end p lines) line e rest
        (rw first_same starts) (AreNot-append at_line_end name b'=' value plain refl simple) ends
    ∙ rw (line_name_lem key name value named)
