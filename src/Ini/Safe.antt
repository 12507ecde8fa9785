-- ===== src/Ini/Safe.antt =====
-- The search in a section of a text ends, and stays in the array.
use psuart.Prelude.{
  ℕ, zero, suc, ◌+◌, ◌≤◌, ◌≡◌, refl, arith, List, [], ◌∷◌, Option, some, none, Bool, true, false,
  ◌&&◌, ◌||◌, ◌⊎◌, inl, inr, ◌==◌, length, Bool-cases, Yields, Yields->>=,
}
use psuart.Ini.{
  Cursor, scan, scan_from, at_line_end, Search, found, passed, at_header, at_section_end, found_at,
  on_line, line_round, find_key,
}

abbrev pub starts_zero : List ℕ → Bool
starts_zero [] = false
starts_zero (c ∷ rest) = 0 == c

-- somewhere there are two zeros in a row
abbrev pub ends_twice : List ℕ → Bool
ends_twice [] = false
ends_twice (c ∷ rest) = (0 == c && starts_zero rest) || ends_twice rest

-- bytes in which the search cannot leave the array
abbrev pub IsSafe : List ℕ → Type 0
IsSafe rest = (ends_twice rest ≡ true) ⊎ (starts_zero rest ≡ true)

-- a place in the text, at most `n` bytes in front of the end of the array
abbrev IsInText : ℕ → Cursor → Type 0
IsInText n at = (ends_twice at.rest ≡ true) × length at.rest ≤ n

-- a place in the text or at its end
abbrev pub IsNear : ℕ → Cursor → Type 0
IsNear n at = IsSafe at.rest × length at.rest ≤ n

abbrev pub place : ℕ → ℕ → List ℕ → Cursor
place i p rest = record { index = i; prev = p; rest = rest }

module _ (stop : ℕ → Bool) (stops : stop 0 ≡ true) where
  -- A scan of the text ends in the text.
  pub scan_text :
      (i p : ℕ) (rest : List ℕ)
      → ends_twice rest ≡ true
      → Yields (IsInText (length rest)) (scan stop i p rest)
  unfolding scan
  scan_text i p [] h = absurd (cc)
  scan_text i p (c ∷ rest) h = elim (Bool-cases (stop c)) [
    | inl at_stop ↦ (place i p (c ∷ rest), rw at_stop, (h, omega arith))
    | inr more ↦
        let not_zero : (0 == c) ≡ false = elim (Bool-cases (0 == c)) [
          | inl zero_there ↦ absurd (grind (arith, stops, more, zero_there))
          | inr other ↦ other
        ] in
        let (at, e, (kept, fits)) = scan_text (i + 1) c rest (rw not_zero at h) in
        (at, rw more e, (kept, omega (arith, fits)))
  ]

  scan_end :
      (i p : ℕ) (rest : List ℕ)
      → starts_zero rest ≡ true
      → Yields
          (λ at. (starts_zero at.rest ≡ true) × length at.rest ≤ length rest)
          (scan stop i p rest)
  unfolding scan
  scan_end i p [] h = absurd (cc)
  scan_end i p (c ∷ rest) h =
      let at_stop : stop c ≡ true = grind (arith, stops, h) in
      (place i p (c ∷ rest), rw at_stop, (h, omega arith))

  pub scan_safe :
      (i p : ℕ) (rest : List ℕ) → IsSafe rest → Yields (IsNear (length rest)) (scan stop i p rest)
  scan_safe i p rest (inl h) =
      let (at, e, (kept, fits)) = scan_text i p rest h in (at, e, (inl kept, fits))
  scan_safe i p rest (inr h) =
      let (at, e, (kept, fits)) = scan_end i p rest h in (at, e, (inr kept, fits))

pub step_text :
    (i p c : ℕ) (rest : List ℕ)
    → ends_twice (c ∷ rest) ≡ true
    → (0 == c) ≡ false
    → IsInText (length rest) (place (i + 1) c rest)
step_text i p c rest h other = (rw other at h, omega arith)

either : (b c : Bool) → (b || c) ≡ true → (c ≡ true) ⊎ (b ≡ true)
either true c h = inr refl
either false c h = inl h

-- one step from a place in the text, which may be its end
pub step-IsSafe : (c : ℕ) (rest : List ℕ) → ends_twice (c ∷ rest) ≡ true → IsSafe rest
step-IsSafe c rest h = elim (Bool-cases (0 == c)) [
  | inl zero_there ↦ either (starts_zero rest) (ends_twice rest) (rw zero_there at h)
  | inr other ↦ inl (rw other at h)
]

-- a place where the search in a section goes on
pub goes_on-ends_twice :
    (p c : ℕ) (rest : List ℕ) → IsSafe (c ∷ rest) → (0 == c) ≡ false → ends_twice (c ∷ rest) ≡ true
goes_on-ends_twice p c rest (inl h) other = h
goes_on-ends_twice p c rest (inr h) other = absurd (grind (arith, h, other))

-- what a search in a section leaves
abbrev pub LeavesNear : ℕ → Search → Type 0
LeavesNear n (found a b c d) = Unit {0}
LeavesNear n (passed next) = IsNear n next

in_section_not_zero : (p c : ℕ) → at_section_end p c ≡ false → (0 == c) ≡ false
unfolding at_section_end at_header
in_section_not_zero p c more = grind (arith, more)

near_weaker : (m n : ℕ) (search : Search) → m ≤ n → LeavesNear m search → LeavesNear n search
near_weaker m n (found a b c d) h near = tt
near_weaker m n (passed next) h (safe, fits) = (safe, omega arith)

-- a loop that ends from each place at most `n` bytes in front of the end of the array
abbrev pub EndsBelow : ℕ → (Cursor → Option Search) → Type 0
EndsBelow n again =
    (i p : ℕ) (rest : List ℕ)
    → IsSafe rest
    → length rest ≤ n
    → Yields (LeavesNear (length rest)) (again (place i p rest))

on_line-Yields :
    (name : Option (List ℕ)) (again : Cursor → Option Search) (at : Cursor) (i p : ℕ)
    (rest : List ℕ) (n m : ℕ)
    → EndsBelow n again
    → ends_twice rest ≡ true
    → length rest ≤ n + 1
    → length rest ≤ m
    → Yields (LeavesNear m) (on_line name again at (place i p rest))
unfolding on_line
on_line-Yields (some name) again at i p rest n m ends h fits small =
    (found_at at.index name i, refl, tt)
on_line-Yields none again at i p [] n m ends h fits small = absurd (cc)
on_line-Yields none again at i p (c ∷ rest) n m ends h fits small =
    let (search, e, near) = ends (i + 1) c rest (step-IsSafe c rest h) (omega arith) in
    (search, e, near_weaker (length rest) m search (omega arith) near)

pub find_key-Yields : (fuel : ℕ) (key : List ℕ) → EndsBelow fuel (find_key fuel key)
unfolding find_key line_round scan_from
find_key-Yields fuel key i p [] (inl h) enough = absurd (cc)
find_key-Yields fuel key i p [] (inr h) enough = absurd (cc)
find_key-Yields zero key i p (c ∷ rest) safe enough = absurd (omega arith)
find_key-Yields (suc fuel) key i p (c ∷ rest) safe enough = elim (Bool-cases (at_section_end p c)) [
  | inl over ↦ (passed (place i p (c ∷ rest)), rw over, (safe, omega arith))
  | inr more ↦
      let text = goes_on-ends_twice p c rest safe (in_section_not_zero p c more) in
      rw more (
        Yields->>= (IsInText (length (c ∷ rest))) (LeavesNear (length (c ∷ rest)))
          (scan at_line_end i p (c ∷ rest)) _ (scan_text at_line_end refl i p (c ∷ rest) text)
          (λ end (kept, fits).
            on_line-Yields _ (find_key fuel key) (place i p (c ∷ rest)) end.index end.prev end.rest
              fuel (length (c ∷ rest)) (find_key-Yields fuel key) kept (omega arith) fits))
]
