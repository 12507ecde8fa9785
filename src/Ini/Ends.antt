-- ===== src/Ini/Ends.antt =====
-- The search in a text ends, and stays in the array.
use psuart.Prelude.{
  ℕ, zero, suc, ◌+◌, ◌-◌, ◌≤◌, ◌≡◌, refl, arith, List, [], ◌∷◌, ◌++◌, Option, some, none, Bool,
  true, false, ◌&&◌, ◌||◌, inl, inr, ◌==◌, length, replicate, lt→ltb, Bool-cases, Yields,
  Yields->>=,
}
use psuart.Ini.{
  Cursor, end_of_string, scan, scan_from, at_brace, not_space, Search, found, passed, at_header,
  find_key, on_search, on_header, parse_round, parse_file, before, max_file_size, load_ini_file,
  Parsed, read_header, skip_to_body, parse_loop,
}
use psuart.Ini.Profile.{look_up}
use psuart.Ini.Safe.{
  starts_zero, ends_twice, IsSafe, IsNear, place, step_text, step-IsSafe, goes_on-ends_twice,
  LeavesNear, EndsBelow, find_key-Yields, scan_text, scan_safe,
}

abbrev Any : Parsed → Type 0
Any parsed = Unit {0}

-- an outer loop that ends from each place at most `n` bytes in front of the end of the array
abbrev ParsesBelow : ℕ → (Option (ℕ × ℕ) → Cursor → Option Parsed) → Type 0
ParsesBelow n again =
    (sec : Option (ℕ × ℕ)) (i p : ℕ) (rest : List ℕ)
    → IsSafe rest
    → length rest ≤ n
    → Yields Any (again sec (place i p rest))

on_search-Yields :
    (again : Option (ℕ × ℕ) → Cursor → Option Parsed) (sec : ℕ × ℕ) (n m : ℕ) (search : Search)
    → ParsesBelow n again
    → m ≤ n
    → LeavesNear m search
    → Yields Any (on_search again sec search)
unfolding on_search
on_search-Yields again sec n m (found a b c d) ends small near = (_, refl, tt)
on_search-Yields again sec n m (passed next) ends small (safe, fits) =
    ends (some sec) next.index next.prev next.rest safe (omega arith)

on_header-Yields :
    (named : Bool) (again : Option (ℕ × ℕ) → Cursor → Option Parsed)
    (search : Cursor → Option Search) (sec : Option (ℕ × ℕ)) (start : Cursor) (i p : ℕ)
    (rest : List ℕ) (n : ℕ)
    → ParsesBelow n again
    → EndsBelow n search
    → ends_twice rest ≡ true
    → length rest ≤ n
    → Yields Any (on_header named again search sec start (place i p rest))
unfolding on_header skip_to_body scan_from
on_header-Yields false again search sec start i p rest n ends finds h fits =
    ends sec i p rest (inl h) fits
on_header-Yields true again search sec start i p [] n ends finds h fits = absurd (cc)
on_header-Yields true again search sec start i p (c ∷ rest) n ends finds h fits =
    Yields->>= (IsNear (length rest)) Any (scan not_space (i + 1) c rest) _
      (scan_safe not_space refl (i + 1) c rest (step-IsSafe c rest h))
      (λ body (safe, below).
        Yields->>= (LeavesNear (length body.rest)) Any (search body) _
          (finds body.index body.prev body.rest safe (omega arith))
          (λ result near.
            on_search-Yields again (start.index, body.index) n (length body.rest) result ends
              (omega arith) near))

-- From each place in the text, or at its end, the outer loop ends.
pub parse_loop-Yields :
    (fuel : ℕ) (section key : List ℕ) → ParsesBelow fuel (parse_loop fuel section key)
unfolding parse_loop parse_round read_header scan_from
parse_loop-Yields fuel section key sec i p [] (inl h) enough = absurd (cc)
parse_loop-Yields fuel section key sec i p [] (inr h) enough = absurd (cc)
parse_loop-Yields zero section key sec i p (c ∷ rest) safe enough = absurd (omega arith)
parse_loop-Yields (suc fuel) section key sec i p (c ∷ rest) safe enough =
    elim (Bool-cases (end_of_string c)) [
      | inl over ↦ (record { section = sec; key = none }, rw over, tt)
      | inr more ↦
          let text = goes_on-ends_twice p c rest safe more in
          let (next, small) = step_text i p c rest text more in
          elim (Bool-cases (at_header p c)) [
            | inr other ↦
                rw (more, other)
                  (parse_loop-Yields fuel section key sec (i + 1) c rest (inl next) (omega arith))
            | inl header ↦
                let (close, e, (kept, fits)) = scan_text at_brace refl (i + 1) c rest next in
                rw (more, header, e)
                  (on_header-Yields _ (parse_loop fuel section key) (find_key fuel key) sec
                    (place (i + 1) c rest) close.index close.prev close.rest fuel
                    (parse_loop-Yields fuel section key) (find_key-Yields fuel key) kept
                    (omega arith))
          ]
    ]

ends_twice-append :
    (text zeros : List ℕ) → ends_twice zeros ≡ true → ends_twice (text ++ zeros) ≡ true
ends_twice-append [] zeros h = h
ends_twice-append (c ∷ text) zeros h =
    or_true (0 == c && starts_zero (text ++ zeros)) (ends_twice-append text zeros h)
  where
    or_true : (b : Bool) {c : Bool} → c ≡ true → (b || c) ≡ true
    or_true true h = refl
    or_true false h = h

ends_twice-replicate : (n : ℕ) → 2 ≤ n → ends_twice (replicate n 0) ≡ true
ends_twice-replicate zero h = absurd (omega arith)
ends_twice-replicate (suc zero) h = absurd (omega arith)
ends_twice-replicate (suc (suc n)) h = refl

parse_file-Yields :
    (section key buf : List ℕ) → ends_twice buf ≡ true → Yields Any (parse_file section key buf)
unfolding parse_file
parse_file-Yields section key buf h =
    parse_loop-Yields (length buf + 1) section key none 0 b'\n' buf (inl h) (omega arith)

-- Whatever bytes a file has, if at most 16382 of them stand in front of the one that reads as EOF, the
-- search for a key ends within its fuel and without an access outside the array.
pub look_up_ends :
    (section key file : List ℕ)
    → length (before 0xff file) + 2 ≤ max_file_size
    → (parsed : Parsed) × (look_up section key (some file)
        ≡ some (
          before 0xff file ++ replicate (max_file_size - length (before 0xff file)) 0,
          length (before 0xff file),
          parsed,
        ))
unfolding look_up load_ini_file
look_up_ends section key file room =
    let text = before 0xff file in
    let (parsed, e, any) =
      parse_file-Yields section key (text ++ replicate (max_file_size - length text) 0) (
        ends_twice-append text (replicate (max_file_size - length text) 0)
          (ends_twice-replicate (max_file_size - length text) (omega arith))) in
    (parsed, rw (lt→ltb (length text) max_file_size (omega arith), e))
