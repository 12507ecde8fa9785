-- ===== src/Utils/Text/Trim.antt =====
-- `Trim` of blanks around a text.
use psuart.Prelude.{
  ℕ, zero, suc, ◌+◌, ◌-◌, ◌<◌, ◌≡◌, refl, subst, arith, List, [], ◌∷◌, ◌++◌, some, true, false, leb,
  ltb, length, length-append, get_or, get_or-append, drop-append, take-append,
}
use psuart.Utils.Text.{is_space, leading, scan_back, trim, copy}

abbrev pub AreSpaces : List ℕ → Type 0
AreSpaces [] = Unit {0}
AreSpaces (c ∷ s) = (is_space c ≡ true) × AreSpaces s

AreSpaces-get : (s : List ℕ) (i : ℕ) → AreSpaces s → i < length s → is_space (get_or s i 0) ≡ true
AreSpaces-get [] i h inside = absurd (omega arith)
AreSpaces-get (c ∷ s) zero h inside = h.0
AreSpaces-get (c ∷ s) (suc i) h inside = AreSpaces-get s i h.1 (omega arith)

leading_lem :
    (blanks s : List ℕ)
    → AreSpaces blanks
    → 0 < length s
    → is_space (get_or s 0 0) ≡ false
    → leading (blanks ++ s) ≡ length blanks
unfolding leading
leading_lem [] [] h more text = refl
leading_lem [] (c ∷ s) h more text = rw text
leading_lem (b ∷ blanks) s h more text = rw (h.0, leading_lem blanks s h.1 more text)

scan_back_lem :
    (s : List ℕ) (end k : ℕ)
    → ((i : ℕ) → i < k → is_space (get_or s (end + i) 0) ≡ true)
    → 0 < end
    → is_space (get_or s (end - 1) 0) ≡ false
    → scan_back s (end + k) ≡ some end
unfolding scan_back
scan_back_lem s zero k blank more text = absurd (omega arith)
scan_back_lem s (suc i_end) zero blank more text =
    let here : suc i_end - 1 ≡ i_end = omega arith in
    let seen : is_space (get_or s i_end 0) ≡ false =
      subst (λ j. is_space (get_or s j 0) ≡ false) here text in
    let none_left : suc i_end + 0 ≡ suc i_end = omega arith in rw (none_left, scan_back, seen)
scan_back_lem s (suc i_end) (suc k) blank more text =
    let next : suc i_end + suc k ≡ suc (suc i_end + k) = omega arith in
    let rest = scan_back_lem s (suc i_end) k (λ i h. blank i (omega arith)) more text in
    rw (next, blank k (omega arith)) rest

copy_lem :
    (front core back : List ℕ)
    → 0 < length core
    → copy (front ++ (core ++ back)) (length front) (length core) ≡ core
unfolding copy
copy_lem front core back more =
    let inside : leb (length (front ++ (core ++ back))) (length front) ≡ false =
      ground (arith, length-append front (core ++ back), length-append core back) in
    let positive : leb (length core) 0 ≡ false = ground arith in
    rw (
      inside,
      positive,
      drop-append front (core ++ back) (length front) refl,
      take-append core back (length core) refl,
    )

-- the character at an index of a text with blanks around it
char_front : (core back : List ℕ) → 0 < length core → get_or (core ++ back) 0 0 ≡ get_or core 0 0
char_front core back more = ground (arith, get_or-append core back 0 0)

char_last :
    (front core back : List ℕ)
    → 0 < length core
    → get_or (front ++ (core ++ back)) (length front + length core - 1) 0
      ≡ get_or core (length core - 1) 0
char_last front core back more =
    let past : length front + length core - 1 - length front ≡ length core - 1 = omega arith in
    let outside : ltb (length front + length core - 1) (length front) ≡ false = ground arith in
    let inside : ltb (length core - 1) (length core) ≡ true = ground arith in
    rw (
      get_or-append front (core ++ back) (length front + length core - 1) 0,
      outside,
      past,
      get_or-append core back (length core - 1) 0,
      inside,
    )

char_back :
    (front core back : List ℕ) (i : ℕ)
    → get_or (front ++ (core ++ back)) (length front + length core + i) 0 ≡ get_or back i 0
char_back front core back i =
    let past : length front + length core + i - length front ≡ length core + i = omega arith in
    let outside : ltb (length front + length core + i) (length front) ≡ false = ground arith in
    let past_core : length core + i - length core ≡ i = omega arith in
    let outside_core : ltb (length core + i) (length core) ≡ false = ground arith in
    rw (
      get_or-append front (core ++ back) (length front + length core + i) 0,
      outside,
      past,
      get_or-append core back (length core + i) 0,
      outside_core,
      past_core,
    )

-- Blanks before and behind a text whose first and last characters are no blanks are taken off, and
-- the text between them stays as it is, with the blanks inside it.
pub trim_lem :
    (front core back : List ℕ)
    → AreSpaces front
    → AreSpaces back
    → 0 < length core
    → is_space (get_or core 0 0) ≡ false
    → is_space (get_or core (length core - 1) 0) ≡ false
    → trim (front ++ (core ++ back)) ≡ some core
unfolding trim
trim_lem front core back hf hb more first last =
    let total : length (front ++ (core ++ back)) ≡ length front + length core + length back =
      omega (arith, length-append front (core ++ back), length-append core back) in
    let begin =
      leading_lem front (core ++ back) hf (omega (arith, length-append core back))
        (rw (char_front core back more) first) in
    let end =
      scan_back_lem (front ++ (core ++ back)) (length front + length core) (length back)
        (λ i h. rw (char_back front core back i) (AreSpaces-get back i hb h)) (omega arith)
        (rw (char_last front core back more) last) in
    let count : length front + length core - length front ≡ length core = omega arith in
    rw (trim, total, end, begin, count, copy_lem front core back more)
