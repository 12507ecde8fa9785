-- ===== src/Ini/RoundTrip.antt =====
-- What a write of a value leaves in a file of src/ini.c, and that a read gives it back.
use psuart.Prelude.{
  ℕ, zero, suc, ◌+◌, ◌-◌, ◌<◌, ◌≡◌, refl, ap, ◌∙◌, arith, List, [], ◌∷◌, ◌++◌, append_assoc, Option,
  some, Bool, true, false, ◌||◌, lt→ltb, ◌==◌, length, length-append, take, take-append,
  take-append_le, drop-append, drop-append_add, replicate, load, load-eq-some, min,
}
use psuart.Ini.{max_file_size, before, newline, at_line_end, load_ini_file, parse_file}
use psuart.Ini.Profile.{read_profile_string, new_text, look_up, write_profile_string}
use psuart.Ini.Layout.{AreNot, first_or}
use psuart.Ini.Place.{KeyPlace, IsPlace, front, text_with, parse_file_found}

-- no zero, and no byte that reads as EOF
abbrev pub is_control : ℕ → Bool
is_control c = c == 0 || c == 0xff

pub before_plain :
    (stop : ℕ) (text : List ℕ) → AreNot (λ c. c == stop) text → before stop text ≡ text
before_plain stop [] h = refl
before_plain stop (c ∷ text) h = rw (h.0, before_plain stop text h.1)

pub controls_lem :
    (text : List ℕ)
    → AreNot is_control text
    → AreNot (λ c. c == 0) text × AreNot (λ c. c == 0xff) text
controls_lem [] h = (tt, tt)
controls_lem (c ∷ text) h =
    let (zeros, eofs) = controls_lem text h.1 in
    ((ground (arith, h.0), zeros), (ground (arith, h.0), eofs))

-- the array that a file is loaded into
abbrev pub array : List ℕ → List ℕ
array text = text ++ replicate (max_file_size - length text) 0

pub load_ini_file_lem :
    (text : List ℕ)
    → AreNot is_control text
    → length text < max_file_size
    → load_ini_file text ≡ some (array text, length text)
unfolding load_ini_file
load_ini_file_lem text plain small =
    rw
      (before_plain 0xff text (controls_lem text plain).1, lt→ltb (length text) max_file_size small)

-- what follows a value in the array
value_ends :
    (after : List ℕ) (k : ℕ)
    → newline (first_or after b'\n') ≡ true
    → 0 < k
    → (e : ℕ) × (rest : List ℕ) × (after ++ replicate k 0 ≡ e ∷ rest) × (at_line_end e ≡ true)
value_ends [] zero h pos = absurd (omega arith)
value_ends [] (suc k) h pos = (0, replicate k 0, refl, refl)
value_ends (c ∷ after) k h pos = (c, after ++ replicate k 0, refl, rw h)

-- a byte may follow a value, or the text ends
abbrev pub IsEnd : List ℕ → Type 0
IsEnd after = newline (first_or after b'\n') ≡ true

module _ {section key : List ℕ} (l : KeyPlace) (h : IsPlace section key l) (value : List ℕ)
    (simple : AreNot at_line_end value) (end : IsEnd l.after)
    (plain : AreNot is_control (text_with l value))
    (small : length (text_with l value) < max_file_size) where
  abbrev zeros : List ℕ
  zeros = replicate (max_file_size - length (text_with l value)) 0

  array_parts : array (text_with l value) ≡ front l ++ (value ++ (l.after ++ zeros))
  array_parts =
      append_assoc (front l) (value ++ l.after) zeros
      ∙ ap (λ rest. front l ++ rest) (append_assoc value l.after zeros)

  -- The file's array is searched, and the value found.
  parsed_array :
      (sec : ℕ × ℕ) × (key_s : ℕ) × (key_e : ℕ) × (parse_file section key
          (array (text_with l value))
        ≡ some (record {
          section = some sec;
          key = some (key_s, key_e, length (front l), length (front l) + length value);
        }))
  parsed_array =
      let (e, rest, same, ends) =
        value_ends l.after (max_file_size - length (text_with l value)) end (omega arith) in
      let (sec, key_s, key_e, found) = parse_file_found l h value e rest simple ends in
      (sec, key_s, key_e, rw (array_parts, same) found)

  length-array :
      length (array (text_with l value))
      ≡ length (front l) + length value + length (l.after ++ zeros)
  length-array =
      ap length array_parts
      ∙ omega (
        arith,
        length-append (front l) (value ++ (l.after ++ zeros)),
        length-append value (l.after ++ zeros),
      )

  -- A read gives the value, as far as there is room.
  pub read_lem :
      (size : ℕ) (default_value : Option (List ℕ))
      → 0 < length section
      → 0 < length key
      → 0 < size
      → read_profile_string section key size default_value (some (text_with l value))
        ≡ some (some (take (min (size - 1) (length value)) value), 1)
  unfolding read_profile_string
  read_lem size default_value some_section some_key room =
      let (sec, key_s, key_e, found) = parsed_array in
      let n = min (size - 1) (length value) in
      let count : length (front l) + length value - length (front l) ≡ length value = omega arith in
      let checked : (length section == 0 || (length key == 0 || size == 0)) ≡ false =
        ground arith in
      let loaded : load (array (text_with l value)) (length (front l)) n ≡ some (take n value) =
        load-eq-some (array (text_with l value)) (length (front l)) n (omega (arith, length-array))
        ∙ ap some (
            rw (
              array_parts,
              drop-append (front l) (value ++ (l.after ++ zeros)) (length (front l)) refl,
              take-append_le n value (l.after ++ zeros) (omega arith),
            )) in
      rw (checked, load_ini_file_lem (text_with l value) plain small, found, count, loaded)

  -- A write puts another value in its place and leaves all else.
  new_text_lem :
      (value' : List ℕ) (sec : ℕ × ℕ) (key_s key_e : ℕ)
      → new_text section key value'
          (array (text_with l value))
          (length (text_with l value))
          (record {
            section = some sec;
            key = some (key_s, key_e, length (front l), length (front l) + length value);
          })
        ≡ some (text_with l value')
  unfolding new_text
  new_text_lem value' sec key_s key_e =
      let left : length (text_with l value) - (length (front l) + length value) ≡ length l.after =
        omega (arith, length-append (front l) (value ++ l.after), length-append value l.after) in
      rw (
        left,
        array_parts,
        take-append (front l) (value ++ (l.after ++ zeros)) (length (front l)) refl,
        drop-append_add (front l) (value ++ (l.after ++ zeros)) (length (front l)) (length value)
            refl,
        drop-append value (l.after ++ zeros) (length value) refl,
        take-append l.after zeros (length l.after) refl,
      )

  pub write_lem :
      (value' : List ℕ)
      → 0 < length section
      → 0 < length key
      → AreNot is_control (text_with l value')
      → length (text_with l value') < max_file_size
      → write_profile_string section key (some value') (some (text_with l value)) true
        ≡ some (some (text_with l value'), 1)
  unfolding write_profile_string look_up
  write_lem value' some_section some_key plain' small' =
      let (sec, key_s, key_e, found) = parsed_array in
      let checked : (length section == 0 || length key == 0) ≡ false = ground arith in
      rw (
        checked,
        load_ini_file_lem (text_with l value) plain small,
        found,
        new_text_lem value' sec key_s key_e,
        lt→ltb (length (text_with l value')) max_file_size small',
        before_plain 0 (text_with l value') (controls_lem (text_with l value') plain').0,
      )

-- Where a key stands in a file, a write puts the new value in place of the old one and leaves all other
-- bytes, and a read then gives the new value, as far as there is room. Neither value holds the end of
-- a line, and the texts hold no zero and no byte that reads as EOF and have less than 16384 bytes.
pub write_read :
    {section key : List ℕ} (l : KeyPlace) (value value' : List ℕ) (size : ℕ)
    (default_value : Option (List ℕ))
    → IsPlace section key l
    → AreNot at_line_end value
    → AreNot at_line_end value'
    → IsEnd l.after
    → AreNot is_control (text_with l value)
    → AreNot is_control (text_with l value')
    → length (text_with l value) < max_file_size
    → length (text_with l value') < max_file_size
    → 0 < length section
    → 0 < length key
    → 0 < size
    → (write_profile_string section key (some value') (some (text_with l value)) true
        ≡ some (some (text_with l value'), 1))
      × (read_profile_string section key size default_value (some (text_with l value'))
          ≡ some (some (take (min (size - 1) (length value')) value'), 1))
write_read l value value' size default_value h simple simple' end plain plain' small small'
      some_section some_key room =
    (
      write_lem l h value simple end plain small value' some_section some_key plain' small',
      read_lem l h value' simple' end plain' small' size default_value some_section some_key room,
    )
