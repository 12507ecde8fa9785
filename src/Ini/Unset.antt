-- ===== src/Ini/Unset.antt =====
-- What a write leaves in a file of src/ini.c whose section does not set the key.
use psuart.Prelude.{
  ℕ, ◌-◌, ◌<◌, ◌≡◌, refl, sym, ap, ◌∙◌, subst, arith, List, [], ◌∷◌, ◌++◌, append_assoc, Option,
  some, none, Bool, true, false, ◌||◌, lt→ltb, ◌==◌, length, length-append, take, take-append,
  drop-append, min,
}
use psuart.Ini.{max_file_size, before, at_line_end, at_section_end, parse_file}
use psuart.Ini.Profile.{
  read_profile_string, entry, decimal, format_step, format_loop, format_int, new_text, look_up,
  write_profile_string,
}
use psuart.Ini.Layout.{AreNot, last_of, first_or, IsName}
use psuart.Ini.Found.{starts_solid}
use psuart.Ini.Place.{KeyPlace, IsPlace, text_with}
use psuart.Ini.RoundTrip.{
  is_control, array, controls_lem, before_plain, load_ini_file_lem, read_lem,
}
use psuart.Ini.Added.{zeros_behind, array_zero}
use psuart.Ini.Entry.{
  SectionPlace, HasSection, with_head, with_body, text_of, with_head-append, parse_file_unset,
}

abbrev pub has_byte : ℕ → List ℕ → Bool
has_byte b [] = false
has_byte b (c ∷ cs) = c == b || has_byte b cs

-- a format with no percent sign is written as it is
format_loop_plain :
    (arg : Option (List ℕ)) (text : List ℕ)
    → has_byte b'%' text ≡ false
    → format_loop false arg text ≡ some text
unfolding format_loop format_step
format_loop_plain arg [] h = refl
format_loop_plain arg (c ∷ cs) h =
    let other : (c == b'%') ≡ false = ground arith in
    let rest : has_byte b'%' cs ≡ false = ground arith in
    rw (format_loop, format_step, other, format_loop_plain arg cs rest)

format_int_plain :
    (text : List ℕ) (n : ℕ) → has_byte b'%' text ≡ false → format_int text n ≡ some text
unfolding format_int
format_int_plain text n h = format_loop_plain (some (decimal 5 n)) text h

-- the parts of the text with the key
abbrev pub with_key : SectionPlace → List ℕ → KeyPlace
with_key s key = record {
  pieces = s.pieces;
  named = s.named;
  spaces = s.spaces;
  lines = [];
  name = key;
  after = b'\n' ∷ with_body s [];
}

-- the text behind the write
abbrev pub with_entry : SectionPlace → List ℕ → List ℕ → List ℕ
with_entry s key value = with_head s [] ++ (entry key value ++ with_body s [])

with_entry_lem :
    (s : SectionPlace) (key value : List ℕ)
    → with_entry s key value ≡ text_with (with_key s key) value
with_entry_lem s key value =
    let after = b'\n' ∷ with_body s [] in
    with_head-append s [] (entry key value ++ with_body s [])
    ∙ ap (with_head s) (
        append_assoc key (b'=' ∷ (value ++ b'\n' ∷ [])) (with_body s [])
        ∙ ap (λ rest. key ++ b'=' ∷ rest) (append_assoc value (b'\n' ∷ []) (with_body s []))
        ∙ sym (append_assoc key (b'=' ∷ []) (value ++ after)))
    ∙ sym (with_head-append s (key ++ b'=' ∷ []) (value ++ after))

with_key-IsPlace :
    {section key : List ℕ} (s : SectionPlace)
    → HasSection section key s
    → IsName key key
    → at_section_end (last_of b']' s.spaces) (first_or key b'=') ≡ false
    → starts_solid key ≡ true
    → AreNot at_line_end key
    → IsPlace section key (with_key s key)
with_key-IsPlace s h named starts solid simple = record {
  skipped = h.skipped;
  starts = h.starts;
  named_plain = h.named_plain;
  same = h.same;
  space = h.space;
  others = tt;
  solid = solid;
  key_named = named;
  key_starts = starts;
  key_plain = simple;
}

AreNot-behind : (stop : ℕ → Bool) (xs ys : List ℕ) → AreNot stop (xs ++ ys) → AreNot stop ys
AreNot-behind stop [] ys h = h
AreNot-behind stop (x ∷ xs) ys h = AreNot-behind stop xs ys h.1

before_zero :
    (text zeros : List ℕ) → AreNot (λ c. c == 0) text → before 0 (text ++ 0 ∷ zeros) ≡ text
before_zero [] zeros h = refl
before_zero (c ∷ text) zeros h = rw (h.0, before_zero text zeros h.1)

module _ (section key value : List ℕ) (s : SectionPlace) (h : HasSection section key s)
    (no_percent : has_byte b'%' (with_body s []) ≡ false) (plain' : AreNot is_control (text_of s))
    (plain : AreNot is_control (with_entry s key value))
    (small : length (with_entry s key value) < max_file_size) where
  text_shape : text_of s ≡ with_head s [] ++ with_body s []
  text_shape = sym (with_head-append s [] (with_body s []))

  text_small : length (text_of s) < max_file_size
  text_small = omega (
    arith,
    ap length text_shape,
    length-append (with_head s []) (with_body s []),
    length-append (with_head s []) (entry key value ++ with_body s []),
    length-append (entry key value) (with_body s []),
  )

  no_zero : AreNot (λ c. c == 0) (with_body s [])
  no_zero =
      AreNot-behind (λ c. c == 0) (with_head s []) (with_body s [])
        (subst (AreNot (λ c. c == 0)) text_shape (controls_lem (text_of s) plain').0)

  array_shape :
      array (text_of s) ≡ with_head s [] ++ (with_body s [] ++ 0 ∷ zeros_behind (text_of s))
  array_shape =
      array_zero (text_of s) text_small
      ∙ ap (λ text. text ++ 0 ∷ zeros_behind (text_of s)) text_shape
      ∙ append_assoc (with_head s []) (with_body s []) (0 ∷ zeros_behind (text_of s))

  new_text_entry :
      (sec_s : ℕ)
      → new_text section key value
          (array (text_of s))
          (length (text_of s))
          (record { section = some (sec_s, length (with_head s [])); key = none })
        ≡ some (with_entry s key value)
  unfolding new_text
  new_text_entry sec_s =
      let head = with_head s [] in
      let body = with_body s [] in
      let zeros = 0 ∷ zeros_behind (text_of s) in
      rw (
        array_shape,
        take-append head (body ++ zeros) (length head) refl,
        drop-append head (body ++ zeros) (length head) refl,
        before_zero body (zeros_behind (text_of s)) no_zero,
        format_int_plain body (length (text_of s) - length head) no_percent,
      )

  write_entry :
      0 < length section
      → 0 < length key
      → write_profile_string section key (some value) (some (text_of s)) true
        ≡ some (some (with_entry s key value), 1)
  unfolding write_profile_string look_up
  write_entry some_section some_key =
      let text = with_entry s key value in
      let checked : (length section == 0 || length key == 0) ≡ false = ground arith in
      let (sec_s, found) = parse_file_unset s h (zeros_behind (text_of s)) in
      let searched : parse_file section key (array (text_of s))
          ≡ some (record { section = some (sec_s, length (with_head s [])); key = none }) =
        ap (parse_file section key) (array_zero (text_of s) text_small) ∙ found in
      rw (
        checked,
        load_ini_file_lem (text_of s) plain' text_small,
        searched,
        new_text_entry sec_s,
        lt→ltb (length text) max_file_size small,
        before_plain 0 text (controls_lem text plain).0,
      )

-- Into a file with the section, in which no line of it sets the key, a write puts the key in front of the
-- section's lines and leaves all other bytes, and a read then gives the value, as far as there is room.
-- There is no `%` behind the section's header; no further section has a name that is taken for it; the
-- key has no `=`, stands on one line and starts with no space, `[` or `;`; the value stands on one line;
-- the texts have no zero, no byte that reads as EOF, and less than 16384 bytes.
pub write_read_unset :
    (section key value : List ℕ) (s : SectionPlace) (size : ℕ) (default_value : Option (List ℕ))
    → HasSection section key s
    → has_byte b'%' (with_body s []) ≡ false
    → AreNot is_control (text_of s)
    → IsName key key
    → at_section_end (last_of b']' s.spaces) (first_or key b'=') ≡ false
    → starts_solid key ≡ true
    → AreNot at_line_end key
    → AreNot at_line_end value
    → AreNot is_control (with_entry s key value)
    → length (with_entry s key value) < max_file_size
    → 0 < length section
    → 0 < length key
    → 0 < size
    → (write_profile_string section key (some value) (some (text_of s)) true
        ≡ some (some (with_entry s key value), 1))
      × (read_profile_string section key size default_value (some (with_entry s key value))
          ≡ some (some (take (min (size - 1) (length value)) value), 1))
write_read_unset section key value s size default_value h no_percent plain' named starts solid
      key_plain simple plain small some_section some_key room =
    let same = with_entry_lem s key value in
    (
      write_entry section key value s h no_percent plain' plain small some_section some_key,
      rw same (
          read_lem (with_key s key) (with_key-IsPlace s h named starts solid key_plain) value simple
            refl (subst (AreNot is_control) same plain)
            (subst (λ (bytes : List ℕ). length bytes < max_file_size) same small) size default_value
            some_section some_key room),
    )
