-- ===== src/Ini/Fresh.antt =====
-- What a write leaves in a new file of src/ini.c.
use psuart.Prelude.{
  ℕ, ◌-◌, ◌<◌, ◌≡◌, refl, sym, ap, ◌∙◌, subst, arith, List, [], ◌∷◌, ◌++◌, append_assoc, Option,
  some, none, true, false, ◌||◌, lt→ltb, ◌==◌, length, take, min,
}
use psuart.Ini.{max_file_size, at_line_end, strncmp_eq, at_brace, at_section_end, at_header}
use psuart.Ini.Profile.{read_profile_string, section_entry, new_text, look_up, write_profile_string}
use psuart.Ini.Layout.{AreNot, first_or, IsName}
use psuart.Ini.Found.{starts_solid}
use psuart.Ini.Place.{KeyPlace, IsPlace, text_with}
use psuart.Ini.RoundTrip.{is_control, controls_lem, before_plain, read_lem}

-- the text of a new file
abbrev pub fresh : List ℕ → List ℕ → KeyPlace
fresh section key = record {
  pieces = [];
  named = section;
  spaces = b'\n' ∷ [];
  lines = [];
  name = key;
  after = b'\n' ∷ [];
}

strncmp_eq_self : (text : List ℕ) → strncmp_eq text text ≡ true
strncmp_eq_self [] = refl
strncmp_eq_self (c ∷ text) =
    let same : (c == c) ≡ true = ground arith in rw (same, strncmp_eq_self text)

pub fresh-IsPlace :
    (section key : List ℕ)
    → AreNot at_brace section
    → IsName key key
    → at_section_end b'\n' (first_or key b'=') ≡ false
    → starts_solid key ≡ true
    → AreNot at_line_end key
    → IsPlace section key (fresh section key)
unfolding at_header
fresh-IsPlace section key plain named starts solid simple = record {
  skipped = tt;
  starts = refl;
  named_plain = plain;
  same = strncmp_eq_self section;
  space = (refl, tt);
  others = tt;
  solid = solid;
  key_named = named;
  key_starts = starts;
  key_plain = simple;
}

pub fresh_lem :
    (section key value : List ℕ)
    → section_entry section key value ≡ text_with (fresh section key) value
fresh_lem section key value =
    ap (λ rest. b'[' ∷ (section ++ b']' ∷ b'\n' ∷ rest))
      (sym (append_assoc key (b'=' ∷ []) (value ++ b'\n' ∷ [])))
    ∙ sym (append_assoc (b'[' ∷ section) (b']' ∷ b'\n' ∷ (key ++ b'=' ∷ [])) (value ++ b'\n' ∷ []))

-- A write to a file that is not there makes one with the section and the key, and a read of it gives
-- the value, as far as there is room. The section's name has no `]`; the key has no `=`, stands on one
-- line and starts with no space, `[` or `;`; the value stands on one line; the text has no zero, no
-- byte that reads as EOF, and less than 16384 bytes.
pub write_read_fresh :
    (section key value : List ℕ) (size : ℕ) (default_value : Option (List ℕ))
    → AreNot at_brace section
    → IsName key key
    → at_section_end b'\n' (first_or key b'=') ≡ false
    → starts_solid key ≡ true
    → AreNot at_line_end key
    → AreNot at_line_end value
    → AreNot is_control (section_entry section key value)
    → length (section_entry section key value) < max_file_size
    → 0 < length section
    → 0 < length key
    → 0 < size
    → (write_profile_string section key (some value) none true
        ≡ some (some (section_entry section key value), 1))
      × (read_profile_string section key size default_value (some (section_entry section key value))
          ≡ some (some (take (min (size - 1) (length value)) value), 1))
unfolding write_profile_string look_up new_text
write_read_fresh section key value size default_value braces named starts solid key_plain simple
      plain small some_section some_key room =
    let text = section_entry section key value in
    let same = fresh_lem section key value in
    let checked : (length section == 0 || length key == 0) ≡ false = ground arith in
    (
      rw (
        checked,
        lt→ltb (length text) max_file_size small,
        before_plain 0 text (controls_lem text plain).0,
      ),
      rw same (
          read_lem (fresh section key)
            (fresh-IsPlace section key braces named starts solid key_plain) value simple refl
            (subst (AreNot is_control) same plain)
            (subst (λ (bytes : List ℕ). length bytes < max_file_size) same small) size default_value
            some_section some_key room),
    )
