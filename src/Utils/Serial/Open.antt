-- ===== src/Utils/Serial/Open.antt =====
-- What `com_open` makes of a port's description.
use psuart.Prelude.{
  ℕ, ◌≤◌, ◌≡◌, refl, sym, subst, arith, List, [], ◌∷◌, Option, some, none, Bool, true, false, not,
  ◌&&◌, ◌||◌, ◌==◌, length, get_or, if◌then◌else◌, Bool-cases, inl, inr,
}
use psuart.Utils.Split.{split_arguments}
use psuart.Utils.Split.Arguments.{join, AreFields, split_arguments-join}
use psuart.Utils.Serial.{
  Tty, Termios, Settings, Opened, keep_or_close, configure, com_settings, port_arguments, com_open,
  com_set_parity, set_databits, set_parity, set_stopbits, com_close, com_set_speed, is_open, codes,
}

-- the settings that these fields give, the defaults where there are fewer than five
abbrev pub settings_of : List (List ℕ) → Settings
settings_of fields = record {
  com_path = get_or fields 0 (codes "/dev/ttyACM0");
  s = get_or fields 1 (codes "115200");
  p = get_or fields 2 (codes "N");
  b = get_or fields 3 (codes "1");
  d = get_or fields 4 (codes "8");
}

settings_text :
    (fields : List (List ℕ))
    → length fields ≤ 5
    → (text : List ℕ) → split_arguments b',' 5 text ≡ fields
    → com_settings (some text) ≡ settings_of fields
unfolding com_settings port_arguments
settings_text [] few text e = rw (com_settings, e)
settings_text (f0 ∷ []) few text e = rw (com_settings, e)
settings_text (f0 ∷ f1 ∷ []) few text e = rw (com_settings, e)
settings_text (f0 ∷ f1 ∷ f2 ∷ []) few text e = rw (com_settings, e)
settings_text (f0 ∷ f1 ∷ f2 ∷ f3 ∷ []) few text e = rw (com_settings, e)
settings_text (f0 ∷ f1 ∷ f2 ∷ f3 ∷ f4 ∷ []) few text e = rw (com_settings, e)
settings_text (f0 ∷ f1 ∷ f2 ∷ f3 ∷ f4 ∷ f5 ∷ fs) few text e = absurd (omega arith)

-- Up to five fields joined by commas, each of 1 to 511 bytes, are taken as they are for the settings in
-- their order, device, speed, parity, stop bits and data bits: no `com=` or `s=` in front is looked at
-- or left out. A field that is not there has its default; so has every field of a null text.
pub com_settings-join :
    (fields : List (List ℕ))
    → AreFields b',' fields
    → length fields ≤ 5
    → (com_settings (some (join b',' fields)) ≡ settings_of fields)
      × (com_settings none ≡ settings_of [])
unfolding com_settings port_arguments
com_settings-join fields h few =
    (settings_text fields few (join b',' fields) (split_arguments-join b',' 5 fields h few), refl)

-- the data bits, stop bits and parity that a port can be given
abbrev pub is_supported : ℕ → ℕ → ℕ → Bool
is_supported databits stopbits parity =
    (databits == 7 || databits == 8)
    && ((stopbits == 1 || stopbits == 2) && (parity == b'n' || (parity == b'N' || parity == b'E')))

abbrev pub is_given {ℓ} : {A : Type ℓ} → Option A → Bool
is_given none = false
is_given (some a) = true

com_set_parity_lem :
    (tty : Tty) (fd databits stopbits parity : ℕ) (got : Termios)
    → is_open fd ≡ true
    → tty.get_attr ≡ some got
    → tty.set_attr ≡ true
    → is_given (com_set_parity tty fd databits stopbits parity)
      ≡ is_supported databits stopbits parity
unfolding com_set_parity set_databits set_parity set_stopbits
com_set_parity_lem tty fd databits stopbits parity got there readable writable = ground arith

-- what is left of a device, by whether it was opened and whether its settings are supported
abbrev pub IsLeft : ℕ → Bool → Opened → Type 0
IsLeft fd good done =
    (done.fd ≡ (if is_open fd && not good then 0 else fd))
    × (done.closed ≡ (if is_open fd && not good then fd ∷ [] else []))
    × (is_given done.options ≡ is_open fd && good)

keep_or_close-IsLeft :
    (fd : ℕ) (speed : Option ℕ) (options : Option Termios) (good : Bool)
    → is_open fd ≡ true
    → is_given options ≡ good
    → IsLeft fd good (keep_or_close fd speed options)
unfolding keep_or_close com_close
keep_or_close-IsLeft fd speed none good there e = rw (← e, there) (refl, refl, refl)
keep_or_close-IsLeft fd speed (some options) good there e = rw (← e, there) (refl, refl, refl)

configure_open :
    (tty : Tty) (fd : ℕ) (set : Settings)
    → is_open fd ≡ true
    → configure tty fd set
      ≡ keep_or_close fd
          (com_set_speed fd (tty.atoi set.s))
          (com_set_parity tty fd (tty.atoi set.d) (tty.atoi set.b) (get_or set.p 0 0))
unfolding configure
configure_open tty fd set there = rw there

configure-IsLeft :
    (tty : Tty) (fd : ℕ) (set : Settings) (got : Termios)
    → tty.get_attr ≡ some got
    → tty.set_attr ≡ true
    → IsLeft fd
        (is_supported (tty.atoi set.d) (tty.atoi set.b) (get_or set.p 0 0))
        (configure tty fd set)
unfolding configure
configure-IsLeft tty fd set got readable writable = elim (Bool-cases (is_open fd)) [
  | inr shut ↦ rw (configure, shut) (refl, refl, refl)
  | inl there ↦
      let kept =
        keep_or_close-IsLeft fd (com_set_speed fd (tty.atoi set.s))
          (com_set_parity tty fd (tty.atoi set.d) (tty.atoi set.b) (get_or set.p 0 0))
          (is_supported (tty.atoi set.d) (tty.atoi set.b) (get_or set.p 0 0)) there
          (com_set_parity_lem tty fd (tty.atoi set.d) (tty.atoi set.b) (get_or set.p 0 0) got there
            readable writable) in
      subst (IsLeft fd (is_supported (tty.atoi set.d) (tty.atoi set.b) (get_or set.p 0 0)))
        (sym (configure_open tty fd set there)) kept
]

-- A device that can be opened, and whose attributes can be read and set, stays open just when its
-- data bits are 7 or 8, its stop bits 1 or 2 and its parity `n`, `N` or `E`; otherwise it is closed
-- again and the result is 0. A device that cannot be opened is left alone.
pub com_open_lem :
    (tty : Tty) (dev : Option (List ℕ)) (got : Termios)
    → tty.get_attr ≡ some got
    → tty.set_attr ≡ true
    → (let set = com_settings dev in
        let good = is_supported (tty.atoi set.d) (tty.atoi set.b) (get_or set.p 0 0) in
        IsLeft (tty.open_path set.com_path) good (com_open tty dev))
unfolding com_open
com_open_lem tty dev got readable writable =
    configure-IsLeft tty (tty.open_path (com_settings dev).com_path) (com_settings dev) got readable
      writable
