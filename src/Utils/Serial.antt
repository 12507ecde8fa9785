-- ===== src/Utils/Serial.antt =====
-- The serial port of src/utils.c: `com_open`, `com_set_speed`, `com_set_parity` and `com_close`. The
-- system's calls and the constants of its headers are parameters. A descriptor is the 32-bit pattern
-- of an `int`.
pub mod Open
use Prim.Native.Char.{code}
use Prim.Native.String.{String}
use psuart.Prelude.{
  ℕ, zero, suc, ◌+◌, ◌-◌, ◌^◌, List, [], ◌∷◌, ◌++◌, Option, some, none, Bool, true, false, not,
  ◌&&◌, ◌||◌, ltb, ◌==◌, if◌then◌else◌, ◌>>=◌, get_or, bit_and, bit_or,
}
use psuart.Utils.Split.{split_arguments}

-- the bytes of a literal
abbrev pub codes : String → List ℕ
codes String.[] = []
codes (String.◌∷◌ c s) = code c ∷ codes s

-- `fd > 0`
abbrev pub is_open : ℕ → Bool
is_open fd = ltb 0 fd && ltb fd (2 ^ 31)

-- -1 as a pattern
abbrev pub minus_one : ℕ
minus_one = 2 ^ 32 - 1

-- the fields of `struct termios` that are used
pub record Termios : Type 0 where
  pub c_cflag : ℕ
  pub c_iflag : ℕ
  pub c_lflag : ℕ
  pub c_oflag : ℕ
  pub vtime : ℕ
  pub vmin : ℕ

-- the masks of termios.h
pub record Masks : Type 0 where
  pub csize : ℕ
  pub cs7 : ℕ
  pub cs8 : ℕ
  pub parenb : ℕ
  pub parodd : ℕ
  pub inpck : ℕ
  pub cstopb : ℕ
  pub icanon : ℕ
  pub echo : ℕ
  pub echoe : ℕ
  pub isig : ℕ
  pub iexten : ℕ
  pub brkint : ℕ
  pub icrnl : ℕ
  pub istrip : ℕ
  pub ixon : ℕ
  pub opost : ℕ

-- what the system answers; `none` is a call that fails
pub record Tty : Type 0 where
  pub masks : Masks
  pub atoi : List ℕ → ℕ
  pub open_path : List ℕ → ℕ
  pub get_attr : Option Termios
  pub set_attr : Bool

-- the five texts that describe a port
pub record Settings : Type 0 where
  pub com_path : List ℕ
  pub s : List ℕ
  pub p : List ℕ
  pub b : List ℕ
  pub d : List ℕ

abbrev pub default_settings : Settings
default_settings = record {
  com_path = codes "/dev/ttyACM0";
  s = codes "115200";
  p = codes "N";
  b = codes "1";
  d = codes "8";
}

-- the entries of `arg` that are set; a null text sets none
unfoldable pub port_arguments : Option (List ℕ) → List (List ℕ)
unfolding split_arguments
port_arguments none = []
port_arguments (some dev) = split_arguments b',' 5 dev

-- The `switch` on the number of arguments.
unfoldable pub com_settings : Option (List ℕ) → Settings
unfolding port_arguments
com_settings dev = elim (port_arguments dev) [
  | [] ↦ default_settings
  | com_path ∷ [] ↦ record default_settings { com_path = com_path }
  | com_path ∷ s ∷ [] ↦ record default_settings { com_path = com_path; s = s }
  | com_path ∷ s ∷ p ∷ [] ↦ record default_settings { com_path = com_path; s = s; p = p }
  | com_path ∷ s ∷ p ∷ b ∷ [] ↦ record { com_path = com_path; s = s; p = p; b = b; d = codes "8" }
  | com_path ∷ s ∷ p ∷ b ∷ d ∷ rest ↦ record { com_path = com_path; s = s; p = p; b = b; d = d }
]

-- `name_arr`, without the numbers that stand in it a second time
abbrev pub name_arr : List ℕ
name_arr = 115200 ∷ 38400 ∷ 19200 ∷ 9600 ∷ 4800 ∷ 2400 ∷ 1200 ∷ 300 ∷ []

-- the loop of `com_set_speed`: the speed that the port is set to, if it is one of the names
unfoldable pub speed_loop : List ℕ → ℕ → Option ℕ
speed_loop [] speed = none
speed_loop (name ∷ names) speed = if speed == name then some name else speed_loop names speed

unfoldable pub com_set_speed : ℕ → ℕ → Option ℕ
unfolding speed_loop
com_set_speed fd speed = if is_open fd then speed_loop name_arr speed else none

-- `x & ~ mask`
abbrev pub clear : ℕ → ℕ → ℕ
clear x mask = bit_and x (2 ^ 32 - 1 - mask)

unfoldable pub set_databits : Masks → ℕ → Termios → Option Termios
set_databits m databits options =
    let cleared = clear options.c_cflag m.csize in
    if databits == 7
    then some (record options { c_cflag = bit_or cleared m.cs7 })
    else if databits == 8
    then some (record options { c_cflag = bit_or cleared m.cs8 })
    else none

unfoldable pub set_parity : Masks → ℕ → Termios → Option Termios
set_parity m parity options =
    if parity == b'n' || parity == b'N'
    then some (record options {
      c_cflag = clear options.c_cflag m.parenb;
      c_iflag = clear options.c_iflag m.inpck;
    })
    else if parity == b'E'
    then some (record options {
      c_cflag = clear (bit_or options.c_cflag m.parenb) m.parodd;
      c_iflag = bit_or options.c_iflag m.inpck;
    })
    else none

unfoldable pub set_stopbits : Masks → ℕ → Termios → Option Termios
set_stopbits m stopbits options =
    if stopbits == 1
    then some (record options { c_cflag = clear options.c_cflag m.cstopb })
    else if stopbits == 2
    then some (record options { c_cflag = bit_or options.c_cflag m.cstopb })
    else none

-- no line discipline: every byte is passed on as it comes
unfoldable pub set_raw : Masks → Termios → Termios
set_raw m options = record options {
  vtime = 0;
  vmin = 0;
  c_lflag =
      clear options.c_lflag
        (bit_or m.icanon (bit_or m.echo (bit_or m.echoe (bit_or m.isig m.iexten))));
  c_iflag =
      clear options.c_iflag
        (bit_or m.brkint (bit_or m.icrnl (bit_or m.inpck (bit_or m.istrip m.ixon))));
  c_oflag = clear options.c_oflag m.opost;
}

-- The options that the port is given, or `none` for the result FALSE.
unfoldable pub com_set_parity : Tty → ℕ → ℕ → ℕ → ℕ → Option Termios
unfolding set_databits set_parity set_stopbits set_raw
com_set_parity tty fd databits stopbits parity = if not (is_open fd) then none else do
  got ← tty.get_attr
  sized ← set_databits tty.masks databits got
  checked ← set_parity tty.masks parity sized
  stopped ← set_stopbits tty.masks stopbits checked
  if tty.set_attr then some (set_raw tty.masks stopped) else none

-- What `com_open` does: its result, the speed and the options set, and the descriptors closed.
pub record Opened : Type 0 where
  pub fd : ℕ
  pub speed : Option ℕ
  pub options : Option Termios
  pub closed : List ℕ

-- `com_close`: the descriptors that it closes
unfoldable pub com_close : ℕ → List ℕ
com_close fd = if is_open fd then fd ∷ [] else []

-- the test on the result of `com_set_parity`
unfoldable pub keep_or_close : ℕ → Option ℕ → Option Termios → Opened
unfolding com_close
keep_or_close fd speed none = record {
  fd = 0;
  speed = speed;
  options = none;
  closed = com_close fd;
}
keep_or_close fd speed (some options) = record {
  fd = fd;
  speed = speed;
  options = some options;
  closed = [];
}

-- what follows `open`
unfoldable pub configure : Tty → ℕ → Settings → Opened
configure tty fd set =
    if not (is_open fd)
    then record { fd = fd; speed = none; options = none; closed = [] }
    else keep_or_close fd (com_set_speed fd (tty.atoi set.s))
        (com_set_parity tty fd (tty.atoi set.d) (tty.atoi set.b) (get_or set.p 0 0))

unfoldable pub com_open : Tty → Option (List ℕ) → Opened
com_open tty dev = let set = com_settings dev in configure tty (tty.open_path set.com_path) set
