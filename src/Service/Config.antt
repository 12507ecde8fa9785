-- ===== src/Service/Config.antt =====
-- The configuration of src/psuservice.c: the rows of inc/psuservice.def, and what is done to each. A row
-- stands for the field that CFG makes of it. `ini_parse` is a parameter: the calls of `handler` that it
-- makes, or `none` for a negative result.
pub mod Rows
mod Tests
use psuart.Prelude.{
  ℕ, ◌+◌, ◌-◌, ◌%◌, ◌^◌, List, [], ◌∷◌, ◌++◌, map, Option, some, none, ◌>>=◌, Bool, true, false,
  ◌&&◌, ◌==◌, if◌then◌else◌,
}
use psuart.Prelude.Int.{ℤ, pos, negsuc}
use psuart.Utils.Number.{str_to_int}
use psuart.Utils.Address.{unsigned_short, parse_ip_addr}
use psuart.Utils.Serial.{codes}
use psuart.Ini.Profile.{write_profile_string}

-- CFG(s, n, default), and the value of its field
pub record Row : Type 0 where
  pub section : List ℕ
  pub name : List ℕ
  pub default : List ℕ
  pub value : Option (List ℕ)

abbrev pub cfg : List ℕ → List ℕ → List ℕ → Row
cfg section name default = record {
  section = section;
  name = name;
  default = default;
  value = none;
}

-- the rows of the file; DEFAULT_LOG_FILE is a parameter
abbrev pub psuservice_def : List ℕ → List Row
psuservice_def default_log_file =
    cfg (codes "main") (codes "version") (codes "0.1.0.1")
    ∷ cfg (codes "log") (codes "flag") (codes "0x10")
    ∷ cfg (codes "log") (codes "file") default_log_file
    ∷ cfg (codes "log") (codes "minLevel") (codes "0")
    ∷ cfg (codes "log") (codes "maxLevel") (codes "10")
    ∷ cfg (codes "uart") (codes "port") (codes "/dev/ttyACM0,115200,N,1,8")
    ∷ cfg (codes "network") (codes "ipaddr") (codes "10.10.10.100:5000")
    ∷ cfg (codes "network") (codes "udpport") (codes "5000")
    ∷ cfg (codes "network") (codes "timeout") (codes "3")
    ∷ cfg (codes "network") (codes "retries") (codes "3")
    ∷ cfg (codes "network") (codes "secret") (codes "androidex")
    ∷ cfg (codes "network") (codes "selectTimeout") (codes "-1")
    ∷ cfg (codes "network") (codes "type") (codes "0x24")
    ∷ []

-- `strcmp(a, b) == 0`
abbrev pub same_text : List ℕ → List ℕ → Bool
same_text [] [] = true
same_text [] (d ∷ b) = false
same_text (c ∷ a) [] = false
same_text (c ∷ a) (d ∷ b) = c == d && same_text a b

abbrev pub is_row : List ℕ → List ℕ → Row → Bool
is_row section name row = same_text section row.section && same_text name row.name

-- the chain of `else if`: the first row of this section and name is set
unfoldable pub handler : List ℕ → List ℕ → List ℕ → List Row → List Row
handler section name value [] = []
handler section name value (row ∷ rows) =
    let others = handler section name value rows in
    if is_row section name row then record row { value = some value } ∷ rows else row ∷ others

unfoldable pub clear_config : List Row → List Row
clear_config rows = map (λ (row : Row). record row { value = none }) rows

unfoldable pub default_config : List Row → List Row
default_config rows = map (λ (row : Row). record row { value = some row.default }) rows

-- one write for each row; the file behind them
unfoldable pub save_config : Bool → List Row → Option (List ℕ) → Option (Option (List ℕ))
save_config writable [] file = some file
save_config writable (row ∷ rows) file =
    write_profile_string row.section row.name row.value file writable >>= λ (file', done).
    save_config writable rows file'

-- the field of a row
unfoldable pub field : List ℕ → List ℕ → List Row → Option (List ℕ)
field section name [] = none
field section name (row ∷ rows) =
    let further = field section name rows in if is_row section name row then row.value else further

-- the calls of `handler`, in order
abbrev pub handle_all : List (List ℕ × List ℕ × List ℕ) → List Row → List Row
handle_all [] rows = rows
handle_all ((section, name, value) ∷ calls) rows =
    handle_all calls (handler section name value rows)

-- the numbers that are read from the fields
pub record Numbers : Type 0 where
  pub flag : ℤ
  pub min_level : ℕ
  pub max_level : ℕ
  pub select_timeout : ℤ
  pub udpport : ℕ
  pub net_ip : ℕ
  pub net_port : ℕ

-- `StrToInt`, which gives 0 for a null pointer
abbrev pub number_of : Option (List ℕ) → Option ℤ
number_of none = some (pos 0)
number_of (some text) = str_to_int text

unfoldable pub read_numbers : (List ℕ → ℕ) → List Row → Option Numbers
read_numbers atoi rows = do
  flag ← number_of (field (codes "log") (codes "flag") rows)
  min_level ← number_of (field (codes "log") (codes "minLevel") rows)
  max_level ← number_of (field (codes "log") (codes "maxLevel") rows)
  select_timeout ← number_of (field (codes "network") (codes "selectTimeout") rows)
  udpport ← number_of (field (codes "network") (codes "udpport") rows)
  (ip, port) ← parse_ip_addr atoi (field (codes "network") (codes "ipaddr") rows)
  some (record {
    flag = flag;
    min_level = unsigned_short min_level;
    max_level = unsigned_short max_level;
    select_timeout = select_timeout;
    udpport = if unsigned_short udpport == 0 then 5000 else unsigned_short udpport;
    net_ip = ip;
    net_port = port;
  })

-- The fields, the numbers, the file, and the result TRUE or FALSE.
unfoldable pub load_psu_config :
    (List ℕ → ℕ)
    → Bool
    → Option (List (List ℕ × List ℕ × List ℕ))
    → List Row
    → Option (List ℕ)
    → Option (List Row × Numbers × Option (List ℕ) × Bool)
load_psu_config atoi writable none rows file = do
  let defaults = default_config rows
  file' ← save_config writable defaults file
  numbers ← read_numbers atoi defaults
  some (defaults, numbers, file', false)
load_psu_config atoi writable (some calls) rows file =
    let handled = handle_all calls rows in
    read_numbers atoi handled >>= λ numbers. some (handled, numbers, file, true)
