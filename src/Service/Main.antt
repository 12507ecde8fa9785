-- ===== src/Service/Main.antt =====
-- `main` of src/psuservice.c: the arguments, the configuration, the log file's directory, the fork, and
-- the loop. Console and log output is left out. A text that an array has no room for, or a null pointer
-- that is read, is a fault, `none`.
pub mod Startup
pub mod Argument
pub mod Defaults
pub mod Serves
mod Tests
use psuart.Prelude.{
  ℕ, zero, suc, ◌+◌, ◌-◌, ◌%◌, ◌^◌, List, [], ◌∷◌, ◌++◌, Option, some, none, ◌>>=◌, Bool, true,
  false, ◌&&◌, ltb, leb, ◌==◌, if◌then◌else◌, length,
}
use psuart.Prelude.Int.{ℤ, pos, negsuc}
use psuart.Utils.Serial.{codes}
use psuart.Utils.Text.{extract_file_path}
use psuart.Utils.CommandLine.{
  equal_text, skip_switch, name_and_value, check_cmd_line, next_value_of, get_cmd_param_value,
}
use psuart.Rader.State.{initial, rader_init}
use psuart.Service.{Service, Effect}
use psuart.Service.Config.{Row, Numbers, psuservice_def, handler, field, load_psu_config}
use psuart.Service.Turn.{Answers}
use psuart.Service.Loop.{serve}

-- what stands behind the colon, or else the next argument's
abbrev pub value_of : Option (List ℕ) → List (List ℕ) → List ℕ
value_of none argv = next_value_of argv
value_of (some text) argv = text

-- The texts that `GetCmdParamValue` copies to `paramValue`, in order: a value for each argument up to the
-- one that has the name. The arguments behind that one are not looked at, but for the value of one
-- with no colon.
unfoldable pub copied_values : List (List ℕ) → List ℕ → Option (List (List ℕ))
copied_values [] param = some []
copied_values (str ∷ argv) param =
    let rest = copied_values argv param in
    name_and_value (skip_switch str) >>= λ (sw, value).
    if equal_text sw param
    then some (value_of value argv ∷ [])
    else (rest >>= λ later. some (value_of value argv ∷ later))

-- each fits an array of this size with its zero
abbrev pub all_fit : ℕ → List (List ℕ) → Bool
all_fit size [] = true
all_fit size (text ∷ texts) = ltb (length text) size && all_fit size texts

-- `GetCmdParamValue` with an array of this size as destination
unfoldable pub param_into : ℕ → List (List ℕ) → List ℕ → Option (List ℕ × Bool)
param_into size argv param = copied_values argv param >>= λ texts.
    if all_fit size texts then get_cmd_param_value argv param else none

-- MAX_PATH, and the size of `tmp`
abbrev pub max_path : ℕ
max_path = 260

abbrev pub tmp_size : ℕ
tmp_size = 128

-- the configuration file's name
unfoldable pub config_name : List (List ℕ) → Option (List ℕ)
config_name argv = param_into max_path argv (codes "config") >>= λ (fn, given).
    some (if given then fn else codes "/etc/psu/psuserver.conf")

-- `strcpy(psus_data.log_file, tmp)`: the field is null, or has room for the text that it holds.
unfoldable pub set_log_file : List ℕ → List Row → Option (List Row)
set_log_file tmp rows = elim (field (codes "log") (codes "file") rows) [
  | none ↦ none
  | some old ↦
      if leb (length tmp) (length old)
      then some (handler (codes "log") (codes "file") tmp rows)
      else none
]

-- the argument `log`
unfoldable pub take_log_param : List (List ℕ) → List Row → Option (List Row)
take_log_param argv rows = param_into tmp_size argv (codes "log") >>= λ (tmp, given).
    if given then set_log_file tmp rows else some rows

-- the directory that is made for the log file
unfoldable pub log_path : List Row → Option (List ℕ)
log_path rows = elim (field (codes "log") (codes "file") rows) [
  | none ↦ none
  | some file ↦
      let path = extract_file_path file in if ltb (length path) tmp_size then some path else none
]

-- an `int` as a pattern of 32 bits
abbrev pub int_bits : ℤ → ℕ
int_bits (pos n) = n % 2 ^ 32
int_bits (negsuc n) = 2 ^ 32 - 1 - n % 2 ^ 32

-- `psus_data` once it is configured; no descriptor is open yet
abbrev pub configured : List Row → Numbers → Service
configured rows numbers = record {
  uart_fd = 0;
  tcp_fd = 0;
  udp_fd = 0;
  tcp_connected = 0;
  select_timeout = int_bits numbers.select_timeout;
  net_ip = numbers.net_ip;
  net_port = numbers.net_port;
  udpport = numbers.udpport;
  uart_port = field (codes "uart") (codes "port") rows;
  rader = initial;
}

-- What `main` takes from the system: its files, `fork`, the array that the fifo gets, and the answers
-- of the turns.
pub record World : Type 0 where
  pub atoi : List ℕ → ℕ
  pub ini_parse : List ℕ → Option (List (List ℕ × List ℕ × List ℕ))
  pub file : List ℕ → Option (List ℕ)
  pub writable : List ℕ → Bool
  pub default_log_file : List ℕ
  pub fork : ℕ
  pub signed : Bool
  pub rader_buf : List ℕ
  pub turns : List Answers

-- How it goes on: it returns at once, in the parent or because `fork` has failed, or the loop has run.
pub data Outcome : Type 0 where
  returned : ℕ → Outcome
  looped : Service → List Effect → Bool → Outcome

-- `rader_init` and the loop
unfoldable pub run_service : World → Service → Option Outcome
run_service w st =
    serve w.signed w.turns (record st { rader = rader_init w.rader_buf st.rader })
    >>= λ (st', calls, ended). some (looped st' calls ended)

-- with the argument `d`: in the child the service goes on
unfoldable pub daemon : World → Service → Option Outcome
daemon w st =
    if leb (2 ^ 31) w.fork
    then some (returned (2 ^ 32 - 1))
    else if w.fork == 0
    then run_service w st
    else some (returned 0)

-- The arguments behind the program's name are in the list. The directories made are given as well.
unfoldable pub main : World → List (List ℕ) → Option (List (List ℕ) × Outcome)
main w argv = do
  fn ← config_name argv
  (rows, numbers, file, loaded) ←
      load_psu_config w.atoi (w.writable fn) (w.ini_parse fn) (psuservice_def w.default_log_file)
        (w.file fn)
  rows' ← take_log_param argv rows
  path ← log_path rows'
  let st = configured rows' numbers
  outcome ← if check_cmd_line argv (codes "d") then daemon w st else run_service w st
  some (codes "/etc/psu" ∷ path ∷ [], outcome)
