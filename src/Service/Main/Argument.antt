-- ===== src/Service/Main/Argument.antt =====
-- The argument `-log:` of `main`, which gives the log file another name.
use psuart.Prelude.{
  ℕ, ◌<◌, ◌≤◌, ◌≡◌, refl, sym, ◌∙◌, arith, List, [], ◌∷◌, ◌++◌, some, ◌>>=◌, true, false, length,
  ltb, leb, lt→ltb, Option-cases, inl, inr,
}
use psuart.Utils.Serial.{codes}
use psuart.Utils.Text.Compare.{IsCString}
use psuart.Utils.Split.{cut_at}
use psuart.Utils.CommandLine.{
  equal_text, skip_switch, name_and_value, check_cmd_line, get_cmd_param_value, param_loop,
}
use psuart.Utils.CommandLine.Switch.{equal_text_lem}
use psuart.Service.Config.{Row, Numbers, psuservice_def, handler, handle_all, field, read_numbers}
use psuart.Service.Config.Rows.{field-handler_other}
use psuart.Service.Main.{
  copied_values, param_into, config_name, set_log_file, take_log_param, World, run_service, main,
}
use psuart.Service.Main.Startup.{log_file_of, log_field, go_on, main_configured}
use psuart.Service.Main.Serves.{default_config_name}

abbrev pub typed_log : List ℕ → List ℕ
typed_log name = codes "-log:" ++ name

abbrev pub log_line : List ℕ → List (List ℕ × List ℕ × List ℕ)
log_line name = (codes "log", codes "file", name) ∷ []

-- the configuration files, with a line for this log file behind the others
abbrev pub with_log : World → List ℕ → World
with_log w name = record w {
  ini_parse = λ fn. w.ini_parse fn >>= λ calls. some (calls ++ log_line name);
}

handle_all-append :
    (calls more : List (List ℕ × List ℕ × List ℕ)) (rows : List Row)
    → handle_all (calls ++ more) rows ≡ handle_all more (handle_all calls rows)
handle_all-append [] more rows = refl
handle_all-append ((section, name, value) ∷ calls) more rows =
    handle_all-append calls more (handler section name value rows)

-- the numbers do not depend on the log file
read_numbers-log :
    (atoi : List ℕ → ℕ) (name : List ℕ) (rows : List Row)
    → read_numbers atoi (handler (codes "log") (codes "file") name rows) ≡ read_numbers atoi rows
unfolding read_numbers
read_numbers-log atoi name rows = rw (
  read_numbers,
  field-handler_other (codes "log") (codes "file") (codes "log") (codes "flag") name rows refl,
  field-handler_other (codes "log") (codes "file") (codes "log") (codes "minLevel") name rows refl,
  field-handler_other (codes "log") (codes "file") (codes "log") (codes "maxLevel") name rows refl,
  field-handler_other (codes "log") (codes "file") (codes "network") (codes "selectTimeout") name
      rows refl,
  field-handler_other (codes "log") (codes "file") (codes "network") (codes "udpport") name rows
      refl,
  field-handler_other (codes "log") (codes "file") (codes "network") (codes "ipaddr") name rows
      refl,
)

-- what the argument is for the three questions that `main` asks
config_name-log :
    (name : List ℕ)
    → length name < 128
    → config_name (typed_log name ∷ []) ≡ some default_config_name
unfolding config_name param_into copied_values get_cmd_param_value param_loop name_and_value
    skip_switch equal_text cut_at
config_name-log name short = let fits : ltb (length name) 260 ≡ true = ground arith in rw fits

log_value :
    (name : List ℕ) → get_cmd_param_value (typed_log name ∷ []) (codes "log") ≡ some (name, true)
unfolding get_cmd_param_value param_loop name_and_value skip_switch equal_text cut_at
log_value name = refl

set_log_file_lem :
    (name old : List ℕ) (rows : List Row)
    → field (codes "log") (codes "file") rows ≡ some old
    → length name ≤ length old
    → set_log_file name rows ≡ some (handler (codes "log") (codes "file") name rows)
unfolding set_log_file
set_log_file_lem name old rows set room =
    let fits : leb (length name) (length old) ≡ true = ground arith in rw (set_log_file, set, fits)

take_log_param-log :
    (name old : List ℕ) (rows : List Row)
    → length name < 128
    → field (codes "log") (codes "file") rows ≡ some old
    → length name ≤ length old
    → take_log_param (typed_log name ∷ []) rows
      ≡ some (handler (codes "log") (codes "file") name rows)
unfolding take_log_param param_into copied_values name_and_value skip_switch equal_text cut_at
take_log_param-log name old rows short set room =
    rw (lt→ltb (length name) 128 short, log_value name, set_log_file_lem name old rows set room)

check_cmd_line-log :
    (name : List ℕ) → IsCString name → check_cmd_line (typed_log name ∷ []) (codes "d") ≡ false
unfolding check_cmd_line skip_switch
check_cmd_line-log name text = rw (
    equal_text_lem (codes "log:" ++ name) (codes "d") (refl, (refl, (refl, (refl, text))))
      (refl, tt))

go_on-log :
    (w : World) (name old : List ℕ) (rows : List Row) (numbers : Numbers)
    → IsCString name
    → length name < 128
    → field (codes "log") (codes "file") rows ≡ some old
    → length name ≤ length old
    → go_on w (typed_log name ∷ []) rows numbers
      ≡ go_on (with_log w name) [] (handler (codes "log") (codes "file") name rows) numbers
unfolding take_log_param param_into copied_values get_cmd_param_value param_loop check_cmd_line
    run_service
go_on-log w name old rows numbers text short set room =
    rw (take_log_param-log name old rows short set room, check_cmd_line-log name text)

same_start :
    (w : World) (name old : List ℕ) (calls : List (List ℕ × List ℕ × List ℕ))
    → IsCString name
    → field (codes "log") (codes "file") (handle_all calls (psuservice_def w.default_log_file))
      ≡ some old
    → length name < 128
    → length name ≤ length old
    → (read_numbers w.atoi (handle_all calls (psuservice_def w.default_log_file)) >>= λ numbers.
        go_on w
          (typed_log name ∷ [])
          (handle_all calls (psuservice_def w.default_log_file))
          numbers)
      ≡ (read_numbers w.atoi
            (handle_all (calls ++ log_line name) (psuservice_def w.default_log_file))
          >>= λ numbers.
              go_on
                (with_log w name)
                []
                (handle_all (calls ++ log_line name) (psuservice_def w.default_log_file))
                numbers)
same_start w name old calls text set short room =
    let def = psuservice_def w.default_log_file in
    let rows = handle_all calls def in
    rw (handle_all-append calls (log_line name) def, read_numbers-log w.atoi name rows)
      (elim (Option-cases (read_numbers w.atoi rows)) [
        | inl fault ↦ rw fault
        | inr (numbers, e) ↦ rw e (go_on-log w name old rows numbers text short set room)
      ])

-- With one argument `-log:` and a name of less than 128 bytes, none of them zero, which is no longer than
-- the log file's name that the default configuration file sets: `main` does what it does with no
-- argument when the configuration file has a last line that sets the name.
pub main_log_argument :
    (w : World) (name old : List ℕ) (calls : List (List ℕ × List ℕ × List ℕ))
    → IsCString name
    → w.ini_parse default_config_name ≡ some calls
    → log_file_of calls ≡ some old
    → length name < 128
    → length name ≤ length old
    → main w (typed_log name ∷ []) ≡ main (with_log w name) []
unfolding config_name param_into copied_values get_cmd_param_value param_loop
main_log_argument w name old calls text parsed set short room =
    let def = psuservice_def w.default_log_file in
    let rows = handle_all calls def in
    let set_rows = log_field w.default_log_file calls ∙ set in
    let argued =
      main_configured w (typed_log name ∷ []) default_config_name calls (config_name-log name short)
        parsed in
    let configured : w.ini_parse default_config_name >>= (λ calls'. some (calls' ++ log_line name))
        ≡ some (calls ++ log_line name) =
      rw parsed in
    let plain =
      main_configured (with_log w name) [] default_config_name (calls ++ log_line name) refl
        configured in
    argued ∙ same_start w name old calls text set_rows short room ∙ sym plain
