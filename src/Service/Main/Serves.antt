-- ===== src/Service/Main/Serves.antt =====
-- How `main` comes to serve: the arguments, the configuration and the first turns.
use psuart.Prelude.{
  ℕ, ◌<◌, ◌≡◌, refl, ◌∙◌, ◌⊎◌, inl, inr, List, [], ◌∷◌, Option, some, ◌>>=◌, Bool, false, length,
  lt→ltb,
}
use psuart.Utils.Serial.{codes}
use psuart.Utils.Text.{extract_file_path}
use psuart.Utils.CommandLine.{
  equal_text, skip_switch, name_and_value, check_cmd_line, next_value_of, get_cmd_param_value,
}
use psuart.Rader.State.{rader_init}
use psuart.Service.{Service, Effect}
use psuart.Service.Config.{
  Row, Numbers, psuservice_def, handle_all, field, read_numbers, load_psu_config,
}
use psuart.Service.Turn.{Answers}
use psuart.Service.Loop.{serve}
use psuart.Service.Bridge.{run}
use psuart.Service.Bridge.Relation.{Implements, AreEnds, AreOrderly}
use psuart.Service.Bridge.Start.{idle_bridge, AreOpened, serve_from_start}
use psuart.Service.Main.{
  copied_values, param_into, config_name, take_log_param, log_path, configured, World, Outcome,
  looped, run_service, daemon, main,
}
use psuart.Service.Main.Startup.{log_file_of, log_field, go_on}

-- no argument, or just `-d`, and the child of the fork
abbrev pub IsPlainStart : World → List (List ℕ) → Type 0
IsPlainStart w argv = (argv ≡ []) ⊎ ((argv ≡ codes "-d" ∷ []) × (w.fork ≡ 0))

-- the configuration file when no other is given
abbrev pub default_config_name : List ℕ
default_config_name = codes "/etc/psu/psuserver.conf"

-- what follows the configuration then
abbrev plainly : World → List Row → Numbers → Option (List (List ℕ) × Outcome)
plainly w rows numbers = do
  path ← log_path rows
  outcome ← run_service w (configured rows numbers)
  some (codes "/etc/psu" ∷ path ∷ [], outcome)

starts_plain :
    (w : World) (argv : List (List ℕ)) (rows : List Row) (numbers : Numbers)
    → IsPlainStart w argv
    → (config_name argv ≡ some default_config_name)
      × (go_on w argv rows numbers ≡ plainly w rows numbers)
unfolding config_name param_into copied_values take_log_param get_cmd_param_value check_cmd_line
    equal_text name_and_value skip_switch next_value_of daemon
starts_plain w argv rows numbers (inl e) = rw e (refl, refl)
starts_plain w argv rows numbers (inr (e, child)) = rw (e, child) (refl, refl)

log_path_lem :
    (rows : List Row) (file : List ℕ)
    → field (codes "log") (codes "file") rows ≡ some file
    → length (extract_file_path file) < 128
    → log_path rows ≡ some (extract_file_path file)
unfolding log_path
log_path_lem rows file set short =
    rw (log_path, set, lt→ltb (length (extract_file_path file)) 128 short)

main_goes_on :
    (w : World) (argv : List (List ℕ)) (fn : List ℕ) (calls : List (List ℕ × List ℕ × List ℕ))
    {numbers : Numbers}
    → config_name argv ≡ some fn
    → w.ini_parse fn ≡ some calls
    → read_numbers w.atoi (handle_all calls (psuservice_def w.default_log_file)) ≡ some numbers
    → main w argv ≡ go_on w argv (handle_all calls (psuservice_def w.default_log_file)) numbers
unfolding main load_psu_config
main_goes_on w argv fn calls named parsed read = rw (named, parsed, read)

run_service_lem :
    (w : World) (st : Service) {turns : List Answers} {st' : Service} {calls : List Effect}
    {ended : Bool}
    → w.turns ≡ turns
    → serve w.signed turns (record st { rader = rader_init w.rader_buf st.rader })
      ≡ some (st', calls, ended)
    → run_service w st ≡ some (looped st' calls ended)
unfolding run_service
run_service_lem w st same e = rw (run_service, same, e)

served :
    (w : World) (rows : List Row) (numbers : Numbers) {path : List ℕ} {outcome : Outcome}
    → log_path rows ≡ some path
    → run_service w (configured rows numbers) ≡ some outcome
    → plainly w rows numbers ≡ some (codes "/etc/psu" ∷ path ∷ [], outcome)
served w rows numbers e f = rw (e, f)

-- `main` as a whole, with no argument or in the child that `-d` makes. The default configuration file
-- loads and its numbers can be read, it sets a log file whose directory has less than 128 bytes, and in
-- the first turn the port that it names opens and the datagram socket is made; the radar's array has
-- its 8192 bytes. Descriptors are below 1024, and in every turn a socket is made, `connect` and `select`
-- do not fail, nothing is typed, and the reads give at most 4096 bytes, and 4093 from the network. Then
-- `main` makes the two directories, gets to the loop and runs through all turns; it writes and closes
-- exactly what the bridge does, starting idle.
pub main_serves :
    (uart udp : ℕ) (w : World) (argv : List (List ℕ)) (calls : List (List ℕ × List ℕ × List ℕ))
    (numbers : Numbers) (file : List ℕ) (a : Answers) (turns : List Answers)
    → IsPlainStart w argv
    → w.ini_parse default_config_name ≡ some calls
    → read_numbers w.atoi (handle_all calls (psuservice_def w.default_log_file)) ≡ some numbers
    → log_file_of calls ≡ some file
    → length (extract_file_path file) < 128
    → w.turns ≡ a ∷ turns
    → AreEnds uart udp
    → AreOrderly (a ∷ turns)
    → AreOpened a
        (configured (handle_all calls (psuservice_def w.default_log_file)) numbers)
        uart
        udp
    → length w.rader_buf ≡ 8192
    → (st' : Service) × (main w argv
        ≡ some (
          codes "/etc/psu" ∷ extract_file_path file ∷ [],
          looped st' (run uart udp (a ∷ turns) idle_bridge).1 false,
        ))
      × Implements uart udp (run uart udp (a ∷ turns) idle_bridge).0 st'
main_serves uart udp w argv calls numbers file a turns plain parsed read set short same ends orderly
      opened whole =
    let rows = handle_all calls (psuservice_def w.default_log_file) in
    let (named, goes) = starts_plain w argv rows numbers plain in
    let path = log_path_lem rows file (log_field w.default_log_file calls ∙ set) short in
    let (st', e, i) =
      serve_from_start uart udp w.signed a turns w.rader_buf (configured rows numbers) ends orderly
        opened whole in
    (
      st',
      main_goes_on w argv default_config_name calls named parsed read
          ∙ goes
          ∙ served w rows numbers path (run_service_lem w (configured rows numbers) same e),
      i,
    )
