-- ===== src/Service/Main/Startup.antt =====
-- What stands between the configuration and the loop of `main`.
use psuart.Prelude.{
  ℕ, ◌≡◌, refl, inl, inr, List, [], ◌∷◌, Option, some, none, ◌>>=◌, if◌then◌else◌, Option-cases,
}
use psuart.Utils.Serial.{codes}
use psuart.Utils.CommandLine.{check_cmd_line}
use psuart.Service.Config.{
  Row, Numbers, psuservice_def, handle_all, field, read_numbers, load_psu_config,
}
use psuart.Service.Config.Rows.{last_call, handle_all_lem}
use psuart.Service.Main.{
  config_name, take_log_param, log_path, configured, World, Outcome, run_service, daemon, main,
}

-- the log file that the calls of `handler` set
abbrev pub log_file_of : List (List ℕ × List ℕ × List ℕ) → Option (List ℕ)
log_file_of calls = last_call (codes "log") (codes "file") calls none

pub log_field :
    (default_log_file : List ℕ) (calls : List (List ℕ × List ℕ × List ℕ))
    → field (codes "log") (codes "file") (handle_all calls (psuservice_def default_log_file))
      ≡ log_file_of calls
unfolding field
log_field default_log_file calls =
    handle_all_lem (codes "log") (codes "file") calls (psuservice_def default_log_file) refl

-- what follows once the configuration is there
abbrev pub go_on : World → List (List ℕ) → List Row → Numbers → Option (List (List ℕ) × Outcome)
go_on w argv rows numbers = do
  rows' ← take_log_param argv rows
  path ← log_path rows'
  let st = configured rows' numbers
  outcome ← if check_cmd_line argv (codes "d") then daemon w st else run_service w st
  some (codes "/etc/psu" ∷ path ∷ [], outcome)

-- `main` behind its configuration
pub main_configured :
    (w : World) (argv : List (List ℕ)) (fn : List ℕ) (calls : List (List ℕ × List ℕ × List ℕ))
    → config_name argv ≡ some fn
    → w.ini_parse fn ≡ some calls
    → main w argv ≡ (
        read_numbers w.atoi (handle_all calls (psuservice_def w.default_log_file)) >>= λ numbers.
        go_on w argv (handle_all calls (psuservice_def w.default_log_file)) numbers)
unfolding main load_psu_config
main_configured w argv fn calls named parsed =
    elim (Option-cases
      (read_numbers w.atoi (handle_all calls (psuservice_def w.default_log_file)))) [
        | inl fault ↦ rw (named, parsed, fault)
        | inr (numbers, e) ↦ rw (named, parsed, e)
      ]
