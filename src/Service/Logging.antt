-- ===== src/Service/Logging.antt =====
-- Where the service's messages go: `_set_debug_file`, `_log_message`, `_log_error` and `_log_warning` of
-- src/psuservice.c, with the fields `flag` and `log_file` as arguments.
use psuart.Prelude.{ℕ, List, Option, Bool, ◌==◌, if◌then◌else◌, bit_or}
use psuart.Utils.Serial.{clear}
use psuart.Log.Report.{Shown, log, debug_file}

-- the new `flag`
unfoldable pub set_debug_file : ℕ → ℕ → ℕ
set_debug_file v flag = if v == 0 then clear flag debug_file else bit_or flag debug_file

-- a message goes where `flag` says
unfoldable pub log_message : List ℕ → Bool → Option (List ℕ) → ℕ → List ℕ → List Shown
log_message stamp opens log_file flag msgstr = log stamp opens log_file flag msgstr

-- an error and a warning go to the console and the file
unfoldable pub log_error : List ℕ → Bool → Option (List ℕ) → List ℕ → List Shown
log_error stamp opens log_file msgstr = log stamp opens log_file 0x11 msgstr

unfoldable pub log_warning : List ℕ → Bool → Option (List ℕ) → List ℕ → List Shown
log_warning stamp opens log_file msgstr = log stamp opens log_file 0x11 msgstr
