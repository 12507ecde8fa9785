-- ===== src/Log/Tests.antt =====
-- Runs of the log of src/xLogMessage.c.
use psuart.Prelude.{
  ◌+◌, ◌*◌, ◌^◌, ◌≡◌, refl, arith, List, [], ◌∷◌, ◌++◌, take, some, none, true, false,
}
use psuart.Log.{Log, init_log_message, lock_try, unlock_log_level, log_message}
use psuart.Log.Lock.{
  IsFree, Call, max_level, change_level, remove_module, AllHaveBit, call, calls, calls-IsFree,
  call_held,
}
use psuart.Utils.Serial.{codes}
use psuart.Log.Report.{
  Callbacks, set_log_callback, heading, log_error_message, log_warning_message, log_message_text,
  reports_lem,
}
use psuart.Log.Filter.{freed, log_message_lem}

-- the log after `LockLogLevel`
abbrev taken : Log
taken = record init_log_message { log_signle = 1 }

abbrev requests : List Call
requests = change_level 9 2 ∷ remove_module 3 ∷ max_level ∷ []

requests_bits : AllHaveBit requests
requests_bits = ground arith

calls-IsFree_example : (st' : Log) × (calls init_log_message requests ≡ some st') × IsFree st'
calls-IsFree_example = calls-IsFree init_log_message requests (refl, omega arith) requests_bits

call_held_run :
    (call taken (change_level 1 2) ≡ none)
    × (lock_try taken ≡ (taken, false))
    × (unlock_log_level taken ≡ (init_log_message, true))
call_held_run = call_held taken (change_level 1 2) refl

log_message_lem_example :
    log_message init_log_message (4 * 2 ^ 16 + 300) ≡ some (freed init_log_message, false)
log_message_lem_example = log_message_lem init_log_message 300 4 refl (omega arith) (omega arith)

abbrev no_callbacks : Callbacks
no_callbacks = record { on_log_message = false; on_report_error = false; on_report_warning = false }

reports_lem_run :
    (log_error_message
        (set_log_callback true true true no_callbacks)
        (codes "a.c")
        (codes "7")
        (codes "f")
        (codes "lost")
      ≡ some
          (take 2047 (heading "ERROR" (codes "a.c") (codes "7") (codes "f") ++ codes "lost") ∷ []))
    × (log_warning_message
          (set_log_callback true true true no_callbacks)
          (codes "a.c")
          (codes "7")
          (codes "f")
          (codes "lost")
        ≡ some (
            take 2047 (heading "WARNING" (codes "a.c") (codes "7") (codes "f") ++ codes "lost")
            ∷ []))
    × (log_message_text
          (set_log_callback true true true no_callbacks)
          init_log_message
          (4 * 2 ^ 16 + 300)
          (codes "lost")
        ≡ some (freed init_log_message, []))
reports_lem_run =
    reports_lem no_callbacks (codes "a.c") (codes "7") (codes "f") (codes "lost") init_log_message
      (freed init_log_message) (4 * 2 ^ 16 + 300) false (omega arith) (omega arith)
      log_message_lem_example
