-- ===== src/Log.antt =====
-- The levels, modules and lock of src/xLogMessage.c. A thread that waits for a lock which it holds
-- itself waits for ever, and a shift by 32 or more is undefined: both are `none`.
pub mod Lock
pub mod Filter
pub mod Report
mod Tests
use psuart.Prelude.{
  ℕ, ◌+◌, ◌-◌, ◌*◌, ◌/◌, ◌%◌, ◌^◌, Option, some, none, ◌>>=◌, Bool, true, false, not, ◌&&◌, ◌||◌,
  leb, ltb, ◌==◌, if◌then◌else◌, bit_and, bit_or, u16, u32, add32, sub32,
}

-- `log_signle`, `MinLogLevel`, `MaxLogLevel` and `LogModule`
pub record Log : Type 0 where
  pub log_signle : ℕ
  pub min_log_level : ℕ
  pub max_log_level : ℕ
  pub log_module : ℕ

-- `InitLogMessage`, and `DeleteLogMessage`, whose body is the same
abbrev pub init_log_message : Log
init_log_message = record {
  log_signle = 0;
  min_log_level = 0;
  max_log_level = 255;
  log_module = 0xffffffff;
}

-- `LockLogLevel(TRUE)`
unfoldable pub lock_wait : Log → Option Log
lock_wait st =
    if ltb 0 st.log_signle then none else some (record st { log_signle = add32 st.log_signle 1 })

-- `LockLogLevel(FALSE)`
unfoldable pub lock_try : Log → Log × Bool
lock_try st =
    if st.log_signle == 0
    then (record st { log_signle = add32 st.log_signle 1 }, true)
    else (st, false)

unfoldable pub unlock_log_level : Log → Log × Bool
unlock_log_level st =
    if ltb 0 st.log_signle
    then (record st { log_signle = sub32 st.log_signle 1 }, true)
    else (st, false)

unfoldable pub get_max_log_level : Log → Option (Log × ℕ)
get_max_log_level st = do held ← lock_wait st; some ((unlock_log_level held).0, held.max_log_level)

unfoldable pub get_min_log_level : Log → Option (Log × ℕ)
get_min_log_level st = do held ← lock_wait st; some ((unlock_log_level held).0, held.min_log_level)

unfoldable pub set_log_level : Log → ℕ → ℕ → Option Log
set_log_level st a_min_level a_max_level = do
  held ← lock_wait st
  some
      (unlock_log_level (record held {
        max_log_level = if ltb a_max_level a_min_level then a_min_level else a_max_level;
        min_log_level = if ltb a_min_level a_max_level then a_min_level else a_max_level;
      })).0

unfoldable pub get_log_module : Log → Option (Log × ℕ)
get_log_module st = do held ← lock_wait st; some ((unlock_log_level held).0, held.log_module)

unfoldable pub set_log_module : Log → ℕ → Option Log
set_log_module st a_log_module = do
  held ← lock_wait st
  some (unlock_log_level (record held { log_module = a_log_module })).0

-- `LM_FLAG(x)`: an `int` is shifted, which is undefined if 2 ^ x is not an `int`.
unfoldable pub lm_flag : ℕ → Option ℕ
lm_flag x = if ltb x 31 then some (2 ^ x) else none

unfoldable pub add_log_module : Log → ℕ → Option Log
add_log_module st a_module = do
  held ← lock_wait st
  flag ← lm_flag a_module
  some (unlock_log_level (record held { log_module = bit_or held.log_module flag })).0

-- `~ LM_FLAG(aModule)` has the other 31 bits.
unfoldable pub remove_log_module : Log → ℕ → Option Log
remove_log_module st a_module = do
  held ← lock_wait st
  flag ← lm_flag a_module
  some
      (unlock_log_level
        (record held { log_module = bit_and held.log_module (2 ^ 32 - 1 - flag) })).0

abbrev pub lm_system : ℕ
lm_system = 0

abbrev pub lm_error : ℕ
lm_error = 0xffff

abbrev pub lm_warning : ℕ
lm_warning = 0xfffe

-- `ltype`
abbrev pub is_special : ℕ → Bool
is_special level = level == lm_system || (level == lm_error || level == lm_warning)

-- `lLevel > GetMaxLogLevel() || lLevel < GetMinLogLevel()`: the second call is made only if the
-- first comparison fails.
unfoldable pub out_of_range : Log → ℕ → Option (Log × Bool)
out_of_range st level = get_max_log_level st >>= λ at_max.
    if ltb at_max.1 level
    then some (at_max.0, true)
    else (get_min_log_level at_max.0 >>= λ at_min. some (at_min.0, ltb level at_min.1))

-- `(1 << lModule) & GetLogModule()`
unfoldable pub module_is_on : Log → ℕ → Option (Log × Bool)
module_is_on st l_module = do
  flag ← lm_flag l_module
  got ← get_log_module st
  some (got.0, not (bit_and flag got.1 == 0))

-- The tests of `LogMessage` with a format: whether the message goes to the callback.
unfoldable pub log_message : Log → ℕ → Option (Log × Bool)
log_message st level =
    let word = u32 level in
    let l_level = u16 word in
    let shown = λ (from : Log). module_is_on from (word / 2 ^ 16) in
    if is_special l_level
    then shown st
    else (out_of_range st l_level >>= λ got. if got.1 then some (got.0, false) else shown got.0)
