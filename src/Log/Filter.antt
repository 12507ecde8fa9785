-- ===== src/Log/Filter.antt =====
-- Which messages `LogMessage` shows.
use psuart.Prelude.{
  ℕ, ◌+◌, ◌*◌, ◌/◌, ◌^◌, ◌≡◌, ◌<◌, refl, arith, some, Bool, true, false, not, ◌&&◌, ◌||◌, leb, ltb,
  ◌==◌, bit_and, Bool-cases, inl, inr, u16, u32,
}
use psuart.Log.{
  Log, is_special, out_of_range, module_is_on, log_message, lm_flag, get_max_log_level,
  get_min_log_level, get_log_module, unlock_log_level, lock_wait,
}
use psuart.Log.Lock.{lock_wait_free}

-- the log with its lock free
abbrev pub freed : Log → Log
freed st = record st { log_signle = 0 }

-- a message is wanted if its level is special or lies between the two levels, and its module's bit
-- is set
abbrev pub wanted : Log → ℕ → ℕ → Bool
wanted st level m =
    (is_special level || (leb st.min_log_level level && leb level st.max_log_level))
    && not (bit_and (2 ^ m) st.log_module == 0)

module_is_on_lem :
    (st : Log) (m : ℕ)
    → st.log_signle ≡ 0
    → m < 31
    → module_is_on st m ≡ some (freed st, not (bit_and (2 ^ m) st.log_module == 0))
unfolding module_is_on lm_flag get_log_module unlock_log_level
module_is_on_lem st m free small =
    let bit : ltb m 31 ≡ true = ground arith in rw (bit, lock_wait_free st free)

out_of_range_lem :
    (st : Log) (level : ℕ)
    → st.log_signle ≡ 0
    → out_of_range st level
      ≡ some (freed st, not (leb st.min_log_level level && leb level st.max_log_level))
unfolding out_of_range get_max_log_level get_min_log_level unlock_log_level lock_wait
out_of_range_lem st level free = elim (Bool-cases (ltb st.max_log_level level)) [
  | inl above ↦
      let no : leb level st.max_log_level ≡ false = ground (arith, above) in
      let both : leb st.min_log_level level && false ≡ false = ground arith in
      rw (lock_wait_free st free, above, no, both)
  | inr below ↦
      let yes : leb level st.max_log_level ≡ true = ground (arith, below) in
      let lower : ltb level st.min_log_level ≡ not (leb st.min_log_level level && true) =
        ground arith in
      rw (lock_wait_free st free, below, yes, lower)
]

-- On a free log a message with a module below 31 is shown just when its bit is set and its level is
-- 0, 0xFFFF or 0xFFFE or lies between the two levels, bounds included; so a message of one of these three
-- levels is not shown either while its module's bit is clear. The log stays as it is and its lock free.
pub log_message_lem :
    (st : Log) (level m : ℕ)
    → st.log_signle ≡ 0
    → level < 2 ^ 16
    → m < 31
    → log_message st (m * 2 ^ 16 + level) ≡ some (freed st, wanted st level m)
unfolding log_message
log_message_lem st level m free small bit =
    let word : u32 (m * 2 ^ 16 + level) ≡ m * 2 ^ 16 + level = omega arith in
    let low : u16 (m * 2 ^ 16 + level) ≡ level = omega arith in
    let high : (m * 2 ^ 16 + level) / 2 ^ 16 ≡ m = omega arith in
    elim (Bool-cases (is_special level)) [
      | inl special ↦ rw (log_message, word, low, special, high, module_is_on_lem st m free bit)
      | inr plain ↦ elim (Bool-cases (leb st.min_log_level level && leb level st.max_log_level)) [
        | inl inside ↦ rw (
          log_message,
          word,
          low,
          plain,
          out_of_range_lem st level free,
          inside,
          high,
          module_is_on_lem (freed st) m refl bit,
        )
        | inr outside ↦ rw (log_message, word, low, plain, out_of_range_lem st level free, outside)
      ]
    ]
