-- ===== src/Utils/Descriptor.antt =====
-- The functions of src/utils.c on an open descriptor: SetNonblocking, Setblocking, com_recive and
-- com_write. The answers of the system are parameters; a negative one has its top bit set.
use psuart.Prelude.{
  ℕ, ◌-◌, ◌*◌, ◌^◌, ◌≡◌, ◌≤◌, ◌<◌, refl, arith, List, [], Option, some, none, Bool, true, false,
  not, leb, ltb, ◌>>=◌, ◌==◌, if◌then◌else◌, length, bit_or, lt→ltb, ◌⊎◌, inl, inr, Bool-cases,
  ==_iff,
}
use psuart.Utils.Serial.{is_open, minus_one, clear}

-- The flags that F_SETFL is given, if F_GETFL has succeeded, and whether both calls have.
abbrev pub Changed : Type 0
Changed = Option ℕ × Bool

-- `opts` is what F_GETFL gives; `sets` says whether F_SETFL succeeds.
abbrev pub change_flags : ℕ → Bool → ℕ → Changed
change_flags opts sets changed = if ltb opts (2 ^ 31) then (some changed, sets) else (none, false)

unfoldable pub set_nonblocking : ℕ → ℕ → Bool → Changed
set_nonblocking o_nonblock opts sets = change_flags opts sets (bit_or opts o_nonblock)

unfoldable pub set_blocking : ℕ → ℕ → Bool → Changed
set_blocking o_nonblock opts sets = change_flags opts sets (clear opts o_nonblock)

-- What `com_recive` gives: its result, the bytes stored, and whether `tcflush` was called.
pub record Received : Type 0 where
  pub ret : ℕ
  pub bytes : List ℕ
  pub flushed : Bool

-- -1, and nothing done
abbrev pub refused : Received
refused = record { ret = minus_one; bytes = []; flushed = false }

-- The wait in microseconds as a pattern of 32 bits, or without end. `timeout*1000` is a product of
-- `int`: one that `int` does not hold is undefined.
unfoldable pub wait_time : ℕ → Option (Option ℕ)
wait_time timeout =
    if timeout == minus_one
    then some none
    else if ltb (timeout * 1000) (2 ^ 31)
    then some (some (timeout * 1000))
    else if leb ((2 ^ 32 - timeout) * 1000) (2 ^ 31)
    then some (some (2 ^ 32 - (2 ^ 32 - timeout) * 1000))
    else none

-- What the system answers: the result of `select` and whether the descriptor is still in the set, and
-- what `read` gives for a size, which is `none` if it fails.
pub record Line : Type 0 where
  pub select : Option ℕ → ℕ × Bool
  pub read : ℕ → Option (List ℕ)

-- what `read` stores and returns
abbrev pub taken : Option (List ℕ) → Received
taken none = refused
taken (some bytes) = record { ret = length bytes; bytes = bytes; flushed = false }

-- the branches on the result of `select`
unfoldable pub after_select : Line → ℕ → ℕ × Bool → Received
after_select line max_len (r, there) =
    if r == minus_one
    then record { ret = r; bytes = []; flushed = true }
    else if r == 0
    then record { ret = r; bytes = []; flushed = true }
    else if there
    then taken (line.read max_len)
    else refused

-- FD_SET on a number that the set has no room for is undefined.
unfoldable pub com_recive : Line → ℕ → ℕ → ℕ → Option Received
com_recive line fd max_len timeout =
    if not (is_open fd)
    then some refused
    else if ltb fd 1024
    then (wait_time timeout >>= λ wait. some (after_select line max_len (line.select wait)))
    else none

-- the bytes handed to `write`, if any, and the result; `written` is what `write` gives
unfoldable pub com_write : ℕ → List ℕ → ℕ → Option (List ℕ) × ℕ
com_write fd buf written = if not (is_open fd) then (none, minus_one) else (some buf, written)

-- `read` stores at most as many bytes as it is asked for.
abbrev pub ReadsAtMost : Line → Type 0
ReadsAtMost line = (size : ℕ) (bytes : List ℕ) → line.read size ≡ some bytes → length bytes ≤ size

-- what a caller is told
abbrev pub IsReport : ℕ → Received → Type 0
IsReport max_len out =
    ((out.ret ≡ length out.bytes) × (length out.bytes ≤ max_len))
    ⊎ ((out.ret ≡ minus_one) × (out.bytes ≡ []))

taken-IsReport :
    (line : Line) (max_len : ℕ) (got : Option (List ℕ))
    → ReadsAtMost line
    → line.read max_len ≡ got
    → IsReport max_len (taken got)
taken-IsReport line max_len none bound e = inr (refl, refl)
taken-IsReport line max_len (some bytes) bound e = inl (refl, bound max_len bytes e)

after_select-IsReport :
    (line : Line) (max_len r : ℕ) (there : Bool)
    → ReadsAtMost line
    → IsReport max_len (after_select line max_len (r, there))
unfolding after_select
after_select-IsReport line max_len r there bound = elim (Bool-cases (r == minus_one)) [
  | inl failed ↦ rw (after_select, failed) (inr ((==_iff r minus_one).0 failed, refl))
  | inr fine ↦ elim (Bool-cases (r == 0)) [
    | inl late ↦ rw (after_select, fine, late) (inl ((==_iff r 0).0 late, omega arith))
    | inr ready ↦ elim (Bool-cases there) [
      | inl set ↦
          rw (after_select, fine, ready, set)
            (taken-IsReport line max_len (line.read max_len) bound refl)
      | inr unset ↦ rw (after_select, fine, ready, unset) (inr (refl, refl))
    ]
  ]
]

-- On a descriptor below 1024, open or not, with a time that can be waited, whatever `select` and `read`
-- give: the result is the number of
-- the bytes stored, which fit the buffer, or -1 with none stored.
pub com_recive-IsReport :
    (line : Line) (fd max_len timeout : ℕ) {wait : Option ℕ}
    → fd < 1024
    → wait_time timeout ≡ some wait
    → ReadsAtMost line
    → (out : Received) × (com_recive line fd max_len timeout ≡ some out) × IsReport max_len out
unfolding com_recive
com_recive-IsReport line fd max_len timeout {wait} fits known bound =
    elim (Bool-cases (is_open fd)) [
      | inr shut ↦ (refused, rw (com_recive, shut), inr (refl, refl))
      | inl there ↦
          let answer = line.select wait in
          (
            after_select line max_len answer,
            rw (com_recive, there, lt→ltb fd 1024 fits, known),
            after_select-IsReport line max_len answer.0 answer.1 bound,
          )
    ]
