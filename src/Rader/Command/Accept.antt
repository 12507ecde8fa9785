-- ===== src/Rader/Command/Accept.antt =====
-- What a packet that passes the checks does.
use psuart.Prelude.{
  ℕ, zero, suc, ◌+◌, ◌-◌, ◌<◌, ◌≡◌, refl, ap, ◌∙◌, arith, Bool, true, false, ◌&&◌, List, [], ◌∷◌,
  ◌++◌, some, leb, ◌==◌, ==_iff, if◌then◌else◌, length, take, drop, replicate, Bool-cases, inl, inr,
  leb→le, memcpy-append, load-append, take-append, length-append,
}
use psuart.RingBuffer
use psuart.Rader.State.{
  Rader, Write, zeroed, length-zeroed, drop-zeroed, zeroed_lem, rader_flag, flag_of_byte,
  rader_dlen,
}
use psuart.Rader.Command.{lower, str_case_eq, close_text, asks_close, accept_command, obey}
use psuart.Rader.Command.Find.{get_begin-cons}

-- the flag of the command that these bytes are
abbrev pub command_flag : List ℕ → ℕ
command_flag [] = 0
command_flag (c ∷ cmd) = flag_of_byte c

-- the bytes in front of the first zero
abbrev pub text_of : List ℕ → List ℕ
text_of [] = []
text_of (c ∷ cs) = if c == 0 then [] else c ∷ text_of cs

-- the same letters, in whatever case
abbrev pub same_text : List ℕ → List ℕ → Bool
same_text [] [] = true
same_text [] (d ∷ ds) = false
same_text (c ∷ cs) [] = false
same_text (c ∷ cs) (d ∷ ds) = lower c == lower d && same_text cs ds

-- whether a payload asks to close the socket
abbrev pub closes : List ℕ → Bool
closes cmd = leb (length cmd) 30 && same_text (text_of cmd) close_text

pub rader_flag_lem :
    (cmd rest : List ℕ) → rader_flag (cmd ++ rest) (length cmd) ≡ some (command_flag cmd)
unfolding rader_flag
rader_flag_lem [] rest = refl
rader_flag_lem (c ∷ cmd) rest = ground arith

-- letters, none of them zero
abbrev IsText : List ℕ → Type 0
IsText [] = Unit {0}
IsText (d ∷ text) = ((0 == lower d) ≡ false) × IsText text

str_case_eq_zero :
    (k : ℕ) (text : List ℕ)
    → 0 < k
    → IsText text
    → str_case_eq (replicate k 0) text ≡ some (same_text [] text)
unfolding str_case_eq
str_case_eq_zero zero text pos t = absurd (omega arith)
str_case_eq_zero (suc k) [] pos t = rw (get_begin-cons 0 (replicate k 0))
str_case_eq_zero (suc k) (d ∷ text) pos t = rw (get_begin-cons 0 (replicate k 0), t.0)

str_case_eq_lem :
    (cmd : List ℕ) (k : ℕ) (text : List ℕ)
    → length text < length cmd + k
    → IsText text
    → str_case_eq (cmd ++ replicate k 0) text ≡ some (same_text (text_of cmd) text)
unfolding str_case_eq
str_case_eq_lem [] k text room t = str_case_eq_zero k text (omega arith) t
str_case_eq_lem (c ∷ cmd) k [] room t = elim (Bool-cases (c == 0)) [
  | inl end ↦ rw (get_begin-cons c (cmd ++ replicate k 0), end)
  | inr more ↦ rw (get_begin-cons c (cmd ++ replicate k 0), more)
]
str_case_eq_lem (c ∷ cmd) k (d ∷ text) room t = elim (Bool-cases (c == 0)) [
  | inl end ↦
      let zero_lower : (lower c == lower d) ≡ false = rw ((==_iff c 0).0 end) t.0 in
      rw (get_begin-cons c (cmd ++ replicate k 0), zero_lower, end)
  | inr more ↦ elim (Bool-cases (lower c == lower d)) [
    | inl same ↦
        rw (get_begin-cons c (cmd ++ replicate k 0), same, more)
          (rw same (str_case_eq_lem cmd k text (omega arith) t.1))
    | inr other ↦ rw (get_begin-cons c (cmd ++ replicate k 0), other, more) (rw other)
  ]
]

close_text-IsText : IsText close_text
close_text-IsText = ground arith

asks_close_lem : (cmd rest : List ℕ) → asks_close (cmd ++ rest) (length cmd) ≡ some (closes cmd)
unfolding asks_close
asks_close_lem cmd rest = elim (Bool-cases (leb (length cmd) 30)) [
  | inl short ↦
      let fits = leb→le (length cmd) 30 short in
      let copied =
        memcpy-append [] (zeroed 30) (cmd ++ rest) 0 (length cmd) refl
          (omega (arith, length-append cmd rest)) (omega (arith, length-zeroed 30)) in
      let array : take (length cmd) (cmd ++ rest) ++ drop (length cmd) (zeroed 30)
          ≡ cmd ++ replicate (30 - length cmd) 0 =
        rw (take-append cmd rest (length cmd) refl, drop-zeroed (length cmd) 30, zeroed_lem) in
      rw (short, copied ∙ ap some array)
        (str_case_eq_lem cmd (30 - length cmd) close_text (omega arith) close_text-IsText)
  | inr long ↦ rw long
]

-- the state that waits for the answer to a command
abbrev pub awaiting : Rader → List ℕ → Rader
awaiting st cmd = record {
  fifo = RingBuffer.reset st.fifo;
  cmd_flag = command_flag cmd;
  dlen = rader_dlen (command_flag cmd);
}

-- what an accepted command leaves behind
abbrev pub obeyed : ℕ → Rader → List ℕ → Rader × List Write × ℕ
obeyed fd st cmd =
    if st.dlen == 0
    then (awaiting st cmd, record { fd = fd; bytes = cmd } ∷ [], if closes cmd then 1 else 0)
    else (st, [], if closes cmd then 1 else 0)

-- A command is passed on, and its answer awaited, unless another answer still is. Either way the
-- result says whether it asks to close the socket.
pub obey_lem :
    (fd : ℕ) (st : Rader) (cmd rest : List ℕ)
    → obey fd st (cmd ++ rest) (length cmd) ≡ some (obeyed fd st cmd)
unfolding obey accept_command
obey_lem fd st cmd rest = elim (Bool-cases (st.dlen == 0)) [
  | inl idle ↦ rw (
    idle,
    rader_flag_lem cmd rest,
    load-append [] cmd rest 0 (length cmd) refl refl,
    asks_close_lem cmd rest,
  )
  | inr busy ↦ rw (busy, asks_close_lem cmd rest)
]
