-- ===== src/Rader/Stdin.antt =====
-- `rader_cmd_from_stdin` of src/rader.c: a command that is typed at the console. The buffer is read
-- as a C string up to its terminating zero; a buffer with none is read outside, `none`.
use psuart.Prelude.{
  ℕ, zero, suc, List, [], ◌∷◌, ◌++◌, Option, some, none, ◌>>=◌, true, false, ◌&&◌, ◌||◌, ◌==◌,
  if◌then◌else◌, peek, poke, peek-append, poke-append, load-append, ◌≡◌, ◌≢◌, ◌≤◌, refl, arith, leb,
}
use psuart.Prelude.Int.{ℤ, pos, negsuc}
use psuart.RingBuffer
use psuart.Rader.State.{Rader, Write, flag_of_byte, rader_dlen}
use psuart.Rader.Command.Accept.{rader_flag_lem}
use psuart.Rader.Command.Find.{get_begin-cons}
use psuart.Rader.Command.{str_case_eq, accept_command}
use psuart.Utils.Number.{str_to_int}
use psuart.Utils.Text.{IsWithout}
use psuart.Utils.Split.{cut_at}
use psuart.Utils.Split.Arguments.{cut_at-append}

-- "cls"
abbrev pub cls_text : List ℕ
cls_text = b'c' ∷ b'l' ∷ b's' ∷ []

-- the text of the C string that starts the buffer
abbrev pub c_string : List ℕ → Option (List ℕ)
c_string buf = elim (cut_at 0 buf) [ none ↦ none | some (text, rest) ↦ some text ]

-- `(char)(StrToInt(buf) && 0xFF)`
abbrev pub and_0xff : ℤ → ℕ
and_0xff (pos zero) = 0
and_0xff (pos (suc n)) = 1
and_0xff (negsuc n) = 1

-- The buffer and the length with which the command is sent.
unfoldable pub stdin_bytes : List ℕ → ℕ → Option (List ℕ × ℕ)
unfolding cut_at str_to_int
stdin_bytes buf len = do
  first ← peek buf 0
  second ← peek buf 1
  if first == b'0' && (second == b'x' || second == b'X')
      then (c_string buf >>= λ text.
          str_to_int text >>= λ value. poke buf 0 (and_0xff value) >>= λ buf'. some (buf', 1))
      else some (buf, len)

unfoldable pub rader_cmd_from_stdin : ℕ → Rader → List ℕ → ℕ → Option (Rader × List Write)
unfolding stdin_bytes accept_command str_case_eq
rader_cmd_from_stdin fd st buf len =
    if leb 3 len
    then (str_case_eq buf cls_text >>= λ cls.
        if cls
        then some (record st { cmd_flag = 0; dlen = 0 }, [])
        else (stdin_bytes buf len >>= λ p. accept_command fd st p.0 p.1))
    else accept_command fd st buf len

cls_matches : (rest : List ℕ) → str_case_eq (cls_text ++ 0 ∷ rest) cls_text ≡ some true
unfolding str_case_eq
cls_matches rest = rw (
  get_begin-cons b'c' (b'l' ∷ b's' ∷ 0 ∷ rest),
  get_begin-cons b'l' (b's' ∷ 0 ∷ rest),
  get_begin-cons b's' (0 ∷ rest),
  get_begin-cons 0 rest,
)

hex_differs : (rest : List ℕ) → str_case_eq (b'0' ∷ b'x' ∷ rest) cls_text ≡ some false
unfolding str_case_eq
hex_differs rest = rw (get_begin-cons b'0' (b'x' ∷ rest))

and_0xff_nonzero : (v : ℤ) → v ≢ pos 0 → and_0xff v ≡ 1
and_0xff_nonzero (pos zero) h = absurd (h refl)
and_0xff_nonzero (pos (suc n)) h = refl
and_0xff_nonzero (negsuc n) h = refl

c_string_lem : (text rest : List ℕ) → IsWithout 0 text → c_string (text ++ 0 ∷ rest) ≡ some text
c_string_lem text rest h = rw (c_string, cut_at-append 0 text rest h)

stdin_bytes_hex :
    (len : ℕ) (digits rest : List ℕ) (v : ℤ)
    → IsWithout 0 digits
    → str_to_int (b'0' ∷ b'x' ∷ digits) ≡ some v
    → v ≢ pos 0
    → stdin_bytes (b'0' ∷ b'x' ∷ (digits ++ 0 ∷ rest)) len
      ≡ some (1 ∷ b'x' ∷ (digits ++ 0 ∷ rest), 1)
unfolding stdin_bytes
stdin_bytes_hex len digits rest v text value nonzero =
    let whole : c_string (b'0' ∷ b'x' ∷ (digits ++ 0 ∷ rest)) ≡ some (b'0' ∷ b'x' ∷ digits) =
      c_string_lem (b'0' ∷ b'x' ∷ digits) rest (refl, (refl, text)) in
    let memory = b'x' ∷ (digits ++ 0 ∷ rest) in
    rw (
      stdin_bytes,
      peek-append [] b'0' memory 0 refl,
      peek-append (b'0' ∷ []) b'x' (digits ++ 0 ∷ rest) 1 refl,
      whole,
      value,
      and_0xff_nonzero v nonzero,
      poke-append [] b'0' memory 0 1 refl,
    )

accept_one :
    (fd : ℕ) (st : Rader) (rest : List ℕ)
    → st.dlen ≡ 0
    → accept_command fd st (1 ∷ rest) 1
      ≡ some (
        record { fifo = RingBuffer.reset st.fifo; cmd_flag = 0; dlen = 0 },
        record { fd = fd; bytes = 1 ∷ [] } ∷ [],
      )
unfolding accept_command rader_dlen flag_of_byte
accept_one fd st rest idle =
    rw (
      accept_command,
      idle,
      rader_flag_lem (1 ∷ []) rest,
      load-append [] (1 ∷ []) rest 0 1 refl refl,
    )

-- The text `cls` gives up the answer that is awaited, in any state, and sends nothing.
pub rader_cmd_from_stdin_cls :
    (fd len : ℕ) (st : Rader) (rest : List ℕ)
    → 3 ≤ len
    → rader_cmd_from_stdin fd st (cls_text ++ 0 ∷ rest) len
      ≡ some (record st { cmd_flag = 0; dlen = 0 }, [])
unfolding rader_cmd_from_stdin
rader_cmd_from_stdin_cls fd len st rest long =
    let enough : leb 3 len ≡ true = ground arith in
    rw (rader_cmd_from_stdin, enough, cls_matches rest)

-- While no answer is awaited, a hexadecimal number of at least three characters that is read as
-- anything but 0 is sent to the radar as the byte 1, whatever its value.
pub rader_cmd_from_stdin_hex :
    (fd len : ℕ) (st : Rader) (digits rest : List ℕ) (v : ℤ)
    → 3 ≤ len
    → st.dlen ≡ 0
    → IsWithout 0 digits
    → str_to_int (b'0' ∷ b'x' ∷ digits) ≡ some v
    → v ≢ pos 0
    → rader_cmd_from_stdin fd st (b'0' ∷ b'x' ∷ (digits ++ 0 ∷ rest)) len
      ≡ some (
        record { fifo = RingBuffer.reset st.fifo; cmd_flag = 0; dlen = 0 },
        record { fd = fd; bytes = 1 ∷ [] } ∷ [],
      )
unfolding rader_cmd_from_stdin
rader_cmd_from_stdin_hex fd len st digits rest v long idle text value nonzero =
    let enough : leb 3 len ≡ true = ground arith in
    rw (
      rader_cmd_from_stdin,
      enough,
      hex_differs (digits ++ 0 ∷ rest),
      stdin_bytes_hex len digits rest v text value nonzero,
      accept_one fd st (b'x' ∷ (digits ++ 0 ∷ rest)) idle,
    )
