-- ===== src/Log/Report.antt =====
-- What src/xLogMessage.c does with a text that is to be shown: `_log`, the callbacks, and the functions that
-- call them. A format with its arguments is the text that it gives, without an end; the digits of a
-- number are a parameter.
use Prim.Native.String.{String}
use psuart.Prelude.{
  Bool-cases, inl, inr, ℕ, zero, suc, ◌-◌, ◌≤◌, ◌<◌, ◌≡◌, ap, arith, List, [], ◌∷◌, ◌++◌, Option,
  some, none, ◌>>=◌, Bool, true, ltb, lt→ltb, ◌==◌, if◌then◌else◌, length, take, bit_and,
}
use psuart.Utils.Serial.{codes}
use psuart.Log.{Log, log_message}

-- DEBUG_CONSOLE and DEBUG_FILE
abbrev pub debug_console : ℕ
debug_console = 0x10

abbrev pub debug_file : ℕ
debug_file = 0x01

-- a text on the console, or a line at the end of a file
pub data Shown : Type 0 where
  console : List ℕ → Shown
  appended : (fn line : List ℕ) → Shown

-- a line in the file, if there is a name and the file can be opened
abbrev pub in_file : List ℕ → Bool → Option (List ℕ) → List ℕ → List Shown
in_file stamp opens none text = []
in_file stamp opens (some fn) text =
    if opens then appended fn (stamp ++ b'\t' ∷ (text ++ b'\n' ∷ [])) ∷ [] else []

-- `_log`: `stamp` is the date as it is printed, `opens` says whether the file can be opened.
unfoldable pub log : List ℕ → Bool → Option (List ℕ) → ℕ → List ℕ → List Shown
log stamp opens fn flag text =
    (if bit_and flag debug_console == debug_console then console (text ++ b'\n' ∷ []) ∷ [] else [])
    ++ (if bit_and flag debug_file == debug_file then in_file stamp opens fn text else [])

-- `OnLogMessage`, `OnReportError` and `OnReportWarning`: whether each is set
pub record Callbacks : Type 0 where
  pub on_log_message : Bool
  pub on_report_error : Bool
  pub on_report_warning : Bool

unfoldable pub set_log_callback : Bool → Bool → Bool → Callbacks → Callbacks
set_log_callback lmt rwmt remt on = record {
  on_log_message = lmt;
  on_report_error = remt;
  on_report_warning = rwmt;
}

-- sizeof(pszDest)
abbrev pub dest_size : ℕ
dest_size = 2048

-- "Line %d in %s\n\tERROR:[%s]", or with WARNING
abbrev pub heading : String → List ℕ → List ℕ → List ℕ → List ℕ
heading kind file line tag =
    codes "Line "
    ++ (line
        ++ (codes " in "
            ++ (file ++ (b'\n' ∷ b'\t' ∷ (codes kind ++ (codes ":[" ++ (tag ++ b']' ∷ [])))))))

-- `sprintf` of a heading, then `vsnprintf` of the text in the room that is left
unfoldable pub put_in_dest : List ℕ → List ℕ → Option (List ℕ)
put_in_dest head text =
    if ltb (length head) dest_size
    then some (head ++ take (dest_size - length head - 1) text)
    else none

-- the text that the callback is called with, if one is set
unfoldable pub log_error_message :
    Callbacks → List ℕ → List ℕ → List ℕ → List ℕ → Option (List (List ℕ))
log_error_message on file line tag text =
    put_in_dest (heading "ERROR" file line tag) text >>= λ dest.
    some (if on.on_report_error then dest ∷ [] else [])

unfoldable pub log_warning_message :
    Callbacks → List ℕ → List ℕ → List ℕ → List ℕ → Option (List (List ℕ))
log_warning_message on file line tag text =
    put_in_dest (heading "WARNING" file line tag) text >>= λ dest.
    some (if on.on_report_warning then dest ∷ [] else [])

-- `LogMessage` with its callback
unfoldable pub log_message_text : Callbacks → Log → ℕ → List ℕ → Option (Log × List (List ℕ))
log_message_text on st level text = log_message st level >>= λ (st', passed).
    if passed
    then (put_in_dest [] text >>= λ dest. some (st', if on.on_log_message then dest ∷ [] else []))
    else some (st', [])

take-append_ge :
    (n : ℕ) (xs ys : List ℕ) → length xs ≤ n → take n (xs ++ ys) ≡ xs ++ take (n - length xs) ys
take-append_ge n [] ys h = let same : n - 0 ≡ n = omega arith in rw same
take-append_ge zero (x ∷ xs) ys h = absurd (omega arith)
take-append_ge (suc n) (x ∷ xs) ys h =
    let same : suc n - length (x ∷ xs) ≡ n - length xs = omega arith in
    rw same (ap (◌∷◌ x) (take-append_ge n xs ys (omega arith)))

put_in_dest_lem :
    (head text : List ℕ)
    → length head < dest_size
    → put_in_dest head text ≡ some (take 2047 (head ++ text))
unfolding put_in_dest
put_in_dest_lem head text h =
    let room : dest_size - length head - 1 ≡ 2047 - length head = omega arith in
    rw (lt→ltb (length head) dest_size h, room, take-append_ge 2047 head text (omega arith))

-- With the three callbacks set, a report of an error or a warning, with its heading within the array, gives the callback the heading
-- and the text, cut to 2047 bytes. A message that passes the tests of `LogMessage` gives its callback
-- the text, cut in the same way, and one that does not gives nothing.
pub reports_lem :
    (on : Callbacks) (file line tag text : List ℕ) (st st' : Log) (level : ℕ) (passed : Bool)
    → length (heading "ERROR" file line tag) < dest_size
    → length (heading "WARNING" file line tag) < dest_size
    → log_message st level ≡ some (st', passed)
    → (log_error_message (set_log_callback true true true on) file line tag text
        ≡ some (take 2047 (heading "ERROR" file line tag ++ text) ∷ []))
      × (log_warning_message (set_log_callback true true true on) file line tag text
          ≡ some (take 2047 (heading "WARNING" file line tag ++ text) ∷ []))
      × (log_message_text (set_log_callback true true true on) st level text
          ≡ some (st', if passed then take 2047 text ∷ [] else []))
unfolding set_log_callback log_error_message log_warning_message log_message_text
reports_lem on file line tag text st st' level passed h k e = (
  rw (put_in_dest_lem (heading "ERROR" file line tag) text h),
  rw (put_in_dest_lem (heading "WARNING" file line tag) text k),
  elim (Bool-cases passed) [
    | inl shown ↦ rw (e, shown, put_in_dest_lem [] text (omega arith))
    | inr dropped ↦ rw (e, dropped)
  ],
)
