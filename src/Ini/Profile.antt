-- ===== src/Ini/Profile.antt =====
-- The profile functions of src/ini.c: a key's value is read, or written. A failed `assert` and an access
-- outside an array are `none`.
use psuart.Prelude.{
  ℕ, zero, suc, ◌+◌, ◌-◌, ◌/◌, ◌%◌, min, not, true, List, [], ◌∷◌, ◌++◌, Option, some, none, ◌>>=◌,
  Bool, false, ◌||◌, ltb, ◌==◌, if◌then◌else◌, length, take, drop, replicate, load,
}
use psuart.Ini.{max_file_size, before, load_ini_file, Parsed, parse_file}

-- What a read stores, if it stores something, and its result. `none` for `file` is a file that cannot
-- be opened, for `default_value` a null pointer.
unfoldable pub read_profile_string :
    List ℕ → List ℕ → ℕ → Option (List ℕ) → Option (List ℕ) → Option (Option (List ℕ) × ℕ)
read_profile_string section key size default_value file =
    let defaulted : Option (List ℕ) × ℕ = (default_value >>= λ text. some (take size text), 0) in
    if length section == 0 || (length key == 0 || size == 0) then none else elim file [
      | none ↦ some defaulted
      | some bytes ↦ do
        (buf, file_size) ← load_ini_file bytes
        parsed ← parse_file section key buf
        elim parsed.key [
          | none ↦ some defaulted
          | some (key_s, key_e, value_s, value_e) ↦
              load buf value_s (min (size - 1) (value_e - value_s)) >>= λ value.
              some (some value, 1)
        ]
    ]

unfoldable pub read_profile_int : (List ℕ → ℕ) → List ℕ → List ℕ → ℕ → Option (List ℕ) → Option ℕ
read_profile_int atoi section key default_value file =
    read_profile_string section key 32 none file >>= λ (value, done).
    some (elim value [ none ↦ default_value | some text ↦ atoi text ])

-- "%s=%s\n"
abbrev pub entry : List ℕ → List ℕ → List ℕ
entry key value = key ++ b'=' ∷ (value ++ b'\n' ∷ [])

-- "[%s]\n%s=%s\n"
abbrev pub section_entry : List ℕ → List ℕ → List ℕ → List ℕ
section_entry section key value = b'[' ∷ (section ++ b']' ∷ b'\n' ∷ entry key value)

-- a number in decimal digits, of which there are at most so many
abbrev pub decimal : ℕ → ℕ → List ℕ
decimal zero n = []
decimal (suc k) n =
    let higher = decimal k (n / 10) in (if ltb n 10 then [] else higher) ++ (b'0' + n % 10) ∷ []

-- One character of a format for `sprintf`: what it writes, whether a conversion has been begun, and the
-- argument that is left. The conversions are `%%`, and `%d` or `%i` if there is an argument. Any other
-- is a fault of the model, also one such as `%5d` or `%x` that C defines for an `int`.
unfoldable pub format_step : Bool → Option (List ℕ) → ℕ → Option (List ℕ × Bool × Option (List ℕ))
format_step begun arg c =
    if not begun
    then (if c == b'%' then some ([], true, arg) else some (c ∷ [], false, arg))
    else if c == b'%'
    then some (b'%' ∷ [], false, arg)
    else if c == b'd' || c == b'i'
    then (arg >>= λ digits. some (digits, false, none))
    else none

-- what `sprintf` writes for the rest of a format
unfoldable pub format_loop : Bool → Option (List ℕ) → List ℕ → Option (List ℕ)
unfolding format_step
format_loop begun arg [] = if begun then none else some []
format_loop begun arg (c ∷ cs) = format_step begun arg c >>= λ (out, begun', arg').
    format_loop begun' arg' cs >>= λ rest. some (out ++ rest)

-- `sprintf(..., format, n)` for a number below 100000
unfoldable pub format_int : List ℕ → ℕ → Option (List ℕ)
unfolding format_loop
format_int format n = format_loop false (some (decimal 5 n)) format

-- What is put in `w_buf`. With no key in the section, the rest of the file is given to `sprintf` as its
-- format, with the length of the rest as argument.
unfoldable pub new_text : List ℕ → List ℕ → List ℕ → List ℕ → ℕ → Parsed → Option (List ℕ)
new_text section key value buf file_size parsed = elim parsed.section [
  | none ↦
      if file_size == 0
      then some (section_entry section key value)
      else some (take file_size buf ++ b'\n' ∷ section_entry section key value)
  | some (sec_s, sec_e) ↦ elim parsed.key [
    | none ↦
        let tail = before 0 (drop sec_e buf) in
        format_int tail (file_size - sec_e) >>= λ rest.
        some (take sec_e buf ++ (entry key value ++ rest))
    | some (key_s, key_e, value_s, value_e) ↦
        some (take value_s buf ++ (value ++ take (file_size - value_e) (drop value_e buf)))
  ]
]

-- the array, its size, and what is found in it
unfoldable pub look_up : List ℕ → List ℕ → Option (List ℕ) → Option (List ℕ × ℕ × Parsed)
look_up section key none =
    some (replicate max_file_size 0, 0, record { section = none; key = none })
look_up section key (some bytes) = do
  (buf, file_size) ← load_ini_file bytes
  parsed ← parse_file section key buf
  some (buf, file_size, parsed)

-- The file behind a write, and the result. `writable` says whether it can be opened for writing.
unfoldable pub write_profile_string :
    List ℕ → List ℕ → Option (List ℕ) → Option (List ℕ) → Bool → Option (Option (List ℕ) × ℕ)
write_profile_string section key value file writable =
    if length section == 0 || length key == 0 then some (file, 0) else elim value [
      | none ↦ some (file, 0)
      | some text ↦ do
        (buf, file_size, parsed) ← look_up section key file
        w_buf ← new_text section key text buf file_size parsed
        if ltb (length w_buf) max_file_size
            then some (if writable then (some (before 0 w_buf), 1) else (file, 0))
            else none
    ]
