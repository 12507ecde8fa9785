-- ===== src/Ini.antt =====
-- The search of src/ini.c for a key, from `load_ini_file` to `parse_file`. A failed `assert` and an access outside an array are `none`.
pub mod Profile
pub mod Safe
pub mod Ends
pub mod Layout
pub mod Found
pub mod Place
pub mod RoundTrip
pub mod Fresh
pub mod Added
pub mod Entry
pub mod Unset
mod Tests
use psuart.Prelude.{
  ℕ, zero, suc, ◌+◌, ◌-◌, ◌*◌, min, List, [], ◌∷◌, ◌++◌, Option, some, none, ◌>>=◌, Bool, true,
  false, not, ◌&&◌, ◌||◌, ltb, leb, ◌==◌, if◌then◌else◌, length, take, drop, replicate, load,
}

-- MAX_FILE_SIZE
abbrev pub max_file_size : ℕ
max_file_size = 16384

-- the bytes in front of the first `stop`
abbrev pub before : ℕ → List ℕ → List ℕ
before stop [] = []
before stop (c ∷ cs) = if c == stop then [] else c ∷ before stop cs

-- `load_ini_file` on the bytes of a file: reading ends at a byte that is EOF as a `char`.
unfoldable pub load_ini_file : List ℕ → Option (List ℕ × ℕ)
load_ini_file file =
    let text = before 0xff file in
    if ltb (length text) max_file_size
    then some (text ++ replicate (max_file_size - length text) 0, length text)
    else none

abbrev pub newline : ℕ → Bool
newline c = b'\n' == c || b'\r' == c

abbrev pub end_of_string : ℕ → Bool
end_of_string c = 0 == c

abbrev pub left_barce : ℕ → Bool
left_barce c = b'[' == c

abbrev pub isright_brace : ℕ → Bool
isright_brace c = b']' == c

-- `isspace`
abbrev pub is_space : ℕ → Bool
is_space c = c == b' ' || (leb 9 c && leb c 13)

-- `i`, `p[i - 1]` and the bytes from `p[i]` on. In front of the first byte a newline is put, since
-- the start of the text counts as the start of a line.
pub record Cursor : Type 0 where
  pub index : ℕ
  pub prev : ℕ
  pub rest : List ℕ

abbrev pub here : Cursor → Option ℕ
here at = elim at.rest [ [] ↦ none | c ∷ rest ↦ some c ]

-- `i++`, in front of a read of `p[i]`
abbrev pub step : Cursor → Option Cursor
step at = elim at.rest [
  | [] ↦ none
  | c ∷ rest ↦ some (record { index = at.index + 1; prev = c; rest = rest })
]

-- `while (!stop(p[i])) i++;`
unfoldable pub scan : (ℕ → Bool) → ℕ → ℕ → List ℕ → Option Cursor
scan stop i prev [] = none
scan stop i prev (c ∷ rest) =
    let further = scan stop (i + 1) c rest in
    if stop c then some (record { index = i; prev = prev; rest = c ∷ rest }) else further

unfoldable pub scan_from : (ℕ → Bool) → Cursor → Option Cursor
scan_from stop at = scan stop at.index at.prev at.rest

-- where the three loops stop
abbrev pub at_brace : ℕ → Bool
at_brace c = isright_brace c || end_of_string c

abbrev pub not_space : ℕ → Bool
not_space c = not (is_space c)

abbrev pub at_line_end : ℕ → Bool
at_line_end c = newline c || end_of_string c

-- the bytes from one place to another
abbrev pub between : Cursor → Cursor → List ℕ
between from to = take (to.index - from.index) from.rest

-- `strncmp(...) == 0` of these bytes and a string, as far as there are bytes
abbrev pub strncmp_eq : List ℕ → List ℕ → Bool
strncmp_eq [] text = true
strncmp_eq (x ∷ xs) [] = x == 0
strncmp_eq (x ∷ xs) (y ∷ ys) = x == y && strncmp_eq xs ys

-- a line in front of its first `=` and behind it
abbrev pub split_equals : List ℕ → Option (List ℕ × List ℕ)
split_equals [] = none
split_equals (c ∷ line) =
    let further = split_equals line in
    if c == b'=' then some ([], line) else further >>= λ (name, value). some (c ∷ name, value)

-- The name on a line that sets the key; a line that starts with `;` or `=` sets none.
unfoldable pub line_name : List ℕ → List ℕ → Option (List ℕ)
line_name key [] = none
line_name key (c ∷ line) =
    if c == b';' || c == b'='
    then none
    else (split_equals line >>= λ (name, value).
        if strncmp_eq (c ∷ name) key then some (c ∷ name) else none)

-- the four indices of a key that was found, or where the search in a section has ended
pub data Search : Type 0 where
  found : (key_s key_e value_s value_e : ℕ) → Search
  passed : Cursor → Search

-- whether a section starts at this byte
unfoldable pub at_header : ℕ → ℕ → Bool
at_header prev c = newline prev && left_barce c

-- whether the search in a section ends in front of this byte
unfoldable pub at_section_end : ℕ → ℕ → Bool
unfolding at_header
at_section_end prev c = at_header prev c || end_of_string c

-- a key that was found on the line from here on
abbrev pub found_at : ℕ → List ℕ → ℕ → Search
found_at i name end = let j = i + length name in found i (j - 1) (j + 1) end

-- A line has been searched: it set the key, or the search goes on behind it. `again` is the loop.
unfoldable pub on_line :
    Option (List ℕ) → (Cursor → Option Search) → Cursor → Cursor → Option Search
on_line (some name) again at end = some (found_at at.index name end.index)
on_line none again at end = step end >>= again

-- one round of the loop over the lines, by whether the section ends here
unfoldable pub line_round : Bool → (Cursor → Option Search) → List ℕ → Cursor → Option Search
line_round true again key at = some (passed at)
line_round false again key at =
    scan_from at_line_end at >>= λ end. on_line (line_name key (between at end)) again at end

-- the loop over the lines of a section, on fuel
unfoldable pub find_key : ℕ → List ℕ → Cursor → Option Search
find_key zero key at = none
find_key (suc fuel) key at =
    here at >>= λ c. line_round (at_section_end at.prev c) (find_key fuel key) key at

-- What `parse_file` stores: `sec_s` and `sec_e`, and where the key was found.
pub record Parsed : Type 0 where
  pub section : Option (ℕ × ℕ)
  pub key : Option (ℕ × ℕ × ℕ × ℕ)

-- at a `[`: where the name of the section starts and ends, and whether it is the section's
unfoldable pub read_header : List ℕ → Cursor → Option (Cursor × Cursor × Bool)
read_header section at = do
  start ← step at
  close ← scan_from at_brace start
  some (start, close, strncmp_eq (between start close) section)

-- behind the name: the space that follows is passed over
unfoldable pub skip_to_body : Cursor → Option Cursor
skip_to_body close = step close >>= λ behind. scan_from not_space behind

-- the search in a section has ended; `again` is the outer loop
unfoldable pub on_search :
    (Option (ℕ × ℕ) → Cursor → Option Parsed) → ℕ × ℕ → Search → Option Parsed
on_search again sec (found key_s key_e value_s value_e) =
    some (record { section = some sec; key = some (key_s, key_e, value_s, value_e) })
on_search again sec (passed next) = again (some sec) next

-- behind the name of a section, by whether it is the one that is looked for; `search` is the loop
-- over its lines
unfoldable pub on_header :
    Bool
    → (Option (ℕ × ℕ) → Cursor → Option Parsed)
    → (Cursor → Option Search)
    → Option (ℕ × ℕ)
    → Cursor
    → Cursor
    → Option Parsed
on_header false again search sec start close = again sec close
on_header true again search sec start close =
    skip_to_body close >>= λ body. search body >>= on_search again (start.index, body.index)

-- one round of the outer loop, by whether the text ends here and whether a section starts here
unfoldable pub parse_round :
    Bool
    → Bool
    → (Option (ℕ × ℕ) → Cursor → Option Parsed)
    → (Cursor → Option Search)
    → List ℕ
    → Option (ℕ × ℕ)
    → Cursor
    → Option Parsed
parse_round true header again search section sec at = some (record { section = sec; key = none })
parse_round false false again search section sec at = step at >>= again sec
parse_round false true again search section sec at =
    read_header section at >>= λ (start, close, named). on_header named again search sec start close

-- the outer loop, on fuel
unfoldable pub parse_loop : ℕ → List ℕ → List ℕ → Option (ℕ × ℕ) → Cursor → Option Parsed
parse_loop zero section key sec at = none
parse_loop (suc fuel) section key sec at = here at >>= λ c.
    parse_round (end_of_string c) (at_header at.prev c) (parse_loop fuel section key)
      (find_key fuel key) section sec at

-- The fuel is the number of bytes and one more.
unfoldable pub parse_file : List ℕ → List ℕ → List ℕ → Option Parsed
parse_file section key buf =
    parse_loop (length buf + 1) section key none (record { index = 0; prev = b'\n'; rest = buf })
