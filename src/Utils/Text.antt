-- ===== src/Utils/Text.antt =====
-- The string functions of src/utils.c. A string is the list of its bytes in front of the
-- terminating zero; a destination has room for the result.
pub mod Compare
pub mod Cut
pub mod Trim
use psuart.Prelude.{
  ℕ, zero, suc, ◌+◌, ◌-◌, List, [], ◌∷◌, ◌++◌, Option, some, none, Bool, true, false, not, ◌&&◌,
  ◌||◌, leb, ltb, ◌==◌, if◌then◌else◌, length, get_or, take, drop, max, ◌≡◌,
}
use psuart.Rader.Command.{lower}
use psuart.Prelude.Int.{ℤ, pos, negsuc}

-- `a - b` of two bytes
abbrev pub byte_diff : ℕ → ℕ → ℤ
byte_diff a b = if leb b a then pos (a - b) else negsuc (b - a - 1)

-- the loop of `utils_strincmp`, `n` characters at most; behind a string's end stands its zero
unfoldable pub strincmp_loop : ℕ → List ℕ → List ℕ → ℤ
strincmp_loop zero s1 s2 = pos 0
strincmp_loop (suc n) s1 s2 =
    let a = get_or s1 0 0 in
    let b = get_or s2 0 0 in
    let rest = strincmp_loop n (drop 1 s1) (drop 1 s2) in
    if not (lower a == lower b) || (a == 0 || b == 0) then byte_diff (lower a) (lower b) else rest

unfoldable pub utils_strincmp : List ℕ → List ℕ → ℕ → ℤ
unfolding strincmp_loop
utils_strincmp s1 s2 n =
    if n == 0
    then strincmp_loop (if ltb (length s1) (length s2) then length s2 else length s1) s1 s2
    else strincmp_loop n s1 s2

-- `strchr` from the start: what stands from the first `c` on
unfoldable pub strchr : List ℕ → ℕ → Option (List ℕ)
strchr [] c = none
strchr (x ∷ s) c = if x == c then some (x ∷ s) else strchr s c

-- `strrchr`: what stands in front of the last `c`, and what behind it
unfoldable pub strrchr : List ℕ → ℕ → Option (List ℕ × List ℕ)
strrchr [] c = none
strrchr (x ∷ s) c = elim (strrchr s c) [
  | some (before, after) ↦ some (x ∷ before, after)
  | none ↦ if x == c then some ([], s) else none
]

abbrev pub path_split : ℕ
path_split = b'/'

-- The result is the same whatever the versions.
unfoldable pub version_compare : List ℕ → List ℕ → ℕ
version_compare newversion oldversion = 0

unfoldable pub extract_file_path : List ℕ → List ℕ
unfolding strrchr
extract_file_path file_name = elim (strrchr file_name path_split) [
  | none ↦ file_name
  | some (before, after) ↦ before ++ path_split ∷ []
]

unfoldable pub extract_file_name : List ℕ → List ℕ
unfolding strrchr
extract_file_name file_name = elim (strrchr file_name path_split) [
  | none ↦ file_name
  | some (before, after) ↦ after
]

unfoldable pub change_file_ext : List ℕ → List ℕ → List ℕ
unfolding strrchr
change_file_ext src ext = elim (strrchr src b'.') [
  | none ↦ src ++ ext
  | some (before, after) ↦ before ++ ext
]

-- `path[strlen(path) - 1] != '\\'` is tested, and `/` is appended. A name that the 255 bytes of `fn` have
-- no room for, and an empty path, which is read in front of its start, are `none`.
unfoldable pub change_file_path : List ℕ → List ℕ → Option (List ℕ)
unfolding extract_file_name
change_file_path src path =
    let fn = extract_file_name src in
    if leb 255 (length fn) || length path == 0
    then none
    else if get_or path (length path - 1) 0 == 92
    then some (path ++ fn)
    else some (path ++ (path_split ∷ fn))

unfoldable pub add_prefix : List ℕ → List ℕ → List ℕ
add_prefix source prefix = prefix ++ source

-- `from` and `count` are not negative.
unfoldable pub copy : List ℕ → ℕ → ℕ → List ℕ
copy sstr from count =
    if leb (length sstr) from || leb count 0 then [] else take count (drop from sstr)

abbrev pub is_space : ℕ → Bool
is_space c = c == b' ' || (c == b'\t' || (c == b'\n' || c == b'\r'))

-- the characters that `Trim` passes over at the front: `iStart`
unfoldable pub leading : List ℕ → ℕ
leading [] = 0
leading (c ∷ str) = if is_space c then suc (leading str) else 0

-- The loop of `Trim` at the back, with `iEnd + 1` characters to look at; the result is `iEnd + 1`.
-- Below the first character it reads outside the string.
unfoldable pub scan_back : List ℕ → ℕ → Option ℕ
scan_back str zero = none
scan_back str (suc i_end) =
    if is_space (get_or str i_end 0) then scan_back str i_end else some (suc i_end)

unfoldable pub trim : List ℕ → Option (List ℕ)
unfolding leading scan_back copy
trim str = elim (scan_back str (length str)) [
  | none ↦ none
  | some end ↦ some (copy str (leading str) (end - leading str))
]

-- the character does not occur
abbrev pub IsWithout : ℕ → List ℕ → Type 0
IsWithout c [] = Unit {0}
IsWithout c (x ∷ s) = ((x == c) ≡ false) × IsWithout c s
