-- ===== src/Utils/Split.antt =====
-- The functions of src/utils.c that take a string apart at a character.
pub mod Arguments
pub mod KeyValue
pub mod Prefix
use psuart.Prelude.{
  ℕ, zero, suc, ◌-◌, List, [], ◌∷◌, ◌++◌, Option, some, none, Bool, true, false, not, ◌&&◌, ◌||◌,
  leb, ltb, ◌==◌, if◌then◌else◌, length, take, drop,
}
use psuart.Prelude.Int.{ℤ, pos, negsuc}
use psuart.Utils.Text.{utils_strincmp}

abbrev pub max_arg_len : ℕ
max_arg_len = 512

-- the string up to the first `c`, and what stands behind it
unfoldable pub cut_at : ℕ → List ℕ → Option (List ℕ × List ℕ)
cut_at c [] = none
cut_at c (x ∷ s) = elim (x == c) [
  | true ↦ some ([], s)
  | false ↦ elim (cut_at c s) [ none ↦ none | some (before, after) ↦ some (x ∷ before, after) ]
]

-- `if (*ps == spliter) ps++;`
abbrev pub pass_one : ℕ → List ℕ → List ℕ
pass_one spliter [] = []
pass_one spliter (x ∷ ps) = if x == spliter then ps else x ∷ ps

-- The loop of `split_arguments`, with room for so many arguments more. The entries of the array are
-- zero before, since `strncpy` of a part of the text writes no terminating zero.
unfoldable pub split_arguments : ℕ → ℕ → List ℕ → List (List ℕ)
unfolding cut_at
split_arguments spliter zero arginfo = []
split_arguments spliter (suc room) arginfo =
    let ps = pass_one spliter arginfo in
    elim (cut_at spliter ps) [
      | some (before, after) ↦ take (max_arg_len - 1) before ∷ split_arguments spliter room after
      | none ↦ if ltb 0 (length ps) then take (max_arg_len - 1) ps ∷ [] else []
    ]

-- `strchr("=#|&@", c)` at a `c` that is not zero
abbrev pub is_spliter : ℕ → Bool
is_spliter c = c == b'=' || (c == b'#' || (c == b'|' || (c == b'&' || c == b'@')))

-- the string up to the first character of the set, and what stands behind it
unfoldable pub cut_at_spliter : List ℕ → Option (List ℕ × List ℕ)
cut_at_spliter [] = none
cut_at_spliter (x ∷ s) = elim (is_spliter x) [
  | true ↦ some ([], s)
  | false ↦ elim (cut_at_spliter s) [
    | none ↦ none
    | some (before, after) ↦ some (x ∷ before, after)
  ]
]

-- The key and the value. The test behind the loop is on the character behind the spliter.
unfoldable pub split_string_key_value : List ℕ → List ℕ × List ℕ
unfolding cut_at_spliter
split_string_key_value str = elim (cut_at_spliter str) [
  | none ↦ (str, [])
  | some (before, []) ↦ (str, [])
  | some (before, a ∷ after) ↦ (before, a ∷ after)
]

-- The loop of `SplitStringValue` over the characters of `spliter` that are left.
unfoldable pub value_loop : List ℕ → List ℕ → List ℕ
unfolding cut_at
value_loop [] str = str
value_loop (c ∷ spliter) str = elim (cut_at c str) [
  | none ↦ value_loop spliter str
  | some (before, after) ↦ after
]

unfoldable pub split_string_value : List ℕ → List ℕ
unfolding value_loop
split_string_value str = value_loop (b'=' ∷ b'#' ∷ b'|' ∷ b'&' ∷ b'@' ∷ []) str

-- `LeftString`: what is copied, and what the returned pointer points to
abbrev pub is_break : ℕ → ℕ → Bool
is_break break_char c = c == b' ' || (c == 13 || c == break_char)

unfoldable pub left_string : ℕ → List ℕ → List ℕ × List ℕ
left_string break_char [] = ([], [])
left_string break_char (c ∷ source) = elim (is_break break_char c) [
  | true ↦ ([], source)
  | false ↦ let (copied, rest) = left_string break_char source in (c ∷ copied, rest)
]

-- The loop of `RemovePrefix`: the new `sPos`, where `whole` and `all` are the lengths of the prefix
-- and of the source.
unfoldable pub prefix_pos : ℕ → ℕ → List ℕ → List ℕ → ℕ
prefix_pos whole all source [] = whole
prefix_pos whole all [] (p ∷ prefix) = whole
prefix_pos whole all (s ∷ source) (p ∷ prefix) =
    if p == b'*'
    then all
    else if not (s == p) && not (p == b'?')
    then 0
    else prefix_pos whole all source prefix

-- `strcpy(Result, Source + sPos)`: behind the terminating zero it reads outside the string.
unfoldable pub remove_prefix : List ℕ → List ℕ → Option (List ℕ × Bool)
unfolding prefix_pos utils_strincmp
remove_prefix source prefix = elim (utils_strincmp prefix (b'*' ∷ b'a' ∷ []) 0) [
  | pos zero ↦ some (source, true)
  | _ ↦
      let s_pos = prefix_pos (length prefix) (length source) source prefix in
      if leb s_pos (length source) then some (drop s_pos source, ltb 0 s_pos) else none
]
