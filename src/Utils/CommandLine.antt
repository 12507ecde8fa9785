-- ===== src/Utils/CommandLine.antt =====
-- The functions of src/utils.c on the program's arguments. The array `sw` has 100 bytes; a name that
-- leaves no room for its zero is `none`. A destination for a value has room for it.
pub mod Switch
use psuart.Prelude.{
  ℕ, zero, suc, List, [], ◌∷◌, Option, some, none, Bool, true, false, ◌&&◌, ◌||◌, not, ltb, ◌==◌,
  if◌then◌else◌, length, get_or, drop,
}
use psuart.Prelude.Int.{ℤ, pos, negsuc}
use psuart.Utils.Text.{utils_strincmp}
use psuart.Utils.Split.{cut_at}

-- `utils_strincmp(a, b, 0) == 0`
unfoldable pub equal_text : List ℕ → List ℕ → Bool
unfolding utils_strincmp
equal_text a b = elim (utils_strincmp a b 0) [ pos zero ↦ true | _ ↦ false ]

abbrev pub is_switch : ℕ → Bool
is_switch c = c == b' ' || (c == b'/' || (c == b'-' || c == 92))

-- `while (*str==' ' || *str=='/' || *str=='-' || *str == '\\') str++;`
unfoldable pub skip_switch : List ℕ → List ℕ
skip_switch [] = []
skip_switch (c ∷ str) = if is_switch c then skip_switch str else c ∷ str

-- The copy in `sw`, and what stands behind the colon if there is one.
unfoldable pub name_and_value : List ℕ → Option (List ℕ × Option (List ℕ))
unfolding cut_at
name_and_value str = elim (cut_at b':' str) [
  | none ↦ if ltb (length str) 100 then some (str, none) else none
  | some (name, value) ↦ if ltb (length name) 100 then some (name, some value) else none
]

-- The value, and whether the parameter has the name.
unfoldable pub parse_cmd_param_value : List ℕ → List ℕ → Option (List ℕ × Bool)
unfolding name_and_value equal_text skip_switch
parse_cmd_param_value cmd param = elim (name_and_value (skip_switch cmd)) [
  | none ↦ none
  | some (sw, none) ↦ some ([], equal_text sw param)
  | some (sw, some value) ↦ some (value, equal_text sw param)
]

-- the loop of `CheckCmdLine` over the arguments behind the program's name
unfoldable pub check_cmd_line : List (List ℕ) → List ℕ → Bool
unfolding equal_text skip_switch
check_cmd_line [] sw = false
check_cmd_line (str ∷ argv) sw =
    if equal_text (skip_switch str) sw then true else check_cmd_line argv sw

-- The value of an argument with no colon: the next argument, unless it looks like a switch. Where
-- that is empty, its terminating zero is no switch.
unfoldable pub next_value_of : List (List ℕ) → List ℕ
next_value_of [] = []
next_value_of (next ∷ argv) =
    if not (get_or next 0 0 == b'/') && not (get_or next 0 0 == b'-') then next else []

-- The loop of `GetCmdParamValue`, with what `paramValue` holds.
unfoldable pub param_loop : List (List ℕ) → List ℕ → List ℕ → Option (List ℕ × Bool)
unfolding name_and_value equal_text skip_switch next_value_of
param_loop [] param param_value = some (param_value, false)
param_loop (str ∷ argv) param param_value = elim (name_and_value (skip_switch str)) [
  | none ↦ none
  | some (sw, none) ↦
      if equal_text sw param
      then some (next_value_of argv, true)
      else param_loop argv param (next_value_of argv)
  | some (sw, some value) ↦
      if equal_text sw param then some (value, true) else param_loop argv param value
]

-- The arguments behind the program's name are in the list.
unfoldable pub get_cmd_param_value : List (List ℕ) → List ℕ → Option (List ℕ × Bool)
unfolding param_loop
get_cmd_param_value argv param = param_loop argv param []
