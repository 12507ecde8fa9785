-- ===== src/Utils/CommandLine/Switch.antt =====
-- A named parameter among the arguments.
use psuart.Prelude.{
  ℕ, zero, suc, ◌≡◌, ◌<◌, sym, ap, ◌∙◌, arith, List, [], ◌∷◌, ◌++◌, some, none, Bool, true, false,
  ltb, if◌then◌else◌, length,
}
use psuart.Prelude.Int.{ℤ, pos, negsuc}
use psuart.Rader.Command.Accept.{same_text}
use psuart.Utils.Text.{IsWithout, utils_strincmp}
use psuart.Utils.Text.Compare.{IsCString, Agrees, utils_strincmp_lem}
use psuart.Utils.Split.Arguments.{cut_at-append, cut_at-none}
use psuart.Utils.CommandLine.{
  is_switch, equal_text, skip_switch, name_and_value, parse_cmd_param_value, param_loop,
  get_cmd_param_value,
}

abbrev pub AreSwitches : List ℕ → Type 0
AreSwitches [] = Unit {0}
AreSwitches (c ∷ s) = (is_switch c ≡ true) × AreSwitches s

zero_flag : (z : ℤ) (b : Bool) → Agrees z b → elim z [ pos zero ↦ true | _ ↦ false ] ≡ b
zero_flag (pos zero) b h = sym h
zero_flag (pos (suc n)) b h = sym h
zero_flag (negsuc n) b h = sym h

pub equal_text_lem : (a b : List ℕ) → IsCString a → IsCString b → equal_text a b ≡ same_text a b
unfolding equal_text
equal_text_lem a b ha hb =
    zero_flag (utils_strincmp a b 0) (same_text a b) (utils_strincmp_lem a b ha hb)

-- a name: no colon, fits in 100 bytes with its zero, does not begin with a switch character
abbrev pub IsName : List ℕ → Type 0
IsName [] = ⊥
IsName (c ∷ s) =
    (is_switch c ≡ false) × IsWithout b':' (c ∷ s) × (length (c ∷ s) < 100) × IsCString (c ∷ s)

skip_switch_lem :
    (switches name rest : List ℕ)
    → AreSwitches switches
    → IsName name
    → skip_switch (switches ++ (name ++ rest)) ≡ name ++ rest
unfolding skip_switch
skip_switch_lem [] [] rest hs hn = absurd hn
skip_switch_lem [] (c ∷ name) rest hs hn = rw (skip_switch, hn.0)
skip_switch_lem (c ∷ switches) name rest hs hn =
    rw (skip_switch, hs.0, skip_switch_lem switches name rest hs.1 hn)

name_fits : (name : List ℕ) → IsName name → ltb (length name) 100 ≡ true
name_fits [] h = absurd h
name_fits (c ∷ s) h = ground (arith, h.2)

name_text : (name : List ℕ) → IsName name → IsCString name × IsWithout b':' name
name_text [] h = absurd h
name_text (c ∷ s) h = (h.3, h.1)

name_and_value_lem :
    (name value : List ℕ)
    → IsName name
    → (name_and_value (name ++ b':' ∷ value) ≡ some (name, some value))
      × (name_and_value name ≡ some (name, none))
unfolding name_and_value
name_and_value_lem name value h =
    let colon = (name_text name h).1 in
    (
      rw (name_and_value, cut_at-append b':' name value colon, name_fits name h),
      rw (name_and_value, cut_at-none b':' name colon, name_fits name h),
    )

named :
    (switches name value : List ℕ)
    → AreSwitches switches
    → IsName name
    → name_and_value (skip_switch (switches ++ (name ++ b':' ∷ value))) ≡ some (name, some value)
named switches name value hs hn =
    ap name_and_value (skip_switch_lem switches name (b':' ∷ value) hs hn)
    ∙ (name_and_value_lem name value hn).0

parse_steps :
    (cmd sw value param : List ℕ)
    → name_and_value (skip_switch cmd) ≡ some (sw, some value)
    → parse_cmd_param_value cmd param ≡ some (value, equal_text sw param)
unfolding parse_cmd_param_value
parse_steps cmd sw value param e = rw (parse_cmd_param_value, e)

param_steps :
    (str sw value param held : List ℕ) (argv : List (List ℕ))
    → name_and_value (skip_switch str) ≡ some (sw, some value)
    → param_loop (str ∷ argv) param held
      ≡ (if equal_text sw param then some (value, true) else param_loop argv param value)
unfolding param_loop
param_steps str sw value param held argv e = rw (param_loop, e)

-- Whatever switch characters stand in front, `name:value` with such a name is taken apart into its name and value,
-- and it is the parameter that is asked for just when the names are the same but for case.
pub parse_cmd_param_value_lem :
    (switches name value param : List ℕ)
    → AreSwitches switches
    → IsName name
    → IsCString param
    → parse_cmd_param_value (switches ++ (name ++ b':' ∷ value)) param
      ≡ some (value, same_text name param)
unfolding parse_cmd_param_value
parse_cmd_param_value_lem switches name value param hs hn hp = rw (
  parse_steps (switches ++ (name ++ b':' ∷ value)) name value param
      (named switches name value hs hn),
  equal_text_lem name param (name_text name hn).0 hp,
)

-- arguments of the form `name:value` whose names are not the parameter's
abbrev pub AreOthers : List ℕ → List (List ℕ × List ℕ) → Type 0
AreOthers param [] = Unit {0}
AreOthers param (arg ∷ args) = IsName arg.0 × (same_text arg.0 param ≡ false) × AreOthers param args

-- the arguments as they are typed
abbrev pub typed : List (List ℕ × List ℕ) → List (List ℕ) → List (List ℕ)
typed [] argv = argv
typed (arg ∷ args) argv = (b'-' ∷ (arg.0 ++ b':' ∷ arg.1)) ∷ typed args argv

param_loop_found :
    (args : List (List ℕ × List ℕ)) (name value param held : List ℕ) (argv : List (List ℕ))
    → AreOthers param args
    → IsName name
    → IsCString param
    → same_text name param ≡ true
    → param_loop (typed args ((b'-' ∷ (name ++ b':' ∷ value)) ∷ argv)) param held
      ≡ some (value, true)
param_loop_found [] name value param held argv ho hn hp same = rw (
  param_steps (b'-' ∷ (name ++ b':' ∷ value)) name value param held argv
      (named (b'-' ∷ []) name value (ground arith) hn),
  equal_text_lem name param (name_text name hn).0 hp,
  same,
)
param_loop_found (arg ∷ args) name value param held argv ho hn hp same =
    let rest = param_loop_found args name value param arg.1 argv ho.2 hn hp same in
    let later = typed args ((b'-' ∷ (name ++ b':' ∷ value)) ∷ argv) in
    rw
      (
        param_steps (b'-' ∷ (arg.0 ++ b':' ∷ arg.1)) arg.0 arg.1 param held later
            (named (b'-' ∷ []) arg.0 arg.1 (ground arith) ho.0),
        equal_text_lem arg.0 param (name_text arg.0 ho.0).0 hp,
        ho.1,
      )
      rest

-- Among arguments `-name:value`, whose names have 1 to 99 bytes, none of them a colon or a zero, and do
-- not begin with a space, slash, dash or backslash: the first whose name is the parameter's but for case
-- gives its value, and the ones in front of it leave nothing behind.
pub get_cmd_param_value_lem :
    (args : List (List ℕ × List ℕ)) (name value param : List ℕ) (argv : List (List ℕ))
    → AreOthers param args
    → IsName name
    → IsCString param
    → same_text name param ≡ true
    → get_cmd_param_value (typed args ((b'-' ∷ (name ++ b':' ∷ value)) ∷ argv)) param
      ≡ some (value, true)
unfolding get_cmd_param_value
get_cmd_param_value_lem args name value param argv ho hn hp same =
    param_loop_found args name value param [] argv ho hn hp same
