-- ===== src/Utils/Number/Extreme.antt =====
-- `max_value` and `min_value`, which count the number of arguments among the values.
use psuart.Prelude.{ℕ, ◌≡◌, refl, arith, List, [], ◌∷◌, ◌⊎◌, inl}
use psuart.Prelude.Int.{ℤ, pos, ◌≤ℤ◌}
use psuart.Utils.Number.{max_loop, max_value}

-- every value is at most `m`; every value is at least `m`
abbrev pub AllBelow : ℤ → List ℤ → Type 0
AllBelow m [] = Unit {0}
AllBelow m (a ∷ args) = (a ≤ℤ m) × AllBelow m args

abbrev pub AllAbove : ℤ → List ℤ → Type 0
AllAbove m [] = Unit {0}
AllAbove m (a ∷ args) = (m ≤ℤ a) × AllAbove m args

-- one of the values is `m`
abbrev pub OneIs : ℤ → List ℤ → Type 0
OneIs m [] = ⊥
OneIs m (a ∷ args) = (m ≡ a) ⊎ OneIs m args

max_loop_lem :
    (ret : ℤ) (args : List ℤ)
    → (ret ≤ℤ max_loop ret args)
      × AllBelow (max_loop ret args) args
      × OneIs (max_loop ret args) (ret ∷ args)
unfolding max_loop
max_loop_lem ret [] = (omega arith, tt, inl refl)
max_loop_lem ret (step ∷ args) = ground (arith, max_loop_lem ret args, max_loop_lem step args)

-- The result of `max_value` is the largest of the arguments and of their number.
pub max_value_lem :
    (a : ℕ) (args : List ℤ)
    → AllBelow (max_value a args) (pos a ∷ args) × OneIs (max_value a args) (pos a ∷ args)
unfolding max_value
max_value_lem a args = ground (arith, max_loop_lem (pos a) args)
