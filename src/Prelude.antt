-- ===== src/Prelude.antt =====
-- The names that the other modules share: the libraries', passed on, and those of the children.
mod Tests
mod Lists
mod Pointwise
mod Words
mod Memory
mod Outcome
pub mod Bits
pub mod Int
pub use Tests.*
pub use Lists.*
pub use Pointwise.*
pub use Words.*
pub use Outcome.{
  Holds, Holds-elim, Holds-intro, Holds-if, Holds->>=, Holds->>=_after, Yields, Yields->>=,
}
pub use Memory.{◌>>=◌, none->>=, >>=-eq-some, peek, poke, splice, length-splice, get_or-splice}
unfoldable pub use Lists.{tabulate}
unfoldable pub use Memory.{load, store, memcpy}
pub use Memory.{load-eq-some, load-eq-none, store-eq-some, length-taken, memcpy-eq-some}
pub use Memory.{peek-append, poke-append, load-append, memcpy-append}
pub use Prim.Native.Nat.{ℕ, zero, suc, ◌+◌, ◌-◌, ◌*◌, ◌/◌, ◌%◌, ◌^◌, ◌≤◌, ◌<◌, min, max}
pub use Prim.Native.Nat.{bit_and, bit_or, bit_xor}
pub use mathlib.Core.Path.{◌≡◌, refl, sym, ap, ap₂, ◌∙◌, subst, fun_ext}
pub use mathlib.Core.Logic.{◌≢◌, ◌↔◌, ◌⊎◌, inl, inr}
pub use mathlib.Core.Bool.{Bool, true, false, not, ◌&&◌, ◌||◌}
pub use mathlib.Core.Option.{Option, none, some}
pub use mathlib.Core.List.{List, [], ◌∷◌, ◌++◌, map, reverse, append-nil, append_assoc}
pub use native.Mathlib.Omega.{arith}
