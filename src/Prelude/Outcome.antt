-- ===== src/Prelude/Outcome.antt =====
-- What holds of a result where there is one: a rule for each way to chain and to branch.
use mathlib.Core.Path.{◌≡◌, sym, subst}
use mathlib.Core.Bool.{Bool, true, false}
use mathlib.Core.Option.{Option, none, some}
use psuart.Prelude.Tests.{if◌then◌else◌}
use psuart.Prelude.Memory.{◌>>=◌}

module _ {ℓ κ} {A : Type ℓ} where
  abbrev pub Holds : (A → Type κ) → Option A → Type κ
  Holds P none = Unit
  Holds P (some a) = P a

  pub Holds-elim : (P : A → Type κ) {m : Option A} {a : A} → Holds P m → m ≡ some a → P a
  Holds-elim P h e = subst (Holds P) e h

  pub Holds-intro : (P : A → Type κ) {m : Option A} {a : A} → m ≡ some a → P a → Holds P m
  Holds-intro P e h = subst (Holds P) (sym e) h

  pub Holds-if :
      (P : A → Type κ) (test : Bool) (good bad : Option A)
      → Holds P good
      → Holds P bad
      → Holds P (if test then good else bad)
  Holds-if P true good bad hy hn = hy
  Holds-if P false good bad hy hn = hn

-- A chain does what its second part does, whatever the first one gave.
pub Holds->>= {ℓ κ} :
    {A : Type ℓ} {B : Type ℓ} (P : B → Type κ) (m : Option A) (f : A → Option B)
    → ((a : A) → Holds P (f a))
    → Holds P (m >>= f)
Holds->>= P none f h = tt
Holds->>= P (some a) f h = h a

-- The second part relies on what the first one left.
pub Holds->>=_after {ℓ κ} :
    {A : Type ℓ} {B : Type ℓ} (Q : A → Type κ) (P : B → Type κ) (m : Option A) (f : A → Option B)
    → Holds Q m
    → ((a : A) → Q a → Holds P (f a))
    → Holds P (m >>= f)
Holds->>=_after Q P none f hm h = tt
Holds->>=_after Q P (some a) f hm h = h a hm

-- There is a result, and this holds of it.
module _ {ℓ κ} {A : Type ℓ} where
  abbrev pub Yields : (A → Type κ) → Option A → Type (ℓ ⊔ κ)
  Yields P m = (a : A) × (m ≡ some a) × P a

-- A chain yields what its second part yields of what the first one does.
pub Yields->>= {ℓ κ μ ν} :
    {A : Type ℓ} {B : Type κ} (Q : A → Type μ) (P : B → Type ν) (m : Option A) (f : A → Option B)
    → Yields Q m
    → ((a : A) → Q a → Yields P (f a))
    → Yields P (m >>= f)
Yields->>= Q P m f (a, e, q) h = let (b, k, p) = h a q in (b, rw e k, p)
