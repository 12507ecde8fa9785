-- ===== src/Prelude/Memory.antt =====
-- Arrays in C memory: an access outside the array is a fault, `none`.
use Prim.Native.Nat.{ℕ, zero, suc, ◌+◌, ◌-◌, ◌≤◌, ◌<◌}
use mathlib.Core.Path.{◌≡◌, refl, ap, ◌∙◌}
use mathlib.Core.Option.{Option, none, some}
use mathlib.Core.List.{List, [], ◌∷◌, ◌++◌}
use native.Mathlib.Omega.{arith}
use psuart.Prelude.Tests.{leb, ltb, le→leb, if◌then◌else◌}
use psuart.Prelude.Lists.{
  length, get_or, set, take, drop, length-append, length-take, length-drop, take-append,
  drop-append, drop-append_add,
}
use psuart.Prelude.Pointwise.{get_or-append, get_or-take, get_or-drop}

infixl 5 ◌>>=◌
abbrev pub ◌>>=◌ {ℓ κ} : {A : Type ℓ} {B : Type κ} → Option A → (A → Option B) → Option B
none >>= f = none
some a >>= f = f a

pub >>=-eq-some {ℓ κ} :
    {A : Type ℓ} {B : Type κ} (m : Option A) (f : A → Option B) {b : B}
    → (m >>= f) ≡ some b
    → (a : A) × (m ≡ some a) × (f a ≡ some b)
>>=-eq-some none f h = absurd (cc)
>>=-eq-some (some a) f h = (a, refl, h)

-- a chain of which the second part is undefined throughout
pub none->>= {ℓ κ} :
    {A : Type ℓ} {B : Type κ} (m : Option A) (f : A → Option B)
    → ((a : A) → f a ≡ none)
    → (m >>= f) ≡ none
none->>= none f h = refl
none->>= (some a) f h = h a

-- `m[i]`
abbrev pub peek : List ℕ → ℕ → Option ℕ
peek m i = if ltb i (length m) then some (get_or m i 0) else none

-- `m[i] = v`
abbrev pub poke : List ℕ → ℕ → ℕ → Option (List ℕ)
poke m i v = if ltb i (length m) then some (set m i v) else none

-- the `n` bytes at `m + off`
unfoldable pub load : List ℕ → ℕ → ℕ → Option (List ℕ)
load m off n = if leb (off + n) (length m) then some (take n (drop off m)) else none

-- `m` with `bytes` in place of its own from `off` on
pub splice : List ℕ → ℕ → List ℕ → List ℕ
splice m off bytes = take off m ++ (bytes ++ drop (off + length bytes) m)

-- `bytes` written at `m + off`
unfoldable pub store : List ℕ → ℕ → List ℕ → Option (List ℕ)
store m off bytes = if leb (off + length bytes) (length m) then some (splice m off bytes) else none

-- `memcpy(dst + to, src + from, n)`
unfoldable pub memcpy : List ℕ → ℕ → List ℕ → ℕ → ℕ → Option (List ℕ)
unfolding load store
memcpy dst to src from n = do bytes ← load src from n; store dst to bytes

pub load-eq-some :
    (m : List ℕ) (off n : ℕ) → off + n ≤ length m → load m off n ≡ some (take n (drop off m))
unfolding load
load-eq-some m off n h = rw (le→leb _ _ h)

pub load-eq-none : (m : List ℕ) (off n : ℕ) → length m < off + n → load m off n ≡ none
unfolding load
load-eq-none m off n h = ground arith

pub store-eq-some :
    (m : List ℕ) (off : ℕ) (bytes : List ℕ)
    → off + length bytes ≤ length m
    → store m off bytes ≡ some (splice m off bytes)
unfolding store
store-eq-some m off bytes h = rw (le→leb _ _ h)

pub length-splice :
    (m : List ℕ) (off : ℕ) (bytes : List ℕ)
    → off + length bytes ≤ length m
    → length (splice m off bytes) ≡ length m
unfolding splice
length-splice m off bytes h = omega (
  arith,
  length-append (take off m) (bytes ++ drop (off + length bytes) m),
  length-append bytes (drop (off + length bytes) m),
  length-take off m,
  length-drop (off + length bytes) m,
)

pub get_or-splice :
    (m : List ℕ) (off : ℕ) (bytes : List ℕ) (i : ℕ)
    → off + length bytes ≤ length m
    → get_or (splice m off bytes) i 0 ≡ (
        if ltb i off
        then get_or m i 0
        else if ltb i (off + length bytes)
        then get_or bytes (i - off) 0
        else get_or m i 0)
unfolding splice
get_or-splice m off bytes i h = ground (
  arith,
  get_or-append (take off m) (bytes ++ drop (off + length bytes) m) i 0,
  get_or-append bytes (drop (off + length bytes) m) (i - off) 0,
  get_or-take off m i 0,
  get_or-drop (off + length bytes) m (i - off - length bytes) 0,
  length-take off m,
)

pub length-taken :
    (src : List ℕ) (from n : ℕ) → from + n ≤ length src → length (take n (drop from src)) ≡ n
length-taken src from n h = omega (arith, length-take n (drop from src), length-drop from src)

pub memcpy-eq-some :
    (dst : List ℕ) (to : ℕ) (src : List ℕ) (from n : ℕ)
    → from + n ≤ length src
    → to + n ≤ length dst
    → memcpy dst to src from n ≡ some (splice dst to (take n (drop from src)))
unfolding memcpy
memcpy-eq-some dst to src from n h k =
    rw (load-eq-some src from n h)
      (store-eq-some dst to (take n (drop from src)) (omega (arith, length-taken src from n h)))

pub peek-append :
    (xs : List ℕ) (y : ℕ) (ys : List ℕ) (i : ℕ) → i ≡ length xs → peek (xs ++ y ∷ ys) i ≡ some y
peek-append xs y ys i e = ground (arith, length-append xs (y ∷ ys), get_or-append xs (y ∷ ys) i 0)

set-append :
    (xs : List ℕ) (y : ℕ) (ys : List ℕ) (i v : ℕ)
    → i ≡ length xs
    → set (xs ++ y ∷ ys) i v ≡ xs ++ v ∷ ys
set-append [] y ys zero v e = refl
set-append [] y ys (suc i) v e = absurd (omega arith)
set-append (x ∷ xs) y ys zero v e = absurd (omega arith)
set-append (x ∷ xs) y ys (suc i) v e = ap (◌∷◌ x) (set-append xs y ys i v (omega arith))

pub poke-append :
    (xs : List ℕ) (y : ℕ) (ys : List ℕ) (i v : ℕ)
    → i ≡ length xs
    → poke (xs ++ y ∷ ys) i v ≡ some (xs ++ v ∷ ys)
poke-append xs y ys i v e = ground (arith, length-append xs (y ∷ ys), set-append xs y ys i v e)

pub load-append :
    (xs ys zs : List ℕ) (off n : ℕ)
    → off ≡ length xs
    → n ≡ length ys
    → load (xs ++ (ys ++ zs)) off n ≡ some ys
load-append xs ys zs off n e k =
    load-eq-some (xs ++ (ys ++ zs)) off n
      (omega (arith, length-append xs (ys ++ zs), length-append ys zs))
    ∙ rw (drop-append xs (ys ++ zs) off e, take-append ys zs n k)

splice-append :
    (xs ys bytes : List ℕ) (to n : ℕ)
    → to ≡ length xs
    → length bytes ≡ n
    → splice (xs ++ ys) to bytes ≡ xs ++ (bytes ++ drop n ys)
unfolding splice
splice-append xs ys bytes to n e k = rw (k, take-append xs ys to e, drop-append_add xs ys to n e)

-- Bytes written behind `xs` stand behind it; what lay there beyond them stays.
pub memcpy-append :
    (xs ys src : List ℕ) (to n : ℕ)
    → to ≡ length xs
    → n ≤ length src
    → n ≤ length ys
    → memcpy (xs ++ ys) to src 0 n ≡ some (xs ++ (take n src ++ drop n ys))
memcpy-append xs ys src to n e h k =
    memcpy-eq-some (xs ++ ys) to src 0 n (omega arith) (omega (arith, length-append xs ys))
    ∙ ap some (splice-append xs ys (take n src) to n e (length-taken src 0 n (omega arith)))
