-- ===== src/Utils/Split/Prefix.antt =====
-- `RemovePrefix` against `Addprefix`.
use psuart.Prelude.{
  ℕ, zero, suc, ◌<◌, ◌≡◌, refl, subst, arith, List, [], ◌∷◌, ◌++◌, ◌⊎◌, inl, inr, some, none, true,
  false, leb, ltb, if◌then◌else◌, length, length-append, drop, drop-append, ◌==◌, ==_iff,
}
use psuart.Prelude.Int.{ℤ, pos, negsuc}
use psuart.Rader.Command.{lower}
use psuart.Rader.Command.Accept.{same_text}
use psuart.Utils.Text.{IsWithout, utils_strincmp, add_prefix}
use psuart.Utils.Text.Compare.{IsCString, Agrees, utils_strincmp_lem}
use psuart.Utils.Split.{prefix_pos, remove_prefix}

prefix_pos-append :
    (prefix source : List ℕ) (whole all : ℕ)
    → IsWithout b'*' prefix
    → prefix_pos whole all (prefix ++ source) prefix ≡ whole
unfolding prefix_pos
prefix_pos-append [] source whole all h = elim source [ [] ↦ refl | s ∷ rest ↦ refl ]
prefix_pos-append (p ∷ prefix) source whole all h =
    rw (h.0, (==_iff p p).1 refl, prefix_pos-append prefix source whole all h.1)

prefix_pos_short :
    (source more : List ℕ) (whole all : ℕ)
    → IsWithout b'*' source
    → prefix_pos whole all source (source ++ more) ≡ whole
unfolding prefix_pos
prefix_pos_short [] [] whole all h = refl
prefix_pos_short [] (p ∷ more) whole all h = refl
prefix_pos_short (s ∷ source) more whole all h =
    rw (h.0, (==_iff s s).1 refl, prefix_pos_short source more whole all h.1)

lower_star : (p : ℕ) → (p == b'*') ≡ false → (lower p == b'*') ≡ false
lower_star p h = ground (arith, h)

not_whole : (prefix : List ℕ) → IsWithout b'*' prefix → same_text prefix (b'*' ∷ b'a' ∷ []) ≡ false
not_whole [] h = refl
not_whole (p ∷ prefix) h = rw (lower_star p h.0)

nonzero : (z : ℤ) → Agrees z false → ((n : ℕ) × (z ≡ pos (suc n))) ⊎ ((n : ℕ) × (z ≡ negsuc n))
nonzero (pos zero) h = ground (arith, h)
nonzero (pos (suc n)) h = inl (n, refl)
nonzero (negsuc n) h = inr (n, refl)

-- the branch that does not keep the whole source
remove_prefix_steps :
    (source prefix : List ℕ) (s_pos : ℕ)
    → IsCString prefix
    → IsWithout b'*' prefix
    → prefix_pos (length prefix) (length source) source prefix ≡ s_pos
    → remove_prefix source prefix
      ≡ (if leb s_pos (length source) then some (drop s_pos source, ltb 0 s_pos) else none)
unfolding remove_prefix
remove_prefix_steps source prefix s_pos text plain e =
    let other : Agrees (utils_strincmp prefix (b'*' ∷ b'a' ∷ []) 0) false =
      subst (Agrees (utils_strincmp prefix (b'*' ∷ b'a' ∷ []) 0)) (not_whole prefix plain)
        (utils_strincmp_lem prefix (b'*' ∷ b'a' ∷ []) text (ground arith)) in
    elim (nonzero (utils_strincmp prefix (b'*' ∷ b'a' ∷ []) 0) other) [
      | inl (n, z) ↦ rw (remove_prefix, z, e)
      | inr (n, z) ↦ rw (remove_prefix, z, e)
    ]

-- A prefix that was put in front of a source is taken off again, if it is not empty and has no `*`,
-- and the result says that one was removed.
pub remove_prefix-add_prefix :
    (source prefix : List ℕ)
    → IsCString prefix
    → IsWithout b'*' prefix
    → 0 < length prefix
    → remove_prefix (add_prefix source prefix) prefix ≡ some (source, true)
unfolding add_prefix
remove_prefix-add_prefix source prefix text plain more =
    let steps =
      remove_prefix_steps (prefix ++ source) prefix (length prefix) text plain
        (prefix_pos-append prefix source (length prefix) (length (prefix ++ source)) plain) in
    let inside : leb (length prefix) (length (prefix ++ source)) ≡ true =
      ground (arith, length-append prefix source) in
    let removed : ltb 0 (length prefix) ≡ true = ground arith in
    rw (add_prefix, steps, inside, removed, drop-append prefix source (length prefix) refl)

-- A source that is a proper beginning of the prefix is read behind its terminating zero.
pub remove_prefix_short :
    (source more : List ℕ)
    → IsCString (source ++ more)
    → IsWithout b'*' (source ++ more)
    → IsWithout b'*' source
    → 0 < length more
    → remove_prefix source (source ++ more) ≡ none
remove_prefix_short source more text plain whole longer =
    let steps =
      remove_prefix_steps source (source ++ more) (length (source ++ more)) text plain
        (prefix_pos_short source more (length (source ++ more)) (length source) whole) in
    let outside : leb (length (source ++ more)) (length source) ≡ false =
      ground (arith, length-append source more) in
    rw (steps, outside)
