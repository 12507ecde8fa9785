-- ===== src/Utils/Text/Compare.antt =====
-- `utils_strincmp` with length 0 compares whole strings, whatever the case of their letters.
use psuart.Prelude.{
  ℕ, zero, suc, ◌≤◌, ◌≡◌, refl, arith, List, [], ◌∷◌, Bool, true, false, ltb, ◌==◌, if◌then◌else◌,
  length,
}
use psuart.Prelude.Int.{ℤ, pos, negsuc}
use psuart.Rader.Command.Accept.{same_text}
use psuart.Utils.Text.{strincmp_loop, utils_strincmp}

-- no byte is zero, as in the text of a C string
abbrev pub IsCString : List ℕ → Type 0
IsCString [] = Unit {0}
IsCString (c ∷ s) = ((c == 0) ≡ false) × IsCString s

-- a result is zero just when the flag is set
abbrev pub Agrees : ℤ → Bool → Type 0
Agrees (pos zero) b = b ≡ true
Agrees (pos (suc n)) b = b ≡ false
Agrees (negsuc n) b = b ≡ false

strincmp_loop-Agrees :
    (n : ℕ) (s1 s2 : List ℕ)
    → IsCString s1
    → IsCString s2
    → length s1 ≤ n
    → length s2 ≤ n
    → Agrees (strincmp_loop n s1 s2) (same_text s1 s2)
unfolding strincmp_loop
strincmp_loop-Agrees zero [] [] h1 h2 l1 l2 = refl
strincmp_loop-Agrees zero [] (d ∷ s2) h1 h2 l1 l2 = absurd (omega arith)
strincmp_loop-Agrees zero (c ∷ s1) s2 h1 h2 l1 l2 = absurd (omega arith)
strincmp_loop-Agrees (suc n) [] [] h1 h2 l1 l2 = refl
strincmp_loop-Agrees (suc n) [] (d ∷ s2) h1 h2 l1 l2 = ground (arith, h2.0)
strincmp_loop-Agrees (suc n) (c ∷ s1) [] h1 h2 l1 l2 = ground (arith, h1.0)
strincmp_loop-Agrees (suc n) (c ∷ s1) (d ∷ s2) h1 h2 l1 l2 =
    ground (arith, h1.0, h2.0, strincmp_loop-Agrees n s1 s2 h1.1 h2.1)

-- For two C strings the comparison with length 0 is zero just when the texts are the same but for
-- the case of their letters; no character behind a terminating zero decides it.
pub utils_strincmp_lem :
    (s1 s2 : List ℕ)
    → IsCString s1
    → IsCString s2
    → Agrees (utils_strincmp s1 s2 0) (same_text s1 s2)
unfolding utils_strincmp
utils_strincmp_lem s1 s2 h1 h2 =
    strincmp_loop-Agrees (if ltb (length s1) (length s2) then length s2 else length s1) s1 s2 h1 h2
      (ground arith) (ground arith)
