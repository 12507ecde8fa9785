-- ===== src/Utils/Split/KeyValue.antt =====
-- Keys and values taken apart at the first spliter, and a word at a break.
use psuart.Prelude.{ℕ, ◌≡◌, refl, List, [], ◌∷◌, ◌++◌, some, none, true, false}
use psuart.Utils.Text.{IsWithout}
use psuart.Utils.Split.{
  is_spliter, cut_at_spliter, split_string_key_value, split_string_value, value_loop, is_break,
  left_string,
}
use psuart.Utils.Split.Arguments.{cut_at-append}

abbrev pub HasNoSpliter : List ℕ → Type 0
HasNoSpliter [] = Unit {0}
HasNoSpliter (x ∷ s) = (is_spliter x ≡ false) × HasNoSpliter s

cut_at_spliter-none : (s : List ℕ) → HasNoSpliter s → cut_at_spliter s ≡ none
unfolding cut_at_spliter
cut_at_spliter-none [] h = refl
cut_at_spliter-none (x ∷ s) h = rw (cut_at_spliter, h.0, cut_at_spliter-none s h.1)

cut_at_spliter-append :
    (before : List ℕ) (c : ℕ) (after : List ℕ)
    → HasNoSpliter before
    → is_spliter c ≡ true
    → cut_at_spliter (before ++ c ∷ after) ≡ some (before, after)
unfolding cut_at_spliter
cut_at_spliter-append [] c after h at = rw (cut_at_spliter, at)
cut_at_spliter-append (x ∷ before) c after h at =
    rw (cut_at_spliter, h.0, cut_at_spliter-append before c after h.1 at)

-- A key and a value that is not empty, with one of the five spliters between them, are taken apart;
-- a text with no spliter is all key; and a key with nothing behind its spliter keeps the spliter.
pub split_string_key_value_lem :
    (key value : List ℕ) (c v : ℕ)
    → HasNoSpliter key
    → is_spliter c ≡ true
    → (split_string_key_value (key ++ c ∷ v ∷ value) ≡ (key, v ∷ value))
      × (split_string_key_value key ≡ (key, []))
      × (split_string_key_value (key ++ c ∷ []) ≡ (key ++ c ∷ [], []))
unfolding split_string_key_value
split_string_key_value_lem key value c v h at = (
  rw (split_string_key_value, cut_at_spliter-append key c (v ∷ value) h at),
  rw (split_string_key_value, cut_at_spliter-none key h),
  rw (split_string_key_value, cut_at_spliter-append key c [] h at),
)

-- What stands behind the first `=` is the value, whatever other spliters the key and the value hold.
pub split_string_value_lem :
    (key value : List ℕ) → IsWithout b'=' key → split_string_value (key ++ b'=' ∷ value) ≡ value
unfolding split_string_value value_loop
split_string_value_lem key value h =
    rw (split_string_value, value_loop, cut_at-append b'=' key value h)

abbrev pub HasNoBreak : ℕ → List ℕ → Type 0
HasNoBreak b [] = Unit {0}
HasNoBreak b (x ∷ s) = (is_break b x ≡ false) × HasNoBreak b s

-- The word in front of the first break is copied and the rest behind it is returned; a text with no
-- break is copied whole.
pub left_string_lem :
    (b : ℕ) (word : List ℕ) (c : ℕ) (rest : List ℕ)
    → HasNoBreak b word
    → is_break b c ≡ true
    → (left_string b (word ++ c ∷ rest) ≡ (word, rest)) × (left_string b word ≡ (word, []))
unfolding left_string
left_string_lem b [] c rest h at = (rw (left_string, at), refl)
left_string_lem b (x ∷ word) c rest h at =
    let (first, second) = left_string_lem b word c rest h.1 at in
    (rw (left_string, h.0, first), rw (left_string, h.0, second))
