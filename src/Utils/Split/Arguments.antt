-- ===== src/Utils/Split/Arguments.antt =====
-- `split_arguments` against the joining of fields.
use psuart.Prelude.{
  ℕ, zero, suc, ◌-◌, ◌≤◌, ◌<◌, ◌≡◌, refl, ap, subst, ◌∙◌, append-nil, arith, List, [], ◌∷◌, ◌++◌,
  some, none, true, ltb, ==_iff, length, take_all,
}
use psuart.Utils.Text.{IsWithout}
use psuart.Utils.Split.{cut_at, pass_one, split_arguments, max_arg_len}

-- the fields with the spliter between them
abbrev pub join : ℕ → List (List ℕ) → List ℕ
join c [] = []
join c (field ∷ []) = field
join c (field ∷ next ∷ fields) = field ++ c ∷ join c (next ∷ fields)

-- fields that fit their array entries: not empty, no spliter, room for the zero
abbrev pub AreFields : ℕ → List (List ℕ) → Type 0
AreFields c [] = Unit {0}
AreFields c (field ∷ fields) =
    IsWithout c field × 0 < length field × length field < max_arg_len × AreFields c fields

pub cut_at-none : (c : ℕ) (s : List ℕ) → IsWithout c s → cut_at c s ≡ none
unfolding cut_at
cut_at-none c [] h = refl
cut_at-none c (x ∷ s) h = rw (cut_at, h.0, cut_at-none c s h.1)

pub cut_at-append :
    (c : ℕ) (before after : List ℕ)
    → IsWithout c before
    → cut_at c (before ++ c ∷ after) ≡ some (before, after)
unfolding cut_at
cut_at-append c [] after h = rw (cut_at, (==_iff c c).1 refl)
cut_at-append c (x ∷ before) after h = rw (cut_at, h.0, cut_at-append c before after h.1)

pass_one_field :
    (c : ℕ) (field rest : List ℕ)
    → IsWithout c field
    → 0 < length field
    → pass_one c (field ++ rest) ≡ field ++ rest
pass_one_field c [] rest h more = absurd (omega arith)
pass_one_field c (x ∷ field) rest h more = rw h.0

split_arguments_next :
    (c room : ℕ) (field rest : List ℕ)
    → IsWithout c field
    → 0 < length field
    → length field < max_arg_len
    → split_arguments c (suc room) (field ++ c ∷ rest) ≡ field ∷ split_arguments c room rest
unfolding split_arguments
split_arguments_next c room field rest h more fits = rw (
  split_arguments,
  pass_one_field c field (c ∷ rest) h more,
  cut_at-append c field rest h,
  take_all (max_arg_len - 1) field (omega arith),
)

split_arguments_last :
    (c room : ℕ) (field : List ℕ)
    → IsWithout c field
    → 0 < length field
    → length field < max_arg_len
    → split_arguments c (suc room) field ≡ field ∷ []
unfolding split_arguments
split_arguments_last c room field h more fits =
    let here : pass_one c field ≡ field =
      subst (λ s. pass_one c s ≡ s) (append-nil field) (pass_one_field c field [] h more) in
    let positive : ltb 0 (length field) ≡ true = ground arith in
    rw (
      split_arguments,
      here,
      cut_at-none c field h,
      here,
      positive,
      take_all (max_arg_len - 1) field (omega arith),
    )

-- Fields that are not empty, have no spliter in them and are shorter than 512 come back one by one
-- from the text in which they are joined, if the array has room for them.
pub split_arguments-join :
    (c room : ℕ) (fields : List (List ℕ))
    → AreFields c fields
    → length fields ≤ room
    → split_arguments c room (join c fields) ≡ fields
unfolding split_arguments
split_arguments-join c zero [] h fits = refl
split_arguments-join c (suc room) [] h fits = refl
split_arguments-join c zero (field ∷ fields) h fits = absurd (omega arith)
split_arguments-join c (suc room) (field ∷ []) h fits =
    split_arguments_last c room field h.0 h.1 h.2
split_arguments-join c (suc room) (field ∷ next ∷ fields) h fits =
    split_arguments_next c room field (join c (next ∷ fields)) h.0 h.1 h.2
    ∙ ap (◌∷◌ field) (split_arguments-join c room (next ∷ fields) h.3 (omega arith))
