-- ===== src/Utils/Text/Cut.antt =====
-- File names taken apart at the last slash.
use psuart.Prelude.{ℕ, ◌≡◌, refl, List, [], ◌∷◌, ◌++◌, some, none, ==_iff}
use psuart.Utils.Text.{
  IsWithout, strrchr, path_split, extract_file_path, extract_file_name, change_file_ext,
}

strrchr-none : (c : ℕ) (s : List ℕ) → IsWithout c s → strrchr s c ≡ none
unfolding strrchr
strrchr-none c [] h = refl
strrchr-none c (x ∷ s) h = rw (strrchr-none c s h.1, h.0)

strrchr_lem :
    (c : ℕ) (before after : List ℕ)
    → IsWithout c after
    → strrchr (before ++ c ∷ after) c ≡ some (before, after)
unfolding strrchr
strrchr_lem c [] after h = rw (strrchr-none c after h, (==_iff c c).1 refl)
strrchr_lem c (x ∷ before) after h = rw (strrchr_lem c before after h)

-- A name with a directory is cut behind its last slash into path and file name; a name with no
-- slash is returned whole as both.
pub file_path_name :
    (dir name : List ℕ)
    → IsWithout path_split name
    → (extract_file_path (dir ++ path_split ∷ name) ≡ dir ++ path_split ∷ [])
      × (extract_file_name (dir ++ path_split ∷ name) ≡ name)
      × (extract_file_path name ≡ name)
      × (extract_file_name name ≡ name)
unfolding extract_file_path extract_file_name
file_path_name dir name h = (
  rw (strrchr_lem path_split dir name h, extract_file_path),
  rw (strrchr_lem path_split dir name h, extract_file_name),
  rw (strrchr-none path_split name h, extract_file_path),
  rw (strrchr-none path_split name h, extract_file_name),
)

-- The extension behind the last dot is replaced by the new one; a name with no dot gets the new one
-- appended.
pub change_file_ext_lem :
    (stem old ext : List ℕ)
    → IsWithout b'.' old
    → (change_file_ext (stem ++ b'.' ∷ old) ext ≡ stem ++ ext)
      × (change_file_ext old ext ≡ old ++ ext)
unfolding change_file_ext
change_file_ext_lem stem old ext h = (
  rw (strrchr_lem b'.' stem old h, change_file_ext),
  rw (strrchr-none b'.' old h, change_file_ext),
)
