-- ===== src/Service/Config/Rows.antt =====
-- What the lines of a configuration file leave in the fields.
use psuart.Prelude.{
  ℕ, ◌≡◌, refl, sym, ap₂, ◌∙◌, List, [], ◌∷◌, Option, some, none, none->>=, Bool, true, false, ◌&&◌,
  ◌||◌, ◌==◌, ==_iff, if◌then◌else◌, Bool-cases, inl, inr,
}
use psuart.Utils.Serial.{codes}
use psuart.Utils.Address.{parse_ip_addr}
use psuart.Service.Config.{
  Row, same_text, is_row, handler, field, handle_all, number_of, read_numbers, load_psu_config,
}

and-parts : (b c : Bool) → (b && c) ≡ true → (b ≡ true) × (c ≡ true)
and-parts true c h = (refl, h)
and-parts false c h = absurd (cc)

same_text-eq : (a b : List ℕ) → same_text a b ≡ true → a ≡ b
same_text-eq [] [] h = refl
same_text-eq [] (d ∷ b) h = absurd (cc)
same_text-eq (c ∷ a) [] h = absurd (cc)
same_text-eq (c ∷ a) (d ∷ b) h =
    let (first, rest) = and-parts (c == d) (same_text a b) h in
    ap₂ ◌∷◌ ((==_iff c d).0 first) (same_text-eq a b rest)

same_text_self : (a : List ℕ) → same_text a a ≡ true
same_text_self [] = refl
same_text_self (c ∷ a) = rw ((==_iff c c).1 refl, same_text_self a)

-- whether two keys are the same
abbrev pub same_key : List ℕ → List ℕ → List ℕ → List ℕ → Bool
same_key s n section name = same_text s section && same_text n name

same_key_both :
    (s n section name : List ℕ) (row : Row)
    → is_row s n row ≡ true
    → is_row section name row ≡ true
    → same_key s n section name ≡ true
same_key_both s n section name row h k =
    let (hs, hn) = and-parts (same_text s row.section) (same_text n row.name) h in
    let (ks, kn) = and-parts (same_text section row.section) (same_text name row.name) k in
    let es = same_text-eq s row.section hs ∙ sym (same_text-eq section row.section ks) in
    let en = same_text-eq n row.name hn ∙ sym (same_text-eq name row.name kn) in
    rw (es, en, same_text_self section, same_text_self name)

same_key_row :
    (s n section name : List ℕ) (row : Row)
    → same_key s n section name ≡ true
    → is_row s n row ≡ is_row section name row
same_key_row s n section name row h =
    let (hs, hn) = and-parts (same_text s section) (same_text n name) h in
    ap₂ (λ a b. is_row a b row) (same_text-eq s section hs) (same_text-eq n name hn)

abbrev pub has_row : List ℕ → List ℕ → List Row → Bool
has_row section name [] = false
has_row section name (row ∷ rows) = is_row section name row || has_row section name rows

module _ (s n section name value : List ℕ) where
  field-handler_same :
      (rows : List Row)
      → same_key s n section name ≡ true
      → has_row section name rows ≡ true
      → field section name (handler s n value rows) ≡ some value
  unfolding field handler
  field-handler_same [] h k = absurd (cc)
  field-handler_same (row ∷ rows) h k = elim (Bool-cases (is_row section name row)) [
    | inl here ↦
        let set : is_row s n row ≡ true = same_key_row s n section name row h ∙ here in
        rw (set, here)
    | inr other ↦
        let kept : is_row s n row ≡ false = same_key_row s n section name row h ∙ other in
        rw (kept, other) (field-handler_same rows h (rw other at k))
  ]

  pub field-handler_other :
      (rows : List Row)
      → same_key s n section name ≡ false
      → field section name (handler s n value rows) ≡ field section name rows
  unfolding field handler
  field-handler_other [] h = refl
  field-handler_other (row ∷ rows) h = elim (Bool-cases (is_row s n row)) [
    | inr kept ↦ elim (Bool-cases (is_row section name row)) [
      | inl here ↦ rw (kept, here)
      | inr other ↦ rw (kept, other) (field-handler_other rows h)
    ]
    | inl set ↦ elim (Bool-cases (is_row section name row)) [
      | inl here ↦ let both = same_key_both s n section name row set here in absurd (cc)
      | inr other ↦ rw (set, other)
    ]
  ]

  has_row-handler :
      (rows : List Row) → has_row section name (handler s n value rows) ≡ has_row section name rows
  unfolding handler
  has_row-handler [] = refl
  has_row-handler (row ∷ rows) = elim (Bool-cases (is_row s n row)) [
    | inl set ↦ rw set
    | inr kept ↦ rw (kept, has_row-handler rows)
  ]

-- the value of the last call for a key, or what was there before
abbrev pub last_call :
    List ℕ → List ℕ → List (List ℕ × List ℕ × List ℕ) → Option (List ℕ) → Option (List ℕ)
last_call section name [] start = start
last_call section name ((s, n, value) ∷ calls) start =
    last_call section name calls (if same_key s n section name then some value else start)

-- Behind any calls of `handler`, in whatever order, a field of psuservice.def holds the value of the last
-- call for its section and name, or what it held before if there was none; calls for other keys leave
-- it alone.
pub handle_all_lem :
    (section name : List ℕ) (calls : List (List ℕ × List ℕ × List ℕ)) (rows : List Row)
    → has_row section name rows ≡ true
    → field section name (handle_all calls rows)
      ≡ last_call section name calls (field section name rows)
handle_all_lem section name [] rows h = refl
handle_all_lem section name ((s, n, value) ∷ calls) rows h =
    let still = has_row-handler s n section name value rows ∙ h in
    elim (Bool-cases (same_key s n section name)) [
      | inl same ↦
          handle_all_lem section name calls (handler s n value rows) still
          ∙ rw (same, field-handler_same s n section name value rows same h)
      | inr other ↦
          handle_all_lem section name calls (handler s n value rows) still
          ∙ rw (other, field-handler_other s n section name value rows other)
    ]

read_numbers-none :
    (atoi : List ℕ → ℕ) (rows : List Row)
    → field (codes "network") (codes "ipaddr") rows ≡ none
    → read_numbers atoi rows ≡ none
unfolding read_numbers parse_ip_addr
read_numbers-none atoi rows h =
    none->>= (number_of (field (codes "log") (codes "flag") rows)) _ (λ a.
      none->>= (number_of (field (codes "log") (codes "minLevel") rows)) _ (λ b.
        none->>= (number_of (field (codes "log") (codes "maxLevel") rows)) _ (λ c.
          none->>= (number_of (field (codes "network") (codes "selectTimeout") rows)) _ (λ d.
            none->>= (number_of (field (codes "network") (codes "udpport") rows)) _ (λ e. rw h)))))

-- A file that can be loaded but sets no `ipaddr` in `network`, while none was set before, makes the
-- service read through a null pointer; the defaults are not used then.
pub load_psu_config-none :
    (atoi : List ℕ → ℕ) (writable : Bool) (calls : List (List ℕ × List ℕ × List ℕ))
    (rows : List Row) (file : Option (List ℕ))
    → has_row (codes "network") (codes "ipaddr") rows ≡ true
    → last_call
        (codes "network")
        (codes "ipaddr")
        calls
        (field (codes "network") (codes "ipaddr") rows)
      ≡ none
    → load_psu_config atoi writable (some calls) rows file ≡ none
unfolding load_psu_config
load_psu_config-none atoi writable calls rows file h unset = rw (
    read_numbers-none atoi (handle_all calls rows)
      (handle_all_lem (codes "network") (codes "ipaddr") calls rows h ∙ unset))
