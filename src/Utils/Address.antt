-- ===== src/Utils/Address.antt =====
-- `get_ip_addr` and `ParseIPAddr` of src/utils.c. `atoi` is a parameter. An address has its first part
-- in the lowest byte, as on a little-endian machine.
pub mod Print
use psuart.Prelude.{
  ℕ, ◌-◌, ◌%◌, ◌<◌, ◌≡◌, arith, List, [], ◌∷◌, ◌++◌, Option, some, none, ◌>>=◌, Bool, false, ltb,
  lt→ltb, ◌==◌, if◌then◌else◌, length, length-append, get_or,
}
use psuart.Prelude.Int.{ℤ, pos, negsuc}
use psuart.Utils.Ip.{address}
use psuart.Utils.Number.{str_to_int}
use psuart.Utils.Text.{utils_strincmp, strincmp_loop, IsWithout}
use psuart.Utils.Split.{cut_at, split_arguments}
use psuart.Utils.Split.Arguments.{join, AreFields, split_arguments-join, cut_at-none, cut_at-append}

abbrev pub is_zero : ℤ → Bool
is_zero (pos n) = n == 0
is_zero (negsuc n) = false

-- INADDR_ANY
abbrev pub inaddr_any : ℕ
inaddr_any = 0

-- a part of an address: an entry of `arg` that is not set is empty
abbrev pub part : (List ℕ → ℕ) → List (List ℕ) → ℕ → ℕ
part atoi arg i = atoi (get_or arg i []) % 256

unfoldable pub get_ip_addr : (List ℕ → ℕ) → List ℕ → ℕ
get_ip_addr atoi ipaddr =
    if is_zero (utils_strincmp ipaddr (b'*' ∷ []) (length ipaddr))
    then inaddr_any
    else let arg = split_arguments b'.' 4 ipaddr in
      address (part atoi arg 0) (part atoi arg 1) (part atoi arg 2) (part atoi arg 3)

-- an `int` stored in an `unsigned short`
abbrev pub unsigned_short : ℤ → ℕ
unsigned_short (pos n) = n % 65536
unsigned_short (negsuc n) = 65535 - n % 65536

-- The address and the port; a null text, or one that the local array has no room for, is a fault.
unfoldable pub parse_ip_addr : (List ℕ → ℕ) → Option (List ℕ) → Option (ℕ × ℕ)
parse_ip_addr atoi none = none
parse_ip_addr atoi (some text) =
    if ltb (length text) 50
    then elim (cut_at b':' text) [
      | none ↦ some (get_ip_addr atoi text, 0)
      | some (ip, port) ↦
          str_to_int port >>= λ value. some (get_ip_addr atoi ip, unsigned_short value)
    ]
    else none

module _ (atoi : List ℕ → ℕ) (c : ℕ) (f0 f1 f2 f3 : List ℕ)
    (h : AreFields b'.' ((c ∷ f0) ∷ f1 ∷ f2 ∷ f3 ∷ [])) (no_star : (c == b'*') ≡ false) where
  abbrev dotted : List ℕ
  dotted = join b'.' ((c ∷ f0) ∷ f1 ∷ f2 ∷ f3 ∷ [])

  abbrev spelt : ℕ
  spelt = address (atoi (c ∷ f0) % 256) (atoi f1 % 256) (atoi f2 % 256) (atoi f3 % 256)

  pub get_ip_addr_lem : get_ip_addr atoi dotted ≡ spelt
  unfolding get_ip_addr utils_strincmp strincmp_loop
  get_ip_addr_lem =
      let other : is_zero (utils_strincmp dotted (b'*' ∷ []) (length dotted)) ≡ false =
        ground (arith, no_star) in
      rw (other, split_arguments-join b'.' 4 ((c ∷ f0) ∷ f1 ∷ f2 ∷ f3 ∷ []) h (omega arith))

-- An address of four parts between dots, the first of which does not start with a star, gives those
-- parts as `atoi` reads them, and behind a colon the port as `StrToInt` reads it; with no colon the
-- port is 0. The text has less than 50 bytes, each part has 1 to 511, and there is no other colon.
pub parse_ip_addr-join :
    (atoi : List ℕ → ℕ) (c : ℕ) (f0 f1 f2 f3 port : List ℕ) (value : ℤ)
    → AreFields b'.' ((c ∷ f0) ∷ f1 ∷ f2 ∷ f3 ∷ [])
    → (c == b'*') ≡ false
    → IsWithout b':' (join b'.' ((c ∷ f0) ∷ f1 ∷ f2 ∷ f3 ∷ []))
    → length (join b'.' ((c ∷ f0) ∷ f1 ∷ f2 ∷ f3 ∷ []) ++ b':' ∷ port) < 50
    → str_to_int port ≡ some value
    → (parse_ip_addr atoi (some (join b'.' ((c ∷ f0) ∷ f1 ∷ f2 ∷ f3 ∷ []) ++ b':' ∷ port))
        ≡ some (
          address (atoi (c ∷ f0) % 256) (atoi f1 % 256) (atoi f2 % 256) (atoi f3 % 256),
          unsigned_short value,
        ))
      × (parse_ip_addr atoi (some (join b'.' ((c ∷ f0) ∷ f1 ∷ f2 ∷ f3 ∷ [])))
          ≡ some (address (atoi (c ∷ f0) % 256) (atoi f1 % 256) (atoi f2 % 256) (atoi f3 % 256), 0))
unfolding parse_ip_addr
parse_ip_addr-join atoi c f0 f1 f2 f3 port value h no_star clean short read =
    let text = join b'.' ((c ∷ f0) ∷ f1 ∷ f2 ∷ f3 ∷ []) in
    let shorter : length text < 50 = omega (arith, length-append text (b':' ∷ port)) in
    let found = get_ip_addr_lem atoi c f0 f1 f2 f3 h no_star in
    (
      rw (
        lt→ltb (length (text ++ b':' ∷ port)) 50 short,
        cut_at-append b':' text port clean,
        read,
        found,
      ),
      rw (lt→ltb (length text) 50 shorter, cut_at-none b':' text clean, found),
    )
