-- ===== src/Utils/Address/Print.antt =====
-- `IP2Str` of src/psuservice.c, and `get_ip_addr` on what it prints. The digits that "%d" gives for a
-- number are a parameter, like `atoi`.
use psuart.Prelude.{
  ℕ, ◌/◌, ◌%◌, ◌^◌, ◌<◌, ◌≡◌, ◌∙◌, arith, List, [], ◌∷◌, ◌++◌, false, ◌==◌, length, get_or,
}
use psuart.Utils.Ip.{address}
use psuart.Utils.Text.{IsWithout}
use psuart.Utils.Split.{max_arg_len}
use psuart.Utils.Split.Arguments.{join, AreFields}
use psuart.Utils.Address.{get_ip_addr, get_ip_addr_lem}

-- the parts of an address, the lowest byte first
abbrev pub ip_part : ℕ → ℕ → ℕ
ip_part ip shift = ip / 2 ^ shift % 256

-- `sprintf(buf,"%d.%d.%d.%d",...)`
unfoldable pub ip2str : (ℕ → List ℕ) → ℕ → List ℕ
ip2str digits ip =
    digits (ip_part ip 0)
    ++ b'.'
      ∷ (digits (ip_part ip 8) ++ b'.' ∷ (digits (ip_part ip 16) ++ b'.' ∷ digits (ip_part ip 24)))

-- The digits of a byte: at least one, fit an argument, hold no dot, start with no star, and are read back.
pub record IsSpelt (atoi : List ℕ → ℕ) (n : ℕ) (text : List ℕ) : Type 0 where
  pub no_dot : IsWithout b'.' text
  pub not_empty : 0 < length text
  pub short : length text < max_arg_len
  pub no_star : (get_or text 0 0 == b'*') ≡ false
  pub read : atoi text ≡ n

read_parts :
    (atoi : List ℕ → ℕ) (f0 f1 f2 f3 : List ℕ) (a b c d : ℕ)
    → IsSpelt atoi a f0
    → IsSpelt atoi b f1
    → IsSpelt atoi c f2
    → IsSpelt atoi d f3
    → get_ip_addr atoi (join b'.' (f0 ∷ f1 ∷ f2 ∷ f3 ∷ []))
      ≡ address (a % 256) (b % 256) (c % 256) (d % 256)
read_parts atoi [] f1 f2 f3 a b c d sa sb sc sd = absurd (omega (arith, sa.not_empty))
read_parts atoi (x ∷ f0) f1 f2 f3 a b c d sa sb sc sd =
    let fields : AreFields b'.' ((x ∷ f0) ∷ f1 ∷ f2 ∷ f3 ∷ []) = (
      sa.no_dot,
      sa.not_empty,
      sa.short,
      (
        sb.no_dot,
        sb.not_empty,
        sb.short,
        (sc.no_dot, sc.not_empty, sc.short, (sd.no_dot, sd.not_empty, sd.short, tt)),
      ),
    ) in
    rw (← sa.read, ← sb.read, ← sc.read, ← sd.read)
      (get_ip_addr_lem atoi x f0 f1 f2 f3 fields sa.no_star)

-- Any address of 32 bits, printed and read again, is the same, if `atoi` reads back the digits of every
-- byte, which are 1 to 511 characters, hold no dot and do not start with a star.
pub get_ip_addr-ip2str :
    (digits : ℕ → List ℕ) (atoi : List ℕ → ℕ) (ip : ℕ)
    → ((n : ℕ) → n < 256 → IsSpelt atoi n (digits n))
    → ip < 2 ^ 32
    → get_ip_addr atoi (ip2str digits ip) ≡ ip
unfolding ip2str
get_ip_addr-ip2str digits atoi ip spelt small =
    let byte : (shift : ℕ) → IsSpelt atoi (ip_part ip shift) (digits (ip_part ip shift)) =
      λ shift. spelt (ip_part ip shift) (omega arith) in
    read_parts atoi (digits (ip_part ip 0)) (digits (ip_part ip 8)) (digits (ip_part ip 16))
      (digits (ip_part ip 24)) (ip_part ip 0) (ip_part ip 8) (ip_part ip 16) (ip_part ip 24)
      (byte 0) (byte 8) (byte 16) (byte 24)
    ∙ whole
  where
    whole :
        address
          (ip_part ip 0 % 256)
          (ip_part ip 8 % 256)
          (ip_part ip 16 % 256)
          (ip_part ip 24 % 256)
        ≡ ip
    whole = omega arith
