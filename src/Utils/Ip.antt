-- ===== src/Utils/Ip.antt =====
-- The address predicates of src/utils.c. An address is a number whose lowest byte comes first in
-- memory, as on a little-endian machine.
use psuart.Prelude.{
  ℕ, ◌+◌, ◌*◌, ◌/◌, ◌%◌, ◌<◌, ◌≡◌, arith, Bool, true, false, not, ◌&&◌, ◌||◌, ◌⊎◌, leb, ◌==◌,
  if◌then◌else◌,
}

-- `p[0]` and `p[1]`
abbrev pub first : ℕ → ℕ
first ip = ip % 256

abbrev pub second : ℕ → ℕ
second ip = ip / 256 % 256

unfoldable pub is_multicast_ip : ℕ → Bool
is_multicast_ip ip = leb 224 (first ip) && leb (first ip) 240

unfoldable pub is_valid_ip : ℕ → Bool
is_valid_ip ip =
    if first ip == 127 || leb 224 (first ip)
    then false
    else if first ip == 0
    then (if second ip == 0 then false else true)
    else true

unfoldable pub is_private_ip : ℕ → Bool
is_private_ip ip =
    if first ip == 10
    then true
    else if first ip == 172 && (leb 16 (second ip) && leb (second ip) 32)
    then true
    else if first ip == 192 && second ip == 168
    then true
    else false

unfoldable pub is_public_ip : ℕ → Bool
unfolding is_valid_ip is_private_ip
is_public_ip ip = is_valid_ip ip && not (is_private_ip ip)

-- An address from its four parts.
abbrev pub address : ℕ → ℕ → ℕ → ℕ → ℕ
address a b c d = a + b * 256 + c * 65536 + d * 16777216

-- No address is both public and a multicast address, and private addresses are valid ones.
pub ip_classes :
    (ip : ℕ)
    → ((is_public_ip ip && is_multicast_ip ip) ≡ false)
      × (is_private_ip ip ≡ true → is_valid_ip ip ≡ true)
      × (is_valid_ip ip ≡ true → (is_private_ip ip ≡ true) ⊎ (is_public_ip ip ≡ true))
unfolding is_public_ip is_multicast_ip
ip_classes ip = (ground arith, λ h. ground arith, λ h. ground arith)

-- The block 172.32.x.x, which RFC 1918 does not reserve, counts as private, and 240.x.x.x, which is
-- reserved, as multicast.
pub ip_edges :
    (c d : ℕ)
    → c < 256
    → d < 256
    → (is_private_ip (address 172 32 c d) ≡ true)
      × (is_public_ip (address 172 32 c d) ≡ false)
      × (is_multicast_ip (address 240 0 c d) ≡ true)
unfolding is_public_ip is_multicast_ip
ip_edges c d hc hd = (ground arith, ground arith, ground arith)
