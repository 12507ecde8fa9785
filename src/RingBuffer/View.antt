-- ===== src/RingBuffer/View.antt =====
-- The representation invariant of `struct ringbuffer`, and the bytes that a fifo holds, oldest
-- first.
use psuart.Prelude.{
  ℕ, ◌+◌, ◌-◌, ◌^◌, ◌≤◌, ◌<◌, ◌≡◌, arith, List, leb, ltb, if◌then◌else◌, length, get_or, tabulate,
  length-tabulate, get_or-tabulate,
}
use psuart.RingBuffer.{RingBuffer, len, advance, unused}

-- The indices lie in the storage, which is small enough that no sum of two of them wraps.
pub record IsValid (fifo : RingBuffer) : Type 0 where
  pub storage : fifo.mask + 1 ≤ length fifo.rdata
  pub small : fifo.mask + 1 ≤ 2 ^ 31
  pub in_within : fifo.in_index ≤ fifo.mask
  pub out_within : fifo.out_index ≤ fifo.mask

-- an index below twice the size, brought round
abbrev pub wrap : ℕ → ℕ → ℕ
wrap mask i = if leb i mask then i else i - (mask + 1)

-- how many bytes lie between the read index and the write index
abbrev pub used : RingBuffer → ℕ
used fifo =
    if leb fifo.out_index fifo.in_index
    then fifo.in_index - fifo.out_index
    else fifo.in_index + (fifo.mask + 1) - fifo.out_index

-- the byte `i` places behind the oldest
abbrev pub byte_at : RingBuffer → ℕ → ℕ
byte_at fifo i = get_or fifo.rdata (wrap fifo.mask (fifo.out_index + i)) 0

unfoldable pub contents : RingBuffer → List ℕ
contents fifo = tabulate (used fifo) (byte_at fifo)

pub length-contents : (fifo : RingBuffer) → length (contents fifo) ≡ used fifo
unfolding contents
length-contents fifo = length-tabulate (used fifo) (byte_at fifo)

pub get_or-contents :
    (fifo : RingBuffer) (i : ℕ)
    → get_or (contents fifo) i 0 ≡ (if ltb i (used fifo) then byte_at fifo i else 0)
unfolding contents
get_or-contents fifo i = get_or-tabulate (used fifo) (byte_at fifo) i 0

pub len-eq-used : {fifo : RingBuffer} → IsValid fifo → len fifo ≡ used fifo
unfolding len
len-eq-used v = ground arith

pub used-le-mask : {fifo : RingBuffer} → IsValid fifo → used fifo ≤ fifo.mask
used-le-mask v = ground arith

pub advance_lem :
    (mask index n : ℕ)
    → mask + 1 ≤ 2 ^ 31
    → index + n ≤ mask + 1 + mask
    → advance mask index n ≡ wrap mask (index + n)
unfolding advance
advance_lem mask index n small fits = ground arith

-- The fifo takes as many bytes as it should while the write index is at or past the read index.
pub unused-ahead :
    {fifo : RingBuffer}
    → IsValid fifo
    → fifo.out_index ≤ fifo.in_index
    → unused fifo ≡ fifo.mask + 1 - used fifo
unfolding unused
unused-ahead v h = ground arith

pub unused-behind :
    {fifo : RingBuffer}
    → IsValid fifo
    → fifo.in_index < fifo.out_index
    → unused fifo ≡ fifo.mask + 1 + (fifo.out_index - fifo.in_index)
unfolding unused
unused-behind v h = ground arith
