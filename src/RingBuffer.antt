-- ===== src/RingBuffer.antt =====
-- src/ringBuffer.c and inc/ringBuffer.h: a byte fifo over caller-provided storage.
-- `in` is a reserved word, so the fields `in` and `out` are `in_index` and `out_index`. A copy or
-- an access outside the storage is a fault, `none`. A function that updates `*fifo` returns the
-- new fifo beside its result.
pub mod View
pub mod Copy
pub mod In
pub mod InByte
pub mod Out
pub mod Overflow
pub mod Queue
pub mod Refine
mod Tests
use psuart.Prelude.{
  ℕ, ◌-◌, ◌^◌, List, Option, some, ◌>>=◌, leb, ltb, if◌then◌else◌, add32, sub32, u32, memcpy, peek,
  poke,
}

-- `struct ringbuffer`; `rdata` is the whole storage behind the pointer.
pub record RingBuffer : Type 0 where
  pub in_index : ℕ
  pub out_index : ℕ
  pub mask : ℕ
  pub rdata : List ℕ

-- the macro `min(x, y)`
abbrev pub min_macro : ℕ → ℕ → ℕ
min_macro x y = if ltb y x then y else x

-- the macro `ringbuffer_size`
abbrev pub size : RingBuffer → ℕ
size fifo = add32 fifo.mask 1

-- `-EINVAL` as an `rbUint`
abbrev pub minus_einval : ℕ
minus_einval = 2 ^ 32 - 22

unfoldable pub unused : RingBuffer → ℕ
unused fifo = sub32 (add32 fifo.mask 1) (sub32 fifo.in_index fifo.out_index)

-- `if (n > 0) memcpy(...)`
unfoldable pub copy_some : List ℕ → ℕ → List ℕ → ℕ → ℕ → Option (List ℕ)
copy_some dst to src from n = if ltb 0 n then memcpy dst to src from n else some dst

unfoldable pub copy_in : RingBuffer → List ℕ → ℕ → ℕ → Option RingBuffer
copy_in fifo src len off = do
  let slen = min_macro len (sub32 (add32 fifo.mask 1) off)
  upper ← copy_some fifo.rdata off src 0 slen
  both ← copy_some upper 0 src slen (sub32 len slen)
  some (record fifo { rdata = both })

unfoldable pub copy_out : RingBuffer → List ℕ → ℕ → ℕ → Option (List ℕ)
copy_out fifo dst len off = do
  let slen = min_macro len (sub32 (add32 fifo.mask 1) off)
  upper ← copy_some dst 0 fifo.rdata off slen
  copy_some upper slen fifo.rdata 0 (sub32 len slen)

unfoldable pub reset : RingBuffer → RingBuffer
reset fifo = record fifo { in_index = 0; out_index = 0 }

unfoldable pub len : RingBuffer → ℕ
len fifo =
    if leb fifo.out_index fifo.in_index
    then sub32 fifo.in_index fifo.out_index
    else sub32 (add32 (add32 fifo.in_index fifo.mask) 1) fifo.out_index

unfoldable pub skip : RingBuffer → RingBuffer
unfolding len
skip fifo = if ltb 0 (len fifo) then record fifo { out_index = add32 fifo.out_index 1 } else fifo

unfoldable pub peek_len : RingBuffer → ℕ
peek_len fifo = len fifo

-- `slen` is a `size_t`; the store into `mask` cuts it to 32 bits.
unfoldable pub init : List ℕ → ℕ → RingBuffer × ℕ
init buffer slen =
    if ltb slen 2
    then (record { in_index = 0; out_index = 0; mask = 0; rdata = buffer }, minus_einval)
    else (record { in_index = 0; out_index = 0; mask = u32 (slen - 1); rdata = buffer }, 0)

-- `index += n; if (index > mask) index -= mask + 1;`
unfoldable pub advance : ℕ → ℕ → ℕ → ℕ
advance mask index n =
    let moved = add32 index n in if ltb mask moved then sub32 moved (add32 mask 1) else moved

unfoldable pub in_bytes : RingBuffer → List ℕ → ℕ → Option (RingBuffer × ℕ)
unfolding unused copy_in advance len
in_bytes fifo buf n = do
  let n' = if ltb (unused fifo) n then unused fifo else n
  copied ← copy_in fifo buf n' fifo.in_index
  let fifo' = record copied { in_index = advance fifo.mask fifo.in_index n' }
  some (fifo', len fifo')

unfoldable pub in_byte : RingBuffer → ℕ → Option (RingBuffer × ℕ)
unfolding unused advance len
in_byte fifo dbyte = do
  let slen = add32 fifo.mask 1
  let p = if ltb 0 (min_macro 1 (sub32 slen fifo.in_index)) then fifo.in_index else 0
  stored ← if ltb 0 (unused fifo) then poke fifo.rdata p dbyte else some fifo.rdata
  let fifo' = record fifo { in_index = advance fifo.mask fifo.in_index 1; rdata = stored }
  some (fifo', len fifo')

-- The result is the buffer and the number of bytes copied to it.
unfoldable pub out_peek : RingBuffer → List ℕ → ℕ → Option (List ℕ × ℕ)
unfolding len copy_out
out_peek fifo buf n = do
  let n' = if ltb (len fifo) n then len fifo else n
  buf' ← copy_out fifo buf n' fifo.out_index
  some (buf', n')

unfoldable pub out_bytes : RingBuffer → List ℕ → ℕ → Option (RingBuffer × List ℕ × ℕ)
unfolding out_peek advance
out_bytes fifo buf n = do
  (buf', n') ← out_peek fifo buf n
  some (record fifo { out_index = advance fifo.mask fifo.out_index n' }, buf', n')

unfoldable pub peek_byte : RingBuffer → Option ℕ
peek_byte fifo =
    let slen = add32 fifo.mask 1 in
    peek fifo.rdata (if ltb 0 (min_macro 1 (sub32 slen fifo.out_index)) then fifo.out_index else 0)

unfoldable pub out_byte : RingBuffer → Option (RingBuffer × ℕ)
unfolding peek_byte advance
out_byte fifo = do
  r ← peek_byte fifo
  some (record fifo { out_index = advance fifo.mask fifo.out_index 1 }, r)
