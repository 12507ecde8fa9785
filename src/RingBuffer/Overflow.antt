-- ===== src/RingBuffer/Overflow.antt =====
-- What `ringbuffer_in` does with bytes that do not fit.
use psuart.Prelude.{
  ℕ, ◌+◌, ◌≤◌, ◌<◌, ◌≡◌, sym, ap, ◌∙◌, arith, List, [], some, length, eq-nil_of_length,
}
use psuart.RingBuffer.{RingBuffer, unused, in_bytes, in_byte}
use psuart.RingBuffer.View.{IsValid, used, contents, length-contents}
use psuart.RingBuffer.In.{Represents, accepted, after_in, in_bytes_lem}
use psuart.RingBuffer.InByte.{after_in_byte, in_byte_lem, after_in_byte-IsValid}

used-full :
    {fifo : RingBuffer} (n : ℕ) (m : List ℕ)
    → IsValid fifo
    → fifo.out_index ≤ fifo.in_index
    → fifo.mask < used fifo + n
    → used (after_in fifo (accepted fifo n) m) ≡ 0
unfolding unused
used-full n m v ahead full = ground arith

-- With the write index at or past the read index, a request for more bytes than there is room for,
-- with a buffer that holds them, empties the fifo: the result is 0 and no byte is left, old or new.
pub in_bytes_full :
    {mask : ℕ} {q : List ℕ} {fifo : RingBuffer} (buf : List ℕ) (n : ℕ)
    → Represents mask q fifo
    → fifo.out_index ≤ fifo.in_index
    → mask < length q + n
    → n ≤ length buf
    → (fifo' : RingBuffer) × (in_bytes fifo buf n ≡ some (fifo', 0)) × Represents mask [] fifo'
in_bytes_full {mask} {q} {fifo} buf n r ahead full enough =
    let held : used fifo ≡ length q = sym (length-contents fifo) ∙ ap length r.holds in
    let (m, e, v, w) = in_bytes_lem buf n r.valid (ground arith) in
    let fifo' = after_in fifo (accepted fifo n) m in
    let none_left : used fifo' ≡ 0 =
      used-full n m r.valid ahead (omega (arith, r.same_mask, held)) in
    (
      fifo',
      rw none_left at e,
      record {
        valid = v;
        same_mask = r.same_mask;
        holds = eq-nil_of_length (contents fifo') (length-contents fifo' ∙ none_left);
      },
    )

used-lost :
    {fifo : RingBuffer} (n : ℕ) (m : List ℕ)
    → IsValid fifo
    → fifo.mask < used fifo + n
    → used (after_in fifo (accepted fifo n) m) + (fifo.mask + 1) ≤ used fifo + accepted fifo n
unfolding unused
used-lost n m v full = ground arith

-- Wherever the indices are, a request that does not fit, with a buffer that holds its bytes, loses
-- `mask + 1` bytes at least: the number held then, the result, falls short by that of those held
-- before and those accepted.
pub in_bytes_lost :
    {mask : ℕ} {q : List ℕ} {fifo : RingBuffer} (buf : List ℕ) (n : ℕ)
    → Represents mask q fifo
    → mask < length q + n
    → n ≤ length buf
    → (fifo' : RingBuffer) × (in_bytes fifo buf n ≡ some (fifo', length (contents fifo')))
      × IsValid fifo'
      × (length (contents fifo') + (mask + 1) ≤ length q + accepted fifo n)
in_bytes_lost {mask} {q} {fifo} buf n r full enough =
    let held : used fifo ≡ length q = sym (length-contents fifo) ∙ ap length r.holds in
    let (m, e, v, w) = in_bytes_lem buf n r.valid (ground arith) in
    let fifo' = after_in fifo (accepted fifo n) m in
    (
      fifo',
      rw (← length-contents fifo') at e,
      v,
      omega (
        arith,
        used-lost n m r.valid (omega (arith, r.same_mask, held)),
        length-contents fifo',
        r.same_mask,
        held,
      ),
    )

-- `ringbuffer_in_byte` on a fifo that holds `mask` bytes empties it.
pub in_byte_full :
    {mask : ℕ} {q : List ℕ} {fifo : RingBuffer} (dbyte : ℕ)
    → Represents mask q fifo
    → length q ≡ mask
    → (fifo' : RingBuffer) × (in_byte fifo dbyte ≡ some (fifo', 0)) × Represents mask [] fifo'
in_byte_full {mask} {q} {fifo} dbyte r full =
    let held : used fifo ≡ length q = sym (length-contents fifo) ∙ ap length r.holds in
    let fifo' = after_in_byte fifo dbyte in
    let none_left : used fifo' ≡ 0 = ground (arith, r.valid, r.same_mask) in
    (
      fifo',
      rw none_left at (in_byte_lem dbyte r.valid),
      record {
        valid = after_in_byte-IsValid dbyte r.valid;
        same_mask = r.same_mask;
        holds = eq-nil_of_length (contents fifo') (length-contents fifo' ∙ none_left);
      },
    )
