-- ===== src/RingBuffer/InByte.antt =====
-- `ringbuffer_in_byte`.
use psuart.Prelude.{
  ℕ, ◌+◌, ◌≤◌, ◌<◌, ◌≡◌, sym, ap, ◌∙◌, arith, List, [], ◌∷◌, ◌++◌, some, ltb, length, set,
  get_or-append, get_or_ext, length-append, length-set, get_or-set, lt→ltb, true,
}
use psuart.RingBuffer.{RingBuffer, unused, in_byte}
use psuart.RingBuffer.View.{
  IsValid, wrap, used, contents, length-contents, get_or-contents, len-eq-used, advance_lem,
}
use psuart.RingBuffer.In.{Represents}

abbrev pub after_in_byte : RingBuffer → ℕ → RingBuffer
after_in_byte fifo dbyte = record fifo {
  in_index = wrap fifo.mask (fifo.in_index + 1);
  rdata = set fifo.rdata fifo.in_index dbyte;
}

unused_pos : {fifo : RingBuffer} → IsValid fifo → ltb 0 (unused fifo) ≡ true
unfolding unused
unused_pos v = ground arith

pub after_in_byte-IsValid :
    {fifo : RingBuffer} (dbyte : ℕ) → IsValid fifo → IsValid (after_in_byte fifo dbyte)
after_in_byte-IsValid {fifo} dbyte v = ground (arith, length-set fifo.rdata fifo.in_index dbyte)

-- On every valid fifo, full ones included, the byte is stored and the write index moves on.
pub in_byte_lem :
    {fifo : RingBuffer} (dbyte : ℕ)
    → IsValid fifo
    → in_byte fifo dbyte ≡ some (after_in_byte fifo dbyte, used (after_in_byte fifo dbyte))
unfolding in_byte
in_byte_lem {fifo} dbyte v =
    let v' = after_in_byte-IsValid dbyte v in
    let moved = advance_lem fifo.mask fifo.in_index 1 v.small (omega arith) in
    let inside : ltb fifo.in_index (length fifo.rdata) ≡ true = lt→ltb _ _ (omega arith) in
    ground (arith, unused_pos v, moved, inside, len-eq-used v')

contents-after_in_byte :
    {fifo : RingBuffer} (dbyte : ℕ)
    → IsValid fifo
    → used fifo + 1 ≤ fifo.mask
    → contents (after_in_byte fifo dbyte) ≡ contents fifo ++ dbyte ∷ []
contents-after_in_byte {fifo} dbyte v fits =
    let fifo' = after_in_byte fifo dbyte in
    get_or_ext 0 (contents fifo') (contents fifo ++ dbyte ∷ [])
      (ground (
        arith,
        length-contents fifo',
        length-contents fifo,
        length-append (contents fifo) (dbyte ∷ []),
      ))
      (λ i below. ground (
        arith,
        length-contents fifo',
        length-contents fifo,
        get_or-contents fifo' i,
        get_or-contents fifo i,
        get_or-append (contents fifo) (dbyte ∷ []) i 0,
        get_or-set fifo.rdata fifo.in_index dbyte (wrap fifo.mask (fifo.out_index + i)) 0,
      ))

-- A byte that fits is appended, and the result is the new number of bytes held.
pub in_byte_fits :
    {mask : ℕ} {q : List ℕ} {fifo : RingBuffer} (dbyte : ℕ)
    → Represents mask q fifo
    → length q < mask
    → (fifo' : RingBuffer) × (in_byte fifo dbyte ≡ some (fifo', length q + 1))
      × Represents mask (q ++ dbyte ∷ []) fifo'
in_byte_fits {mask} {q} {fifo} dbyte r fits =
    let held : used fifo ≡ length q = sym (length-contents fifo) ∙ ap length r.holds in
    let room : used fifo + 1 ≤ fifo.mask = omega (arith, r.same_mask) in
    let grown : used (after_in_byte fifo dbyte) ≡ length q + 1 = ground arith in
    (
      after_in_byte fifo dbyte,
      rw grown at (in_byte_lem dbyte r.valid),
      record {
        valid = after_in_byte-IsValid dbyte r.valid;
        same_mask = r.same_mask;
        holds = rw (contents-after_in_byte dbyte r.valid room, r.holds);
      },
    )
