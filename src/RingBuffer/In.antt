-- ===== src/RingBuffer/In.antt =====
-- `ringbuffer_in` and `ringbuffer_in_byte`: when the bytes fit and when they do not.
use psuart.Prelude.{
  ℕ, ◌+◌, ◌-◌, ◌≤◌, ◌<◌, ◌≡◌, ◌∙◌, arith, List, ◌++◌, some, ltb, if◌then◌else◌, length, get_or,
  take, get_or-take, length-take, get_or-append, get_or_ext, length-append, sym, ap,
}
use psuart.RingBuffer.{RingBuffer, unused, in_bytes}
use psuart.RingBuffer.View.{
  IsValid, wrap, used, byte_at, contents, length-contents, get_or-contents, len-eq-used,
  advance_lem,
}
use psuart.RingBuffer.Copy.{IsWritten, copy_in_lem}

-- the fifo is valid, is `mask + 1` bytes long and holds the bytes `q`, oldest first
pub record Represents (mask : ℕ) (q : List ℕ) (fifo : RingBuffer) : Type 0 where
  pub valid : IsValid fifo
  pub same_mask : fifo.mask ≡ mask
  pub holds : contents fifo ≡ q

-- how many bytes `ringbuffer_in` copies when it is asked to copy `n`
abbrev pub accepted : RingBuffer → ℕ → ℕ
accepted fifo n = if ltb (unused fifo) n then unused fifo else n

abbrev pub after_in : RingBuffer → ℕ → List ℕ → RingBuffer
after_in fifo n m = record fifo { in_index = wrap fifo.mask (fifo.in_index + n); rdata = m }

accepted-le :
    {fifo : RingBuffer} (n : ℕ)
    → IsValid fifo
    → fifo.in_index + accepted fifo n ≤ fifo.mask + 1 + fifo.mask
unfolding unused
accepted-le n v = ground arith

after_in-IsValid :
    {fifo : RingBuffer} (n : ℕ) (m : List ℕ)
    → IsValid fifo
    → fifo.in_index + n ≤ fifo.mask + 1 + fifo.mask
    → length m ≡ length fifo.rdata
    → IsValid (after_in fifo n m)
after_in-IsValid n m v fits e = ground arith

-- On a valid fifo and a buffer that holds the accepted bytes `ringbuffer_in` makes no access outside
-- the two arrays, writes the accepted bytes from the write index on and nothing else, leaves a valid
-- fifo, and returns its new length.
pub in_bytes_lem :
    {fifo : RingBuffer} (buf : List ℕ) (n : ℕ)
    → IsValid fifo
    → accepted fifo n ≤ length buf
    → (m : List ℕ) × (let fifo' = after_in fifo (accepted fifo n) m in
        in_bytes fifo buf n ≡ some (fifo', used fifo'))
      × IsValid (after_in fifo (accepted fifo n) m)
      × IsWritten fifo buf (accepted fifo n) fifo.in_index m
unfolding in_bytes
in_bytes_lem {fifo} buf n v enough =
    let k = accepted fifo n in
    let fits = accepted-le n v in
    let (m, e, w) = copy_in_lem buf k fifo.in_index v v.in_within fits enough in
    let v' = after_in-IsValid k m v fits w.same_length in
    (m, rw (e, advance_lem fifo.mask fifo.in_index k v.small fits, len-eq-used v'), v', w)

used-after_in :
    {fifo : RingBuffer} (n : ℕ) (m : List ℕ)
    → IsValid fifo
    → used fifo + n ≤ fifo.mask
    → used (after_in fifo n m) ≡ used fifo + n
used-after_in n m v fits = ground arith

accepted_fits :
    {fifo : RingBuffer} (n : ℕ) → IsValid fifo → used fifo + n ≤ fifo.mask → accepted fifo n ≡ n
unfolding unused
accepted_fits n v fits = ground arith

byte_at-after_in :
    {fifo : RingBuffer} (buf : List ℕ) (n : ℕ) (m : List ℕ)
    → IsValid fifo
    → used fifo + n ≤ fifo.mask
    → IsWritten fifo buf n fifo.in_index m
    → (i : ℕ) → i < used fifo + n
    → byte_at (after_in fifo n m) i
      ≡ (if ltb i (used fifo) then byte_at fifo i else get_or buf (i - used fifo) 0)
byte_at-after_in {fifo} buf n m v fits w i below =
    ground (arith, w.at (wrap fifo.mask (fifo.out_index + i)))

contents-after_in :
    {fifo : RingBuffer} (buf : List ℕ) (n : ℕ) (m : List ℕ)
    → IsValid fifo
    → used fifo + n ≤ fifo.mask
    → n ≤ length buf
    → IsWritten fifo buf n fifo.in_index m
    → contents (after_in fifo n m) ≡ contents fifo ++ take n buf
contents-after_in {fifo} buf n m v fits enough w =
    let fifo' = after_in fifo n m in
    let grown = used-after_in n m v fits in
    get_or_ext 0 (contents fifo') (contents fifo ++ take n buf)
      (omega (
        arith,
        grown,
        length-contents fifo',
        length-contents fifo,
        length-append (contents fifo) (take n buf),
        length-take n buf,
      ))
      (λ i below. ground (
        arith,
        grown,
        length-contents fifo',
        length-contents fifo,
        get_or-contents fifo' i,
        get_or-contents fifo i,
        get_or-append (contents fifo) (take n buf) i 0,
        get_or-take n buf (i - used fifo) 0,
        byte_at-after_in buf n m v fits w i,
      ))

-- `n` bytes for which a fifo has room, with a buffer that holds them, are appended in order, and the
-- result is the new number of bytes held.
pub in_bytes_fits :
    {mask : ℕ} {q : List ℕ} {fifo : RingBuffer} (buf : List ℕ) (n : ℕ)
    → Represents mask q fifo
    → length q + n ≤ mask
    → n ≤ length buf
    → (fifo' : RingBuffer) × (in_bytes fifo buf n ≡ some (fifo', length q + n))
      × Represents mask (q ++ take n buf) fifo'
in_bytes_fits {mask} {q} {fifo} buf n r fits enough =
    let held : used fifo ≡ length q = sym (length-contents fifo) ∙ ap length r.holds in
    let room : used fifo + n ≤ fifo.mask = omega (arith, r.same_mask) in
    let same : accepted fifo n ≡ n = accepted_fits n r.valid room in
    let (m, e, v, w) = in_bytes_lem buf n r.valid (rw same enough) in
    let grown : used (after_in fifo n m) ≡ length q + n =
      used-after_in n m r.valid room ∙ ap (λ (t : ℕ). t + n) held in
    (
      after_in fifo n m,
      rw (same, grown) at e,
      record {
        valid = rw same at v;
        same_mask = r.same_mask;
        holds = rw (contents-after_in buf n m r.valid room enough (rw same at w), r.holds);
      },
    )
