-- ===== src/RingBuffer/Out.antt =====
-- `ringbuffer_out`, `ringbuffer_out_peek`, their single-byte versions and `ringbuffer_skip`.
use psuart.Prelude.{
  ℕ, ◌+◌, ◌-◌, ◌≤◌, ◌<◌, ◌≡◌, sym, ap, ◌∙◌, arith, List, [], ◌∷◌, ◌++◌, some, ltb, length,
  if◌then◌else◌, get_or, take, drop, get_or-append, get_or_ext, length-append, length-drop,
  get_or-drop, get_or-take, length-take, lt→ltb, min, true, none, add32, eq-nil_of_length, subst,
}
use psuart.RingBuffer.{
  RingBuffer, len, advance, out_peek, out_bytes, peek_byte, out_byte, skip, reset,
}
use psuart.RingBuffer.View.{
  IsValid, wrap, used, contents, length-contents, get_or-contents, len-eq-used, used-le-mask,
  advance_lem,
}
use psuart.RingBuffer.Copy.{IsRead, copy_out_lem}
use psuart.RingBuffer.In.{Represents}

abbrev pub after_out : RingBuffer → ℕ → RingBuffer
after_out fifo n = record fifo { out_index = wrap fifo.mask (fifo.out_index + n) }

after_out-IsValid :
    {fifo : RingBuffer} (n : ℕ) → IsValid fifo → n ≤ used fifo → IsValid (after_out fifo n)
after_out-IsValid n v fits = ground arith

used-after_out :
    {fifo : RingBuffer} (n : ℕ)
    → IsValid fifo
    → n ≤ used fifo
    → used (after_out fifo n) ≡ used fifo - n
used-after_out n v fits = ground arith

contents-after_out :
    {fifo : RingBuffer} (n : ℕ)
    → IsValid fifo
    → n ≤ used fifo
    → contents (after_out fifo n) ≡ drop n (contents fifo)
contents-after_out {fifo} n v fits =
    let fifo' = after_out fifo n in
    let shrunk = used-after_out n v fits in
    get_or_ext 0 (contents fifo') (drop n (contents fifo))
      (omega
        (arith, shrunk, length-contents fifo', length-contents fifo, length-drop n (contents fifo)))
      (λ i below. ground (
        arith,
        shrunk,
        length-contents fifo',
        length-contents fifo,
        get_or-contents fifo' i,
        get_or-contents fifo (n + i),
        get_or-drop n (contents fifo) i 0,
      ))

-- Removing the `n` oldest bytes.
after_out-Represents :
    {mask : ℕ} {q : List ℕ} {fifo : RingBuffer} (n : ℕ)
    → Represents mask q fifo
    → n ≤ length q
    → Represents mask (drop n q) (after_out fifo n)
after_out-Represents {mask} {q} {fifo} n r fits =
    let held : used fifo ≡ length q = sym (length-contents fifo) ∙ ap length r.holds in
    let there : n ≤ used fifo = omega arith in
    record {
      valid = after_out-IsValid n r.valid there;
      same_mask = r.same_mask;
      holds = contents-after_out n r.valid there ∙ ap (drop n) r.holds;
    }

read-contents :
    {fifo : RingBuffer} (buf : List ℕ) (n : ℕ) {m : List ℕ}
    → IsValid fifo
    → n ≤ used fifo
    → n ≤ length buf
    → IsRead fifo buf n fifo.out_index m
    → m ≡ take n (contents fifo) ++ drop n buf
read-contents {fifo} buf n {m} v there enough w =
    get_or_ext 0 m (take n (contents fifo) ++ drop n buf)
      (omega (
        arith,
        w.same_length,
        length-contents fifo,
        length-append (take n (contents fifo)) (drop n buf),
        length-take n (contents fifo),
        length-drop n buf,
      ))
      (λ i below. ground (
        arith,
        w.at i,
        length-contents fifo,
        get_or-contents fifo i,
        get_or-append (take n (contents fifo)) (drop n buf) i 0,
        length-take n (contents fifo),
        get_or-take n (contents fifo) i 0,
        get_or-drop n buf (i - n) 0,
      ))

-- `ringbuffer_out_peek` puts `min(n, length q)` bytes at the front of `buf`, which has room for them
-- and keeps the rest.
pub out_peek_lem :
    {mask : ℕ} {q : List ℕ} {fifo : RingBuffer} (buf : List ℕ) (n : ℕ)
    → Represents mask q fifo
    → min n (length q) ≤ length buf
    → out_peek fifo buf n
      ≡ some (take (min n (length q)) q ++ drop (min n (length q)) buf, min n (length q))
unfolding out_peek
out_peek_lem {mask} {q} {fifo} buf n r enough =
    let held : used fifo ≡ length q = sym (length-contents fifo) ∙ ap length r.holds in
    let held' : len fifo ≡ length q = len-eq-used r.valid ∙ held in
    let k = min n (length q) in
    let clamp : (if ltb (len fifo) n then len fifo else n) ≡ k = rw held' (ground arith) in
    let bound = used-le-mask r.valid in
    let (m, e, w) =
      copy_out_lem buf k fifo.out_index r.valid r.valid.out_within (omega arith) enough in
    rw (clamp, e, read-contents buf k r.valid (omega arith) enough w, r.holds)

-- `ringbuffer_out` puts the oldest `min(n, length q)` bytes at the front of `buf`, which has room
-- for them and keeps the rest, and removes them from the fifo.
pub out_bytes_lem :
    {mask : ℕ} {q : List ℕ} {fifo : RingBuffer} (buf : List ℕ) (n : ℕ)
    → Represents mask q fifo
    → min n (length q) ≤ length buf
    → (fifo' : RingBuffer) × (out_bytes fifo buf n
        ≡ some (fifo', take (min n (length q)) q ++ drop (min n (length q)) buf, min n (length q)))
      × Represents mask (drop (min n (length q)) q) fifo'
unfolding out_bytes
out_bytes_lem {mask} {q} {fifo} buf n r enough =
    let held : used fifo ≡ length q = sym (length-contents fifo) ∙ ap length r.holds in
    let k = min n (length q) in
    let bound = used-le-mask r.valid in
    let moved : advance fifo.mask fifo.out_index k ≡ wrap fifo.mask (fifo.out_index + k) =
      advance_lem fifo.mask fifo.out_index k r.valid.small (omega arith) in
    (
      after_out fifo k,
      rw (out_peek_lem buf n r enough, moved),
      after_out-Represents k r (omega arith),
    )

-- Reading one byte gives the oldest one.
pub peek_byte_lem :
    {mask x : ℕ} {q : List ℕ} {fifo : RingBuffer}
    → Represents mask (x ∷ q) fifo
    → peek_byte fifo ≡ some x
unfolding peek_byte
peek_byte_lem {mask} {x} {q} {fifo} r =
    let held : used fifo ≡ length (x ∷ q) = sym (length-contents fifo) ∙ ap length r.holds in
    let first : get_or (contents fifo) 0 0 ≡ x = ap (λ l. get_or l 0 0) r.holds in
    ground (arith, get_or-contents fifo 0)

-- The oldest byte is returned and removed.
pub out_byte_lem :
    {mask x : ℕ} {q : List ℕ} {fifo : RingBuffer}
    → Represents mask (x ∷ q) fifo
    → (fifo' : RingBuffer) × (out_byte fifo ≡ some (fifo', x)) × Represents mask q fifo'
unfolding out_byte
out_byte_lem {mask} {x} {q} {fifo} r =
    let moved : advance fifo.mask fifo.out_index 1 ≡ wrap fifo.mask (fifo.out_index + 1) =
      advance_lem fifo.mask fifo.out_index 1 r.valid.small (omega arith) in
    (after_out fifo 1, rw (peek_byte_lem r, moved), after_out-Represents 1 r (omega arith))

-- `ringbuffer_skip` removes the oldest byte while the read index is not the last one.
pub skip_lem :
    {mask x : ℕ} {q : List ℕ} {fifo : RingBuffer}
    → Represents mask (x ∷ q) fifo
    → fifo.out_index < mask
    → Represents mask q (skip fifo)
unfolding skip
skip_lem {mask} {x} {q} {fifo} r inside =
    let held : used fifo ≡ length (x ∷ q) = sym (length-contents fifo) ∙ ap length r.holds in
    let some_left : ltb 0 (len fifo) ≡ true =
      rw (len-eq-used r.valid, held) (lt→ltb _ _ (omega arith)) in
    let step : add32 fifo.out_index 1 ≡ wrap fifo.mask (fifo.out_index + 1) =
      ground (arith, r.same_mask, r.valid) in
    rw (some_left, step) (after_out-Represents 1 r (omega arith))

-- Two calls of `ringbuffer_skip` with the read index at the last index of a storage of `mask + 1`
-- bytes, on a fifo of two bytes or more, bring the read index outside the storage: the next byte is
-- read from there.
pub skip_past_end :
    {fifo : RingBuffer}
    → IsValid fifo
    → length fifo.rdata ≡ fifo.mask + 1
    → fifo.out_index ≡ fifo.mask
    → 2 ≤ len fifo
    → peek_byte (skip (skip fifo)) ≡ none
unfolding peek_byte skip len
skip_past_end v exact last held = ground arith

-- Emptying a fifo.
pub reset_lem :
    {mask : ℕ} {q : List ℕ} {fifo : RingBuffer}
    → Represents mask q fifo
    → Represents mask [] (reset fifo)
unfolding reset
reset_lem {mask} {q} {fifo} r = record {
  valid = ground (arith, r.valid);
  same_mask = r.same_mask;
  holds = eq-nil_of_length (contents (reset fifo)) (ground (arith, length-contents (reset fifo)));
}

-- `ringbuffer_out_byte` on an empty fifo with a mask above 0 returns what lies at the read index and
-- leaves a valid fifo that claims to hold `mask` bytes.
pub out_byte_empty :
    {mask : ℕ} {fifo : RingBuffer}
    → Represents mask [] fifo
    → 0 < mask
    → (fifo' : RingBuffer) × (out_byte fifo ≡ some (fifo', get_or fifo.rdata fifo.out_index 0))
      × IsValid fifo'
      × (length (contents fifo') ≡ mask)
unfolding out_byte peek_byte
out_byte_empty {mask} {fifo} r more =
    let held : used fifo ≡ 0 = sym (length-contents fifo) ∙ ap length r.holds in
    let moved : advance fifo.mask fifo.out_index 1 ≡ wrap fifo.mask (fifo.out_index + 1) =
      advance_lem fifo.mask fifo.out_index 1 r.valid.small (omega (arith, r.valid)) in
    (
      after_out fifo 1,
      ground (arith, r.valid, moved),
      ground (arith, r.valid, r.same_mask),
      ground (arith, r.valid, r.same_mask, length-contents (after_out fifo 1)),
    )

-- With `n` bytes there, `n` bytes are taken.
pub out_bytes_exact :
    {mask : ℕ} {q : List ℕ} {fifo : RingBuffer} (buf : List ℕ) (n : ℕ)
    → Represents mask q fifo
    → n ≤ length q
    → n ≤ length buf
    → (fifo' : RingBuffer) × (out_bytes fifo buf n ≡ some (fifo', take n q ++ drop n buf, n))
      × Represents mask (drop n q) fifo'
out_bytes_exact {mask} {q} {fifo} buf n r there enough =
    let all : min n (length q) ≡ n = omega arith in
    subst
      (λ (k : ℕ).
        (fifo' : RingBuffer) × (out_bytes fifo buf n ≡ some (fifo', take k q ++ drop k buf, k))
        × Represents mask (drop k q) fifo')
      all (out_bytes_lem buf n r (omega arith))
