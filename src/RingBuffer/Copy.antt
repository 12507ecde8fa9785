-- ===== src/RingBuffer/Copy.antt =====
-- The two copies that go round the end of the storage.
use psuart.Prelude.{
  ℕ, ◌+◌, ◌-◌, ◌≤◌, ◌≡◌, refl, ◌∙◌, arith, List, some, leb, ltb, if◌then◌else◌, ◌&&◌, length,
  get_or, take, drop, get_or-take, get_or-drop, length-taken, splice, length-splice, get_or-splice,
  memcpy-eq-some, sub32, add32, Bool-cases, inl, inr, min,
}
use psuart.RingBuffer.{RingBuffer, copy_some, copy_in, copy_out, min_macro}
use psuart.RingBuffer.View.{IsValid, wrap}

-- `m` is `dst` with the `n` bytes of `src` at `from` written at `to`.
pub record IsCopied (dst : List ℕ) (to : ℕ) (src : List ℕ) (from n : ℕ) (m : List ℕ) : Type 0 where
  pub same_length : length m ≡ length dst
  pub at :
      (j : ℕ)
      → get_or m j 0 ≡ (
          if ltb j to
          then get_or dst j 0
          else if ltb j (to + n)
          then get_or src (from + (j - to)) 0
          else get_or dst j 0)

splice-IsCopied :
    (dst : List ℕ) (to : ℕ) (src : List ℕ) (from n : ℕ)
    → from + n ≤ length src
    → to + n ≤ length dst
    → IsCopied dst to src from n (splice dst to (take n (drop from src)))
splice-IsCopied dst to src from n h k = record {
  same_length =
      length-splice dst to (take n (drop from src)) (omega (arith, length-taken src from n h));
  at = λ j. ground (
    arith,
    length-taken src from n h,
    get_or-splice dst to (take n (drop from src)) j,
    get_or-take n (drop from src) (j - to) 0,
    get_or-drop from src (j - to) 0,
  );
}

pub copy_some_lem :
    (dst : List ℕ) (to : ℕ) (src : List ℕ) (from n : ℕ)
    → from + n ≤ length src
    → to + n ≤ length dst
    → (m : List ℕ) × (copy_some dst to src from n ≡ some m) × IsCopied dst to src from n m
unfolding copy_some
copy_some_lem dst to src from n h k = elim (Bool-cases (ltb 0 n)) [
  | inl more ↦ (
    splice dst to (take n (drop from src)),
    rw more (memcpy-eq-some dst to src from n h k),
    splice-IsCopied dst to src from n h k,
  )
  | inr nothing ↦ (dst, rw nothing, record { same_length = refl; at = λ j. ground arith })
]

-- `m` is `fifo.rdata` with the first `n` bytes of `src` written round from index `off`; where it comes
-- round to its own start, the later bytes stay.
pub record IsWritten (fifo : RingBuffer) (src : List ℕ) (n off : ℕ) (m : List ℕ) : Type 0 where
  pub same_length : length m ≡ length fifo.rdata
  pub at :
      (j : ℕ)
      → j ≤ fifo.mask
      → get_or m j 0 ≡ (
          if ltb (j + (fifo.mask + 1)) (off + n)
          then get_or src (j + (fifo.mask + 1) - off) 0
          else if leb off j && ltb j (off + n)
          then get_or src (j - off) 0
          else get_or fifo.rdata j 0)

-- Two `memcpy` make up the whole copy, at most one of them empty.
copy_in_steps :
    (fifo : RingBuffer) (src : List ℕ) (n off s : ℕ) {upper both : List ℕ}
    → min_macro n (sub32 (add32 fifo.mask 1) off) ≡ s
    → sub32 n s ≡ n - s
    → copy_some fifo.rdata off src 0 s ≡ some upper
    → copy_some upper 0 src s (n - s) ≡ some both
    → copy_in fifo src n off ≡ some (record fifo { rdata = both })
unfolding copy_in
copy_in_steps fifo src n off s first second eu eb = rw (first, second, eu, eb)

pub copy_in_lem :
    {fifo : RingBuffer} (src : List ℕ) (n off : ℕ)
    → IsValid fifo
    → off ≤ fifo.mask
    → off + n ≤ fifo.mask + 1 + fifo.mask
    → n ≤ length src
    → (m : List ℕ) × (copy_in fifo src n off ≡ some (record fifo { rdata = m }))
      × IsWritten fifo src n off m
copy_in_lem {fifo} src n off v within fits enough =
    let s = min n (fifo.mask + 1 - off) in
    let first : min_macro n (sub32 (add32 fifo.mask 1) off) ≡ s = ground arith in
    let second : sub32 n s ≡ n - s = ground arith in
    let (upper, eu, cu) = copy_some_lem fifo.rdata off src 0 s (omega arith) (omega arith) in
    let (both, eb, cb) =
      copy_some_lem upper 0 src s (n - s) (omega arith) (omega (arith, cu.same_length)) in
    (
      both,
      copy_in_steps fifo src n off s first second eu eb,
      record {
        same_length = cb.same_length ∙ cu.same_length;
        at = λ j h. ground (arith, cb.at j, cu.at j);
      },
    )

-- `m` is `dst` with `n` bytes read round from index `off` of the fifo at its front.
pub record IsRead (fifo : RingBuffer) (dst : List ℕ) (n off : ℕ) (m : List ℕ) : Type 0 where
  pub same_length : length m ≡ length dst
  pub at :
      (j : ℕ)
      → get_or m j 0
        ≡ (if ltb j n then get_or fifo.rdata (wrap fifo.mask (off + j)) 0 else get_or dst j 0)

copy_out_steps :
    (fifo : RingBuffer) (dst : List ℕ) (n off s : ℕ) {upper both : List ℕ}
    → min_macro n (sub32 (add32 fifo.mask 1) off) ≡ s
    → sub32 n s ≡ n - s
    → copy_some dst 0 fifo.rdata off s ≡ some upper
    → copy_some upper s fifo.rdata 0 (n - s) ≡ some both
    → copy_out fifo dst n off ≡ some both
unfolding copy_out
copy_out_steps fifo dst n off s first second eu eb = rw (first, second, eu, eb)

pub copy_out_lem :
    {fifo : RingBuffer} (dst : List ℕ) (n off : ℕ)
    → IsValid fifo
    → off ≤ fifo.mask
    → n ≤ fifo.mask + 1
    → n ≤ length dst
    → (m : List ℕ) × (copy_out fifo dst n off ≡ some m) × IsRead fifo dst n off m
copy_out_lem {fifo} dst n off v within fits enough =
    let s = min n (fifo.mask + 1 - off) in
    let first : min_macro n (sub32 (add32 fifo.mask 1) off) ≡ s = ground arith in
    let second : sub32 n s ≡ n - s = ground arith in
    let (upper, eu, cu) = copy_some_lem dst 0 fifo.rdata off s (omega arith) (omega arith) in
    let (both, eb, cb) =
      copy_some_lem upper s fifo.rdata 0 (n - s) (omega arith) (omega (arith, cu.same_length)) in
    (
      both,
      copy_out_steps fifo dst n off s first second eu eb,
      record {
        same_length = cb.same_length ∙ cu.same_length;
        at = λ j. ground (arith, cb.at j, cu.at j);
      },
    )
