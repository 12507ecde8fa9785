-- ===== src/RingBuffer/Refine.antt =====
-- No sequence of allowed calls tells the fifo from the queue.
use psuart.Prelude.{
  ℕ, ◌+◌, ◌≡◌, refl, arith, List, [], ◌∷◌, Option, some, none, ◌>>=◌, >>=-eq-some, sym, ap, ◌∙◌,
  leb, ltb, length, take_all, length-replicate, replicate, leb→le, ltb→lt, Bool-cases, inl, inr,
}
use psuart.RingBuffer.{RingBuffer, peek_len, reset}
use psuart.RingBuffer.View.{len-eq-used, length-contents}
use psuart.RingBuffer.In.{Represents, in_bytes_fits}
use psuart.RingBuffer.InByte.{in_byte_fits}
use psuart.RingBuffer.Out.{out_bytes_lem, out_peek_lem, out_byte_lem, peek_byte_lem, reset_lem}
use psuart.RingBuffer.Queue.{
  Op, put, put_byte, get, get_byte, look, look_byte, measure, clear, Reply, call, run, ask, answers,
}

peek_len-Represents :
    {mask : ℕ} {q : List ℕ} {fifo : RingBuffer} → Represents mask q fifo → peek_len fifo ≡ length q
unfolding peek_len
peek_len-Represents {mask} {q} {fifo} r =
    len-eq-used r.valid ∙ sym (length-contents fifo) ∙ ap length r.holds

-- the fifo answers a call as the queue does, and represents the queue that the call leaves
record IsMatched (mask : ℕ) (fifo : RingBuffer) (op : Op) (q' : List ℕ) (reply : Reply)
    : Type 0 where
  fifo' : RingBuffer
  answered : call fifo op ≡ some (fifo', reply)
  after : Represents mask q' fifo'

abbrev Follows : ℕ → RingBuffer → Op → Option (List ℕ × Reply) → Type 0
Follows mask fifo op none = Unit {0}
Follows mask fifo op (some (q', reply)) = IsMatched mask fifo op q' reply

call-Follows :
    {mask : ℕ} (q : List ℕ) {fifo : RingBuffer} (op : Op)
    → Represents mask q fifo
    → Follows mask fifo op (ask mask q op)
unfolding ask call
call-Follows {mask} q (put bytes) r = elim (Bool-cases (leb (length q + length bytes) mask)) [
  | inl fits ↦ rw fits (
      let (fifo', e, r') = in_bytes_fits bytes (length bytes) r (leb→le _ _ fits) (omega arith) in
      record {
        fifo' = fifo';
        answered = rw e;
        after = rw (take_all (length bytes) bytes (omega arith)) at r';
      })
  | inr over ↦ rw over tt
]
call-Follows {mask} q (put_byte b) r = elim (Bool-cases (ltb (length q) mask)) [
  | inl fits ↦ rw fits (
      let (fifo', e, r') = in_byte_fits b r (ltb→lt _ _ fits) in
      record { fifo' = fifo'; answered = rw e; after = r' })
  | inr over ↦ rw over tt
]
call-Follows q (get n) r =
    let (fifo', e, r') =
      out_bytes_lem (replicate n 0) n r (omega (arith, length-replicate {A = ℕ} n 0)) in
    record { fifo' = fifo'; answered = rw e; after = r' }
call-Follows [] get_byte r = tt
call-Follows (b ∷ q) get_byte r =
    let (fifo', e, r') = out_byte_lem r in record { fifo' = fifo'; answered = rw e; after = r' }
call-Follows q {fifo} (look n) r = record {
  fifo' = fifo;
  answered = rw (out_peek_lem (replicate n 0) n r (omega (arith, length-replicate {A = ℕ} n 0)));
  after = r;
}
call-Follows [] look_byte r = tt
call-Follows (b ∷ q) {fifo} look_byte r = record {
  fifo' = fifo;
  answered = rw (peek_byte_lem r);
  after = r;
}
call-Follows q {fifo} measure r = record {
  fifo' = fifo;
  answered = rw (peek_len-Represents r);
  after = r;
}
call-Follows q {fifo} clear r = record { fifo' = reset fifo; answered = refl; after = reset_lem r }

call-IsMatched :
    {mask : ℕ} (q : List ℕ) {fifo : RingBuffer} (op : Op) {q' : List ℕ} {reply : Reply}
    → Represents mask q fifo
    → ask mask q op ≡ some (q', reply)
    → IsMatched mask fifo op q' reply
call-IsMatched q op r e = rw e at (call-Follows q op r)

-- A sequence of calls that a queue of at most `mask` bytes allows has on the fifo the replies that
-- it has on the queue, and no access outside the storage.
pub run_refines :
    {mask : ℕ} (q : List ℕ) {fifo : RingBuffer} (ops : List Op) {replies : List Reply}
    → Represents mask q fifo
    → answers mask q ops ≡ some replies
    → run fifo ops ≡ some replies
unfolding run answers
run_refines q [] r e = e
run_refines {mask} q (op ∷ ops) r e =
    let ((q', reply), asked, rest) =
      >>=-eq-some (ask mask q op)
        (λ (x : List ℕ × Reply). answers mask x.0 ops >>= λ (rs : List Reply). some (x.1 ∷ rs)) e in
    let (rs, later, last) =
      >>=-eq-some (answers mask q' ops) (λ (rs : List Reply). some (reply ∷ rs)) rest in
    let m = call-IsMatched q op r asked in rw (m.answered, run_refines q' ops m.after later) last
