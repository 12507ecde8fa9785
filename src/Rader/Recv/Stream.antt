-- ===== src/Rader/Recv/Stream.antt =====
-- What the radar sends arrives in pieces; how it is cut does not matter.
use psuart.Prelude.{
  ℕ, ◌+◌, ◌≤◌, ◌<◌, ◌≡◌, refl, sym, ap, ◌∙◌, arith, Bool, List, [], ◌∷◌, ◌++◌, Option, some, ◌>>=◌,
  leb, if◌then◌else◌, length, take, drop, subst, length-append, take_all, take-append_le,
  append-nil, append_assoc, le→leb, gt→leb,
}
use native.Mathlib.Decide.{dec_le}
use psuart.RingBuffer.{RingBuffer}
use psuart.RingBuffer.In.{Represents}
use psuart.Rader.Packet.Frame.{frame}
use psuart.Rader.State.{Rader, Write}
use psuart.Rader.Recv.{rader_recv}
use psuart.Rader.Recv.Answer.{
  IsGathering, last, sent_flag, rader_recv_idle, rader_recv_partial, rader_recv_complete,
}

-- `rader_recv` on each piece in turn: the state at the end and all that was written
pub recv_all : Bool → ℕ → Rader → List (List ℕ) → Option (Rader × List Write)
recv_all signed fd st [] = some (st, [])
recv_all signed fd st (chunk ∷ chunks) = do
  (st', sent, flag) ← rader_recv signed fd st chunk (length chunk)
  (st'', later) ← recv_all signed fd st' chunks
  some (st'', sent ++ later)

-- all the bytes of the pieces, in order
abbrev pub joined : List (List ℕ) → List ℕ
joined [] = []
joined (chunk ∷ chunks) = chunk ++ joined chunks

-- each piece fits the array into which the caller reads
abbrev pub AreReads : List (List ℕ) → Type 0
AreReads [] = Unit {0}
AreReads (chunk ∷ chunks) = (length chunk ≤ 4096) × AreReads chunks

-- the packet that answers a command, once all its bytes are there
abbrev pub answer : ℕ → Rader → List ℕ → List Write
answer fd st bytes =
    if leb st.dlen (length bytes)
    then record { fd = fd; bytes = frame st.cmd_flag (take st.dlen bytes) } ∷ []
    else []

recv_all_idle :
    (signed : Bool) (fd : ℕ) (st : Rader) (chunks : List (List ℕ))
    → st.dlen ≡ 0
    → recv_all signed fd st chunks ≡ some (st, [])
unfolding recv_all
recv_all_idle signed fd st [] idle = refl
recv_all_idle signed fd st (chunk ∷ chunks) idle =
    rw (
      rader_recv_idle signed fd st chunk (length chunk) idle,
      recv_all_idle signed fd st chunks idle,
    )

module _ (signed : Bool) (fd : ℕ) (st : Rader) (q chunk : List ℕ) (g : IsGathering st q) where
  whole_chunk : take (length chunk) chunk ≡ chunk
  whole_chunk = take_all (length chunk) chunk (omega arith)

  chunk_partial :
      length q + length chunk < st.dlen
      → (fifo' : RingBuffer) × (rader_recv signed fd st chunk (length chunk)
          ≡ some (record st { fifo = fifo' }, [], 0))
        × IsGathering (record st { fifo = fifo' }) (q ++ chunk)
  chunk_partial more =
      subst
        (λ (read : List ℕ).
          (fifo' : RingBuffer) × (rader_recv signed fd st chunk (length chunk)
            ≡ some (record st { fifo = fifo' }, [], 0))
          × IsGathering (record st { fifo = fifo' }) (q ++ read))
        whole_chunk (rader_recv_partial signed fd st q chunk (length chunk) g (omega arith) more)

  chunk_complete :
      length chunk ≤ 4096
      → st.dlen ≤ length q + length chunk
      → (fifo' : RingBuffer) × (rader_recv signed fd st chunk (length chunk)
          ≡ some (
            record { fifo = fifo'; cmd_flag = 0; dlen = 0 },
            record { fd = fd; bytes = frame st.cmd_flag (take st.dlen (q ++ chunk)) } ∷ [],
            sent_flag st.cmd_flag,
          ))
        × Represents last (drop st.dlen (q ++ chunk)) fifo'
  chunk_complete small whole =
      subst
        (λ (read : List ℕ).
          (fifo' : RingBuffer) × (rader_recv signed fd st chunk (length chunk)
            ≡ some (
              record { fifo = fifo'; cmd_flag = 0; dlen = 0 },
              record { fd = fd; bytes = frame st.cmd_flag (take st.dlen (q ++ read)) } ∷ [],
              sent_flag st.cmd_flag,
            ))
          × Represents last (drop st.dlen (q ++ read)) fifo')
        whole_chunk
        (rader_recv_complete signed fd st q chunk (length chunk) g (omega arith) small whole)

-- one piece in front of the others
recv_all_cons :
    (signed : Bool) (fd : ℕ) (st : Rader) (chunk : List ℕ) (chunks : List (List ℕ))
    {st' st'' : Rader} {sent later : List Write} {flag : ℕ}
    → rader_recv signed fd st chunk (length chunk) ≡ some (st', sent, flag)
    → recv_all signed fd st' chunks ≡ some (st'', later)
    → recv_all signed fd st (chunk ∷ chunks) ≡ some (st'', sent ++ later)
unfolding recv_all
recv_all_cons signed fd st chunk chunks e f = rw (e, f)

-- Bytes behind a whole answer do not change it.
pub answer-append :
    (fd : ℕ) (st : Rader) (bytes more : List ℕ)
    → st.dlen ≤ length bytes
    → answer fd st (bytes ++ more)
      ≡ record { fd = fd; bytes = frame st.cmd_flag (take st.dlen bytes) } ∷ []
answer-append fd st bytes more whole = rw (
  le→leb st.dlen (length (bytes ++ more)) (omega (arith, length-append bytes more)),
  take-append_le st.dlen bytes more whole,
)

-- While an answer is being gathered, however the bytes that follow are cut into reads of at most 4096 bytes, no access
-- leaves an array, and what is written is one packet with the first `dlen` of the bytes, or nothing
-- while there are fewer; later bytes are dropped.
pub recv_all-answer :
    (signed : Bool) (fd : ℕ) (st : Rader) (q : List ℕ) (chunks : List (List ℕ))
    → IsGathering st q
    → AreReads chunks
    → (st' : Rader) × (recv_all signed fd st chunks ≡ some (st', answer fd st (q ++ joined chunks)))
unfolding recv_all
recv_all-answer signed fd st q [] g reads =
    (st, rw (append-nil q, gt→leb st.dlen (length q) g.partial))
recv_all-answer signed fd st q (chunk ∷ chunks) g reads =
    elim (dec_le st.dlen (length q + length chunk)) [
      | yes whole ↦
          let (fifo', e, r) = chunk_complete signed fd st q chunk g reads.0 whole in
          let done : Rader = record { fifo = fifo'; cmd_flag = 0; dlen = 0 } in
          let answered =
            sym (
              answer-append fd st (q ++ chunk) (joined chunks)
                (omega (arith, length-append q chunk)))
            ∙ ap (answer fd st) (append_assoc q chunk (joined chunks)) in
          (
            done,
            recv_all_cons signed fd st chunk chunks e (recv_all_idle signed fd done chunks refl)
                ∙ ap (λ ws. some (done, ws)) answered,
          )
      | no more ↦
          let (fifo', e, g') = chunk_partial signed fd st q chunk g (omega arith) in
          let (st', f) =
            recv_all-answer signed fd (record st { fifo = fifo' }) (q ++ chunk) chunks g' reads.1 in
          (
            st',
            recv_all_cons signed fd st chunk chunks e f
                ∙ ap (λ bytes. some (st', answer fd st bytes))
                    (append_assoc q chunk (joined chunks)),
          )
    ]
