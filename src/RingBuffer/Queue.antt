-- ===== src/RingBuffer/Queue.antt =====
-- What a client of the fifo relies on: a queue of at most `mask` bytes, oldest first, and the same
-- calls on both. A call that the queue does not allow is `none`.
use psuart.Prelude.{
  ℕ, ◌+◌, List, [], ◌∷◌, ◌++◌, Option, some, none, ◌>>=◌, leb, ltb, if◌then◌else◌, length, take,
  drop, replicate, min,
}
use psuart.RingBuffer.{
  RingBuffer, in_bytes, in_byte, out_bytes, out_byte, out_peek, peek_byte, peek_len, reset,
}

pub data Op : Type 0 where
  put : List ℕ → Op
  put_byte : ℕ → Op
  get : ℕ → Op
  get_byte : Op
  look : ℕ → Op
  look_byte : Op
  measure : Op
  clear : Op

-- the bytes that a call hands out, and the number that it returns
abbrev pub Reply : Type 0
Reply = List ℕ × ℕ

-- One call on the C fifo. A buffer handed in is as long as the number asked for, and zero.
unfoldable pub call : RingBuffer → Op → Option (RingBuffer × Reply)
call fifo (put bytes) = do (fifo', n) ← in_bytes fifo bytes (length bytes); some (fifo', ([], n))
call fifo (put_byte b) = do (fifo', n) ← in_byte fifo b; some (fifo', ([], n))
call fifo (get n) = do (fifo', buf, k) ← out_bytes fifo (replicate n 0) n; some (fifo', (buf, k))
call fifo get_byte = do (fifo', b) ← out_byte fifo; some (fifo', ([], b))
call fifo (look n) = do (buf, k) ← out_peek fifo (replicate n 0) n; some (fifo, (buf, k))
call fifo look_byte = do b ← peek_byte fifo; some (fifo, ([], b))
call fifo measure = some (fifo, ([], peek_len fifo))
call fifo clear = some (reset fifo, ([], 0))

unfoldable pub run : RingBuffer → List Op → Option (List Reply)
run fifo [] = some []
run fifo (op ∷ ops) = do
  (fifo', reply) ← call fifo op
  replies ← run fifo' ops
  some (reply ∷ replies)

-- The same call on the queue.
unfoldable pub ask : ℕ → List ℕ → Op → Option (List ℕ × Reply)
ask mask q (put bytes) =
    if leb (length q + length bytes) mask
    then some (q ++ bytes, ([], length q + length bytes))
    else none
ask mask q (put_byte b) =
    if ltb (length q) mask then some (q ++ b ∷ [], ([], length q + 1)) else none
ask mask q (get n) =
    let k = min n (length q) in some (drop k q, (take k q ++ drop k (replicate n 0), k))
ask mask [] get_byte = none
ask mask (b ∷ q) get_byte = some (q, ([], b))
ask mask q (look n) = let k = min n (length q) in some (q, (take k q ++ drop k (replicate n 0), k))
ask mask [] look_byte = none
ask mask (b ∷ q) look_byte = some (b ∷ q, ([], b))
ask mask q measure = some (q, ([], length q))
ask mask q clear = some ([], ([], 0))

unfoldable pub answers : ℕ → List ℕ → List Op → Option (List Reply)
answers mask q [] = some []
answers mask q (op ∷ ops) = do
  (q', reply) ← ask mask q op
  replies ← answers mask q' ops
  some (reply ∷ replies)
