-- ===== src/RingBuffer/Tests.antt =====
-- Runs of the fifo of src/ringBuffer.c on concrete storage.
use psuart.Prelude.{ℕ, ◌+◌, ◌≡◌, ◌≤◌, refl, arith, List, [], ◌∷◌, some, none, length, tabulate}
use psuart.RingBuffer.{
  RingBuffer, in_bytes, in_byte, out_bytes, out_byte, peek_byte, skip, len, unused,
}
use psuart.RingBuffer.View.{IsValid, contents, used}
use psuart.RingBuffer.Copy.{IsWritten}
use psuart.RingBuffer.In.{Represents, in_bytes_lem, in_bytes_fits, accepted, after_in}
use psuart.RingBuffer.Out.{out_bytes_lem, skip_past_end, out_byte_empty}
use psuart.RingBuffer.Overflow.{in_bytes_lost, in_bytes_full, in_byte_full}
use psuart.RingBuffer.Queue.{
  Op, put, put_byte, get, get_byte, look, measure, clear, Reply, run, answers, ask,
}
use psuart.RingBuffer.Refine.{run_refines}

-- an empty fifo with room for three bytes
abbrev empty : RingBuffer
empty = record { in_index = 2; out_index = 2; mask = 3; rdata = 9 ∷ 9 ∷ 9 ∷ 9 ∷ [] }

-- two bytes, the second at the start of the storage
abbrev bent : RingBuffer
bent = record { in_index = 1; out_index = 3; mask = 3; rdata = 6 ∷ 9 ∷ 9 ∷ 5 ∷ [] }

-- three bytes
abbrev laden : RingBuffer
laden = record { in_index = 3; out_index = 0; mask = 3; rdata = 5 ∷ 6 ∷ 7 ∷ 9 ∷ [] }

empty-IsValid : IsValid empty
empty-IsValid = record {
  storage = omega arith;
  small = omega arith;
  in_within = omega arith;
  out_within = omega arith;
}

bent-IsValid : IsValid bent
bent-IsValid = record {
  storage = omega arith;
  small = omega arith;
  in_within = omega arith;
  out_within = omega arith;
}

laden-IsValid : IsValid laden
laden-IsValid = record {
  storage = omega arith;
  small = omega arith;
  in_within = omega arith;
  out_within = omega arith;
}

empty-Represents : Represents 3 [] empty
unfolding contents tabulate
empty-Represents = record { valid = empty-IsValid; same_mask = refl; holds = refl }

bent-Represents : Represents 3 (5 ∷ 6 ∷ []) bent
unfolding contents tabulate
bent-Represents = record { valid = bent-IsValid; same_mask = refl; holds = refl }

laden-Represents : Represents 3 (5 ∷ 6 ∷ 7 ∷ []) laden
unfolding contents tabulate
laden-Represents = record { valid = laden-IsValid; same_mask = refl; holds = refl }

one_accepted : accepted bent 1 ≤ 1
unfolding unused
one_accepted = omega arith

two_held : 2 ≤ len bent
unfolding len
two_held = omega arith

abbrev session : List Op
session = put (1 ∷ 2 ∷ []) ∷ get_byte ∷ put_byte 3 ∷ look 5 ∷ measure ∷ get 2 ∷ clear ∷ []

abbrev replies : List Reply
replies =
    ([], 2)
    ∷ ([], 1)
    ∷ ([], 2)
    ∷ (2 ∷ 3 ∷ 0 ∷ 0 ∷ 0 ∷ [], 2)
    ∷ ([], 2)
    ∷ (2 ∷ 3 ∷ [], 2)
    ∷ ([], 0)
    ∷ []

session_allowed : answers 3 [] session ≡ some replies
unfolding answers ask
session_allowed = refl

run_refines_example : run empty session ≡ some replies
run_refines_example = run_refines [] session empty-Represents session_allowed

in_bytes_lem_example :
    (m : List ℕ) × (let fifo' = after_in bent (accepted bent 1) m in
      in_bytes bent (7 ∷ []) 1 ≡ some (fifo', used fifo'))
    × IsValid (after_in bent (accepted bent 1) m)
    × IsWritten bent (7 ∷ []) (accepted bent 1) 1 m
in_bytes_lem_example = in_bytes_lem (7 ∷ []) 1 bent-IsValid one_accepted

in_bytes_fits_run :
    (fifo' : RingBuffer) × (in_bytes bent (7 ∷ []) 1 ≡ some (fifo', 3))
    × Represents 3 (5 ∷ 6 ∷ 7 ∷ []) fifo'
in_bytes_fits_run = in_bytes_fits (7 ∷ []) 1 bent-Represents (omega arith) (omega arith)

out_bytes_lem_example :
    (fifo' : RingBuffer) × (out_bytes bent (0 ∷ 0 ∷ 0 ∷ []) 3 ≡ some (fifo', 5 ∷ 6 ∷ 0 ∷ [], 2))
    × Represents 3 [] fifo'
out_bytes_lem_example = out_bytes_lem (0 ∷ 0 ∷ 0 ∷ []) 3 bent-Represents (omega arith)

in_bytes_lost_run :
    (fifo' : RingBuffer) × (in_bytes bent (7 ∷ 8 ∷ []) 2 ≡ some (fifo', length (contents fifo')))
    × IsValid fifo'
    × (length (contents fifo') + 4 ≤ 2 + accepted bent 2)
in_bytes_lost_run = in_bytes_lost (7 ∷ 8 ∷ []) 2 bent-Represents (omega arith) (omega arith)

in_bytes_full_example :
    (fifo' : RingBuffer) × (in_bytes laden (8 ∷ []) 1 ≡ some (fifo', 0)) × Represents 3 [] fifo'
in_bytes_full_example =
    in_bytes_full (8 ∷ []) 1 laden-Represents (omega arith) (omega arith) (omega arith)

in_byte_full_run :
    (fifo' : RingBuffer) × (in_byte laden 8 ≡ some (fifo', 0)) × Represents 3 [] fifo'
in_byte_full_run = in_byte_full 8 laden-Represents refl

skip_past_end_run : peek_byte (skip (skip bent)) ≡ none
skip_past_end_run = skip_past_end bent-IsValid refl refl two_held

out_byte-empty_run :
    (fifo' : RingBuffer) × (out_byte empty ≡ some (fifo', 9))
    × IsValid fifo'
    × (length (contents fifo') ≡ 3)
out_byte-empty_run = out_byte_empty empty-Represents (omega arith)
