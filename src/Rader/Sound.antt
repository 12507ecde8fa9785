-- ===== src/Rader/Sound.antt =====
-- The invariant of src/rader.c: whatever arrives, the fifo never holds more than a part of one answer
-- while an answer is awaited.
use psuart.Prelude.{
  ℕ, ◌+◌, ◌≤◌, ◌≡◌, refl, arith, List, [], ◌++◌, some, Bool, false, ◌⊎◌, inl, inr, Holds, Holds-if,
  Holds->>=, Holds->>=_after, length, take, ltb, leb, ◌==◌, ◌&&◌, drop, load, Bool-cases, leb→le,
}
use psuart.RingBuffer
use psuart.RingBuffer.In.{Represents}
use psuart.RingBuffer.Out.{reset_lem}
use psuart.Rader.Packet.{get_begin, get_len, get_crc, get_end, get_packet_len, data_crc}
use psuart.Rader.State.{Rader, Write, rader_flag, rader_dlen, set_rader_dlen}
use psuart.Rader.Recv.{rader_recv}
use psuart.Rader.Recv.Answer.{
  last, IsGathering, rader_recv_idle, rader_recv_partial, rader_recv_complete,
}
use psuart.Rader.Command.{
  find_begin, accept_command, asks_close, obey, check_packet, rader_cmd, str_case_eq,
}
use psuart.Rader.Stdin.{rader_cmd_from_stdin, stdin_bytes, cls_text}

-- The fifo is valid and holds `q`; an answer that is awaited has not come whole yet.
abbrev pub IsSound : Rader → Type 0
IsSound st = (q : List ℕ) × Represents last q st.fifo × ((st.dlen ≡ 0) ⊎ IsGathering st q)

-- a command that was noted, its answer not begun
noted-IsSound :
    {q : List ℕ} (st : Rader) (flag : ℕ)
    → Represents last q st.fifo
    → IsSound (record { fifo = RingBuffer.reset st.fifo; cmd_flag = flag; dlen = rader_dlen flag })
noted-IsSound st flag r = elim (Bool-cases (ltb 0 (rader_dlen flag))) [
  | inl some_bytes ↦ (
    [],
    reset_lem r,
    inr (record { holds = reset_lem r; awaited = refl; partial = ground (arith, some_bytes) }),
  )
  | inr no_bytes ↦ ([], reset_lem r, inl (ground (arith, no_bytes)))
]

-- the state that a call leaves, with what it returns
abbrev pub LeavesSound : Rader × List Write → Type 0
LeavesSound out = IsSound out.0

abbrev pub LeavesSoundFlag : Rader × List Write × ℕ → Type 0
LeavesSoundFlag out = IsSound out.0

pub accept_command-IsSound :
    (fd : ℕ) (st : Rader) (cmd : List ℕ) (n : ℕ)
    → IsSound st
    → Holds LeavesSound (accept_command fd st cmd n)
unfolding accept_command
accept_command-IsSound fd st cmd n (q, r, awaiting) = elim (Bool-cases (st.dlen == 0)) [
  | inr busy ↦ rw busy (q, r, awaiting)
  | inl idle ↦ rw idle (
      Holds->>= LeavesSound (rader_flag cmd n) _
        (λ flag. Holds->>= LeavesSound (load cmd 0 n) _ (λ bytes. noted-IsSound st flag r)))
]

obey-IsSound :
    (fd : ℕ) (st : Rader) (cmd : List ℕ) (n : ℕ)
    → IsSound st
    → Holds LeavesSoundFlag (obey fd st cmd n)
unfolding obey
obey-IsSound fd st cmd n sound =
    Holds->>=_after LeavesSound LeavesSoundFlag (accept_command fd st cmd n) _
      (accept_command-IsSound fd st cmd n sound)
      (λ out kept. Holds->>= LeavesSoundFlag (asks_close cmd n) _ (λ close. kept))

check_packet-IsSound :
    (fd : ℕ) (st : Rader) (p : List ℕ) → IsSound st → Holds LeavesSoundFlag (check_packet fd st p)
unfolding check_packet
check_packet-IsSound fd st p sound = Holds->>= LeavesSoundFlag (get_len false p) _ (λ n.
    Holds->>= LeavesSoundFlag (get_crc false p) _ (λ crc.
      Holds->>= LeavesSoundFlag (data_crc false p) _ (λ total.
        Holds->>= LeavesSoundFlag (get_end false p) _ (λ mark.
          Holds-if LeavesSoundFlag (mark == 0xfe && crc == total) _ _
            (obey-IsSound fd st (drop 4 p) n sound) sound))))

-- Whatever the bytes of a buffer are, a command that is taken from it keeps the state sound.
pub rader_cmd-IsSound :
    (fd : ℕ) (st : Rader) (buf : List ℕ) (len : ℕ)
    → IsSound st
    → Holds LeavesSoundFlag (rader_cmd fd st buf len)
unfolding rader_cmd
rader_cmd-IsSound fd st buf len sound = Holds->>= LeavesSoundFlag (get_begin buf) _ (λ printed.
    Holds->>= LeavesSoundFlag (find_begin buf len) _ (λ found.
      Holds->>= LeavesSoundFlag (get_packet_len false found.0) _ (λ size.
        Holds-if LeavesSoundFlag (ltb found.1 size) _ _ sound
          (check_packet-IsSound fd st found.0 sound))))

pub rader_cmd_from_stdin-IsSound :
    (fd : ℕ) (st : Rader) (buf : List ℕ) (len : ℕ)
    → IsSound st
    → Holds LeavesSound (rader_cmd_from_stdin fd st buf len)
unfolding rader_cmd_from_stdin
rader_cmd_from_stdin-IsSound fd st buf len (q, r, awaiting) =
    let sound : IsSound st = (q, r, awaiting) in
    Holds-if LeavesSound (leb 3 len) _ _
      (Holds->>= LeavesSound (str_case_eq buf cls_text) _ (λ cls.
        Holds-if LeavesSound cls _ _ (q, r, inl refl)
          (Holds->>= LeavesSound (stdin_bytes buf len) _
            (λ p. accept_command-IsSound fd st p.0 p.1 sound))))
      (accept_command-IsSound fd st buf len sound)

pub set_rader_dlen-IsSound : (st : Rader) → IsSound st → IsSound (set_rader_dlen st 0)
unfolding set_rader_dlen
set_rader_dlen-IsSound st (q, r, awaiting) = (q, r, inl refl)

-- Bytes from the radar, 4096 at most, are always taken: no call leaves an array or overflows the
-- fifo, and the state stays sound.
pub rader_recv-IsSound :
    (signed : Bool) (fd : ℕ) (st : Rader) (buf : List ℕ) (len : ℕ)
    → IsSound st
    → len ≤ length buf
    → len ≤ 4096
    → (out : Rader × List Write × ℕ) × (rader_recv signed fd st buf len ≡ some out) × IsSound out.0
rader_recv-IsSound signed fd st buf len (q, r, inl idle) enough small =
    ((st, [], 0), rader_recv_idle signed fd st buf len idle, (q, r, inl idle))
rader_recv-IsSound signed fd st buf len (q, r, inr g) enough small =
    elim (Bool-cases (leb st.dlen (length q + len))) [
      | inr more ↦
          let (fifo', e, kept) =
            rader_recv_partial signed fd st q buf len g enough (ground (arith, more)) in
          (_, e, (q ++ take len buf, kept.holds, inr kept))
      | inl whole ↦
          let (fifo', e, left) =
            rader_recv_complete signed fd st q buf len g enough small
              (leb→le st.dlen (length q + len) whole) in
          (_, e, (drop st.dlen (q ++ take len buf), left, inl refl))
    ]
