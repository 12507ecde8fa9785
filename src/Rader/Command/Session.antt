-- ===== src/Rader/Command/Session.antt =====
-- Commands as they come from the network: sound ones, damaged ones, and one with its answer.
use psuart.Prelude.{
  ℕ, ◌+◌, ◌≤◌, ◌<◌, ◌^◌, ◌≡◌, ◌≢◌, refl, ap, ◌∙◌, arith, Bool, true, false, List, [], ◌∷◌, ◌++◌,
  some, ◌==◌, ==_iff, if◌then◌else◌, length,
}
use psuart.RingBuffer.In.{Represents}
use psuart.RingBuffer.Out.{reset_lem}
use psuart.Rader.Crc.{crc8}
use psuart.Rader.Crc.Laws.{AreBytes, crc8_detects_byte}
use psuart.Rader.Packet.Frame.{frame, layout, framed-append}
use psuart.Rader.State.{Rader, rader_dlen}
use psuart.Rader.Command.{rader_cmd}
use psuart.Rader.Command.Find.{HasNoBegin, verdict, rader_cmd_whole}
use psuart.Rader.Command.Accept.{command_flag, closes, awaiting, obeyed, obey_lem}
use psuart.Rader.Recv.Answer.{last, IsGathering}
use psuart.Rader.Recv.Stream.{recv_all, AreReads, answer, joined, recv_all-answer}

verdict_sound :
    (fd : ℕ) (st : Rader) (cmd rest : List ℕ)
    → verdict fd st cmd (crc8 cmd) 0xfe rest ≡ some (obeyed fd st cmd)
verdict_sound fd st cmd rest =
    let same : (crc8 cmd == crc8 cmd) ≡ true = (==_iff (crc8 cmd) (crc8 cmd)).1 refl in
    rw same (obey_lem fd st cmd (crc8 cmd ∷ 0xfe ∷ rest))

-- Whatever bytes other than the begin mark stand in front of it and whatever bytes stand behind it,
-- a packet with a payload below 64 KB that has come whole is obeyed: its payload goes to the radar
-- as it is, unless an answer is still awaited.
pub rader_cmd-frame :
    (fd : ℕ) (st : Rader) (flag : ℕ) (noise cmd rest : List ℕ) (k : ℕ)
    → HasNoBegin noise
    → length cmd < 2 ^ 16
    → length cmd + 6 ≤ k
    → rader_cmd fd st (noise ++ (frame flag cmd ++ rest)) (length noise + k)
      ≡ some (obeyed fd st cmd)
rader_cmd-frame fd st flag noise cmd rest k clean short whole = rw (← framed-append flag cmd rest) (
    rader_cmd_whole fd st flag cmd (crc8 cmd) 0xfe rest short noise k clean whole
    ∙ verdict_sound fd st cmd rest)

-- A packet that has come whole, behind bytes other than the begin mark, of which one payload byte
-- has changed on the way is ignored: the state stays, nothing is sent and the result is 0.
pub rader_cmd_damaged :
    (fd : ℕ) (st : Rader) (flag : ℕ) (noise xs : List ℕ) (a b : ℕ) (ys rest : List ℕ) (k : ℕ)
    → HasNoBegin noise
    → AreBytes xs
    → AreBytes ys
    → a < 256
    → b < 256
    → a ≢ b
    → length (xs ++ b ∷ ys) < 2 ^ 16
    → length (xs ++ b ∷ ys) + 6 ≤ k
    → rader_cmd fd st
        (noise ++ layout flag (xs ++ b ∷ ys) (crc8 (xs ++ a ∷ ys) ∷ 0xfe ∷ rest))
        (length noise + k)
      ≡ some (st, [], 0)
rader_cmd_damaged fd st flag noise xs a b ys rest k clean hx hy ha hb ne short whole =
    let sent = crc8 (xs ++ a ∷ ys) in
    let differ : (sent == crc8 (xs ++ b ∷ ys)) ≡ false =
      ground (arith, crc8_detects_byte xs a b ys hx hy ha hb ne) in
    rader_cmd_whole fd st flag (xs ++ b ∷ ys) sent 0xfe rest short noise k clean whole ∙ rw differ

-- What `rader_cmd` leaves behind is ready for the answer.
pub awaiting-IsGathering :
    {q : List ℕ} (st : Rader) (cmd : List ℕ)
    → Represents last q st.fifo
    → 0 < rader_dlen (command_flag cmd)
    → IsGathering (awaiting st cmd) []
awaiting-IsGathering st cmd r known = record {
  holds = reset_lem r;
  awaited = refl;
  partial = known;
}

pub obeyed_idle :
    (fd : ℕ) (st : Rader) (cmd : List ℕ)
    → st.dlen ≡ 0
    → obeyed fd st cmd
      ≡ (awaiting st cmd, record { fd = fd; bytes = cmd } ∷ [], if closes cmd then 1 else 0)
obeyed_idle fd st cmd idle = rw idle

-- While no answer is awaited, a known command in a packet that has come whole, then the radar's
-- bytes cut in whatever way into reads of at most 4096 bytes: the command goes to the radar, and one packet comes back to the network with the command's flag and as many of the first
-- bytes as belong to the command, or none while there are fewer.
pub command_answered :
    (signed : Bool) (uart tcp : ℕ) (st : Rader) {q : List ℕ} (flag : ℕ) (cmd rest : List ℕ) (k : ℕ)
    (chunks : List (List ℕ))
    → Represents last q st.fifo
    → st.dlen ≡ 0
    → 0 < rader_dlen (command_flag cmd)
    → length cmd < 2 ^ 16
    → length cmd + 6 ≤ k
    → AreReads chunks
    → (st' : Rader) × (rader_cmd uart st (frame flag cmd ++ rest) k
        ≡ some
            (awaiting st cmd, record { fd = uart; bytes = cmd } ∷ [], if closes cmd then 1 else 0))
      × (recv_all signed tcp (awaiting st cmd) chunks
          ≡ some (st', answer tcp (awaiting st cmd) (joined chunks)))
command_answered signed uart tcp st flag cmd rest k chunks r idle known short whole reads =
    let (st', e) =
      recv_all-answer signed tcp (awaiting st cmd) [] chunks (awaiting-IsGathering st cmd r known)
        reads in
    let start : 0 + k ≡ k = omega arith in
    let passed = rw start at (rader_cmd-frame uart st flag [] cmd rest k tt short whole) in
    (st', passed ∙ ap some (obeyed_idle uart st cmd idle), e)
