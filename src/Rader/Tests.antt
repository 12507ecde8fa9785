-- ===== src/Rader/Tests.antt =====
-- Runs of src/rader.c.
use psuart.Prelude.{
  ℕ, ◌≡◌, ◌≢◌, ◌<◌, refl, arith, List, [], ◌∷◌, ◌++◌, some, none, true, false, inr,
}
use psuart.Prelude.Int.{pos}
use psuart.RingBuffer
use psuart.RingBuffer.In.{Represents}
use psuart.RingBuffer.Out.{reset_lem}
use psuart.Rader.Crc.{crc8, crc_from, crc_byte}
use psuart.Rader.Crc.Laws.{crc8_detects_byte, crc8_residue}
use psuart.Rader.Packet.{rader_heart}
use psuart.Rader.Packet.Frame.{frame, layout}
use psuart.Rader.Packet.Heart.{rader_heart_lem, rader_heart_negative}
use psuart.Rader.State.{
  Rader, Write, zeroed, length-zeroed, initial, rader_init, rader_dlen, flag_of_byte,
}
use psuart.Rader.Recv.Answer.{last, IsGathering, rader_init_lem}
use psuart.Rader.Recv.Stream.{recv_all, recv_all-answer, answer, joined}
use psuart.Rader.Command.{obey, rader_cmd}
use psuart.Rader.Command.Accept.{awaiting, obeyed, obey_lem}
use psuart.Rader.Command.Decode.{carried, reaction, rader_cmd-carried}
use psuart.Rader.Command.Find.{rader_cmd_overrun}
use psuart.Rader.Command.Session.{rader_cmd-frame, rader_cmd_damaged, command_answered}
use psuart.Rader.Recv.{rader_recv}
use psuart.Rader.Sound.{IsSound, rader_recv-IsSound}
use psuart.Rader.Stdin.{
  rader_cmd_from_stdin, cls_text, rader_cmd_from_stdin_cls, rader_cmd_from_stdin_hex,
}
use psuart.Utils.Number.{str_to_int}
use psuart.Utils.Number.Parse.{hexadecimal, str_to_int_lem}

-- the state behind `rader_init`
abbrev ready : Rader
ready = rader_init (zeroed 8192) initial

ready_idle : ready.dlen ≡ 0
unfolding rader_init
ready_idle = refl

-- the command that asks for ten bytes
abbrev short_command : List ℕ
short_command = b'S' ∷ []

-- the state that waits for them
abbrev waiting : Rader
waiting = record { fifo = (RingBuffer.reset ready.fifo); cmd_flag = 0x21; dlen = 10 }

abbrev pieces : List (List ℕ)
pieces = (1 ∷ 2 ∷ 3 ∷ []) ∷ (4 ∷ 5 ∷ 6 ∷ 7 ∷ 8 ∷ 9 ∷ 10 ∷ 11 ∷ []) ∷ []

rader_init_lem_run : Represents last [] ready.fifo
rader_init_lem_run = rader_init_lem (zeroed 8192) initial (length-zeroed 8192)

short_dlen : 0 < rader_dlen (flag_of_byte b'S')
unfolding rader_dlen flag_of_byte
short_dlen = omega arith

command_answered_run :
    (st' : Rader) × (rader_cmd 5 ready (frame 0 short_command ++ []) 7
      ≡ some (awaiting ready short_command, record { fd = 5; bytes = short_command } ∷ [], 0))
    × (recv_all true 6 (awaiting ready short_command) pieces
        ≡ some (st', answer 6 (awaiting ready short_command) (joined pieces)))
command_answered_run =
    command_answered true 5 6 ready 0 short_command [] 7 pieces rader_init_lem_run ready_idle
      short_dlen (omega arith) (omega arith) (ground arith)

waiting-IsGathering : IsGathering waiting []
unfolding rader_dlen
waiting-IsGathering = record {
  holds = reset_lem rader_init_lem_run;
  awaited = refl;
  partial = omega arith;
}

recv_all-answer_example :
    (st' : Rader) × (recv_all false 6 waiting pieces
      ≡ some (
        st',
        record { fd = 6; bytes = frame 0x21 (1 ∷ 2 ∷ 3 ∷ 4 ∷ 5 ∷ 6 ∷ 7 ∷ 8 ∷ 9 ∷ 10 ∷ []) } ∷ [],
      ))
recv_all-answer_example =
    recv_all-answer false 6 waiting [] pieces waiting-IsGathering (ground arith)

rader_cmd-frame_run :
    rader_cmd 5 ready (0 ∷ 1 ∷ (frame 7 short_command ++ (3 ∷ []))) 10
    ≡ some (obeyed 5 ready short_command)
rader_cmd-frame_run =
    rader_cmd-frame 5 ready 7 (0 ∷ 1 ∷ []) short_command (3 ∷ []) 8 (ground arith) (omega arith)
      (omega arith)

rader_cmd_damaged_example :
    rader_cmd 5 ready (layout 7 (b'T' ∷ []) (crc8 short_command ∷ 0xfe ∷ [])) 7
    ≡ some (ready, [], 0)
rader_cmd_damaged_example =
    rader_cmd_damaged 5 ready 7 [] [] b'S' b'T' [] [] 7 (ground arith) (ground arith) (ground arith)
      (omega arith) (omega arith) (omega arith) (omega arith) (omega arith)

crc8_detects_byte_example : crc8 (1 ∷ 2 ∷ 3 ∷ []) ≢ crc8 (1 ∷ 7 ∷ 3 ∷ [])
crc8_detects_byte_example =
    crc8_detects_byte (1 ∷ []) 2 7 (3 ∷ []) (ground arith) (ground arith) (omega arith)
      (omega arith) (omega arith)

crc8_residue_run : crc8 (1 ∷ 2 ∷ (crc8 (1 ∷ 2 ∷ []) ∷ [])) ≡ 0
crc8_residue_run = crc8_residue (1 ∷ 2 ∷ []) (ground arith)

rader_heart_lem_example :
    rader_heart true (0 ∷ 0 ∷ 0 ∷ 0 ∷ 0 ∷ 0 ∷ 0 ∷ 9 ∷ []) (b'S' ∷ 5 ∷ []) 1
    ≡ some (frame 0 short_command ++ (9 ∷ []), 7)
rader_heart_lem_example =
    rader_heart_lem true (0 ∷ 0 ∷ 0 ∷ 0 ∷ 0 ∷ 0 ∷ 0 ∷ 9 ∷ []) (b'S' ∷ 5 ∷ []) 1 (ground arith)
      (omega arith) (omega arith)

rader_heart_negative_run : rader_heart true (zeroed 200) (zeroed 200) 130 ≡ none
rader_heart_negative_run =
    rader_heart_negative (zeroed 200) (zeroed 200) 130 (inr (omega arith))
      (omega (arith, length-zeroed 200)) (omega (arith, length-zeroed 200))
      (omega (arith, length-zeroed 200))

obey_lem_run : obey 5 ready (b'S' ∷ 0xfe ∷ []) 1 ≡ some (obeyed 5 ready short_command)
obey_lem_run = obey_lem 5 ready short_command (0xfe ∷ [])

rader_cmd_overrun_run : rader_cmd 5 ready (1 ∷ 2 ∷ 3 ∷ []) 3 ≡ none
rader_cmd_overrun_run = rader_cmd_overrun 5 ready (1 ∷ 2 ∷ 3 ∷ []) (ground arith)

cls_run :
    rader_cmd_from_stdin 5 waiting (cls_text ++ 0 ∷ []) 3
    ≡ some (record waiting { cmd_flag = 0; dlen = 0 }, [])
cls_run = rader_cmd_from_stdin_cls 5 3 waiting [] (omega arith)

hex_53 : str_to_int (b'0' ∷ b'x' ∷ b'5' ∷ b'3' ∷ []) ≡ some (pos 0x53)
hex_53 = (str_to_int_lem (hexadecimal (5 ∷ 3 ∷ []) (ground arith)) (omega arith)).0

rader_cmd_from_stdin_hex_run :
    rader_cmd_from_stdin 5 ready (b'0' ∷ b'x' ∷ b'5' ∷ b'3' ∷ 0 ∷ []) 4
    ≡ some (
      record { fifo = RingBuffer.reset ready.fifo; cmd_flag = 0; dlen = 0 },
      record { fd = 5; bytes = 1 ∷ [] } ∷ [],
    )
rader_cmd_from_stdin_hex_run =
    rader_cmd_from_stdin_hex 5 4 ready (b'5' ∷ b'3' ∷ []) [] (pos 0x53) (omega arith) ready_idle
      (ground arith) hex_53 (ground arith)

rader_recv-IsSound_example :
    (out : Rader × List Write × ℕ) × (rader_recv true 6 waiting (1 ∷ 2 ∷ 3 ∷ []) 3 ≡ some out)
    × IsSound out.0
rader_recv-IsSound_example =
    rader_recv-IsSound true 6 waiting (1 ∷ 2 ∷ 3 ∷ []) 3
      ([], waiting-IsGathering.holds, inr waiting-IsGathering) (omega arith) (omega arith)

rader_cmd-carried_example :
    rader_cmd 5 ready (0 ∷ 0xfb ∷ 0 ∷ 1 ∷ 7 ∷ b'S' ∷ 0x1b ∷ 0xfe ∷ 9 ∷ 0 ∷ 0 ∷ 0 ∷ []) 9
    ≡ some (reaction 5 ready (carried (0 ∷ 0xfb ∷ 0 ∷ 1 ∷ 7 ∷ b'S' ∷ 0x1b ∷ 0xfe ∷ 9 ∷ [])))
rader_cmd-carried_example =
    rader_cmd-carried 5 ready (0 ∷ 0xfb ∷ 0 ∷ 1 ∷ 7 ∷ b'S' ∷ 0x1b ∷ 0xfe ∷ 9 ∷ []) [] (ground arith)

carried_run : carried (0 ∷ (frame 7 short_command ++ 9 ∷ [])) ≡ some short_command
unfolding crc8 crc_from crc_byte
carried_run = refl
