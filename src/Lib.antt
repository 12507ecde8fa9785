-- ===== src/Lib.antt =====
-- The psuart serial bridge: a service that takes commands for a radar from the network, passes them
-- to the radar's serial port, gathers the answer and sends it back in one packet. This library models
-- the parts that compute; each file names its source by the path from the repository's root.
--
-- Parts and files:
--   RingBuffer and the files below it: src/ringBuffer.c with inc/ringBuffer.h, a fifo of bytes in a
--     fixed array. `ringbuffer_in` is `in_bytes`, `ringbuffer_out` is `out_bytes`, the others keep
--     their names without the prefix. RingBuffer/Queue is what a client relies on.
--   Rader and the files below it: src/rader.c with inc/rader.h. Rader/Crc is `crc8`, Rader/Packet the
--     ERUP_* macros and `rader_heart`, Rader/State the file's static variables and the table of
--     commands, Rader/Recv `rader_recv`, Rader/Command `rader_cmd`, Rader/Stdin
--     `rader_cmd_from_stdin`. The record `Rader` is threaded through them; a call of `write` is an
--     element of the list of writes that a function returns.
--   Log and the files below it: the lock, levels and modules of src/xLogMessage.c, and which messages
--     `LogMessage` passes to its callback. Log/Report is the text of messages, errors and warnings.
--   Utils and the files below it: src/utils.c. Hex, Number, Text, Split, Ip, Address
--     and CommandLine hold its functions on hexadecimal text, numbers, strings and file names, strings
--     that are taken apart, addresses, and the program's arguments. Serial is `com_open` and what it
--     calls; Descriptor is `com_recive`, `com_write` and the two functions that change a descriptor's flags;
--     Address/Print is `IP2Str` of src/psuservice.c.
--   Ini and the files below it: the profile functions of src/ini.c, with their names. A pointer into the
--     array is a `Cursor`; the two loops of `parse_file` are `find_key` and `parse_loop`, of which a
--     round is `line_round` and `parse_round`.
--   Service and the files below it: src/psuservice.c. Service/Config is `LoadPsuConfig` and
--     the rows of inc/psuservice.def, Service/Socket opens and closes the three descriptors,
--     Service/Turn is `WaitMessageAndHandle`, Service/Loop the loop of `main` and `signal_func`,
--     Service/Dump is `dump_buffer`, Service/Logging says where messages go, and Service/Main is `main`
--     from its arguments to the loop, with Main/Argument on its argument `-log:` and Main/Defaults on a
--     configuration file that cannot be loaded. Service/Bridge is the specification of the loop: a machine that knows
--     the connection and the answer that is awaited; Bridge/Relation says which state of the service
--     stands for which of the machine, and Rader/Command/Decode is its reading of packets.
--     What the system answers in a turn is a record, `Answers`; a call of `write` or `close` is an element of the list of effects that a turn returns.
--   Prelude and the files below it: lists over native numbers, memory, machine words and bits.
--
-- How the parts meet: `rader_cmd` notes the command, empties the fifo and sets the number of bytes to
-- wait for; `rader_recv` puts what the radar sends in the fifo and empties it into a packet. Both use
-- `crc8`. A turn of the service calls them with what it has read, and opens what is not open before.
-- `rader_cmd_from_stdin` shares the state with them and reads numbers by `StrToInt`. The service reads
-- its configuration by inih, and writes its defaults by the functions of Ini.
--
-- Conventions: memory is a list of bytes, and an access outside it is `none`, as is an overflow of
-- `int` and a wait that does not end. Unsigned numbers have their wrap-around written out. A C string
-- is the list of its bytes without the terminating zero, and a destination has the room that its
-- caller must give. Whether a plain `char` is signed is a parameter of the packet macros. Loops
-- follow the structure of a list or a number, but for those of `parse_file` and `dump_buffer`. The fuel
-- of the two loops of `parse_file` is the size of the array and one more, that of `dump_buffer` the
-- number of bytes; each round takes at least one byte.
--
-- Not modelled: the copy of inih in src/ini.c, whose calls of `handler` are a parameter; formats and what
-- they print, but for `%%`, `%d` and `%i` where a file's text is a format; the network interface, pipes and clock, which only call the system; other text printed to
-- the console.
pub mod Ini
pub mod Log
pub mod Prelude
pub mod Rader
pub mod RingBuffer
pub mod Service
pub mod Utils
