-- ===== src/Ini/Tests.antt =====
-- Runs of the profile functions.
use psuart.Prelude.{ℕ, ◌≡◌, refl, arith, List, [], ◌∷◌, ◌++◌, some, none, true, replicate}
use psuart.Utils.Serial.{codes}
use psuart.Ini.{
  parse_file, parse_loop, parse_round, read_header, skip_to_body, find_key, line_round, on_line,
  on_header, on_search, scan_from, scan, line_name, at_header, at_section_end, Parsed,
}
use psuart.Ini.Profile.{
  format_step, format_loop, format_int, look_up, read_profile_string, write_profile_string,
  section_entry,
}
use psuart.Ini.Ends.{look_up_ends}
use psuart.Ini.Found.{other, header}
use psuart.Ini.Place.{KeyPlace, IsPlace, text_with}
use psuart.Ini.RoundTrip.{write_read}
use psuart.Ini.Fresh.{write_read_fresh}
use psuart.Ini.Layout.{IsName}
use psuart.Ini.Added.{write_read_added}
use psuart.Ini.Entry.{SectionPlace, HasSection}
use psuart.Ini.Unset.{write_read_unset}

abbrev uart : List ℕ
uart = codes "uart"

abbrev port : List ℕ
port = codes "port"

port-IsName : IsName port port
port-IsName = record {
  first = b'p';
  others = codes "ort";
  made_of = refl;
  no_comment = refl;
  no_equals = ground arith;
  same = refl;
}

-- a file with another section, a comment and another key in front of the key
abbrev sample : KeyPlace
sample = record {
  pieces =
      header (codes "main") ∷ other b'\n' ∷ other b'v' ∷ other b'=' ∷ other b'1' ∷ other b'\n' ∷ [];
  named = uart;
  spaces = b'\n' ∷ [];
  lines = (codes ";port", b'\n') ∷ (codes "speed=9", b'\n') ∷ [];
  name = port;
  after = b'\n' ∷ (codes "[log]");
}

sample_text :
    text_with sample (codes "tty") ≡ codes "[main]\nv=1\n[uart]\n;port\nspeed=9\nport=tty\n[log]"
sample_text = refl

sample_search :
    parse_file uart port (text_with sample (codes "tty") ++ 0 ∷ 0 ∷ [])
    ≡ some (record { section = some (12, 18); key = some (32, 35, 37, 40) })
unfolding parse_file parse_loop parse_round read_header skip_to_body find_key line_round on_line
    on_header on_search scan_from scan line_name at_header at_section_end
sample_search = refl

sample-IsPlace : IsPlace uart port sample
unfolding at_header at_section_end line_name
sample-IsPlace = record {
  skipped = (refl, ground arith, refl, ground arith);
  starts = refl;
  named_plain = ground arith;
  same = refl;
  space = ground arith;
  others = ground arith;
  solid = refl;
  key_named = port-IsName;
  key_starts = refl;
  key_plain = ground arith;
}

write_read_example :
    (write_profile_string uart port
        (some (codes "COM1"))
        (some (text_with sample (codes "tty")))
        true
      ≡ some (some (text_with sample (codes "COM1")), 1))
    × (read_profile_string uart port 4 none (some (text_with sample (codes "COM1")))
        ≡ some (some (codes "COM"), 1))
write_read_example =
    write_read sample (codes "tty") (codes "COM1") 4 none sample-IsPlace (ground arith)
      (ground arith) refl (ground arith) (ground arith) (omega arith) (omega arith) (omega arith)
      (omega arith) (omega arith)

write_read_fresh_example :
    (write_profile_string uart port (some (codes "tty")) none true
      ≡ some (some (section_entry uart port (codes "tty")), 1))
    × (read_profile_string uart port 32 none (some (section_entry uart port (codes "tty")))
        ≡ some (some (codes "tty"), 1))
unfolding at_section_end
write_read_fresh_example =
    write_read_fresh uart port (codes "tty") 32 none (ground arith) port-IsName refl refl
      (ground arith) (ground arith) (ground arith) (omega arith) (omega arith) (omega arith)
      (omega arith)

look_up_ends_example :
    (parsed : Parsed) × (look_up uart port (some (codes "[uart]"))
      ≡ some (codes "[uart]" ++ replicate 16378 0, 6, parsed))
look_up_ends_example = look_up_ends uart port (codes "[uart]") (omega arith)

write_read_added_example :
    (write_profile_string uart port (some (codes "tty")) (some (codes "[main]\nv=1")) true
      ≡ some (some (codes "[main]\nv=1\n[uart]\nport=tty\n"), 1))
    × (read_profile_string uart port 32 none (some (codes "[main]\nv=1\n[uart]\nport=tty\n"))
        ≡ some (some (codes "tty"), 1))
unfolding at_header at_section_end
write_read_added_example =
    write_read_added uart port (codes "tty")
      (header (codes "main") ∷ other b'\n' ∷ other b'v' ∷ other b'=' ∷ other b'1' ∷ []) 32 none
      (refl, ground arith, refl, ground arith) (omega arith) (ground arith) (ground arith)
      port-IsName refl refl (ground arith) (ground arith) (ground arith) (omega arith) (omega arith)
      (omega arith) (omega arith)

-- a section with another key, between two others
abbrev no_port : SectionPlace
no_port = record {
  pieces = header (codes "main") ∷ other b'\n' ∷ [];
  named = uart;
  spaces = b'\n' ∷ [];
  lines = (codes "speed=9", b'\n') ∷ [];
  later = header (codes "log") ∷ other b'\n' ∷ [];
}

no_port-HasSection : HasSection uart port no_port
unfolding at_header at_section_end line_name
no_port-HasSection = record {
  skipped = (refl, ground arith, refl, ground arith);
  starts = refl;
  named_plain = ground arith;
  same = refl;
  space = ground arith;
  solid = refl;
  others = ground arith;
  ends = refl;
  skipped_later = (refl, ground arith, refl, ground arith);
}

write_read_unset_example :
    (write_profile_string uart port
        (some (codes "tty"))
        (some (codes "[main]\n[uart]\nspeed=9\n[log]\n"))
        true
      ≡ some (some (codes "[main]\n[uart]\nport=tty\nspeed=9\n[log]\n"), 1))
    × (read_profile_string uart port 32 none
          (some (codes "[main]\n[uart]\nport=tty\nspeed=9\n[log]\n"))
        ≡ some (some (codes "tty"), 1))
unfolding at_section_end
write_read_unset_example =
    write_read_unset uart port (codes "tty") no_port 32 none no_port-HasSection refl (ground arith)
      port-IsName refl refl (ground arith) (ground arith) (ground arith) (omega arith) (omega arith)
      (omega arith) (omega arith)

-- the rest of a file as a format
format_int_run :
    (format_int (codes "a=5%%, %d\n") 12 ≡ some (codes "a=5%, 12\n"))
    × (format_int (codes "a=%s") 12 ≡ none)
unfolding format_int format_loop format_step
format_int_run = (refl, refl)
