-- ===== src/Service/Main/Tests.antt =====
-- Runs of `main`.
use psuart.Prelude.{
  ℕ, ◌-◌, ◌≡◌, ◌<◌, refl, arith, List, [], ◌∷◌, some, none, true, false, inr, length, get_or,
  replicate,
}
use psuart.Prelude.Int.{pos}
use psuart.Utils.Serial.{codes, com_open, configure, keep_or_close, com_set_parity, com_settings}
use psuart.Utils.Number.{str_to_int}
use psuart.Utils.Address.{get_ip_addr, parse_ip_addr}
use psuart.Utils.Text.{utils_strincmp, extract_file_path}
use psuart.Utils.Split.{cut_at, split_arguments}
use psuart.Utils.CommandLine.{name_and_value, skip_switch, equal_text, get_cmd_param_value}
use psuart.Rader.State.{zeroed, length-zeroed}
use psuart.Service.{Service}
use psuart.Service.Config.{
  Numbers, psuservice_def, handler, handle_all, field, read_numbers, default_config, save_config,
}
use psuart.Ini.Profile.{look_up, new_text, write_profile_string}
use psuart.Service.Bridge.{run}
use psuart.Service.Bridge.Relation.{Implements}
use psuart.Service.Bridge.Start.{idle_bridge, AreOpened}
use psuart.Service.Bridge.Tests.{first, session, ends, first_session-AreOrderly}
use psuart.Service.Main.{configured, World, looped, config_name, param_into, copied_values, main}
use psuart.Service.Main.Defaults.{with_defaults, main_defaults}
use psuart.Service.Main.Argument.{typed_log, with_log, main_log_argument}
use psuart.Service.Main.Serves.{main_serves}

-- a configuration file with a log file and an address
abbrev lines : List (List ℕ × List ℕ × List ℕ)
lines =
    (codes "log", codes "file", codes "/tmp/log/abc.log")
    ∷ (codes "network", codes "ipaddr", codes "7.0.0.1:8")
    ∷ []

abbrev world : World
world = record {
  atoi = λ text. get_or text 0 b'0' - b'0';
  ini_parse = λ fn. some lines;
  file = λ fn. none;
  writable = λ fn. true;
  default_log_file = codes "/tmp/log/psuart.log";
  fork = 0;
  signed = true;
  rader_buf = zeroed 8192;
  turns = first ∷ session;
}

abbrev numbers : Numbers
numbers = record {
  flag = pos 0;
  min_level = 0;
  max_level = 0;
  select_timeout = pos 0;
  udpport = 5000;
  net_ip = 0x01000007;
  net_port = 8;
}

numbers_read :
    read_numbers world.atoi (handle_all lines (psuservice_def world.default_log_file))
    ≡ some numbers
unfolding read_numbers field handler parse_ip_addr cut_at str_to_int get_ip_addr utils_strincmp
    split_arguments
numbers_read = refl

directory_fits : length (extract_file_path (codes "/tmp/log/abc.log")) < 128
unfolding extract_file_path
directory_fits = omega arith

port_opens :
    AreOpened first
      (configured (handle_all lines (psuservice_def world.default_log_file)) numbers)
      3
      5
unfolding com_open configure keep_or_close com_set_parity com_settings field handler
port_opens = record { port = refl; port_kept = refl; made = refl; binds = refl }

main_serves_example :
    (st' : Service) × (main world (codes "-d" ∷ [])
      ≡ some (
        codes "/etc/psu" ∷ extract_file_path (codes "/tmp/log/abc.log") ∷ [],
        looped st' (run 3 5 (first ∷ session) idle_bridge).1 false,
      ))
    × Implements 3 5 (run 3 5 (first ∷ session) idle_bridge).0 st'
main_serves_example =
    main_serves 3 5 world (codes "-d" ∷ []) lines numbers (codes "/tmp/log/abc.log") first session
      (inr (refl, refl)) refl numbers_read refl directory_fits refl ends first_session-AreOrderly
      port_opens (length-zeroed 8192)

-- the name that the argument gives is shorter than the configured one
main_log_argument_example :
    main world (typed_log (codes "/var/log/b.log") ∷ [])
    ≡ main (with_log world (codes "/var/log/b.log")) []
main_log_argument_example =
    main_log_argument world (codes "/var/log/b.log") (codes "/tmp/log/abc.log") lines (ground arith)
      refl refl (omega arith) (omega arith)

-- a configuration file that is not there and cannot be made
abbrev no_file : World
no_file = record world { ini_parse = λ fn. none; writable = λ fn. false }

defaults_kept :
    save_config false (default_config (psuservice_def world.default_log_file)) none ≡ some none
unfolding save_config default_config write_profile_string look_up new_text
defaults_kept = refl

given_config : config_name (codes "-config:c" ∷ []) ≡ some (codes "c")
unfolding config_name param_into copied_values name_and_value skip_switch equal_text
    get_cmd_param_value
given_config = refl

main_defaults_example :
    main no_file (codes "-config:c" ∷ []) ≡ main (with_defaults no_file) (codes "-config:c" ∷ [])
main_defaults_example =
    main_defaults no_file (codes "-config:c" ∷ []) (codes "c") given_config refl defaults_kept

-- an argument behind the one that is looked for is not read
later_name :
    param_into 128 (codes "-log:a" ∷ replicate 100 b'x' ∷ []) (codes "log") ≡ some (codes "a", true)
unfolding param_into copied_values name_and_value skip_switch equal_text get_cmd_param_value
later_name = refl

-- the same in front of it does not fit its name's array
earlier_name : param_into 128 (replicate 100 b'x' ∷ codes "-log:a" ∷ []) (codes "log") ≡ none
unfolding param_into copied_values name_and_value skip_switch
earlier_name = refl
