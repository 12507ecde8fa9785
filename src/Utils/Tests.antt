-- ===== src/Utils/Tests.antt =====
-- Runs of the functions of src/utils.c.
use psuart.Prelude.{
  get_or, ◌+◌, ◌-◌, ◌*◌, ◌/◌, ◌%◌, ◌<◌, ltb, if◌then◌else◌, Bool-cases, inl, inr, ℕ, ◌≡◌, ◌⊎◌, refl,
  arith, List, [], ◌∷◌, ◌++◌, some, none, true, false, ◌&&◌,
}
use psuart.Prelude.Int.{pos, negsuc}
use psuart.Utils.Hex.{hex_encode, hex_decode, hex_decode_get_required_length}
use psuart.Utils.Hex.Laws.{hex_encode_lem, hex_decode-encode, hex_decode_odd}
use psuart.Utils.Ip.{
  is_public_ip, is_multicast_ip, is_private_ip, is_valid_ip, address, ip_classes, ip_edges,
}
use psuart.Utils.Number.{str_to_int, max_value}
use psuart.Utils.Number.Parse.{hexadecimal, str_to_int_lem, str_to_int_capital}
use psuart.Utils.Number.Extreme.{AllBelow, OneIs, max_value_lem}
use psuart.Utils.Address.{get_ip_addr, parse_ip_addr, parse_ip_addr-join}
use psuart.Utils.Address.Print.{ip2str, IsSpelt, get_ip_addr-ip2str}
use psuart.Utils.Descriptor.{Line, wait_time, after_select, com_recive}
use psuart.Utils.Serial.{codes, Termios, Tty, com_settings, com_open}
use psuart.Utils.Serial.Open.{settings_of, com_settings-join, IsLeft, com_open_lem}
use psuart.Utils.Text.{utils_strincmp, trim, extract_file_path, extract_file_name, add_prefix}
use psuart.Utils.Text.Compare.{Agrees, utils_strincmp_lem}
use psuart.Utils.Text.Trim.{trim_lem}
use psuart.Utils.Text.Cut.{file_path_name}
use psuart.Utils.Split.{split_arguments, split_string_key_value, remove_prefix}
use psuart.Utils.Split.Arguments.{split_arguments-join}
use psuart.Utils.Split.KeyValue.{split_string_key_value_lem}
use psuart.Utils.Split.Prefix.{remove_prefix-add_prefix, remove_prefix_short}
use psuart.Utils.CommandLine.{parse_cmd_param_value, get_cmd_param_value}
use psuart.Utils.CommandLine.Switch.{parse_cmd_param_value_lem, get_cmd_param_value_lem, typed}

-- "COM" and "tty"
abbrev port : List ℕ
port = b'C' ∷ b'O' ∷ b'M' ∷ []

abbrev tty : List ℕ
tty = b't' ∷ b't' ∷ b'y' ∷ []

hex_encode_lem_run : hex_encode (0x4f ∷ 0x20 ∷ []) 1 3 ≡ some (some (b'4' ∷ b'F' ∷ []))
hex_encode_lem_run = hex_encode_lem (0x4f ∷ []) (0x20 ∷ []) 3 (ground arith)

hex_decode-encode_example : hex_decode (b'4' ∷ b'F' ∷ b'!' ∷ []) 2 1 ≡ some (some (0x4f ∷ []))
hex_decode-encode_example =
    hex_decode-encode (0x4f ∷ []) [] (b'!' ∷ []) 3 1 (ground arith)
      (hex_encode_lem (0x4f ∷ []) [] 3 (ground arith)) (omega arith)

hex_decode_odd_run :
    (hex_decode_get_required_length 1 ≡ 0)
    × (hex_decode (b'4' ∷ b'F' ∷ []) 1 0 ≡ some (some (0x4f ∷ [])))
hex_decode_odd_run = hex_decode_odd (0x4f ∷ []) [] 0 (ground arith) (omega arith) (omega arith)

ip_classes_run :
    ((is_public_ip 0x0100000a && is_multicast_ip 0x0100000a) ≡ false)
    × (is_private_ip 0x0100000a ≡ true → is_valid_ip 0x0100000a ≡ true)
    × (is_valid_ip 0x0100000a ≡ true
        → (is_private_ip 0x0100000a ≡ true) ⊎ (is_public_ip 0x0100000a ≡ true))
ip_classes_run = ip_classes 0x0100000a

address_edges :
    (is_private_ip (address 172 32 0 1) ≡ true)
    × (is_public_ip (address 172 32 0 1) ≡ false)
    × (is_multicast_ip (address 240 0 0 1) ≡ true)
address_edges = ip_edges 0 1 (omega arith) (omega arith)

str_to_int_lem_example :
    (str_to_int (b'0' ∷ b'x' ∷ b'1' ∷ b'f' ∷ []) ≡ some (pos 31))
    × (str_to_int (b'-' ∷ b'0' ∷ b'x' ∷ b'1' ∷ b'f' ∷ []) ≡ some (negsuc 30))
str_to_int_lem_example = str_to_int_lem (hexadecimal (1 ∷ 15 ∷ []) (ground arith)) (omega arith)

str_to_int_capital_run : str_to_int (b'0' ∷ b'x' ∷ b'B' ∷ b'1' ∷ []) ≡ some (pos 689)
str_to_int_capital_run = str_to_int_capital 1 (1 ∷ []) (omega arith) (ground arith) (omega arith)

max_value_lem_run :
    AllBelow (max_value 2 (pos 7 ∷ negsuc 0 ∷ [])) (pos 2 ∷ pos 7 ∷ negsuc 0 ∷ [])
    × OneIs (max_value 2 (pos 7 ∷ negsuc 0 ∷ [])) (pos 2 ∷ pos 7 ∷ negsuc 0 ∷ [])
max_value_lem_run = max_value_lem 2 (pos 7 ∷ negsuc 0 ∷ [])

utils_strincmp_lem_run : Agrees (utils_strincmp port tty 0) false
utils_strincmp_lem_run = utils_strincmp_lem port tty (ground arith) (ground arith)

trim_lem_run : trim (b' ' ∷ b'a' ∷ b' ' ∷ b'b' ∷ b'\n' ∷ []) ≡ some (b'a' ∷ b' ' ∷ b'b' ∷ [])
trim_lem_run =
    trim_lem (b' ' ∷ []) (b'a' ∷ b' ' ∷ b'b' ∷ []) (b'\n' ∷ []) (ground arith) (ground arith)
      (omega arith) refl refl

file_path_name_run :
    (extract_file_path (b'/' ∷ tty) ≡ b'/' ∷ [])
    × (extract_file_name (b'/' ∷ tty) ≡ tty)
    × (extract_file_path tty ≡ tty)
    × (extract_file_name tty ≡ tty)
file_path_name_run = file_path_name [] tty (ground arith)

split_arguments-join_example :
    split_arguments b'.' 4 (b'C' ∷ b'O' ∷ b'M' ∷ b'.' ∷ tty) ≡ port ∷ tty ∷ []
split_arguments-join_example =
    split_arguments-join b'.' 4 (port ∷ tty ∷ []) (ground arith) (omega arith)

split_string_key_value_lem_run :
    (split_string_key_value (b't' ∷ b't' ∷ b'y' ∷ b'=' ∷ port) ≡ (tty, port))
    × (split_string_key_value tty ≡ (tty, []))
    × (split_string_key_value (tty ++ b'=' ∷ []) ≡ (tty ++ b'=' ∷ [], []))
split_string_key_value_lem_run =
    split_string_key_value_lem tty (b'O' ∷ b'M' ∷ []) b'=' b'C' (ground arith) refl

remove_prefix-add_prefix_run : remove_prefix (add_prefix port tty) tty ≡ some (port, true)
remove_prefix-add_prefix_run =
    remove_prefix-add_prefix port tty (ground arith) (ground arith) (omega arith)

remove_prefix_short_run : remove_prefix (b't' ∷ []) tty ≡ none
remove_prefix_short_run =
    remove_prefix_short (b't' ∷ []) (b't' ∷ b'y' ∷ []) (ground arith) (ground arith) (ground arith)
      (omega arith)

parse_cmd_param_value_lem_run :
    parse_cmd_param_value (b'-' ∷ b't' ∷ b't' ∷ b'y' ∷ b':' ∷ port) tty ≡ some (port, true)
parse_cmd_param_value_lem_run =
    parse_cmd_param_value_lem (b'-' ∷ []) tty port tty (ground arith) (ground arith) (ground arith)

get_cmd_param_value_lem_example :
    get_cmd_param_value (typed ((port, []) ∷ []) ((b'-' ∷ (tty ++ b':' ∷ port)) ∷ [])) tty
    ≡ some (port, true)
get_cmd_param_value_lem_example =
    get_cmd_param_value_lem ((port, []) ∷ []) tty port tty [] (ground arith) (ground arith)
      (ground arith) refl

-- "/dev/ttyS0" at 9600
abbrev port_fields : List (List ℕ)
port_fields = codes "/dev/ttyS0" ∷ codes "9600" ∷ []

com_settings-join_example :
    (com_settings (some (codes "/dev/ttyS0,9600")) ≡ settings_of port_fields)
    × (com_settings none ≡ settings_of [])
com_settings-join_example = com_settings-join port_fields (ground arith) (omega arith)

-- a port whose attributes can be read and set, and that has seven data bits
abbrev plain : Termios
plain = record { c_cflag = 0; c_iflag = 0; c_lflag = 0; c_oflag = 0; vtime = 0; vmin = 0 }

abbrev seven_bits : Tty
seven_bits = record {
  masks = record {
    csize = 0x30;
    cs7 = 0x20;
    cs8 = 0x30;
    parenb = 0x100;
    parodd = 0x200;
    inpck = 0x10;
    cstopb = 0x40;
    icanon = 2;
    echo = 8;
    echoe = 0x10;
    isig = 1;
    iexten = 0x8000;
    brkint = 2;
    icrnl = 0x100;
    istrip = 0x20;
    ixon = 0x400;
    opost = 1;
  };
  atoi = λ text. 7;
  open_path = λ path. 3;
  get_attr = some plain;
  set_attr = true;
}

com_open_lem_example : IsLeft 3 false (com_open seven_bits none)
com_open_lem_example = com_open_lem seven_bits none plain refl refl

-- "7.0.0.1:8", with an `atoi` that gives the first character
parse_ip_addr-join_example :
    (parse_ip_addr (λ text. get_or text 0 0 - b'0') (some (codes "7.0.0.1:8"))
      ≡ some (address 7 0 0 1, 8))
    × (parse_ip_addr (λ text. get_or text 0 0 - b'0') (some (codes "7.0.0.1"))
        ≡ some (address 7 0 0 1, 0))
unfolding str_to_int
parse_ip_addr-join_example =
    parse_ip_addr-join (λ text. get_or text 0 0 - b'0') b'7' [] (codes "0") (codes "0") (codes "1")
      (codes "8") (pos 8) (ground arith) refl (ground arith) (omega arith) refl

-- decimal digits of a number below 1000, and their value
abbrev decimal : ℕ → List ℕ
decimal n =
    if ltb n 10
    then (n + b'0') ∷ []
    else if ltb n 100
    then (n / 10 + b'0') ∷ (n % 10 + b'0') ∷ []
    else (n / 100 + b'0') ∷ (n / 10 % 10 + b'0') ∷ (n % 10 + b'0') ∷ []

abbrev horner : ℕ → List ℕ → ℕ
horner acc [] = acc
horner acc (c ∷ cs) = horner (acc * 10 + (c - b'0')) cs

decimal-IsSpelt : (n : ℕ) → n < 256 → IsSpelt (horner 0) n (decimal n)
decimal-IsSpelt n byte = elim (Bool-cases (ltb n 10)) [
  | inl one ↦ rw one (record {
    no_dot = ground arith;
    not_empty = omega arith;
    short = omega arith;
    no_star = ground arith;
    read = omega arith;
  })
  | inr more ↦ elim (Bool-cases (ltb n 100)) [
    | inl two ↦
        rw (more, two)
          (record {
            no_dot = ground arith;
            not_empty = omega arith;
            short = omega arith;
            no_star = ground arith;
            read = omega arith;
          })
    | inr three ↦
        rw (more, three)
          (record {
            no_dot = ground arith;
            not_empty = omega arith;
            short = omega arith;
            no_star = ground arith;
            read = omega arith;
          })
  ]
]

get_ip_addr-ip2str_example : get_ip_addr (horner 0) (ip2str decimal 0x64010a7f) ≡ 0x64010a7f
get_ip_addr-ip2str_example =
    get_ip_addr-ip2str decimal (horner 0) 0x64010a7f decimal-IsSpelt (omega arith)

printed : ip2str decimal 0x64010a7f ≡ codes "127.10.1.100"
unfolding ip2str
printed = refl

-- a line on which three bytes have come
abbrev three_bytes : Line
three_bytes = record {
  select = λ wait. (1, true);
  read = λ size. if ltb 2 size then some (1 ∷ 2 ∷ 3 ∷ []) else none;
}

three_received :
    com_recive three_bytes 3 64 100
    ≡ some (record { ret = 3; bytes = 1 ∷ 2 ∷ 3 ∷ []; flushed = false })
unfolding com_recive after_select wait_time
three_received = refl
