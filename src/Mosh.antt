-- ===== src/Mosh.antt =====
-- The start of a Mosh session over SSH, the `mosh_` helpers of leantty_ssh/src/lib.rs: what is read from
-- the settings, the command that the server's shell gets, and what is read from its output.
pub mod ServerPath
pub mod Command
pub mod Address
mod Tests
use leantty.Prelude.{
  ℕ, suc, ◌+◌, ◌*◌, ◌-◌, Bool, true, false, not, ◌&&◌, ◌||◌, List, [], ◌∷◌, ◌++◌, Option, none,
  some, ltb, leb, ◌==◌, if◌then◌else◌, any, all, is_empty, drop, length, get_elem?, Text, codes,
  text_eq, str_len, starts_with, split, split_inclusive, strip_suffix, is_ascii_alphanumeric,
  Result, ok, err,
}
use leantty.Prelude.Decimal.{to_string}

abbrev pub mosh_bootstrap_command_prefix : Text
mosh_bootstrap_command_prefix =
    codes
      "sh -c '[ -n \"$SSH_CONNECTION\" ] && printf \"\\nMOSH SSH_CONNECTION %s\\n\" \"$SSH_CONNECTION\"; exec "

abbrev pub mosh_default_server : Text
mosh_default_server = codes "mosh-server"

abbrev pub mosh_server_arguments : Text
mosh_server_arguments = codes " new -s -c 256"

abbrev pub mosh_bootstrap_max_bytes : ℕ
mosh_bootstrap_max_bytes = 4096

abbrev pub mosh_server_path_max_bytes : ℕ
mosh_server_path_max_bytes = 1024

pub record MoshUdpPortRange : Type 0 where
  pub start : ℕ  -- u16
  pub end : ℕ  -- u16

unfoldable pub argument : MoshUdpPortRange → Text
argument r =
    if r.start == r.end then to_string r.start else to_string r.start ++ (b':' ∷ to_string r.end)

unfoldable pub contains_port : MoshUdpPortRange → ℕ → Bool
contains_port r port = leb r.start port && leb port r.end

unfoldable pub mosh_udp_port_range : ℕ → ℕ → Result (Option MoshUdpPortRange) Text
mosh_udp_port_range start end =
    if start == 0 && end == 0
    then ok none
    else if start == 0 || end == 0 || ltb 65535 start || ltb 65535 end
    then err (codes "Mosh UDP port bounds must both be zero or between 1 and 65535")
    else if ltb end start
    then err (codes "Mosh UDP port range start must not exceed its end")
    else ok (some (record { start = start; end = end }))

pub data MoshPredictionMode : Type 0 where
  adaptive always never : MoshPredictionMode

unfoldable pub mosh_prediction_mode : Text → Result MoshPredictionMode Text
mosh_prediction_mode value =
    if text_eq value (codes "adaptive")
    then ok adaptive
    else if text_eq value (codes "always")
    then ok always
    else if text_eq value (codes "never")
    then ok never
    else err (codes "Mosh prediction mode must be adaptive, always or never")

abbrev pub is_path_byte : ℕ → Bool
is_path_byte c = is_ascii_alphanumeric c || c == b'.' || c == b'_' || c == b'+' || c == b'-'

-- The segments that `mosh_server_path` refuses.
unfoldable pub is_bad_segment : Text → Bool
is_bad_segment segment =
    is_empty segment
    || text_eq segment (codes ".")
    || text_eq segment (codes "..")
    || not (all is_path_byte segment)

-- `str::ends_with` of one character.
abbrev pub ends_with_char : ℕ → Text → Bool
ends_with_char x [] = false
ends_with_char x (c ∷ []) = c == x
ends_with_char x (c ∷ d ∷ cs) = ends_with_char x (d ∷ cs)

unfoldable pub mosh_server_path : Text → Result (Option Text) Text
mosh_server_path value =
    if is_empty value
    then ok none
    else if ltb mosh_server_path_max_bytes (str_len value)
        || not (starts_with value (codes "/"))
        || ends_with_char b'/' value
    then err (codes "Mosh server path must be an absolute POSIX path of at most 1024 bytes")
    else if any is_bad_segment (drop 1 (split b'/' value))
    then err (codes "Mosh server path contains an empty, relative or unsupported path segment")
    else ok (some value)

abbrev pub unwrap_or {ℓ} : {A : Type ℓ} → Option A → A → A
unwrap_or none d = d
unwrap_or (some a) d = a

abbrev pub port_option : Option MoshUdpPortRange → Text
port_option none = []
port_option (some r) = codes " -p " ++ argument r

unfoldable pub mosh_bootstrap_command : Option Text → Option MoshUdpPortRange → Text
mosh_bootstrap_command server_path port_range =
    (mosh_bootstrap_command_prefix
      ++ (unwrap_or server_path mosh_default_server ++ mosh_server_arguments))
    ++ (port_option port_range ++ b'\'' ∷ [])

unfoldable pub append_mosh_bootstrap_output : List ℕ → List ℕ → Result (List ℕ) Text
append_mosh_bootstrap_output output chunk =
    if ltb mosh_bootstrap_max_bytes (length output + length chunk)
    then err (codes "mosh-server bootstrap output exceeded 4 KiB")
    else ok (output ++ chunk)

unfoldable pub mosh_bootstrap_exit_error : ℕ → Option Text
mosh_bootstrap_exit_error exit_status =
    if exit_status == 0
    then none
    else if exit_status == 126
    then some (codes "configured mosh-server path is not executable")
    else if exit_status == 127
    then some (codes "configured mosh-server path does not exist")
    else some (codes "mosh-server exited before creating a Session")

abbrev refuses_port : Option MoshUdpPortRange → ℕ → Bool
refuses_port none port = false
refuses_port (some requested) port = not (contains_port requested port)

unfoldable pub validate_mosh_server_port : ℕ → Option MoshUdpPortRange → Result (Unit {0}) Text
validate_mosh_server_port server_port port_range =
    if refuses_port port_range server_port
    then err (codes "mosh-server returned a UDP port outside the requested range")
    else ok tt

-- `str::from_utf8` succeeds: the ranges in which the next bytes of the current character must lie.
utf8_tail : ℕ → List (ℕ × ℕ)
utf8_tail b =
    if leb 0xc2 b && leb b 0xdf
    then (0x80, 0xbf) ∷ []
    else if b == 0xe0
    then (0xa0, 0xbf) ∷ (0x80, 0xbf) ∷ []
    else if b == 0xed
    then (0x80, 0x9f) ∷ (0x80, 0xbf) ∷ []
    else if leb 0xe1 b && leb b 0xef
    then (0x80, 0xbf) ∷ (0x80, 0xbf) ∷ []
    else if b == 0xf0
    then (0x90, 0xbf) ∷ (0x80, 0xbf) ∷ (0x80, 0xbf) ∷ []
    else if b == 0xf4
    then (0x80, 0x8f) ∷ (0x80, 0xbf) ∷ (0x80, 0xbf) ∷ []
    else (0x80, 0xbf) ∷ (0x80, 0xbf) ∷ (0x80, 0xbf) ∷ []

unfoldable pub is_utf8 : List (ℕ × ℕ) → List ℕ → Bool
unfolding utf8_tail
is_utf8 [] [] = true
is_utf8 (r ∷ rs) [] = false
is_utf8 ((lo, hi) ∷ rs) (b ∷ bs) = leb lo b && leb b hi && is_utf8 rs bs
is_utf8 [] (b ∷ bs) =
    (ltb b 0x80 || leb 0xc2 b && leb b 0xf4) && is_utf8 (if ltb b 0x80 then [] else utf8_tail b) bs

-- One decimal number of `Ipv4Addr::from_str`: one to three digits, no leading zero, at most 255.
abbrev is_digit : ℕ → Bool
is_digit c = leb b'0' c && leb c b'9'

unfoldable pub parse_octet : Text → Option ℕ
parse_octet (a ∷ []) = if is_digit a then some (a - 48) else none
parse_octet (a ∷ b ∷ []) =
    if is_digit a && is_digit b && not (a == b'0') then some ((a - 48) * 10 + (b - 48)) else none
parse_octet (a ∷ b ∷ c ∷ []) =
    let n = ((a - 48) * 10 + (b - 48)) * 10 + (c - 48) in
    if is_digit a && is_digit b && is_digit c && not (a == b'0') && leb n 255 then some n else none
parse_octet _ = none

pub record Ipv4Addr : Type 0 where
  pub octet0 : ℕ
  pub octet1 : ℕ
  pub octet2 : ℕ
  pub octet3 : ℕ

octets : Option ℕ → Option ℕ → Option ℕ → Option ℕ → Option Ipv4Addr
octets (some a) (some b) (some c) (some d) =
    some (record { octet0 = a; octet1 = b; octet2 = c; octet3 = d })
octets _ _ _ _ = none

parse_parts : List Text → Option Ipv4Addr
unfolding octets parse_octet
parse_parts (a ∷ b ∷ c ∷ d ∷ []) =
    octets (parse_octet a) (parse_octet b) (parse_octet c) (parse_octet d)
parse_parts _ = none

unfoldable pub parse_ipv4 : Text → Option Ipv4Addr
unfolding parse_parts
parse_ipv4 s = parse_parts (split b'.' s)

-- `raw_line` without its newline and then without a carriage return.
abbrev pub strip_or : Text → Text → Text
strip_or suffix line = unwrap_or (strip_suffix suffix line) line

abbrev pub record_line : List ℕ → List ℕ
record_line raw_line = strip_or (codes "\r") (strip_or (codes "\n") raw_line)

abbrev pub is_field : Option Text → Text → Bool
is_field none t = false
is_field (some f) t = text_eq f t

-- A line that starts with the fields `MOSH SSH_CONNECTION`.
unfoldable pub is_record : List ℕ → Bool
is_record raw_line =
    is_utf8 [] (record_line raw_line)
    && is_field (get_elem? (split b' ' (record_line raw_line)) 0) (codes "MOSH")
    && is_field (get_elem? (split b' ' (record_line raw_line)) 1) (codes "SSH_CONNECTION")

-- `fields.len() != 6`, or an address was found before; else the fifth field is the address.
unfoldable pub record_address : List Text → Option Ipv4Addr → Result Ipv4Addr Text
record_address (f0 ∷ f1 ∷ f2 ∷ f3 ∷ f4 ∷ f5 ∷ []) none = elim (parse_ipv4 f4) [
  | some a ↦ ok a
  | none ↦ err (codes "Mosh bootstrap requires an IPv4 SSH server address")
]
record_address _ _ = err (codes "invalid or ambiguous MOSH SSH_CONNECTION record")

unfoldable pub ipv4_lines : List (List ℕ) → Option Ipv4Addr → Result Ipv4Addr Text
ipv4_lines [] none = err (codes "Mosh bootstrap did not report the SSH server address")
ipv4_lines [] (some a) = ok a
ipv4_lines (l ∷ ls) address = elim (is_record l) [
  | false ↦ ipv4_lines ls address
  | true ↦ elim (record_address (split b' ' (record_line l)) address) [
    | ok a ↦ ipv4_lines ls (some a)
    | err e ↦ err e
  ]
]

unfoldable pub mosh_server_ipv4 : List ℕ → Result Ipv4Addr Text
mosh_server_ipv4 output = ipv4_lines (split_inclusive b'\n' output) none
