-- ===== src/Mosh/Tests.antt =====
-- A server path, a port range and a server's output as they come in practice.
use leantty.Prelude.{
  ℕ, List, [], ◌∷◌, ◌++◌, some, ◌≡◌, refl, Text, codes, text_eq, split, split_inclusive,
  strip_suffix, starts_with, ok,
}
use leantty.Mosh.{
  MoshUdpPortRange, is_bad_segment, mosh_server_path, mosh_bootstrap_command, is_utf8, parse_octet,
  Ipv4Addr, parse_ipv4, is_record, record_address, ipv4_lines, mosh_server_ipv4,
}
use leantty.Mosh.Command.{IsUnquoted, shell, mosh_bootstrap_command-IsUnquoted}
use leantty.Mosh.Address.{records, mosh_server_ipv4-records}

abbrev local_server : Text
local_server = codes "/opt/mosh/bin/mosh-server"

abbrev ports : MoshUdpPortRange
ports = record { start = 60000; end = 60010 }

local_server_accepted : mosh_server_path local_server ≡ ok (some local_server)
unfolding mosh_server_path is_bad_segment split text_eq starts_with
local_server_accepted = refl

mosh_bootstrap_command-IsUnquoted_example :
    (script : Text) × (mosh_bootstrap_command (some local_server) (some ports)
      ≡ shell ++ (b'\'' ∷ (script ++ b'\'' ∷ [])))
    × IsUnquoted script
mosh_bootstrap_command-IsUnquoted_example =
    mosh_bootstrap_command-IsUnquoted local_server (some local_server) (some ports)
      local_server_accepted

abbrev server_output : List ℕ
server_output =
    codes "\r\nMOSH SSH_CONNECTION 10.0.0.2 50022 192.168.1.7 22\r\nMOSH CONNECT 60001 key\r\n"

abbrev server_address : Ipv4Addr
server_address = record { octet0 = 192; octet1 = 168; octet2 = 1; octet3 = 7 }

server_output_address : mosh_server_ipv4 server_output ≡ ok server_address
unfolding mosh_server_ipv4 ipv4_lines is_record is_utf8 record_address parse_ipv4 parse_octet split
    split_inclusive strip_suffix text_eq
server_output_address = refl

mosh_server_ipv4-records_example : records (split_inclusive b'\n' server_output) ≡ 1
mosh_server_ipv4-records_example =
    mosh_server_ipv4-records server_output {a = server_address} server_output_address
