-- ===== src/Registry/Connect.antt =====
-- `ssh_connect`, `mosh_connect` and `ssh_start_file_transfer` of leantty_ssh/src/lib.rs: the tests on
-- their arguments and the entry they make. The channels and the answer of the callbacks' builders come
-- from outside; the spawned task and the local file of a transfer are not modelled.
use leantty.Prelude.{
  ℕ, ◌+◌, Bool, true, false, none, some, not, ◌||◌, ◌&&◌, Option, Text, codes, text_eq, all,
  is_empty, ltb, leb, ◌==◌, u32, ◌++◌, if◌then◌else◌, Result, ok, err, guard, ◌>>=◌, ◌>>◌,
}
use leantty.Prelude.Decimal.{to_string}
use leantty.Mosh.{
  MoshUdpPortRange, MoshPredictionMode, mosh_server_path, mosh_udp_port_range, mosh_prediction_mode,
}
use leantty.Registry.{ShellSession, MoshSession, FileTransferSession, Registry, lock, insert}

-- `char::is_whitespace`.
abbrev pub is_whitespace : ℕ → Bool
is_whitespace c =
    leb 9 c && leb c 13
    || c == 0x20
    || c == 0x85
    || c == 0xa0
    || c == 0x1680
    || leb 0x2000 c && leb c 0x200a
    || c == 0x2028
    || c == 0x2029
    || c == 0x202f
    || c == 0x205f
    || c == 0x3000

-- `value.trim().is_empty()`
abbrev pub is_blank : Text → Bool
is_blank value = all is_whitespace value

abbrev pub ssh_keepalive_interval_max_seconds : ℕ
ssh_keepalive_interval_max_seconds = 3600

abbrev pub ssh_keepalive_count_max : ℕ
ssh_keepalive_count_max = 100

abbrev pub refused : Bool → Text → Result (Unit {0}) Text
refused bad message = guard (not bad) message

unfoldable pub validate_keepalive : ℕ → ℕ → Text → Result (Unit {0}) Text
validate_keepalive interval_seconds count_max layer = do
  refused (ltb ssh_keepalive_interval_max_seconds interval_seconds)
      (layer ++ codes " server alive interval must be between 0 and 3600")
  refused (count_max == 0 || ltb ssh_keepalive_count_max count_max)
      (layer ++ codes " server alive count max must be between 1 and 100")

pub record SshConnectParams : Type 0 where
  pub host : Text
  pub port : ℕ
  pub user : Text
  pub jump_host : Text
  pub jump_port : ℕ
  pub jump_user : Text
  pub jump_connect_timeout_ms : ℕ
  pub jump_server_alive_interval_seconds : ℕ
  pub jump_server_alive_count_max : ℕ
  pub known_hosts_path : Text
  pub connect_timeout_ms : ℕ
  pub server_alive_interval_seconds : ℕ
  pub server_alive_count_max : ℕ
  pub generation : ℕ

abbrev pub is_bad_port : ℕ → Bool
is_bad_port port = port == 0 || ltb 65535 port

unfoldable pub validate_jump : SshConnectParams → Result (Unit {0}) Text
validate_jump p = do
  refused (is_bad_port p.jump_port) (codes "jump port must be between 1 and 65535")
  refused (is_blank p.jump_user) (codes "jump user must not be empty")
  refused (p.jump_connect_timeout_ms == 0) (codes "jump connect timeout must be positive")
  validate_keepalive p.jump_server_alive_interval_seconds p.jump_server_alive_count_max
      (codes "jump")
  refused (text_eq p.host p.jump_host && p.port == p.jump_port)
      (codes "jump host must differ from target host")

unfoldable pub validate_ssh_connect : SshConnectParams → Result (Unit {0}) Text
validate_ssh_connect p = do
  refused (is_blank p.host) (codes "host must not be empty")
  refused (is_bad_port p.port) (codes "port must be between 1 and 65535")
  refused (is_blank p.user) (codes "user must not be empty")
  if not (is_blank p.jump_host) then validate_jump p else ok tt
  refused (is_blank p.known_hosts_path) (codes "known_hosts path must not be empty")
  refused (p.connect_timeout_ms == 0) (codes "connect timeout must be positive")
  validate_keepalive p.server_alive_interval_seconds p.server_alive_count_max (codes "target")
  refused (p.generation == 0) (codes "generation must be positive")

pub record MoshConnectParams : Type 0 where
  pub host : Text
  pub port : ℕ
  pub user : Text
  pub known_hosts_path : Text
  pub connect_timeout_ms : ℕ
  pub server_alive_interval_seconds : ℕ
  pub server_alive_count_max : ℕ
  pub server_path : Text
  pub udp_port_start : ℕ
  pub udp_port_end : ℕ
  pub prediction_mode : Text
  pub columns : ℕ
  pub rows : ℕ
  pub generation : ℕ

-- What the tests of `mosh_connect` make of its settings.
pub record MoshSettings : Type 0 where
  pub server_path : Option Text
  pub udp_port_range : Option MoshUdpPortRange
  pub prediction_mode : MoshPredictionMode

unfoldable pub validate_mosh_connect : MoshConnectParams → Result MoshSettings Text
validate_mosh_connect p = do
  refused (is_blank p.host) (codes "host must not be empty")
  refused (is_bad_port p.port) (codes "port must be between 1 and 65535")
  refused (is_blank p.user) (codes "user must not be empty")
  refused (is_blank p.known_hosts_path) (codes "known_hosts path must not be empty")
  refused (p.connect_timeout_ms == 0) (codes "connect timeout must be positive")
  validate_keepalive p.server_alive_interval_seconds p.server_alive_count_max
      (codes "Mosh bootstrap target")
  server_path ← mosh_server_path p.server_path
  udp_port_range ← mosh_udp_port_range p.udp_port_start p.udp_port_end
  prediction_mode ← mosh_prediction_mode p.prediction_mode
  refused (p.columns == 0 || ltb 500 p.columns || p.rows == 0 || ltb 200 p.rows)
      (codes "Mosh terminal size must be between 1x1 and 500x200")
  refused (p.generation == 0) (codes "generation must be positive")
  ok (record {
    server_path = server_path;
    udp_port_range = udp_port_range;
    prediction_mode = prediction_mode;
  })

-- The maps and the counter `NEXT_SESSION_ID`.
pub record Sessions : Type 0 where
  pub registry : Registry
  pub next_session_id : ℕ  -- u32

abbrev pub next_id : Sessions → Sessions
next_id s = record s { next_session_id = u32 (s.next_session_id + 1) }

-- The id is taken before the lock, so that a poisoned one uses it up.
unfoldable pub register_shell : Sessions → ShellSession → Sessions × Result Text Text
register_shell s session = elim (lock s.registry.sessions (codes "session map lock poisoned")) [
  | err e ↦ (next_id s, err e)
  | ok entries ↦ (
    record s {
      registry = record s.registry {
        sessions = record {
          poisoned = s.registry.sessions.poisoned;
          entries = insert s.next_session_id session entries;
        };
      };
      next_session_id = u32 (s.next_session_id + 1);
    },
    ok (to_string s.next_session_id),
  )
]

unfoldable pub register_mosh : Sessions → MoshSession → Sessions × Result Text Text
register_mosh s session =
    elim (lock s.registry.mosh_sessions (codes "Mosh session map lock poisoned")) [
      | err e ↦ (next_id s, err e)
      | ok entries ↦ (
        record s {
          registry = record s.registry {
            mosh_sessions = record {
              poisoned = s.registry.mosh_sessions.poisoned;
              entries = insert s.next_session_id session entries;
            };
          };
          next_session_id = u32 (s.next_session_id + 1);
        },
        ok (to_string s.next_session_id),
      )
    ]

-- A test that fails, or a callback that cannot be built, ends the call before it takes an id.
abbrev pub after_tests {ℓ} :
    {A : Type ℓ}
    → Result A Text
    → Sessions
    → Sessions × Result Text Text
    → Sessions × Result Text Text
after_tests (err e) s registered = (s, err e)
after_tests (ok a) s registered = registered

unfoldable pub ssh_connect :
    Sessions
    → SshConnectParams
    → Result (Unit {0}) Text
    → ShellSession
    → Sessions × Result Text Text
ssh_connect s p callbacks session =
    after_tests (validate_ssh_connect p >> callbacks) s
      (register_shell s (record session { generation = p.generation }))

unfoldable pub mosh_connect :
    Sessions
    → MoshConnectParams
    → Result (Unit {0}) Text
    → MoshSession
    → Sessions × Result Text Text
mosh_connect s p callbacks session =
    after_tests (validate_mosh_connect p >> callbacks) s
      (register_mosh s (record session { generation = p.generation }))

pub data Direction : Type 0 where
  put fetch : Direction

unfoldable pub parse_direction : Text → Result Direction Text
parse_direction value =
    if text_eq value (codes "put")
    then ok put
    else if text_eq value (codes "get")
    then ok fetch
    else err (codes "transfer direction must be put or get")

-- A descriptor of the source is negative where there is none.
pub record FileTransferParams : Type 0 where
  pub direction : Text
  pub host : Text
  pub port : ℕ
  pub user : Text
  pub known_hosts_path : Text
  pub connect_timeout_ms : ℕ
  pub server_alive_interval_seconds : ℕ
  pub server_alive_count_max : ℕ
  pub generation : ℕ
  pub pane_id : Text
  pub remote_path : Text
  pub local_path : Text
  pub local_descriptor : Option ℕ

abbrev is_given : Option ℕ → Bool
is_given none = false
is_given (some descriptor) = true

unfoldable pub validate_local_file : FileTransferParams → Direction → Result (Unit {0}) Text
validate_local_file p put =
    refused (not (is_given p.local_descriptor) || not (is_empty p.local_path))
      (codes "put requires an open local descriptor and no local temporary path")
validate_local_file p fetch =
    refused (is_given p.local_descriptor || is_blank p.local_path)
      (codes "get requires a local temporary path and no local descriptor")

unfoldable pub validate_file_transfer : FileTransferParams → Result Direction Text
validate_file_transfer p = do
  direction ← parse_direction p.direction
  refused (is_blank p.host || is_blank p.user) (codes "transfer host and user must not be empty")
  refused (is_bad_port p.port) (codes "transfer port must be between 1 and 65535")
  refused (is_blank p.known_hosts_path || is_blank p.remote_path)
      (codes "known_hosts path and remote path must not be empty")
  refused (p.connect_timeout_ms == 0 || p.generation == 0 || is_blank p.pane_id)
      (codes "transfer timeout, generation and pane id must be valid")
  validate_keepalive p.server_alive_interval_seconds p.server_alive_count_max
      (codes "transfer target")
  validate_local_file p direction
  ok direction

unfoldable pub register_transfer : Sessions → FileTransferSession → Sessions × Result Text Text
register_transfer s session =
    elim (lock s.registry.file_transfer_sessions
      (codes "file transfer session map lock poisoned")) [
        | err e ↦ (next_id s, err e)
        | ok entries ↦ (
          record s {
            registry = record s.registry {
              file_transfer_sessions = record {
                poisoned = s.registry.file_transfer_sessions.poisoned;
                entries = insert s.next_session_id session entries;
              };
            };
            next_session_id = u32 (s.next_session_id + 1);
          },
          ok (to_string s.next_session_id),
        )
      ]

-- `open_local` is the system's answer to the duplication of the descriptor, or to the creation of the
-- temporary file, and to the test that it is a regular file.
unfoldable pub ssh_start_file_transfer :
    Sessions
    → FileTransferParams
    → (Direction → Result (Unit {0}) Text)
    → Result (Unit {0}) Text
    → FileTransferSession
    → Sessions × Result Text Text
ssh_start_file_transfer s p open_local callbacks session =
    after_tests ((validate_file_transfer p >>= open_local) >> callbacks) s
      (register_transfer s (record session { generation = p.generation }))
