-- ===== src/Registry/Tests.antt =====
-- One shell session, registered, used, removed and cancelled, with channels that take every message.
use leantty.Prelude.{
  length, keep, true, ℕ, false, [], ◌∷◌, map, Option, none, ◌≡◌, ◌≢◌, refl, ◌↔◌, Text, codes, u32,
  ok, err, arith,
}
use leantty.Prelude.Decimal.{to_string}
use leantty.Registry.{
  Registry, Message, disconnect, ShellSession, shell_channels, insert, remove, get, current_session,
  parse_session_id, remove_session, ssh_write, cancel_all_sessions,
}
use leantty.Registry.Connect.{
  SshConnectParams, validate_keepalive, validate_jump, validate_ssh_connect, Sessions,
  register_shell, ssh_connect,
}
use leantty.Registry.Routing.{Leads, generation_of, ssh_connect-ssh_write}
use leantty.Registry.Validation.{IsConnectable, validate_ssh_connect_lem}
use leantty.Registry.Cleanup.{
  takes_disconnect, disconnect_maps, unlocked, counted_or, ssh_write-remove_session,
  cancel_all_sessions_lem,
}

abbrev takes_all : ℕ → Message → Option Text
takes_all channel message = none

abbrev a_shell : ShellSession
a_shell = record {
  generation = 7;
  write_tx = 10;
  resize_tx = 11;
  disconnect_tx = 12;
  auth_tx = 13;
  host_key_tx = 14;
  output_pause_tx = 15;
}

abbrev no_sessions : Sessions
no_sessions = record {
  registry = record {
    sessions = record { poisoned = false; entries = [] };
    mosh_sessions = record { poisoned = false; entries = [] };
    file_transfer_sessions = record { poisoned = false; entries = [] };
  };
  next_session_id = 1;
}

abbrev one_session : Sessions
one_session = record {
  registry = record {
    sessions = record { poisoned = false; entries = (1, a_shell) ∷ [] };
    mosh_sessions = record { poisoned = false; entries = [] };
    file_transfer_sessions = record { poisoned = false; entries = [] };
  };
  next_session_id = 2;
}

abbrev direct : SshConnectParams
direct = record {
  host = codes "example.org";
  port = 22;
  user = codes "ada";
  jump_host = [];
  jump_port = 0;
  jump_user = [];
  jump_connect_timeout_ms = 0;
  jump_server_alive_interval_seconds = 0;
  jump_server_alive_count_max = 0;
  known_hosts_path = codes "/data/known_hosts";
  connect_timeout_ms = 10000;
  server_alive_interval_seconds = 30;
  server_alive_count_max = 3;
  generation = 7;
}

direct_connects : ssh_connect no_sessions direct (ok tt) a_shell ≡ (one_session, ok (codes "1"))
unfolding ssh_connect validate_ssh_connect validate_jump validate_keepalive register_shell insert
    remove to_string
direct_connects = refl

ssh_connect-ssh_write_example :
    Leads takes_all one_session.registry (codes "1") (generation_of direct a_shell)
    × (current_session one_session.registry (codes "1") 7 (codes "stale authentication generation")
        ≡ ok (shell_channels (generation_of direct a_shell)))
    × ((other : ℕ)
        → other ≢ 1
        → get other one_session.registry.sessions.entries
          ≡ get other no_sessions.registry.sessions.entries)
    × (one_session.registry.mosh_sessions ≡ no_sessions.registry.mosh_sessions)
    × (one_session.registry.file_transfer_sessions ≡ no_sessions.registry.file_transfer_sessions)
ssh_connect-ssh_write_example =
    ssh_connect-ssh_write takes_all no_sessions direct (ok tt) a_shell {s' = one_session}
      {session_id = codes "1"} (ground arith) direct_connects

validate_ssh_connect_lem_example : (validate_ssh_connect direct ≡ ok tt) ↔ IsConnectable direct
validate_ssh_connect_lem_example = validate_ssh_connect_lem direct

ssh_write-remove_session_example :
    (parse_session_id (codes "1") ≡ ok 1
      → ssh_write takes_all (remove_session one_session.registry 1) (codes "1") (codes "ls")
        ≡ record { sends = []; result = err (codes "session not found") })
    × ((other : ℕ)
        → parse_session_id (codes "1") ≡ ok other
        → other ≢ 1
        → ssh_write takes_all (remove_session one_session.registry 1) (codes "1") (codes "ls")
          ≡ ssh_write takes_all one_session.registry (codes "1") (codes "ls"))
ssh_write-remove_session_example =
    ssh_write-remove_session takes_all one_session.registry 1 (codes "1") (codes "ls") refl

-- The second of three maps is poisoned, and the first is asked.
abbrev half_poisoned : Registry
half_poisoned = record one_session.registry {
  mosh_sessions = record { poisoned = true; entries = [] };
}

cancel_all_sessions_lem_example :
    let (channels, poisoned) = unlocked (disconnect_maps half_poisoned) in
    cancel_all_sessions takes_all half_poisoned ≡ record {
      sends = map (λ c. (c, disconnect)) channels;
      result = counted_or (u32 (length (keep (takes_disconnect takes_all) channels))) poisoned;
    }
cancel_all_sessions_lem_example = cancel_all_sessions_lem takes_all half_poisoned
