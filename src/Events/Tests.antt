-- ===== src/Events/Tests.antt =====
-- Events of a shell session and the calls that answer them.
use leantty.Prelude.{ℕ, false, [], ◌∷◌, Option, none, ◌≡◌, refl, Text, codes, arith, ok}
use leantty.Registry.{
  jump, target, Message, Registry, ShellSession, shell_channels, get, find_auth_session_channels,
}
use leantty.Events.{warning, mosh_reachability}
use leantty.Events.Transfers.{failed}
use leantty.Auth.{sanitize_server_text}
use leantty.Events.Addressed.{AreAnswered, prompts-AreAnswered}

abbrev takes_all : ℕ → Message → Option Text
takes_all channel message = none

abbrev a_shell : ShellSession
a_shell = record {
  generation = 7;
  write_tx = 10;
  resize_tx = 11;
  disconnect_tx = 12;
  auth_tx = 13;
  host_key_tx = 14;
  output_pause_tx = 15;
}

abbrev one_shell : Registry
one_shell = record {
  sessions = record { poisoned = false; entries = (21, a_shell) ∷ [] };
  mosh_sessions = record { poisoned = false; entries = [] };
  file_transfer_sessions = record { poisoned = false; entries = [] };
}

one_shell_found : find_auth_session_channels one_shell 21 ≡ ok (shell_channels a_shell)
unfolding find_auth_session_channels get
one_shell_found = refl

warning_run : (warning 21 7 target (codes "resize") (codes "internal") []).kind ≡ codes "warning"
unfolding warning
warning_run = refl

reachability_run : (mosh_reachability (codes "responsive") []).layer ≡ codes "target"
unfolding mosh_reachability
reachability_run = refl

failed_run : (failed 3 [] 7 (codes "READ") (0x1b ∷ codes "[2J")).detail ≡ codes "[2J"
unfolding failed sanitize_server_text
failed_run = refl

prompts-AreAnswered_example : AreAnswered takes_all one_shell 21 7 (shell_channels a_shell) jump
prompts-AreAnswered_example =
    prompts-AreAnswered takes_all one_shell 21 7 (shell_channels a_shell) jump (omega arith)
      (omega arith) one_shell_found refl
