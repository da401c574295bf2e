-- ===== src/Registry/Routing.antt =====
-- From `ssh_connect` to the calls on the session it made, leantty_ssh/src/lib.rs.
use leantty.Prelude.{
  ℕ, ◌+◌, ◌≤◌, Bool, ◌==◌, false, [], ◌∷◌, Option, ◌≡◌, ◌≢◌, refl, inl, inr, Text, codes, arith,
  u32, Result, ok, Result-cases,
}
use leantty.Prelude.Decimal.{to_string, parse_unsigned-to_string}
use leantty.Registry.{
  Message, write, ShellSession, shell_channels, get, insert, parse_session_id,
  is_current_auth_generation, find_auth_session_channels, find_shell, current_session, sent,
  ssh_write, ssh_resize, ssh_set_output_paused, ssh_disconnect, resize, output_pause, disconnect,
  Outcome, Registry,
}
use leantty.Registry.Connect.{
  SshConnectParams, validate_ssh_connect, Sessions, register_shell, ssh_connect,
}
use leantty.Registry.Validation.{validate_ssh_connect_lem}
use leantty.Registry.Cleanup.{get-remove_other}

abbrev pub generation_of : SshConnectParams → ShellSession → ShellSession
generation_of p session = record session { generation = p.generation }

-- The state that a successful connection leaves.
abbrev connected : Sessions → ShellSession → Sessions
connected s session = record s {
  registry = record s.registry {
    sessions = record {
      poisoned = s.registry.sessions.poisoned;
      entries = insert s.next_session_id session s.registry.sessions.entries;
    };
  };
  next_session_id = u32 (s.next_session_id + 1);
}

register_shell-ok :
    (s : Sessions) (session : ShellSession) {s' : Sessions} {session_id : Text}
    → register_shell s session ≡ (s', ok session_id)
    → (s' ≡ connected s session)
      × (session_id ≡ to_string s.next_session_id)
      × (s.registry.sessions.poisoned ≡ false)
unfolding register_shell
register_shell-ok s session h = ground arith

ssh_connect-ok :
    (s : Sessions) (p : SshConnectParams) (callbacks : Result (Unit {0}) Text)
    (session : ShellSession) {s' : Sessions} {session_id : Text}
    → ssh_connect s p callbacks session ≡ (s', ok session_id)
    → (register_shell s (generation_of p session) ≡ (s', ok session_id))
      × (validate_ssh_connect p ≡ ok tt)
unfolding ssh_connect
ssh_connect-ok s p callbacks session h = elim (Result-cases (validate_ssh_connect p)) [
  | inr (m, e) ↦ cc
  | inl (u, e) ↦ elim (Result-cases callbacks) [ inr (m, f) ↦ cc | inl (v, f) ↦ (cc, e) ]
]

current_session-connected :
    (s : Sessions) (session : ShellSession) (stale : Text)
    → s.next_session_id ≤ 4294967295
    → 1 ≤ session.generation
    → s.registry.sessions.poisoned ≡ false
    → current_session
        (connected s session).registry
        (to_string s.next_session_id)
        session.generation
        stale
      ≡ ok (shell_channels session)
unfolding current_session find_auth_session_channels is_current_auth_generation parse_session_id get
    insert
current_session-connected s session stale fits positive healthy =
    rw (parse_unsigned-to_string 4294967295 s.next_session_id fits, healthy) (ground arith)

find_shell-connected :
    (s : Sessions) (session : ShellSession)
    → s.next_session_id ≤ 4294967295
    → s.registry.sessions.poisoned ≡ false
    → find_shell (connected s session).registry (to_string s.next_session_id) ≡ ok session
unfolding find_shell parse_session_id get insert
find_shell-connected s session fits healthy =
    rw (parse_unsigned-to_string 4294967295 s.next_session_id fits, healthy) (ground arith)

get-connected_other :
    (s : Sessions) (session : ShellSession) (other : ℕ)
    → other ≢ s.next_session_id
    → get other (connected s session).registry.sessions.entries
      ≡ get other s.registry.sessions.entries
unfolding get insert
get-connected_other s session other h =
    ground (arith, get-remove_other s.next_session_id other s.registry.sessions.entries h)

find_auth_session_channels-connected :
    (s : Sessions) (session : ShellSession)
    → s.registry.sessions.poisoned ≡ false
    → find_auth_session_channels (connected s session).registry s.next_session_id
      ≡ ok (shell_channels session)
unfolding find_auth_session_channels get insert
find_auth_session_channels-connected s session healthy = rw healthy (ground arith)

parse_session_id-to_string : (id : ℕ) → id ≤ 4294967295 → parse_session_id (to_string id) ≡ ok id
unfolding parse_session_id
parse_session_id-to_string id fits = rw (parse_unsigned-to_string 4294967295 id fits)

module _ (try_send : ℕ → Message → Option Text) where
  -- One message to one channel, and the channel's answer.
  abbrev pub Reaches : ℕ → Message → Outcome (Unit {0}) → Type 0
  Reaches channel m o =
      o ≡ record { sends = (channel, m) ∷ []; result = sent try_send (try_send channel m) }

  -- The calls under a printed id reach the channels of a session.
  pub record Leads (r : Registry) (session_id : Text) (session : ShellSession) : Type 0 where
    pub on_write :
        (data' : Text)
        → Reaches session.write_tx (write data') (ssh_write try_send r session_id data')
    pub on_resize :
        (cols rows : ℕ)
        → 1 ≤ cols
        → 1 ≤ rows
        → Reaches session.resize_tx (resize cols rows) (ssh_resize try_send r session_id cols rows)
    pub on_pause :
        (paused : Bool)
        → Reaches session.output_pause_tx
            (output_pause paused)
            (ssh_set_output_paused try_send r session_id paused)
    pub on_disconnect :
        Reaches session.disconnect_tx disconnect (ssh_disconnect try_send r session_id)

  connected-Leads :
      (s : Sessions) (session : ShellSession)
      → s.next_session_id ≤ 4294967295
      → s.registry.sessions.poisoned ≡ false
      → Leads (connected s session).registry (to_string s.next_session_id) session
  unfolding ssh_write ssh_resize ssh_set_output_paused ssh_disconnect
  connected-Leads s session fits healthy =
      let found = find_shell-connected s session fits healthy in
      record {
        on_write = λ data'. rw found refl;
        on_resize = λ cols rows c r.
            let wide : (cols == 0) ≡ false = ground arith in
            let high : (rows == 0) ≡ false = ground arith in rw (wide, high, found) refl;
        on_pause = λ paused. rw found refl;
        on_disconnect =
            rw
              (
                parse_session_id-to_string s.next_session_id fits,
                find_auth_session_channels-connected s session healthy,
              )
              refl;
      }

-- After `ssh_connect` succeeded, where the counter of ids is a 32-bit number: a write, a resize to a
-- positive size, a change of the pause and a disconnect under the returned id each send one message to the
-- new session's own channel, and return the channel's answer; the answers of the user under its
-- generation find it; every other id finds the shell session that it found before; and the Mosh sessions and
-- the transfers are as they were.
pub ssh_connect-ssh_write :
    (try_send : ℕ → Message → Option Text) (s : Sessions) (p : SshConnectParams)
    (callbacks : Result (Unit {0}) Text) (session : ShellSession) {s' : Sessions}
    {session_id : Text}
    → s.next_session_id ≤ 4294967295
    → ssh_connect s p callbacks session ≡ (s', ok session_id)
    → Leads try_send s'.registry session_id (generation_of p session)
      × (current_session s'.registry session_id p.generation
            (codes "stale authentication generation")
          ≡ ok (shell_channels (generation_of p session)))
      × ((other : ℕ)
          → other ≢ s.next_session_id
          → get other s'.registry.sessions.entries ≡ get other s.registry.sessions.entries)
      × (s'.registry.mosh_sessions ≡ s.registry.mosh_sessions)
      × (s'.registry.file_transfer_sessions ≡ s.registry.file_transfer_sessions)
ssh_connect-ssh_write try_send s p callbacks session {s'} {session_id} fits h =
    let (registered, valid) = ssh_connect-ok s p callbacks session h in
    let (same, name, healthy) = register_shell-ok s (generation_of p session) registered in
    rw (same, name)
      (
        connected-Leads try_send s (generation_of p session) fits healthy,
        current_session-connected s (generation_of p session) _ fits
            ((validate_ssh_connect_lem p).0 valid).generation_pos healthy,
        get-connected_other s (generation_of p session),
        refl,
        refl,
      )
