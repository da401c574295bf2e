-- ===== src/Registry.antt =====
-- The session maps of leantty_ssh/src/lib.rs and the exported calls that look a session up in them and
-- send to its channels. A channel is a number; `try_send` is the answer of tokio's channel to one
-- message, an error's text or none; a call is its messages, in order, and its result.
pub mod Connect
pub mod Guards
pub mod Cleanup
pub mod Validation
pub mod Routing
mod Tests
use leantty.Prelude.{
  ℕ, ◌+◌, Bool, true, false, not, ◌&&◌, ◌||◌, List, [], ◌∷◌, ◌++◌, map, Option, none, some, ltb,
  ◌==◌, if◌then◌else◌, Text, codes, text_eq, u32, Result, ok, err, guard, ok_or, ◌>>=◌, ◌>>◌,
}
use leantty.Prelude.Decimal.{parse_unsigned}

pub data ConnectionLayer : Type 0 where
  jump target : ConnectionLayer

unfoldable pub as_str : ConnectionLayer → Text
as_str jump = codes "jump"
as_str target = codes "target"

unfoldable pub parse_layer : Text → Option ConnectionLayer
parse_layer value =
    if text_eq value (codes "jump")
    then some jump
    else if text_eq value (codes "target")
    then some target
    else none

pub data AuthMethod : Type 0 where
  password private_key_passphrase : Text → AuthMethod
  keyboard_interactive_responses : ℕ → List Text → AuthMethod

pub record LayeredAuthMethod : Type 0 where
  pub layer : ConnectionLayer
  pub method : AuthMethod

pub record HostKeyDecision : Type 0 where
  pub layer : ConnectionLayer
  pub accepted : Bool

-- What the channels of a session carry. Written text is sent as its UTF-8 bytes.
pub data Message : Type 0 where
  credential : LayeredAuthMethod → Message
  host_key : HostKeyDecision → Message
  write : Text → Message
  resize : ℕ → ℕ → Message
  output_pause : Bool → Message
  disconnect : Message

pub record ShellSession : Type 0 where
  pub generation : ℕ
  pub write_tx : ℕ
  pub resize_tx : ℕ
  pub disconnect_tx : ℕ
  pub auth_tx : ℕ
  pub host_key_tx : ℕ
  pub output_pause_tx : ℕ

pub record MoshSession : Type 0 where
  pub generation : ℕ
  pub write_tx : ℕ
  pub resize_tx : ℕ
  pub disconnect_tx : ℕ
  pub auth_tx : ℕ
  pub host_key_tx : ℕ
  pub output_pause_tx : ℕ

pub record FileTransferSession : Type 0 where
  pub generation : ℕ
  pub disconnect_tx : ℕ
  pub auth_tx : ℕ
  pub host_key_tx : ℕ

-- A `Mutex<HashMap<u32, A>>`: a poisoned lock gives no access.
pub record SessionMap (A : Type 0) : Type 0 where
  pub poisoned : Bool
  pub entries : List (ℕ × A)

pub record Registry : Type 0 where
  pub sessions : SessionMap ShellSession
  pub mosh_sessions : SessionMap MoshSession
  pub file_transfer_sessions : SessionMap FileTransferSession

module _ {A : Type 0} where
  unfoldable pub get : ℕ → List (ℕ × A) → Option A
  get id [] = none
  get id ((k, a) ∷ es) = let rest = get id es in if k == id then some a else rest

  unfoldable pub remove : ℕ → List (ℕ × A) → List (ℕ × A)
  remove id [] = []
  remove id ((k, a) ∷ es) = let rest = remove id es in if k == id then rest else (k, a) ∷ rest

  unfoldable pub insert : ℕ → A → List (ℕ × A) → List (ℕ × A)
  insert id a es = (id, a) ∷ remove id es

  abbrev pub lock : SessionMap A → Text → Result (List (ℕ × A)) Text
  lock m message = if m.poisoned then err message else ok m.entries

  -- What a cleanup guard does when it is dropped.
  unfoldable pub drop_entry : ℕ → SessionMap A → SessionMap A
  drop_entry id m = if m.poisoned then m else record m { entries = remove id m.entries }

unfoldable pub remove_session : Registry → ℕ → Registry
remove_session r id = record r { sessions = drop_entry id r.sessions }

unfoldable pub drop_mosh_session : Registry → ℕ → Registry
drop_mosh_session r id = record r { mosh_sessions = drop_entry id r.mosh_sessions }

unfoldable pub drop_file_transfer : Registry → ℕ → Registry
drop_file_transfer r id = record r {
  file_transfer_sessions = drop_entry id r.file_transfer_sessions;
}

unfoldable pub parse_session_id : Text → Result ℕ Text
parse_session_id session_id =
    ok_or (parse_unsigned 4294967295 session_id) (codes "invalid session id")

unfoldable pub is_current_auth_generation : ℕ → ℕ → Bool
is_current_auth_generation session_generation received_generation =
    not (received_generation == 0) && session_generation == received_generation

pub record AuthSessionChannels : Type 0 where
  pub generation : ℕ
  pub auth_tx : ℕ
  pub host_key_tx : ℕ
  pub disconnect_tx : ℕ

abbrev pub shell_channels : ShellSession → AuthSessionChannels
shell_channels s = record {
  generation = s.generation;
  auth_tx = s.auth_tx;
  host_key_tx = s.host_key_tx;
  disconnect_tx = s.disconnect_tx;
}

abbrev pub mosh_channels : MoshSession → AuthSessionChannels
mosh_channels s = record {
  generation = s.generation;
  auth_tx = s.auth_tx;
  host_key_tx = s.host_key_tx;
  disconnect_tx = s.disconnect_tx;
}

abbrev pub transfer_channels : FileTransferSession → AuthSessionChannels
transfer_channels s = record {
  generation = s.generation;
  auth_tx = s.auth_tx;
  host_key_tx = s.host_key_tx;
  disconnect_tx = s.disconnect_tx;
}

unfoldable pub find_transfer_channels : Registry → ℕ → Result AuthSessionChannels Text
find_transfer_channels r id = do
  sessions ← lock r.file_transfer_sessions (codes "file transfer session map lock poisoned")
  s ← ok_or (get id sessions) (codes "session not found")
  ok (transfer_channels s)

unfoldable pub find_mosh_channels : Registry → ℕ → Result AuthSessionChannels Text
find_mosh_channels r id = do
  sessions ← lock r.mosh_sessions (codes "Mosh session map lock poisoned")
  elim (get id sessions) [ some s ↦ ok (mosh_channels s) | none ↦ find_transfer_channels r id ]

unfoldable pub find_auth_session_channels : Registry → ℕ → Result AuthSessionChannels Text
find_auth_session_channels r id = do
  sessions ← lock r.sessions (codes "session map lock poisoned")
  elim (get id sessions) [ some s ↦ ok (shell_channels s) | none ↦ find_mosh_channels r id ]

pub record Outcome (A : Type 0) : Type 0 where
  pub sends : List (ℕ × Message)
  pub result : Result A Text

-- What the calls on credentials and host keys send: to the current generation of the session, and
-- for a layer that exists.
unfoldable pub current_session : Registry → Text → ℕ → Text → Result AuthSessionChannels Text
current_session r session_id generation stale = do
  id ← parse_session_id session_id
  s ← find_auth_session_channels r id
  guard (is_current_auth_generation s.generation generation) stale
  ok s

unfoldable pub credential_plan : Registry → Text → ℕ → Text → AuthMethod → Result (ℕ × Message) Text
credential_plan r session_id generation layer method = do
  s ← current_session r session_id generation (codes "stale authentication generation")
  l ← ok_or (parse_layer layer) (codes "authentication layer must be jump or target")
  ok (s.auth_tx, credential (record { layer = l; method = method }))

unfoldable pub host_key_plan : Registry → Text → ℕ → Text → Bool → Result (ℕ × Message) Text
host_key_plan r session_id generation layer accepted = do
  s ← current_session r session_id generation (codes "stale host-key generation")
  l ← ok_or (parse_layer layer) (codes "host-key layer must be jump or target")
  ok (s.host_key_tx, host_key (record { layer = l; accepted = accepted }))

unfoldable pub find_shell : Registry → Text → Result ShellSession Text
find_shell r session_id = do
  id ← parse_session_id session_id
  sessions ← lock r.sessions (codes "session map lock poisoned")
  ok_or (get id sessions) (codes "session not found")

unfoldable pub find_mosh : Registry → Text → Result MoshSession Text
find_mosh r session_id = do
  id ← parse_session_id session_id
  sessions ← lock r.mosh_sessions (codes "Mosh session map lock poisoned")
  ok_or (get id sessions) (codes "Mosh session not found")

module _ (try_send : ℕ → Message → Option Text) where
  abbrev pub sent : Option Text → Result (Unit {0}) Text
  sent none = ok tt
  sent (some error) = err (codes "send failed: " ++ error)

  abbrev pub dispatch : Result (ℕ × Message) Text → Outcome (Unit {0})
  dispatch (err e) = record { sends = []; result = err e }
  dispatch (ok (c, m)) = record { sends = (c, m) ∷ []; result = sent (try_send c m) }

  unfoldable pub ssh_auth_password : Registry → Text → ℕ → Text → Text → Outcome (Unit {0})
  ssh_auth_password r session_id generation layer value =
      dispatch (credential_plan r session_id generation layer (password value))

  unfoldable pub ssh_auth_private_key_passphrase :
      Registry → Text → ℕ → Text → Text → Outcome (Unit {0})
  ssh_auth_private_key_passphrase r session_id generation layer value =
      dispatch (credential_plan r session_id generation layer (private_key_passphrase value))

  unfoldable pub ssh_auth_keyboard_interactive_responses :
      Registry → Text → ℕ → Text → ℕ → List Text → Outcome (Unit {0})
  ssh_auth_keyboard_interactive_responses r session_id generation layer round_id responses =
      dispatch (
        credential_plan r session_id generation layer
          (keyboard_interactive_responses round_id responses))

  unfoldable pub ssh_verify_host_key : Registry → Text → ℕ → Text → Bool → Outcome (Unit {0})
  ssh_verify_host_key r session_id generation layer accepted =
      dispatch (host_key_plan r session_id generation layer accepted)

  unfoldable pub ssh_write : Registry → Text → Text → Outcome (Unit {0})
  ssh_write r session_id data' =
      dispatch (find_shell r session_id >>= λ s. ok (s.write_tx, write data'))

  unfoldable pub ssh_resize : Registry → Text → ℕ → ℕ → Outcome (Unit {0})
  ssh_resize r session_id cols rows = dispatch (
      guard (not (cols == 0 || rows == 0)) (codes "terminal size must be positive")
      >> (find_shell r session_id >>= λ s. ok (s.resize_tx, resize cols rows)))

  unfoldable pub ssh_set_output_paused : Registry → Text → Bool → Outcome (Unit {0})
  ssh_set_output_paused r session_id paused =
      dispatch (find_shell r session_id >>= λ s. ok (s.output_pause_tx, output_pause paused))

  unfoldable pub ssh_disconnect : Registry → Text → Outcome (Unit {0})
  ssh_disconnect r session_id = dispatch (
      parse_session_id session_id >>= λ id.
      find_auth_session_channels r id >>= λ s. ok (s.disconnect_tx, disconnect))

  unfoldable pub mosh_write : Registry → Text → Text → Outcome (Unit {0})
  mosh_write r session_id data' =
      dispatch (find_mosh r session_id >>= λ s. ok (s.write_tx, write data'))

  unfoldable pub mosh_resize : Registry → Text → ℕ → ℕ → Outcome (Unit {0})
  mosh_resize r session_id columns rows = dispatch (
      guard (not (columns == 0 || ltb 500 columns || rows == 0 || ltb 200 rows))
        (codes "Mosh terminal size must be between 1x1 and 500x200")
      >> (find_mosh r session_id >>= λ s. ok (s.resize_tx, resize columns rows)))

  unfoldable pub mosh_set_output_paused : Registry → Text → Bool → Outcome (Unit {0})
  mosh_set_output_paused r session_id paused =
      dispatch (find_mosh r session_id >>= λ s. ok (s.output_pause_tx, output_pause paused))

  -- A missing session and a refused message are no errors.
  abbrev pub closing : Result (Option MoshSession) Text → Outcome (Unit {0})
  closing (err e) = record { sends = []; result = err e }
  closing (ok none) = record { sends = []; result = ok tt }
  closing (ok (some s)) = record { sends = (s.disconnect_tx, disconnect) ∷ []; result = ok tt }

  unfoldable pub mosh_disconnect : Registry → Text → Outcome (Unit {0})
  mosh_disconnect r session_id = closing (
      parse_session_id session_id >>= λ id.
      lock r.mosh_sessions (codes "Mosh session map lock poisoned") >>= λ sessions.
      ok (get id sessions))

  -- How many of the channels take a disconnect.
  abbrev pub accepted_disconnects : List ℕ → ℕ
  accepted_disconnects [] = 0
  accepted_disconnects (c ∷ cs) =
      let rest = accepted_disconnects cs in
      elim (try_send c disconnect) [ none ↦ rest + 1 | some error ↦ rest ]

  -- One of the three blocks of `cancel_all_sessions`, which a poisoned lock ends.
  unfoldable pub cancel_map : Bool → Text → List ℕ → Outcome ℕ → Outcome ℕ
  cancel_map poisoned message channels o = elim o.result [
    | err e ↦ o
    | ok requested ↦ if poisoned then record { sends = o.sends; result = err message } else record {
      sends = o.sends ++ map (λ c. (c, disconnect)) channels;
      result = ok (u32 (requested + accepted_disconnects channels));
    }
  ]

  unfoldable pub cancel_all_sessions : Registry → Outcome ℕ
  cancel_all_sessions r =
      cancel_map r.file_transfer_sessions.poisoned (codes "file transfer session map lock poisoned")
        (map (λ e. e.1.disconnect_tx) r.file_transfer_sessions.entries)
        (cancel_map r.mosh_sessions.poisoned (codes "Mosh session map lock poisoned")
          (map (λ e. e.1.disconnect_tx) r.mosh_sessions.entries)
          (cancel_map r.sessions.poisoned (codes "SSH session map lock poisoned")
            (map (λ e. e.1.disconnect_tx) r.sessions.entries)
            (record { sends = []; result = ok 0 })))
