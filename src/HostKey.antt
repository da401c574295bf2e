-- ===== src/HostKey.antt =====
-- `check_server_key` and `auth_banner` of `ClientHandler`, leantty_ssh/src/lib.rs. What a call does is a
-- list of acts with its answer, which is `none` while the user has not decided yet. The crate russh
-- reads the file of known hosts and is the record `HostKeyCrate`, any functions.
pub mod Trust
pub mod Line
pub mod Added
mod Tests
use leantty.Prelude.{
  ℕ, Bool, true, false, ◌==◌, List, [], ◌∷◌, ◌++◌, Option, none, some, if◌then◌else◌, Text, codes,
  Result, ok, err,
}
use leantty.Prelude.Decimal.{to_string}
use leantty.Registry.{ConnectionLayer, HostKeyDecision}
use leantty.Events.{
  TransportEvent, diagnostic, ControlEvent, error, host_key_prompt, host_key_changed,
}
use leantty.Events.Auths.{AuthEvent, banner}
use leantty.Waits.{
  ConnectProgress, waiting_for_user, network_activity_resumed, wait_for_host_key_decision,
}

-- russh::keys::Error, as far as it is looked at: a change with its line, or the error's text.
pub data KeysError : Type 0 where
  key_changed : ℕ → KeysError
  other_failure : Text → KeysError

pub record HostKeyCrate : Type 1 where
  pub PublicKey : Type 0
  pub algorithm : PublicKey → Text
  pub fingerprint : PublicKey → Text
  pub to_openssh : PublicKey → Result Text Text
  pub check_known_hosts_path : Text → ℕ → PublicKey → Text → Result Bool KeysError
  pub known_host_keys_path : Text → ℕ → Text → Result (List (ℕ × PublicKey)) KeysError

-- The fields that are looked at; of a callback, whether it is there.
pub record ClientHandler : Type 0 where
  pub session_id : ℕ
  pub generation : ℕ
  pub layer : ConnectionLayer
  pub host : Text
  pub port : ℕ  -- u16
  pub known_hosts_path : Text
  pub transport_callback : Bool
  pub verbose : Bool

pub data Act : Type 0 where
  sends_control : ControlEvent → Act
  sends_diagnostic : TransportEvent → Act
  reports_progress : ConnectProgress → Act

-- `auth_banner`: what is sent, and whether the callback's answer lets the session go on.
unfoldable pub auth_banner : ClientHandler → (AuthEvent → Bool) → Text → AuthEvent × Bool
auth_banner h send_auth_event text =
    let event = banner h.layer h.session_id h.generation text in (event, send_auth_event event)

abbrev pub report : ClientHandler → Text → List Act
report h status =
    if h.transport_callback
    then if h.verbose
      then sends_diagnostic (diagnostic h.layer (codes "host_key") status) ∷ []
      else []
    else []

-- The line that the user interface may add to the file of known hosts.
unfoldable pub prompted_line : Text → ℕ → Text → Text
prompted_line host port public_key =
    (if port == 22 then host else b'[' ∷ (host ++ (b']' ∷ b':' ∷ to_string port)))
    ++ (b' ' ∷ public_key)

abbrev pub failure_event : ClientHandler → Text → ControlEvent
failure_event h detail =
    error h.session_id h.generation h.layer (codes "host_key") (codes "host_key") detail

-- The end of a call, behind what it did first.
abbrev pub after : List Act → List Act × Option Bool → List Act × Option Bool
after first (acts, answer) = (first ++ acts, answer)

module _ (crate : HostKeyCrate) (h : ClientHandler) where
  open crate use {
    PublicKey, algorithm, fingerprint, to_openssh, check_known_hosts_path, known_host_keys_path,
  }

  pub data PublicKeyOrCertificate : Type 0 where
    plain_key : PublicKey → PublicKeyOrCertificate
    certificate : PublicKeyOrCertificate

  abbrev pub prompt_event : PublicKey → Text → ControlEvent
  prompt_event key public_key =
      host_key_prompt h.session_id h.generation h.layer (algorithm key ++ (b' ' ∷ fingerprint key))
        (prompted_line h.host h.port public_key)

  -- After the wait for the user.
  abbrev pub decided : Option Bool → List Act × Option Bool
  decided none = ([], none)
  decided (some accepted) = (
    reports_progress network_activity_resumed
        ∷ report h (if accepted then codes "succeeded" else codes "failed"),
    some accepted,
  )

  -- A key of a host that is not known.
  unfoldable pub ask_user :
      PublicKey → Result Text Text → List (Option HostKeyDecision) → List Act × Option Bool
  ask_user key (err e) decisions = (sends_control (failure_event h e) ∷ [], some false)
  ask_user key (ok public_key) decisions =
      after
        (sends_control (prompt_event key public_key)
          ∷ (report h (codes "waiting") ++ reports_progress waiting_for_user ∷ []))
        (decided (wait_for_host_key_decision h.layer decisions))

  -- `find` on the recorded keys.
  unfoldable pub recorded_at : ℕ → List (ℕ × PublicKey) → Option PublicKey
  recorded_at line [] = none
  recorded_at line ((recorded_line, key) ∷ keys) =
      let rest = recorded_at line keys in if recorded_line == line then some key else rest

  abbrev pub fingerprint_or : Option PublicKey → Text
  fingerprint_or none = codes "unavailable"
  fingerprint_or (some key) = fingerprint key

  abbrev pub old_fingerprint : ℕ → Result (List (ℕ × PublicKey)) KeysError → Text
  old_fingerprint line (err e) = codes "unavailable"
  old_fingerprint line (ok keys) = fingerprint_or (recorded_at line keys)

  abbrev pub changed_event : PublicKey → ℕ → ControlEvent
  changed_event key line = host_key_changed h.session_id h.generation h.layer (record {
    algorithm = algorithm key;
    old_fingerprint = old_fingerprint line (known_host_keys_path h.host h.port h.known_hosts_path);
    new_fingerprint = fingerprint key;
    host = h.host;
    port = h.port;
  })

  abbrev pub refusal_event : PublicKey → KeysError → ControlEvent
  refusal_event key (key_changed line) = changed_event key line
  refusal_event key (other_failure text) = failure_event h text

  -- What becomes of the answer of `check_known_hosts_path`.
  unfoldable pub settle_key :
      PublicKey → Result Bool KeysError → List (Option HostKeyDecision) → List Act × Option Bool
  settle_key key (ok true) decisions = (report h (codes "succeeded"), some true)
  settle_key key (ok false) decisions = ask_user key (to_openssh key) decisions
  settle_key key (err e) decisions =
      (report h (codes "failed") ++ sends_control (refusal_event key e) ∷ [], some false)

  unfoldable pub check_server_key :
      PublicKeyOrCertificate → List (Option HostKeyDecision) → List Act × Option Bool
  check_server_key certificate decisions = ([], some false)
  check_server_key (plain_key key) decisions =
      after (report h (codes "started"))
        (settle_key key (check_known_hosts_path h.host h.port key h.known_hosts_path) decisions)
