-- ===== src/Events/Addressed.antt =====
-- From the events of leantty_ssh/src/lib.rs that ask the user something to the calls that answer them.
use leantty.Prelude.{
  ℕ, ◌≤◌, Bool, List, [], ◌∷◌, Option, ◌≡◌, refl, Text, codes, text_eq, arith, ok, some,
}
use leantty.Prelude.Decimal.{to_string, parse_unsigned-to_string}
use leantty.Auth.{AuthChallenge}
use leantty.Registry.{
  ConnectionLayer, jump, target, as_str, parse_layer, Message, credential, host_key, AuthMethod,
  keyboard_interactive_responses, password, private_key_passphrase, Registry, AuthSessionChannels,
  Outcome, find_auth_session_channels, parse_session_id, is_current_auth_generation,
  current_session, credential_plan, host_key_plan, sent, ssh_verify_host_key,
  ssh_auth_keyboard_interactive_responses, ssh_auth_password, ssh_auth_private_key_passphrase,
}
use leantty.Events.{host_key_prompt}
use leantty.Events.Auths

parse_layer-as_str : (l : ConnectionLayer) → parse_layer (as_str l) ≡ some l
unfolding parse_layer as_str text_eq
parse_layer-as_str jump = refl
parse_layer-as_str target = refl

module _ (r : Registry) (id generation : ℕ) {s : AuthSessionChannels} (fits : id ≤ 4294967295)
    (positive : 1 ≤ generation) (found : find_auth_session_channels r id ≡ ok s)
    (current : s.generation ≡ generation) where
  current_session-to_string :
      (stale : Text) → current_session r (to_string id) generation stale ≡ ok s
  unfolding current_session parse_session_id is_current_auth_generation
  current_session-to_string stale =
      rw (parse_unsigned-to_string 4294967295 id fits, found) (ground arith)

  credential_plan-to_string :
      (l : ConnectionLayer) (m : AuthMethod)
      → credential_plan r (to_string id) generation (as_str l) m
        ≡ ok (s.auth_tx, credential (record { layer = l; method = m }))
  unfolding credential_plan
  credential_plan-to_string l m =
      rw (current_session-to_string (codes "stale authentication generation"), parse_layer-as_str l)

  host_key_plan-to_string :
      (l : ConnectionLayer) (accepted : Bool)
      → host_key_plan r (to_string id) generation (as_str l) accepted
        ≡ ok (s.host_key_tx, host_key (record { layer = l; accepted = accepted }))
  unfolding host_key_plan
  host_key_plan-to_string l accepted =
      rw (current_session-to_string (codes "stale host-key generation"), parse_layer-as_str l)

abbrev pub one_send : (ℕ → Message → Option Text) → ℕ → Message → Outcome (Unit {0})
one_send try_send c m = record { sends = (c, m) ∷ []; result = sent try_send (try_send c m) }

module _ (try_send : ℕ → Message → Option Text) (r : Registry) (id generation : ℕ)
    (s : AuthSessionChannels) (l : ConnectionLayer) where
  -- The calls that answer a host-key prompt, a challenge and a request for a credential.
  abbrev pub AreAnswered : Type 0
  AreAnswered =
      ((fingerprint line : Text) (accepted : Bool)
        → let e = host_key_prompt id generation l fingerprint line in
          ssh_verify_host_key try_send r e.session_id e.generation e.layer accepted
          ≡ one_send try_send s.host_key_tx (host_key (record { layer = l; accepted = accepted })))
      × ((asked : AuthChallenge) (responses : List Text)
          → let e = Auths.challenge l id generation asked in
            ssh_auth_keyboard_interactive_responses try_send r e.session_id e.generation e.layer
              e.round_id responses
            ≡ one_send try_send s.auth_tx (
                credential (record {
                  layer = l;
                  method = keyboard_interactive_responses asked.round_id responses;
                })))
      × ((kind value : Text)
          → let e = Auths.simple kind l id generation in
            (ssh_auth_password try_send r e.session_id e.generation e.layer value
              ≡ one_send try_send s.auth_tx
                  (credential (record { layer = l; method = password value })))
            × (ssh_auth_private_key_passphrase try_send r e.session_id e.generation e.layer value
                ≡ one_send try_send s.auth_tx
                    (credential (record { layer = l; method = private_key_passphrase value }))))

-- What the user interface finds in an event is enough to answer it: a call with the id, generation,
-- layer and round that a host-key prompt, a challenge or a request for a credential carries sends
-- exactly one message, the answer for that layer and round, to the session that the event is about,
-- while that session is registered under its 32-bit id with that generation.
pub prompts-AreAnswered :
    (try_send : ℕ → Message → Option Text) (r : Registry) (id generation : ℕ)
    (s : AuthSessionChannels) (l : ConnectionLayer)
    → id ≤ 4294967295
    → 1 ≤ generation
    → find_auth_session_channels r id ≡ ok s
    → s.generation ≡ generation
    → AreAnswered try_send r id generation s l
unfolding host_key_prompt Auths.challenge Auths.simple ssh_verify_host_key
    ssh_auth_keyboard_interactive_responses ssh_auth_password ssh_auth_private_key_passphrase
prompts-AreAnswered try_send r id generation s l fits positive found current = (
  λ fingerprint line accepted.
      rw (host_key_plan-to_string r id generation fits positive found current l accepted),
  λ asked responses. rw (
      credential_plan-to_string r id generation fits positive found current l
        (keyboard_interactive_responses asked.round_id responses)),
  λ kind value. (
    rw (credential_plan-to_string r id generation fits positive found current l (password value)),
    rw (
        credential_plan-to_string r id generation fits positive found current l
          (private_key_passphrase value)),
  ),
)
