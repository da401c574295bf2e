-- ===== src/Registry/Guards.antt =====
-- The four calls of leantty_ssh/src/lib.rs that answer a question of a connection: what they may send.
use leantty.Prelude.{
  ℕ, ◌≤◌, Bool, ok_or, ◌>>=◌, List, [], ◌∷◌, Option, ◌≡◌, ◌⊎◌, Text, Result, ok, err,
}
use leantty.Registry.{
  ConnectionLayer, as_str, parse_layer, password, private_key_passphrase,
  keyboard_interactive_responses, Message, credential, host_key, Registry, AuthSessionChannels,
  parse_session_id, find_auth_session_channels, current_session, Outcome, sent, ssh_auth_password,
  ssh_auth_private_key_passphrase, ssh_auth_keyboard_interactive_responses, ssh_verify_host_key,
}

-- An answer of the user.
pub data Answer : Type 0 where
  give_password give_passphrase : Text → Answer
  give_responses : ℕ → List Text → Answer
  decide_host_key : Bool → Answer

abbrev pub message_of : ConnectionLayer → Answer → Message
message_of l (give_password value) = credential (record { layer = l; method = password value })
message_of l (give_passphrase value) =
    credential (record { layer = l; method = private_key_passphrase value })
message_of l (give_responses round_id responses) =
    credential (record { layer = l; method = keyboard_interactive_responses round_id responses })
message_of l (decide_host_key accepted) = host_key (record { layer = l; accepted = accepted })

abbrev pub channel_of : AuthSessionChannels → Answer → ℕ
channel_of s (decide_host_key accepted) = s.host_key_tx
channel_of s _ = s.auth_tx

abbrev pub submit :
    (ℕ → Message → Option Text) → Registry → Text → ℕ → Text → Answer → Outcome (Unit {0})
submit try_send r session_id generation layer (give_password value) =
    ssh_auth_password try_send r session_id generation layer value
submit try_send r session_id generation layer (give_passphrase value) =
    ssh_auth_private_key_passphrase try_send r session_id generation layer value
submit try_send r session_id generation layer (give_responses round_id responses) =
    ssh_auth_keyboard_interactive_responses try_send r session_id generation layer round_id
      responses
submit try_send r session_id generation layer (decide_host_key accepted) =
    ssh_verify_host_key try_send r session_id generation layer accepted

-- A session of the current generation, and a layer, that a call names.
pub record IsAddressed (r : Registry) (session_id : Text) (generation : ℕ) (layer : Text)
    (s : AuthSessionChannels) (l : ConnectionLayer) : Type 0 where
  pub id : ℕ
  pub names_id : parse_session_id session_id ≡ ok id
  pub found : find_auth_session_channels r id ≡ ok s
  pub generation_pos : 1 ≤ generation
  pub is_current : s.generation ≡ generation
  pub names_layer : layer ≡ as_str l

module _ (r : Registry) (session_id : Text) (generation : ℕ) (layer : Text) where
  module _ (try_send : ℕ → Message → Option Text)
      (plan : AuthSessionChannels → ConnectionLayer → ℕ × Message) where
    -- A call sends nothing and fails, or sends the planned message to an addressed session.
    abbrev IsGuarded : Outcome (Unit {0}) → Type 0
    IsGuarded o =
        (o.sends ≡ []) × ((e : Text) × (o.result ≡ err e))
        ⊎ ((s : AuthSessionChannels) × ((l : ConnectionLayer) × IsAddressed r session_id generation
                layer s l
              × (o.sends ≡ plan s l ∷ [])
              × (o.result ≡ sent try_send (try_send (plan s l).0 (plan s l).1))))

    abbrev planned : Text → Text → Result (ℕ × Message) Text
    planned stale no_layer = do
      s ← current_session r session_id generation stale
      l ← ok_or (parse_layer layer) no_layer
      ok (plan s l)
