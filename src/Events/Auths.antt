-- ===== src/Events/Auths.antt =====
-- `AuthEvent` of leantty_ssh/src/lib.rs.
use leantty.Prelude.{ℕ, Bool, List, [], map, Text, codes}
use leantty.Prelude.Decimal.{to_string}
use leantty.Auth.{AuthPrompt, AuthChallenge, sanitize_server_text}
use leantty.Registry.{ConnectionLayer, as_str}

pub record AuthPromptEvent : Type 0 where
  pub text : Text
  pub echo : Bool

pub record AuthEvent : Type 0 where
  pub kind : Text
  pub layer : Text
  pub session_id : Text
  pub generation : ℕ  -- u32
  pub round_id : ℕ  -- u32
  pub text : Text
  pub name : Text
  pub instructions : Text
  pub prompts : List AuthPromptEvent

unfoldable pub simple : Text → ConnectionLayer → ℕ → ℕ → AuthEvent
simple kind layer session_id generation = record {
  kind = kind;
  layer = as_str layer;
  session_id = to_string session_id;
  generation = generation;
  round_id = 0;
  text = [];
  name = [];
  instructions = [];
  prompts = [];
}

unfoldable pub banner : ConnectionLayer → ℕ → ℕ → Text → AuthEvent
banner layer session_id generation text = record {
  kind = codes "banner";
  layer = as_str layer;
  session_id = to_string session_id;
  generation = generation;
  round_id = 0;
  text = sanitize_server_text text;
  name = [];
  instructions = [];
  prompts = [];
}

abbrev prompt_event : AuthPrompt → AuthPromptEvent
prompt_event prompt = record { text = prompt.text; echo = prompt.echo }

unfoldable pub challenge : ConnectionLayer → ℕ → ℕ → AuthChallenge → AuthEvent
challenge layer session_id generation asked = record {
  kind = codes "challenge";
  layer = as_str layer;
  session_id = to_string session_id;
  generation = generation;
  round_id = asked.round_id;
  text = [];
  name = asked.name;
  instructions = asked.instructions;
  prompts = map prompt_event asked.prompts;
}
