-- ===== src/Auth.antt =====
-- The authentication state machine, leantty_ssh/leantty-ssh-core/src/authentication.rs. A method that
-- takes `&mut self` returns the new record with its answer; an early `return` is a branch.
pub mod Sanitize
pub mod Command
pub mod Invariant
pub mod Challenge
pub mod Selection
pub mod Bounds
mod Tests
use leantty.Prelude.{
  ℕ, ◌+◌, ◌%◌, Bool, true, false, not, ◌&&◌, ◌||◌, List, [], ◌∷◌, map, Option, none, some, ltb, leb,
  ◌==◌, if◌then◌else◌, any, keep, length, Text, str_len, is_control, u32, Result, ok, err,
}

abbrev pub max_interactive_rounds : ℕ
max_interactive_rounds = 8

abbrev pub max_auth_stages : ℕ
max_auth_stages = 8

abbrev pub max_prompts_per_round : ℕ
max_prompts_per_round = 16

abbrev pub max_server_field_bytes : ℕ
max_server_field_bytes = 4096

abbrev pub max_prompt_bytes_per_round : ℕ
max_prompt_bytes_per_round = 16384

abbrev pub max_response_bytes : ℕ
max_response_bytes = 4096

abbrev pub max_response_bytes_per_round : ℕ
max_response_bytes_per_round = 16384

pub data AuthMethodKind : Type 0 where
  public_key password keyboard_interactive : AuthMethodKind

pub record AuthPrompt : Type 0 where
  pub text : Text
  pub echo : Bool

pub record AuthChallenge : Type 0 where
  pub round_id : ℕ  -- u32
  pub name : Text
  pub instructions : Text
  pub prompts : List AuthPrompt

pub data AuthFailure : Type 0 where
  no_supported_method rejected unexpected_credential unexpected_challenge : AuthFailure
  stale_challenge response_count_mismatch protocol_limit_exceeded : AuthFailure

pub data AuthAction : Type 0 where
  attempt_public_key request_private_key_passphrase request_password : AuthAction
  start_keyboard_interactive : AuthAction
  present_challenge_action : AuthChallenge → AuthAction
  fail : AuthFailure → AuthAction

pub data WaitingFor : Type 0 where
  private_key_passphrase account_password : WaitingFor

pub record AuthStateMachine : Type 0 where
  pub has_private_key : Bool
  pub private_key_requires_passphrase : Bool
  pub public_key_attempted : Bool
  pub password_attempted : Bool
  pub keyboard_interactive_attempted : Bool
  pub any_method_attempted : Bool
  pub waiting_for : Option WaitingFor
  pub pending_challenge : Option (ℕ × ℕ)
  pub next_round_id : ℕ  -- u32
  pub interactive_rounds : ℕ  -- u32
  pub auth_stages : ℕ  -- u32

unfoldable pub new : Bool → Bool → AuthStateMachine
new has_private_key private_key_requires_passphrase = record {
  has_private_key = has_private_key;
  private_key_requires_passphrase = private_key_requires_passphrase;
  public_key_attempted = false;
  password_attempted = false;
  keyboard_interactive_attempted = false;
  any_method_attempted = false;
  waiting_for = none;
  pending_challenge = none;
  next_round_id = 1;
  interactive_rounds = 0;
  auth_stages = 1;
}

abbrev pub same_kind : AuthMethodKind → AuthMethodKind → Bool
same_kind public_key public_key = true
same_kind password password = true
same_kind keyboard_interactive keyboard_interactive = true
same_kind _ _ = false

-- `remaining_methods.contains(&kind)`
unfoldable pub contains : List AuthMethodKind → AuthMethodKind → Bool
contains methods kind = any (same_kind kind) methods

abbrev pub is_some {ℓ} : {A : Type ℓ} → Option A → Bool
is_some none = false
is_some (some a) = true

-- The reset of `partial_success`: a new stage, in which every method may be tried again.
next_stage : AuthStateMachine → AuthStateMachine
next_stage s = record s {
  auth_stages = u32 (s.auth_stages + 1);
  public_key_attempted = false;
  password_attempted = false;
  keyboard_interactive_attempted = false;
  any_method_attempted = false;
}

-- What `select_next_method` does before it chooses a method.
unfoldable pub begin_stage : AuthStateMachine → Bool → AuthStateMachine
unfolding next_stage
begin_stage s partial_success = record (if partial_success then next_stage s else s) {
  waiting_for = none;
  pending_challenge = none;
}

-- The choice of a method, from the first test on `has_private_key` to the end.
unfoldable pub choose_method :
    AuthStateMachine → List AuthMethodKind → Bool → AuthStateMachine × AuthAction
choose_method s remaining partial_success =
    if s.has_private_key && not s.public_key_attempted && contains remaining public_key
    then (if s.private_key_requires_passphrase
        then (
          record s { waiting_for = some private_key_passphrase },
          request_private_key_passphrase,
        )
        else (
          record s { public_key_attempted = true; any_method_attempted = true },
          attempt_public_key,
        ))
    else if not s.keyboard_interactive_attempted && contains remaining keyboard_interactive
    then (
      record s { keyboard_interactive_attempted = true; any_method_attempted = true },
      start_keyboard_interactive,
    )
    else if not s.password_attempted && contains remaining password
    then (record s { waiting_for = some account_password }, request_password)
    else if partial_success || s.any_method_attempted
    then (s, fail rejected)
    else (s, fail no_supported_method)

unfoldable pub select_next_method :
    AuthStateMachine → List AuthMethodKind → Bool → AuthStateMachine × AuthAction
select_next_method s remaining partial_success =
    if is_some s.waiting_for || is_some s.pending_challenge
    then (s, fail unexpected_credential)
    else if partial_success && leb max_auth_stages s.auth_stages
    then (s, fail protocol_limit_exceeded)
    else choose_method (begin_stage s partial_success) remaining partial_success

abbrev waits_for_passphrase : Option WaitingFor → Bool
waits_for_passphrase (some private_key_passphrase) = true
waits_for_passphrase _ = false

abbrev waits_for_password : Option WaitingFor → Bool
waits_for_password (some account_password) = true
waits_for_password _ = false

unfoldable pub submit_private_key_passphrase : AuthStateMachine → AuthStateMachine × AuthAction
submit_private_key_passphrase s =
    if waits_for_passphrase s.waiting_for
    then (
      record s { waiting_for = none; public_key_attempted = true; any_method_attempted = true },
      attempt_public_key,
    )
    else (s, fail unexpected_credential)

unfoldable pub submit_password : AuthStateMachine → AuthStateMachine × Result (Unit {0}) AuthFailure
submit_password s =
    if waits_for_password s.waiting_for
    then (
      record s { waiting_for = none; password_attempted = true; any_method_attempted = true },
      ok tt,
    )
    else (s, err unexpected_credential)

unfoldable pub sanitize_server_text : Text → Text
sanitize_server_text value =
    keep (λ c. c == b'\n' || c == b'\r' || c == b'\t' || not (is_control c)) value

abbrev pub sum : List ℕ → ℕ
sum [] = 0
sum (n ∷ ns) = n + sum ns

abbrev pub prompt_bytes : AuthPrompt → ℕ
prompt_bytes p = str_len p.text

-- The limits on one information request, in the order of the source.
pub challenge_too_large : AuthStateMachine → Text → Text → List AuthPrompt → Bool
challenge_too_large s name instructions prompts =
    leb max_interactive_rounds s.interactive_rounds
    || ltb max_prompts_per_round (length prompts)
    || ltb max_server_field_bytes (str_len name)
    || ltb max_server_field_bytes (str_len instructions)
    || any (λ p. ltb max_server_field_bytes (prompt_bytes p)) prompts
    || ltb max_prompt_bytes_per_round (sum (map prompt_bytes prompts))

abbrev pub sanitize_prompt : AuthPrompt → AuthPrompt
sanitize_prompt p = record { text = sanitize_server_text p.text; echo = p.echo }

unfoldable pub present_challenge :
    AuthStateMachine → Text → Text → List AuthPrompt → AuthStateMachine × AuthAction
present_challenge s name instructions prompts =
    if not s.keyboard_interactive_attempted || is_some s.pending_challenge
    then (s, fail unexpected_challenge)
    else if challenge_too_large s name instructions prompts
    then (s, fail protocol_limit_exceeded)
    else if leb 4294967295 s.next_round_id
    then (s, fail protocol_limit_exceeded)
    else (
      record s {
        next_round_id = s.next_round_id + 1;
        interactive_rounds = u32 (s.interactive_rounds + 1);
        pending_challenge = some (s.next_round_id, length prompts);
      },
      present_challenge_action (record {
        round_id = s.next_round_id;
        name = sanitize_server_text name;
        instructions = sanitize_server_text instructions;
        prompts = map sanitize_prompt prompts;
      }),
    )

-- The tests of `validate_responses` once a challenge is pending.
check_responses : ℕ → ℕ → ℕ → List Text → Result (Unit {0}) AuthFailure
check_responses pending_round_id prompt_count round_id responses =
    if not (round_id == pending_round_id)
    then err stale_challenge
    else if not (length responses == prompt_count)
    then err response_count_mismatch
    else if any (λ r. ltb max_response_bytes (str_len r)) responses
        || ltb max_response_bytes_per_round (sum (map str_len responses))
    then err protocol_limit_exceeded
    else ok tt

-- The pending challenge is dropped only by an accepted answer.
accept_responses :
    AuthStateMachine
    → Result (Unit {0}) AuthFailure
    → AuthStateMachine × Result (Unit {0}) AuthFailure
accept_responses s (ok u) = (record s { pending_challenge = none }, ok u)
accept_responses s (err e) = (s, err e)

validate_pending :
    AuthStateMachine
    → Option (ℕ × ℕ)
    → ℕ
    → List Text
    → AuthStateMachine × Result (Unit {0}) AuthFailure
unfolding check_responses accept_responses
validate_pending s none round_id responses = (s, err unexpected_challenge)
validate_pending s (some (pending_round_id, prompt_count)) round_id responses =
    accept_responses s (check_responses pending_round_id prompt_count round_id responses)

unfoldable pub validate_responses :
    AuthStateMachine → ℕ → List Text → AuthStateMachine × Result (Unit {0}) AuthFailure
unfolding validate_pending
validate_responses s round_id responses = validate_pending s s.pending_challenge round_id responses
