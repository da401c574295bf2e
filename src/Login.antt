-- ===== src/Login.antt =====
-- `run_authentication` of leantty_ssh/src/lib.rs: the loop that drives the state machine of Auth by what
-- the server and the user answer. `Peers` answers each call of a run by its turn, any function; a turn
-- counts the selections and, within a keyboard-interactive exchange, its responses.
pub mod Steps
pub mod Ends
pub mod Refusal
mod Tests
use leantty.Prelude.{
  ℕ, zero, suc, ◌+◌, Bool, true, false, not, List, [], ◌∷◌, ◌++◌, Option, none, some, Text, codes,
  is_empty, Result, ok, err,
}
use leantty.Auth.{
  AuthMethodKind, public_key, password, keyboard_interactive, AuthPrompt, AuthAction, AuthFailure,
  AuthStateMachine, no_supported_method, rejected, unexpected_credential, unexpected_challenge,
  stale_challenge, response_count_mismatch, protocol_limit_exceeded, attempt_public_key,
  request_private_key_passphrase, request_password, start_keyboard_interactive,
  present_challenge_action, fail, new, select_next_method, submit_private_key_passphrase,
  submit_password, present_challenge, validate_responses,
}
use leantty.Registry.{AuthMethod, private_key_passphrase, keyboard_interactive_responses}
use leantty.Waits.{
  AuthWaitResult, command, auth_cancelled, auth_timed_out, ExchangeEvent, AuthExchangeResult,
  exchange_completed, exchange_failed, exchange_cancelled, exchange_timed_out,
  wait_for_auth_exchange,
}

-- The methods a server may name; the client knows three of them.
pub data MethodKind : Type 0 where
  method_public_key method_password method_keyboard_interactive method_other : MethodKind

unfoldable pub auth_method_kinds : List MethodKind → List AuthMethodKind
auth_method_kinds [] = []
auth_method_kinds (method_public_key ∷ ms) = public_key ∷ auth_method_kinds ms
auth_method_kinds (method_password ∷ ms) = password ∷ auth_method_kinds ms
auth_method_kinds (method_keyboard_interactive ∷ ms) = keyboard_interactive ∷ auth_method_kinds ms
auth_method_kinds (method_other ∷ ms) = auth_method_kinds ms

abbrev pub auth_failure_message : AuthFailure → Text
auth_failure_message no_supported_method = codes "no supported authentication method is available"
auth_failure_message rejected = codes "authentication was rejected"
auth_failure_message unexpected_credential = codes "unexpected authentication credential"
auth_failure_message unexpected_challenge = codes "unexpected keyboard-interactive challenge"
auth_failure_message stale_challenge = codes "stale keyboard-interactive response"
auth_failure_message response_count_mismatch =
    codes "keyboard-interactive response count does not match prompts"
auth_failure_message protocol_limit_exceeded = codes "authentication protocol limit exceeded"

pub data AuthenticationOutcome : Type 0 where
  authenticated cancelled : AuthenticationOutcome
  failed : Text → AuthenticationOutcome

pub data AuthResult : Type 0 where
  success : AuthResult
  failure : List MethodKind → Bool → AuthResult

pub data KeyboardInteractiveAuthResponse : Type 0 where
  interactive_success : KeyboardInteractiveAuthResponse
  interactive_failure : List MethodKind → Bool → KeyboardInteractiveAuthResponse
  info_request : Text → Text → List AuthPrompt → KeyboardInteractiveAuthResponse

-- The server, the callback and the user. `authenticate_private_key` includes the loading of the key.
pub record Peers : Type 0 where
  pub authenticate_none : ExchangeEvent AuthResult
  pub authenticate_private_key : ℕ → Text → ExchangeEvent AuthResult
  pub authenticate_password : ℕ → Text → ExchangeEvent AuthResult
  pub interactive_start : ℕ → ExchangeEvent KeyboardInteractiveAuthResponse
  pub interactive_respond : ℕ → ℕ → List Text → ExchangeEvent KeyboardInteractiveAuthResponse
  pub delivered : ℕ → ℕ → Bool
  pub answer : ℕ → ℕ → AuthWaitResult

-- The `match` on an exchange; `prefix` stands in front of an error.
unfoldable pub completed :
    {T : Type 0} → Text → AuthExchangeResult T → Result T AuthenticationOutcome
completed prefix' (exchange_completed value) = ok value
completed prefix' (exchange_failed error) = err (failed (prefix' ++ error))
completed prefix' exchange_cancelled = err cancelled
completed prefix' exchange_timed_out = err (failed (codes "authentication exchange timed out"))

-- A question to the user: the event of the callback and the wait for the answer.
unfoldable pub ask_user : Bool → AuthWaitResult → Result AuthMethod AuthenticationOutcome
ask_user false waited = err (failed (codes "authentication callback delivery failed"))
ask_user true (command c) = ok c
ask_user true auth_cancelled = err cancelled
ask_user true auth_timed_out = err (failed (codes "authentication response timed out"))

-- A step ends the run, or leaves a machine and the next answer of the server.
pub data Step (A : Type 0) : Type 0 where
  ends : AuthenticationOutcome → Step A
  continues : AuthStateMachine → A → Step A

abbrev pub step_with : {A : Type 0} → AuthStateMachine → Result A AuthenticationOutcome → Step A
step_with s (ok value) = continues s value
step_with s (err outcome) = ends outcome

abbrev pub fails_with : {A : Type 0} → AuthFailure → Step A
fails_with f = ends (failed (auth_failure_message f))

module _ (peers : Peers) where
  unfoldable pub passphrase_step :
      ℕ → AuthStateMachine → Result AuthMethod AuthenticationOutcome → Step AuthResult
  passphrase_step n s (ok (private_key_passphrase value)) =
      let (s', a) = submit_private_key_passphrase s in
      elim a [
        | fail f ↦ fails_with f
        | _ ↦
            step_with s'
              (completed [] (wait_for_auth_exchange (peers.authenticate_private_key n value)))
      ]
  passphrase_step n s (ok c) = fails_with unexpected_credential
  passphrase_step n s (err outcome) = ends outcome

  unfoldable pub password_step :
      ℕ → AuthStateMachine → Result AuthMethod AuthenticationOutcome → Step AuthResult
  password_step n s (ok (leantty.Registry.password value)) =
      let (s', a) = submit_password s in
      elim a [
        | err f ↦ fails_with f
        | ok u ↦ step_with s' (
            completed (codes "password authentication failed: ")
              (wait_for_auth_exchange (peers.authenticate_password n value)))
      ]
  password_step n s (ok c) = fails_with unexpected_credential
  password_step n s (err outcome) = ends outcome

  unfoldable pub response_step :
      ℕ
      → ℕ
      → AuthStateMachine
      → Result AuthMethod AuthenticationOutcome
      → Step KeyboardInteractiveAuthResponse
  response_step n k s (ok (keyboard_interactive_responses round_id responses)) =
      let (s', a) = validate_responses s round_id responses in
      elim a [
        | err f ↦ fails_with f
        | ok u ↦ step_with s' (
            completed (codes "keyboard-interactive response failed: ")
              (wait_for_auth_exchange (peers.interactive_respond n k responses)))
      ]
  response_step n k s (ok c) = fails_with unexpected_credential
  response_step n k s (err outcome) = ends outcome

  -- One information request, given what the machine made of it.
  unfoldable pub challenge_step :
      ℕ → ℕ → AuthStateMachine × AuthAction → Step KeyboardInteractiveAuthResponse
  challenge_step n k (s, present_challenge_action c) =
      response_step n k s (ask_user (peers.delivered n k) (peers.answer n k))
  challenge_step n k (s, fail f) = fails_with f
  challenge_step n k (s, _) = fails_with unexpected_challenge

  -- The inner loop; it ends with the run, or with a failure that the outer loop goes on from.
  unfoldable pub interactive_loop :
      ℕ → ℕ → ℕ → AuthStateMachine → KeyboardInteractiveAuthResponse → Option (Step AuthResult)
  interactive_loop zero n k s r = none
  interactive_loop (suc fuel) n k s interactive_success = some (ends authenticated)
  interactive_loop (suc fuel) n k s (interactive_failure methods partial_success) =
      some (continues s (failure methods partial_success))
  interactive_loop (suc fuel) n k s (info_request name instructions prompts) =
      elim (challenge_step n k (present_challenge s name instructions prompts)) [
        | ends outcome ↦ some (ends outcome)
        | continues s' r ↦ interactive_loop fuel n (k + 1) s' r
      ]

  unfoldable pub start_interactive :
      ℕ
      → ℕ
      → AuthStateMachine
      → Result KeyboardInteractiveAuthResponse AuthenticationOutcome
      → Option (Step AuthResult)
  start_interactive rounds n s (ok r) = interactive_loop rounds n 0 s r
  start_interactive rounds n s (err outcome) = some (ends outcome)

  -- The `match` on the selected action.
  unfoldable pub perform_action : ℕ → ℕ → AuthStateMachine × AuthAction → Option (Step AuthResult)
  perform_action rounds n (s, attempt_public_key) =
      some
        (step_with s (completed [] (wait_for_auth_exchange (peers.authenticate_private_key n []))))
  perform_action rounds n (s, request_private_key_passphrase) =
      some (passphrase_step n s (ask_user (peers.delivered n 0) (peers.answer n 0)))
  perform_action rounds n (s, request_password) =
      some (password_step n s (ask_user (peers.delivered n 0) (peers.answer n 0)))
  perform_action rounds n (s, start_keyboard_interactive) = start_interactive rounds n s (
      completed (codes "keyboard-interactive authentication failed: ")
        (wait_for_auth_exchange (peers.interactive_start n)))
  perform_action rounds n (s, fail f) = some (fails_with f)
  perform_action rounds n (s, present_challenge_action c) = some (fails_with unexpected_challenge)

  unfoldable pub authentication_loop :
      ℕ → ℕ → ℕ → AuthStateMachine → AuthResult → Option AuthenticationOutcome
  authentication_loop rounds zero n s r = none
  authentication_loop rounds (suc fuel) n s success = some authenticated
  authentication_loop rounds (suc fuel) n s (failure methods partial_success) =
      elim (perform_action rounds n
        (select_next_method s (auth_method_kinds methods) partial_success)) [
          | none ↦ none
          | some (ends outcome) ↦ some outcome
          | some (continues s' r) ↦ authentication_loop rounds fuel (n + 1) s' r
        ]

  unfoldable pub start_authentication :
      ℕ
      → ℕ
      → AuthStateMachine
      → Result AuthResult AuthenticationOutcome
      → Option AuthenticationOutcome
  start_authentication rounds fuel s (ok r) = authentication_loop rounds fuel 0 s r
  start_authentication rounds fuel s (err outcome) = some outcome

  -- Fuel for `rounds` responses of the inner loop and `fuel` selections of the outer one.
  unfoldable pub run_authentication : ℕ → ℕ → Text → Bool → Option AuthenticationOutcome
  run_authentication rounds fuel private_key_path private_key_requires_passphrase =
      start_authentication rounds fuel
        (new (not (is_empty private_key_path)) private_key_requires_passphrase)
        (completed (codes "authentication negotiation failed: ")
          (wait_for_auth_exchange peers.authenticate_none))
