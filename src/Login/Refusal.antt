-- ===== src/Login/Refusal.antt =====
-- `run_authentication` of leantty_ssh/src/lib.rs against a server that never reports a success.
use leantty.Prelude.{
  ℕ, zero, suc, ◌+◌, Bool, true, false, not, List, [], Option, none, some, ◌≢◌, Text, arith, Result,
  ok, err, is_empty,
}
use leantty.Auth.{
  AuthStateMachine, AuthAction, AuthFailure, attempt_public_key, request_private_key_passphrase,
  request_password, start_keyboard_interactive, present_challenge_action, fail, select_next_method,
  present_challenge, submit_private_key_passphrase, submit_password, validate_responses, new,
}
use leantty.Registry.{AuthMethod, password, private_key_passphrase, keyboard_interactive_responses}
use leantty.Waits.{
  AuthWaitResult, command, auth_cancelled, auth_timed_out, ExchangeEvent, exchange_done,
  exchange_disconnect, exchange_elapsed, wait_for_auth_exchange,
}
use leantty.Login.{
  AuthenticationOutcome, authenticated, cancelled, failed, AuthResult, success, failure,
  KeyboardInteractiveAuthResponse, interactive_success, interactive_failure, info_request,
  auth_method_kinds, Peers, completed, ask_user, Step, ends, continues, step_with, fails_with,
  passphrase_step, password_step, response_step, challenge_step, interactive_loop,
  start_interactive, perform_action, authentication_loop, start_authentication, run_authentication,
}

abbrev pub NoSuccess : AuthResult → Type 0
NoSuccess success = ⊥
NoSuccess (failure methods partial_success) = Unit

abbrev pub NoEntry : KeyboardInteractiveAuthResponse → Type 0
NoEntry interactive_success = ⊥
NoEntry _ = Unit

-- An exchange that is completed only with such an answer.
abbrev pub Yields : {T : Type 0} → (T → Type 0) → ExchangeEvent T → Type 0
Yields P (exchange_done (ok value)) = P value
Yields P _ = Unit

pub record Refuses (peers : Peers) : Type 0 where
  pub at_first : Yields NoSuccess peers.authenticate_none
  pub keys : (n : ℕ) (value : Text) → Yields NoSuccess (peers.authenticate_private_key n value)
  pub passwords : (n : ℕ) (value : Text) → Yields NoSuccess (peers.authenticate_password n value)
  pub starts : (n : ℕ) → Yields NoEntry (peers.interactive_start n)
  pub responses : (n k : ℕ) (rs : List Text) → Yields NoEntry (peers.interactive_respond n k rs)

abbrev IsDenied : AuthenticationOutcome → Type 0
IsDenied authenticated = ⊥
IsDenied _ = Unit

abbrev Returns : {T : Type 0} → (T → Type 0) → Result T AuthenticationOutcome → Type 0
Returns P (ok value) = P value
Returns P (err outcome) = IsDenied outcome

abbrev Goes : {T : Type 0} → (T → Type 0) → Step T → Type 0
Goes P (ends outcome) = IsDenied outcome
Goes P (continues s value) = P value

abbrev Runs : Option (Step AuthResult) → Type 0
Runs none = Unit
Runs (some step) = Goes NoSuccess step

abbrev NotIn : Option AuthenticationOutcome → Type 0
NotIn none = Unit
NotIn (some outcome) = IsDenied outcome

module _ {T : Type 0} (P : T → Type 0) where
  completed-Returns :
      (prefix' : Text) (e : ExchangeEvent T)
      → Yields P e
      → Returns P (completed prefix' (wait_for_auth_exchange e))
  unfolding completed wait_for_auth_exchange
  completed-Returns prefix' (exchange_done (ok value)) h = h
  completed-Returns prefix' (exchange_done (err error)) h = tt
  completed-Returns prefix' exchange_disconnect h = tt
  completed-Returns prefix' exchange_elapsed h = tt

  step_with-Goes :
      (s : AuthStateMachine) (r : Result T AuthenticationOutcome)
      → Returns P r
      → Goes P (step_with s r)
  step_with-Goes s (ok value) h = h
  step_with-Goes s (err outcome) h = h

  checked-Goes :
      (s : AuthStateMachine) (checked : Result (Unit {0}) AuthFailure)
      (r : Result T AuthenticationOutcome)
      → Returns P r
      → Goes P (elim checked [ err f ↦ fails_with f | ok u ↦ step_with s r ])
  checked-Goes s (err f) r h = tt
  checked-Goes s (ok u) r h = step_with-Goes s r h

  keyed-Goes :
      (s : AuthStateMachine) (a : AuthAction) (r : Result T AuthenticationOutcome)
      → Returns P r
      → Goes P (elim a [ fail f ↦ fails_with f | _ ↦ step_with s r ])
  keyed-Goes s (fail f) r h = tt
  keyed-Goes s attempt_public_key r h = step_with-Goes s r h
  keyed-Goes s request_private_key_passphrase r h = step_with-Goes s r h
  keyed-Goes s request_password r h = step_with-Goes s r h
  keyed-Goes s start_keyboard_interactive r h = step_with-Goes s r h
  keyed-Goes s (present_challenge_action c) r h = step_with-Goes s r h

abbrev Any : AuthMethod → Type 0
Any c = Unit

ask_user-Returns : (d : Bool) (w : AuthWaitResult) → Returns Any (ask_user d w)
unfolding ask_user
ask_user-Returns false w = tt
ask_user-Returns true (command c) = tt
ask_user-Returns true auth_cancelled = tt
ask_user-Returns true auth_timed_out = tt

module _ (peers : Peers) (refuses : Refuses peers) where
  passphrase_step-Goes :
      (n : ℕ) (s : AuthStateMachine) (c : Result AuthMethod AuthenticationOutcome)
      → Returns Any c
      → Goes NoSuccess (passphrase_step peers n s c)
  unfolding passphrase_step
  passphrase_step-Goes n s (err o) h = h
  passphrase_step-Goes n s (ok (password value)) h = tt
  passphrase_step-Goes n s (ok (keyboard_interactive_responses id rs)) h = tt
  passphrase_step-Goes n s (ok (private_key_passphrase value)) h =
      keyed-Goes NoSuccess (submit_private_key_passphrase s).0 (submit_private_key_passphrase s).1 _
        (completed-Returns NoSuccess [] (peers.authenticate_private_key n value)
          (refuses.keys n value))

  password_step-Goes :
      (n : ℕ) (s : AuthStateMachine) (c : Result AuthMethod AuthenticationOutcome)
      → Returns Any c
      → Goes NoSuccess (password_step peers n s c)
  unfolding password_step
  password_step-Goes n s (err o) h = h
  password_step-Goes n s (ok (private_key_passphrase value)) h = tt
  password_step-Goes n s (ok (keyboard_interactive_responses id rs)) h = tt
  password_step-Goes n s (ok (password value)) h =
      checked-Goes NoSuccess (submit_password s).0 (submit_password s).1 _ (
        completed-Returns NoSuccess _ (peers.authenticate_password n value)
          (refuses.passwords n value))

  response_step-Goes :
      (n k : ℕ) (s : AuthStateMachine) (c : Result AuthMethod AuthenticationOutcome)
      → Returns Any c
      → Goes NoEntry (response_step peers n k s c)
  unfolding response_step
  response_step-Goes n k s (err o) h = h
  response_step-Goes n k s (ok (password value)) h = tt
  response_step-Goes n k s (ok (private_key_passphrase value)) h = tt
  response_step-Goes n k s (ok (keyboard_interactive_responses id rs)) h =
      checked-Goes NoEntry (validate_responses s id rs).0 (validate_responses s id rs).1 _
        (completed-Returns NoEntry _ (peers.interactive_respond n k rs) (refuses.responses n k rs))

  challenge_step-Goes :
      (n k : ℕ) (v : AuthStateMachine × AuthAction) → Goes NoEntry (challenge_step peers n k v)
  unfolding challenge_step
  challenge_step-Goes n k (s, present_challenge_action c) =
      response_step-Goes n k s _ (ask_user-Returns (peers.delivered n k) (peers.answer n k))
  challenge_step-Goes n k (s, fail f) = tt
  challenge_step-Goes n k (s, attempt_public_key) = tt
  challenge_step-Goes n k (s, request_private_key_passphrase) = tt
  challenge_step-Goes n k (s, request_password) = tt
  challenge_step-Goes n k (s, start_keyboard_interactive) = tt

  after_round-Runs :
      (fuel n k : ℕ)
      → ((s : AuthStateMachine) (r : KeyboardInteractiveAuthResponse)
          → NoEntry r
          → Runs (interactive_loop peers fuel n k s r))
      → (step : Step KeyboardInteractiveAuthResponse) → Goes NoEntry step
      → Runs (elim step [
        | ends outcome ↦ some (ends outcome)
        | continues s' r ↦ interactive_loop peers fuel n k s' r
      ])
  after_round-Runs fuel n k rest (ends outcome) h = h
  after_round-Runs fuel n k rest (continues s' r) h = rest s' r h

  interactive_loop-Runs :
      (fuel n k : ℕ) (s : AuthStateMachine) (r : KeyboardInteractiveAuthResponse)
      → NoEntry r
      → Runs (interactive_loop peers fuel n k s r)
  unfolding interactive_loop
  interactive_loop-Runs zero n k s r h = tt
  interactive_loop-Runs (suc fuel) n k s interactive_success h = absurd h
  interactive_loop-Runs (suc fuel) n k s (interactive_failure methods p) h = tt
  interactive_loop-Runs (suc fuel) n k s (info_request name ins prompts) h =
      after_round-Runs fuel n (k + 1) (interactive_loop-Runs fuel n (k + 1))
        (challenge_step peers n k (present_challenge s name ins prompts))
        (challenge_step-Goes n k (present_challenge s name ins prompts))

  start_interactive-Runs :
      (rounds n : ℕ) (s : AuthStateMachine)
      (r : Result KeyboardInteractiveAuthResponse AuthenticationOutcome)
      → Returns NoEntry r
      → Runs (start_interactive peers rounds n s r)
  unfolding start_interactive
  start_interactive-Runs rounds n s (ok r) h = interactive_loop-Runs rounds n 0 s r h
  start_interactive-Runs rounds n s (err o) h = h

  perform_action-Runs :
      (rounds n : ℕ) (v : AuthStateMachine × AuthAction) → Runs (perform_action peers rounds n v)
  unfolding perform_action
  perform_action-Runs rounds n (s, fail f) = tt
  perform_action-Runs rounds n (s, present_challenge_action c) = tt
  perform_action-Runs rounds n (s, attempt_public_key) =
      step_with-Goes NoSuccess s _
        (completed-Returns NoSuccess [] (peers.authenticate_private_key n []) (refuses.keys n []))
  perform_action-Runs rounds n (s, request_private_key_passphrase) =
      passphrase_step-Goes n s _ (ask_user-Returns (peers.delivered n 0) (peers.answer n 0))
  perform_action-Runs rounds n (s, request_password) =
      password_step-Goes n s _ (ask_user-Returns (peers.delivered n 0) (peers.answer n 0))
  perform_action-Runs rounds n (s, start_keyboard_interactive) =
      start_interactive-Runs rounds n s _
        (completed-Returns NoEntry _ (peers.interactive_start n) (refuses.starts n))

  after_action-NotIn :
      (rounds fuel n : ℕ)
      → ((s : AuthStateMachine) (r : AuthResult)
          → NoSuccess r
          → NotIn (authentication_loop peers rounds fuel n s r))
      → (o : Option (Step AuthResult)) → Runs o
      → NotIn (elim o [
        | none ↦ none
        | some (ends outcome) ↦ some outcome
        | some (continues s' r) ↦ authentication_loop peers rounds fuel n s' r
      ])
  after_action-NotIn rounds fuel n rest none h = tt
  after_action-NotIn rounds fuel n rest (some (ends outcome)) h = h
  after_action-NotIn rounds fuel n rest (some (continues s r)) h = rest s r h

  authentication_loop-NotIn :
      (rounds fuel n : ℕ) (s : AuthStateMachine) (r : AuthResult)
      → NoSuccess r
      → NotIn (authentication_loop peers rounds fuel n s r)
  unfolding authentication_loop
  authentication_loop-NotIn rounds zero n s r h = tt
  authentication_loop-NotIn rounds (suc fuel) n s success h = absurd h
  authentication_loop-NotIn rounds (suc fuel) n s (failure methods p) h =
      let v = select_next_method s (auth_method_kinds methods) p in
      after_action-NotIn rounds fuel (n + 1) (authentication_loop-NotIn rounds fuel (n + 1))
        (perform_action peers rounds n v) (perform_action-Runs rounds n v)

  start_authentication-NotIn :
      (rounds fuel : ℕ) (s : AuthStateMachine) (r : Result AuthResult AuthenticationOutcome)
      → Returns NoSuccess r
      → NotIn (start_authentication peers rounds fuel s r)
  unfolding start_authentication
  start_authentication-NotIn rounds fuel s (ok r) h = authentication_loop-NotIn rounds fuel 0 s r h
  start_authentication-NotIn rounds fuel s (err o) h = h

NotIn-not_authenticated : (o : Option AuthenticationOutcome) → NotIn o → o ≢ some authenticated
NotIn-not_authenticated none h = λ e. ground arith
NotIn-not_authenticated (some authenticated) h = absurd h
NotIn-not_authenticated (some cancelled) h = λ e. ground arith
NotIn-not_authenticated (some (failed m)) h = λ e. ground arith

-- Nobody is let in by the client itself: if no exchange of the server reports a success, the outcome is
-- never `authenticated`, whatever the user answers and whatever the fuel.
pub run_authentication_refused :
    (peers : Peers) (rounds fuel : ℕ) (private_key_path : Text)
    (private_key_requires_passphrase : Bool)
    → Refuses peers
    → run_authentication peers rounds fuel private_key_path private_key_requires_passphrase
      ≢ some authenticated
unfolding run_authentication
run_authentication_refused peers rounds fuel path encrypted refuses = NotIn-not_authenticated _ (
    start_authentication-NotIn peers refuses rounds fuel (new (not (is_empty path)) encrypted) _
      (completed-Returns NoSuccess _ peers.authenticate_none refuses.at_first))
