-- ===== src/Login/Ends.antt =====
-- The loops of `run_authentication` in leantty_ssh/src/lib.rs end, whatever the server and the user do.
use leantty.Prelude.{
  ℕ, zero, suc, ◌+◌, ◌≤◌, ◌<◌, [], Bool, not, is_empty, if◌then◌else◌, Option, none, some, ◌≡◌,
  refl, Text, arith, Result, ok, err,
}
use leantty.Auth.{
  AuthAction, AuthStateMachine, new, select_next_method, present_challenge,
  present_challenge_action, fail, attempt_public_key, request_private_key_passphrase,
  request_password, start_keyboard_interactive,
}
use leantty.Auth.Command.{select, challenge}
use leantty.Auth.Invariant.{Inv, new-Inv, perform-Inv}
use leantty.Auth.Bounds.{choices_left, is_choice, choices_left-perform}
use leantty.Waits.{wait_for_auth_exchange}
use leantty.Login.{
  auth_method_kinds, authenticated, AuthenticationOutcome, AuthResult, success, failure,
  KeyboardInteractiveAuthResponse, interactive_success, interactive_failure, info_request, Peers,
  completed, ask_user, Step, ends, continues, step_with, passphrase_step, password_step,
  challenge_step, interactive_loop, start_interactive, perform_action, authentication_loop,
  start_authentication, run_authentication,
}
use leantty.Login.Steps.{
  Leaves, step_with-Leaves, present_challenge-rounds, challenge_step-Leaves, passphrase_step-Leaves,
  password_step-Leaves,
}

module _ (peers : Peers) where
  -- A result of enough fuel.
  abbrev Finds : ℕ → Option (Step AuthResult) → Type 0
  Finds left none = ⊥
  Finds left (some step) = Leaves left 0 step

  -- What the inner loop does with a step, given that the rest of it ends.
  after_round-Finds :
      (fuel left rounds n k : ℕ)
      → ((s : AuthStateMachine) (r : KeyboardInteractiveAuthResponse)
          → Inv s
          → choices_left s ≤ left
          → rounds ≤ s.interactive_rounds
          → Finds left (interactive_loop peers fuel n k s r))
      → (step : Step KeyboardInteractiveAuthResponse) → Leaves left rounds step
      → Finds left (elim step [
        | ends outcome ↦ some (ends outcome)
        | continues s' r ↦ interactive_loop peers fuel n k s' r
      ])
  after_round-Finds fuel left rounds n k rest (ends outcome) q = tt
  after_round-Finds fuel left rounds n k rest (continues s' r) q = rest s' r q.0 q.1 q.2

  interactive_loop-Finds :
      (fuel left n k : ℕ) (s : AuthStateMachine) (r : KeyboardInteractiveAuthResponse)
      → Inv s
      → choices_left s ≤ left
      → 8 < fuel + s.interactive_rounds
      → Finds left (interactive_loop peers fuel n k s r)
  unfolding interactive_loop
  interactive_loop-Finds zero left n k s r h l m = absurd (omega (arith, h.rounds_capped))
  interactive_loop-Finds (suc fuel) left n k s interactive_success h l m = tt
  interactive_loop-Finds (suc fuel) left n k s (interactive_failure methods p) h l m =
      (h, l, omega arith)
  interactive_loop-Finds (suc fuel) left n k s (info_request name ins prompts) h l m =
      let c = challenge name ins prompts in
      after_round-Finds fuel left (s.interactive_rounds + 1) n (k + 1)
        (λ s' r h' l' i.
          interactive_loop-Finds fuel left n (k + 1) s' r h' l' (omega (arith, i, m)))
        (challenge_step peers n k (present_challenge s name ins prompts))
        (challenge_step-Leaves peers left (s.interactive_rounds + 1) n k
          (present_challenge s name ins prompts) (perform-Inv s c h)
          (omega (arith, l, choices_left-perform s c h))
          (λ p. omega (arith, present_challenge-rounds s name ins prompts h p)))

  start_interactive-Finds :
      (left n : ℕ) (s : AuthStateMachine)
      (r : Result KeyboardInteractiveAuthResponse AuthenticationOutcome)
      → Inv s
      → choices_left s ≤ left
      → Finds left (start_interactive peers 9 n s r)
  unfolding start_interactive
  start_interactive-Finds left n s (err o) h l = tt
  start_interactive-Finds left n s (ok r) h l =
      interactive_loop-Finds 9 left n 0 s r h l (omega arith)

  -- A choice that was made leaves one choice less.
  abbrev Advances : ℕ → Option (Step AuthResult) → Type 0
  Advances left none = ⊥
  Advances left (some (ends outcome)) = Unit
  Advances left (some (continues s r)) = Inv s × (choices_left s + 1 ≤ left)

  Finds-Advances :
      (fewer left : ℕ) (o : Option (Step AuthResult))
      → Finds fewer o
      → fewer + 1 ≤ left
      → Advances left o
  Finds-Advances fewer left none f l = f
  Finds-Advances fewer left (some (ends outcome)) f l = tt
  Finds-Advances fewer left (some (continues s r)) f l = (f.0, omega (arith, f.1))

  perform_action-Advances :
      (left n : ℕ) (v : AuthStateMachine × AuthAction)
      → Inv v.0
      → choices_left v.0 + (if is_choice v.1 then 1 else 0) ≤ left
      → Advances left (perform_action peers 9 n v)
  unfolding perform_action
  perform_action-Advances left n (s, fail f) h l = tt
  perform_action-Advances left n (s, present_challenge_action c) h l = tt
  perform_action-Advances left n (s, attempt_public_key) h l =
      let r = completed [] (wait_for_auth_exchange (peers.authenticate_private_key n [])) in
      Finds-Advances (choices_left s) left (some (step_with s r))
        (step_with-Leaves (choices_left s) 0 s r h (omega arith) (omega arith)) l
  perform_action-Advances left n (s, request_private_key_passphrase) h l =
      let c = ask_user (peers.delivered n 0) (peers.answer n 0) in
      Finds-Advances (choices_left s) left (some (passphrase_step peers n s c))
        (passphrase_step-Leaves peers (choices_left s) n s c h (omega arith)) l
  perform_action-Advances left n (s, request_password) h l =
      let c = ask_user (peers.delivered n 0) (peers.answer n 0) in
      Finds-Advances (choices_left s) left (some (password_step peers n s c))
        (password_step-Leaves peers (choices_left s) n s c h (omega arith)) l
  perform_action-Advances left n (s, start_keyboard_interactive) h l =
      Finds-Advances (choices_left s) left _
        (start_interactive-Finds (choices_left s) n s _ h (omega arith)) l

  abbrev Ended : Option AuthenticationOutcome → Type 0
  Ended o = (outcome : AuthenticationOutcome) × (o ≡ some outcome)

  after_action-Ended :
      (fuel left n : ℕ)
      → ((s : AuthStateMachine) (r : AuthResult)
          → Inv s
          → choices_left s + 1 ≤ left
          → Ended (authentication_loop peers 9 fuel n s r))
      → (o : Option (Step AuthResult)) → Advances left o
      → Ended (elim o [
        | none ↦ none
        | some (ends outcome) ↦ some outcome
        | some (continues s' r) ↦ authentication_loop peers 9 fuel n s' r
      ])
  after_action-Ended fuel left n rest none a = absurd a
  after_action-Ended fuel left n rest (some (ends outcome)) a = (outcome, refl)
  after_action-Ended fuel left n rest (some (continues s r)) a = rest s r a.0 a.1

  authentication_loop-Ended :
      (fuel n : ℕ) (s : AuthStateMachine) (r : AuthResult)
      → Inv s
      → choices_left s < fuel
      → Ended (authentication_loop peers 9 fuel n s r)
  unfolding authentication_loop
  authentication_loop-Ended zero n s r h l = absurd (omega arith)
  authentication_loop-Ended (suc fuel) n s success h l = (authenticated, refl)
  authentication_loop-Ended (suc fuel) n s (failure methods p) h l =
      let kinds = auth_method_kinds methods in
      after_action-Ended fuel (choices_left s) (n + 1)
        (λ s' r h' l'. authentication_loop-Ended fuel (n + 1) s' r h' (omega (arith, l, l')))
        (perform_action peers 9 n (select_next_method s kinds p))
        (perform_action-Advances (choices_left s) n (select_next_method s kinds p)
          (perform-Inv s (select kinds p) h) (choices_left-perform s (select kinds p) h))

  start_authentication-Ended :
      (s : AuthStateMachine) (r : Result AuthResult AuthenticationOutcome)
      → Inv s
      → choices_left s < 28
      → Ended (start_authentication peers 9 28 s r)
  unfolding start_authentication
  start_authentication-Ended s (ok r) h l = authentication_loop-Ended 28 0 s r h l
  start_authentication-Ended s (err o) h l = (o, refl)

-- Whatever the server, the callback and the user answer, an authentication ends with an outcome: fuel
-- for 9 turns of the inner loop and 28 of the outer one is enough.
pub run_authentication-Ended :
    (peers : Peers) (private_key_path : Text) (private_key_requires_passphrase : Bool)
    → (outcome : AuthenticationOutcome) × (run_authentication peers 9 28 private_key_path
          private_key_requires_passphrase
        ≡ some outcome)
unfolding run_authentication
run_authentication-Ended peers path encrypted =
    let s = new (not (is_empty path)) encrypted in
    let h = new-Inv (not (is_empty path)) encrypted in
    start_authentication-Ended peers s _ h (unfold new in omega arith)
