-- ===== src/Login/Steps.antt =====
-- One step of `run_authentication` in leantty_ssh/src/lib.rs leaves the machine well formed, with no more
-- choices than before.
use leantty.Prelude.{ℕ, ◌+◌, ◌≤◌, Bool, true, false, List, ◌≡◌, refl, Text, arith, Result, ok, err}
use leantty.Auth.{
  AuthPrompt, AuthAction, AuthStateMachine, submit_private_key_passphrase, submit_password,
  present_challenge, validate_responses, AuthFailure, present_challenge_action, fail,
  attempt_public_key, request_private_key_passphrase, request_password, start_keyboard_interactive,
}
use leantty.Auth.Command.{give_passphrase, give_password, respond}
use leantty.Auth.Invariant.{Inv, perform-Inv}
use leantty.Auth.Bounds.{choices_left, choices_left-perform}
use leantty.Registry.{AuthMethod, password, private_key_passphrase, keyboard_interactive_responses}
use leantty.Login.{
  AuthenticationOutcome, Peers, Step, ends, continues, step_with, fails_with, passphrase_step,
  password_step, response_step, challenge_step,
}

-- A step leaves a well-formed machine with at most `left` choices and at least `rounds` rounds counted.
abbrev pub Leaves : {A : Type 0} → ℕ → ℕ → Step A → Type 0
Leaves left rounds (ends outcome) = Unit {0}
Leaves left rounds (continues s r) =
    Inv s × (choices_left s ≤ left) × (rounds ≤ s.interactive_rounds)

pub step_with-Leaves :
    {A : Type 0} (left rounds : ℕ) (s : AuthStateMachine) (r : Result A AuthenticationOutcome)
    → Inv s
    → choices_left s ≤ left
    → rounds ≤ s.interactive_rounds
    → Leaves left rounds (step_with s r)
step_with-Leaves left rounds s (ok a) h c i = (h, c, i)
step_with-Leaves left rounds s (err o) h c i = tt

-- What follows a call of the machine that may refuse.
checked-Leaves :
    {A : Type 0} (left rounds : ℕ) (s : AuthStateMachine) (checked : Result (Unit {0}) AuthFailure)
    (r : Result A AuthenticationOutcome)
    → Inv s
    → choices_left s ≤ left
    → rounds ≤ s.interactive_rounds
    → Leaves left rounds (elim checked [ err f ↦ fails_with f | ok u ↦ step_with s r ])
checked-Leaves left rounds s (err f) r h c i = tt
checked-Leaves left rounds s (ok u) r h c i = step_with-Leaves left rounds s r h c i

keyed-Leaves :
    {A : Type 0} (left rounds : ℕ) (s : AuthStateMachine) (a : AuthAction)
    (r : Result A AuthenticationOutcome)
    → Inv s
    → choices_left s ≤ left
    → rounds ≤ s.interactive_rounds
    → Leaves left rounds (elim a [ fail f ↦ fails_with f | _ ↦ step_with s r ])
keyed-Leaves left rounds s (fail f) r h c i = tt
keyed-Leaves left rounds s attempt_public_key r h c i = step_with-Leaves left rounds s r h c i
keyed-Leaves left rounds s request_private_key_passphrase r h c i =
    step_with-Leaves left rounds s r h c i
keyed-Leaves left rounds s request_password r h c i = step_with-Leaves left rounds s r h c i
keyed-Leaves left rounds s start_keyboard_interactive r h c i =
    step_with-Leaves left rounds s r h c i
keyed-Leaves left rounds s (present_challenge_action q) r h c i =
    step_with-Leaves left rounds s r h c i

validate_responses-rounds :
    (s : AuthStateMachine) (round_id : ℕ) (responses : List Text)
    → (validate_responses s round_id responses).0.interactive_rounds ≡ s.interactive_rounds
unfolding validate_responses
validate_responses-rounds s round_id responses = ground arith

-- A presented challenge is a round.
unfoldable pub is_presented : AuthAction → Bool
is_presented (present_challenge_action c) = true
is_presented _ = false

pub present_challenge-rounds :
    (s : AuthStateMachine) (name instructions : Text) (prompts : List AuthPrompt)
    → Inv s
    → is_presented (present_challenge s name instructions prompts).1 ≡ true
    → (present_challenge s name instructions prompts).0.interactive_rounds
      ≡ s.interactive_rounds + 1
unfolding present_challenge is_presented
present_challenge-rounds s name instructions prompts h p = ground arith

module _ (peers : Peers) where
  response_step-Leaves :
      (left rounds n k : ℕ) (s : AuthStateMachine) (c : Result AuthMethod AuthenticationOutcome)
      → Inv s
      → choices_left s ≤ left
      → rounds ≤ s.interactive_rounds
      → Leaves left rounds (response_step peers n k s c)
  unfolding response_step
  response_step-Leaves left rounds n k s (err o) h c i = tt
  response_step-Leaves left rounds n k s (ok (password value)) h c i = tt
  response_step-Leaves left rounds n k s (ok (private_key_passphrase value)) h c i = tt
  response_step-Leaves left rounds n k s (ok (keyboard_interactive_responses id rs)) h c i =
      checked-Leaves left rounds (validate_responses s id rs).0 (validate_responses s id rs).1 _
        (perform-Inv s (respond id rs) h)
        (omega (arith, c, choices_left-perform s (respond id rs) h))
        (omega (arith, i, validate_responses-rounds s id rs))

  pub challenge_step-Leaves :
      (left rounds n k : ℕ) (v : AuthStateMachine × AuthAction)
      → Inv v.0
      → choices_left v.0 ≤ left
      → (is_presented v.1 ≡ true → rounds ≤ v.0.interactive_rounds)
      → Leaves left rounds (challenge_step peers n k v)
  unfolding challenge_step is_presented
  challenge_step-Leaves left rounds n k (s, present_challenge_action c) h l i =
      response_step-Leaves left rounds n k s _ h l (i refl)
  challenge_step-Leaves left rounds n k (s, fail f) h l i = tt
  challenge_step-Leaves left rounds n k (s, attempt_public_key) h l i = tt
  challenge_step-Leaves left rounds n k (s, request_private_key_passphrase) h l i = tt
  challenge_step-Leaves left rounds n k (s, request_password) h l i = tt
  challenge_step-Leaves left rounds n k (s, start_keyboard_interactive) h l i = tt

  pub passphrase_step-Leaves :
      (left n : ℕ) (s : AuthStateMachine) (c : Result AuthMethod AuthenticationOutcome)
      → Inv s
      → choices_left s ≤ left
      → Leaves left 0 (passphrase_step peers n s c)
  unfolding passphrase_step
  passphrase_step-Leaves left n s (err o) h l = tt
  passphrase_step-Leaves left n s (ok (password value)) h l = tt
  passphrase_step-Leaves left n s (ok (keyboard_interactive_responses id rs)) h l = tt
  passphrase_step-Leaves left n s (ok (private_key_passphrase value)) h l =
      keyed-Leaves left 0 (submit_private_key_passphrase s).0 (submit_private_key_passphrase s).1 _
        (perform-Inv s give_passphrase h)
        (omega (arith, l, choices_left-perform s give_passphrase h)) (omega arith)

  pub password_step-Leaves :
      (left n : ℕ) (s : AuthStateMachine) (c : Result AuthMethod AuthenticationOutcome)
      → Inv s
      → choices_left s ≤ left
      → Leaves left 0 (password_step peers n s c)
  unfolding password_step
  password_step-Leaves left n s (err o) h l = tt
  password_step-Leaves left n s (ok (private_key_passphrase value)) h l = tt
  password_step-Leaves left n s (ok (keyboard_interactive_responses id rs)) h l = tt
  password_step-Leaves left n s (ok (password value)) h l =
      checked-Leaves left 0 (submit_password s).0 (submit_password s).1 _
        (perform-Inv s give_password h) (omega (arith, l, choices_left-perform s give_password h))
        (omega arith)
