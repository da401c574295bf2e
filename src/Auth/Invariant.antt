-- ===== src/Auth/Invariant.antt =====
-- What holds of the state machine between two calls, whatever the calls were.
use leantty.Prelude.{ℕ, ◌+◌, ◌≤◌, ◌<◌, Bool, true, false, List, [], ◌∷◌, ◌≡◌, some, arith, Text}
use leantty.Auth.{
  AuthMethodKind, AuthPrompt, AuthStateMachine, begin_stage, choose_method, private_key_passphrase,
  account_password, new, challenge_too_large, select_next_method, submit_private_key_passphrase,
  submit_password, present_challenge, validate_responses,
}
use leantty.Auth.Command.{
  Command, select, give_passphrase, give_password, challenge, respond, perform, run,
}

pub record Inv (s : AuthStateMachine) : Type 0 where
  pub rounds_capped : s.interactive_rounds ≤ 8
  pub stages_capped : s.auth_stages ≤ 8
  pub stages_pos : 1 ≤ s.auth_stages
  pub ids_count : s.next_round_id ≡ s.interactive_rounds + 1
  pub pending_last :
      (r n : ℕ) → s.pending_challenge ≡ some (r, n) → (r + 1 ≡ s.next_round_id) × (n ≤ 16)
  pub key_present : s.public_key_attempted ≡ true → s.has_private_key ≡ true
  pub passphrase_wanted :
      s.waiting_for ≡ some private_key_passphrase
      → (s.has_private_key ≡ true)
        × (s.private_key_requires_passphrase ≡ true)
        × (s.public_key_attempted ≡ false)
  pub password_wanted : s.waiting_for ≡ some account_password → s.password_attempted ≡ false
  pub public_key_counts : s.public_key_attempted ≡ true → s.any_method_attempted ≡ true
  pub password_counts : s.password_attempted ≡ true → s.any_method_attempted ≡ true
  pub interactive_counts : s.keyboard_interactive_attempted ≡ true → s.any_method_attempted ≡ true

pub new-Inv : (key encrypted : Bool) → Inv (new key encrypted)
unfolding new
new-Inv key encrypted = grind arith

begin_stage-Inv :
    (s : AuthStateMachine) (partial_success : Bool)
    → (partial_success ≡ true → s.auth_stages < 8)
    → Inv s
    → Inv (begin_stage s partial_success)
unfolding begin_stage
begin_stage-Inv s true g h = grind arith
begin_stage-Inv s false g h = grind arith

choose_method-Inv :
    (s : AuthStateMachine) (methods : List AuthMethodKind) (partial_success : Bool)
    → Inv s
    → Inv (choose_method s methods partial_success).0
unfolding choose_method
choose_method-Inv s methods partial_success h = ground (arith, h.pending_last)

select_next_method-Inv :
    (s : AuthStateMachine) (methods : List AuthMethodKind) (partial_success : Bool)
    → Inv s
    → Inv (select_next_method s methods partial_success).0
unfolding select_next_method
select_next_method-Inv s methods partial_success h = ground (
  arith,
  begin_stage-Inv s partial_success,
  choose_method-Inv (begin_stage s partial_success) methods partial_success,
)

submit_private_key_passphrase-Inv :
    (s : AuthStateMachine) → Inv s → Inv (submit_private_key_passphrase s).0
unfolding submit_private_key_passphrase
submit_private_key_passphrase-Inv s h = grind arith

submit_password-Inv : (s : AuthStateMachine) → Inv s → Inv (submit_password s).0
unfolding submit_password
submit_password-Inv s h = grind arith

present_challenge-Inv :
    (s : AuthStateMachine) (name instructions : Text) (prompts : List AuthPrompt)
    → Inv s
    → Inv (present_challenge s name instructions prompts).0
unfolding present_challenge challenge_too_large
present_challenge-Inv s name instructions prompts h = grind arith

validate_responses-Inv :
    (s : AuthStateMachine) (round_id : ℕ) (responses : List Text)
    → Inv s
    → Inv (validate_responses s round_id responses).0
unfolding validate_responses
validate_responses-Inv s round_id responses h = grind arith

pub perform-Inv : (s : AuthStateMachine) (c : Command) → Inv s → Inv (perform s c).0
perform-Inv s (select methods partial_success) h =
    select_next_method-Inv s methods partial_success h
perform-Inv s give_passphrase h = submit_private_key_passphrase-Inv s h
perform-Inv s give_password h = submit_password-Inv s h
perform-Inv s (challenge name instructions prompts) h =
    present_challenge-Inv s name instructions prompts h
perform-Inv s (respond round_id responses) h = validate_responses-Inv s round_id responses h

pub run_from-Inv : (s : AuthStateMachine) (cs : List Command) → Inv s → Inv (run s cs).0
run_from-Inv s [] h = h
run_from-Inv s (c ∷ cs) h = run_from-Inv (perform s c).0 cs (perform-Inv s c h)

-- After any sequence of calls on a new machine: at most 8 rounds and 1 to 8 stages were counted, the
-- next round's id is one more than the rounds, a pending challenge is the last one presented and asks
-- at most 16 questions, the machine waits for a passphrase only for an untried encrypted key and for
-- a password only where none was tried, and a tried method counts as an attempt.
pub run-Inv : (key encrypted : Bool) (cs : List Command) → Inv (run (new key encrypted) cs).0
run-Inv key encrypted cs = run_from-Inv (new key encrypted) cs (new-Inv key encrypted)
