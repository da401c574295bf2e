-- ===== src/Auth/Command.antt =====
-- A session with the state machine: any sequence of calls of its methods.
use leantty.Prelude.{ℕ, Bool, List, [], ◌∷◌, Text, Result}
use leantty.Auth.{
  AuthMethodKind, AuthPrompt, AuthAction, AuthFailure, AuthStateMachine, select_next_method,
  submit_private_key_passphrase, submit_password, present_challenge, validate_responses,
}

pub data Command : Type 0 where
  select : List AuthMethodKind → Bool → Command
  give_passphrase give_password : Command
  challenge : Text → Text → List AuthPrompt → Command
  respond : ℕ → List Text → Command

pub data Reply : Type 0 where
  action : AuthAction → Reply
  result : Result (Unit {0}) AuthFailure → Reply

abbrev act : AuthStateMachine × AuthAction → AuthStateMachine × Reply
act (s, a) = (s, action a)

abbrev answer : AuthStateMachine × Result (Unit {0}) AuthFailure → AuthStateMachine × Reply
answer (s, r) = (s, result r)

abbrev pub perform : AuthStateMachine → Command → AuthStateMachine × Reply
perform s (select methods partial_success) = act (select_next_method s methods partial_success)
perform s give_passphrase = act (submit_private_key_passphrase s)
perform s give_password = answer (submit_password s)
perform s (challenge name instructions prompts) =
    act (present_challenge s name instructions prompts)
perform s (respond round_id responses) = answer (validate_responses s round_id responses)

abbrev pub run : AuthStateMachine → List Command → AuthStateMachine × List Reply
run s [] = (s, [])
run s (c ∷ cs) =
    let (s', reply) = perform s c in let (last, replies) = run s' cs in (last, reply ∷ replies)
