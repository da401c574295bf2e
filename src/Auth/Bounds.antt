-- ===== src/Auth/Bounds.antt =====
-- How often `select_next_method` of authentication.rs can succeed: the loop of a client ends.
use leantty.Prelude.{
  ◌≡◌, refl, ℕ, ◌+◌, ◌-◌, ◌*◌, ◌≤◌, Bool, true, false, List, [], ◌∷◌, Option, some, arith,
  if◌then◌else◌,
}
use leantty.Auth.{
  AuthStateMachine, AuthMethodKind, AuthAction, attempt_public_key, request_private_key_passphrase,
  request_password, start_keyboard_interactive, present_challenge_action, fail, WaitingFor,
  private_key_passphrase, account_password, new, begin_stage, choose_method, select_next_method,
  submit_private_key_passphrase, submit_password, present_challenge, validate_responses,
}
use leantty.Auth.Command.{
  Command, select, give_passphrase, give_password, challenge, respond, Reply, action, perform,
}
use leantty.Auth.Invariant.{Inv, new-Inv, perform-Inv}

abbrev untried_key : Bool → Option WaitingFor → ℕ
untried_key true w = 0
untried_key false (some private_key_passphrase) = 0
untried_key false _ = 1

abbrev untried_password : Bool → Option WaitingFor → ℕ
untried_password true w = 0
untried_password false (some account_password) = 0
untried_password false _ = 1

-- Three choices for each stage that is left, and the methods that this stage has not asked for.
abbrev pub choices_left : AuthStateMachine → ℕ
choices_left s =
    3 * (8 - s.auth_stages)
    + untried_key s.public_key_attempted s.waiting_for
    + untried_password s.password_attempted s.waiting_for
    + (if s.keyboard_interactive_attempted then 0 else 1)

abbrev pub is_choice : AuthAction → Bool
is_choice attempt_public_key = true
is_choice request_private_key_passphrase = true
is_choice request_password = true
is_choice start_keyboard_interactive = true
is_choice (present_challenge_action c) = false
is_choice (fail f) = false

-- The selections among the calls of a session that chose a method.
abbrev pub choices_of : Command → Reply → ℕ
choices_of (select methods p) (action a) = if is_choice a then 1 else 0
choices_of _ _ = 0

abbrev pub choices : AuthStateMachine → List Command → ℕ
choices s [] = 0
choices s (c ∷ cs) = choices_of c (perform s c).1 + choices (perform s c).0 cs

pub choices_left-select_next_method :
    (s : AuthStateMachine) (methods : List AuthMethodKind) (p : Bool)
    → Inv s
    → choices_left (select_next_method s methods p).0
        + (if is_choice (select_next_method s methods p).1 then 1 else 0)
      ≤ choices_left s
unfolding select_next_method begin_stage choose_method
choices_left-select_next_method s methods true h = ground (arith, h.stages_capped)
choices_left-select_next_method s methods false h = ground (arith, h.stages_capped)

pub choices_left-perform :
    (s : AuthStateMachine) (c : Command)
    → Inv s
    → choices_left (perform s c).0 + choices_of c (perform s c).1 ≤ choices_left s
unfolding submit_private_key_passphrase submit_password present_challenge validate_responses
choices_left-perform s (select methods p) h = choices_left-select_next_method s methods p h
choices_left-perform s give_passphrase h = ground arith
choices_left-perform s give_password h = ground arith
choices_left-perform s (challenge name instructions prompts) h = ground arith
choices_left-perform s (respond round_id responses) h = ground arith

choices_left-run :
    (s : AuthStateMachine) (cs : List Command) → Inv s → choices s cs ≤ choices_left s
choices_left-run s [] h = omega arith
choices_left-run s (c ∷ cs) h =
    omega
      (arith, choices_left-perform s c h, choices_left-run (perform s c).0 cs (perform-Inv s c h))

-- The selections among the calls, and those of them that report a failure.
abbrev pub selections : List Command → ℕ
selections [] = 0
selections (select methods p ∷ cs) = selections cs + 1
selections (_ ∷ cs) = selections cs

abbrev pub failed_of : Command → Reply → ℕ
failed_of (select methods p) (action (fail f)) = 1
failed_of _ _ = 0

abbrev pub failed_selections : AuthStateMachine → List Command → ℕ
failed_selections s [] = 0
failed_selections s (c ∷ cs) = failed_of c (perform s c).1 + failed_selections (perform s c).0 cs

select-fails :
    (s : AuthStateMachine) (methods : List AuthMethodKind) (p : Bool)
    → choices_of (select methods p) (perform s (select methods p)).1
        + failed_of (select methods p) (perform s (select methods p)).1
      ≡ 1
unfolding select_next_method begin_stage choose_method
select-fails s methods true = ground arith
select-fails s methods false = ground arith

selections-split :
    (s : AuthStateMachine) (cs : List Command)
    → choices s cs + failed_selections s cs ≡ selections cs
selections-split s [] = refl
selections-split s (select methods p ∷ cs) =
    omega (arith, select-fails s methods p, selections-split (perform s (select methods p)).0 cs)
selections-split s (give_passphrase ∷ cs) =
    omega (arith, selections-split (perform s give_passphrase).0 cs)
selections-split s (give_password ∷ cs) =
    omega (arith, selections-split (perform s give_password).0 cs)
selections-split s (challenge name instructions prompts ∷ cs) =
    omega (arith, selections-split (perform s (challenge name instructions prompts)).0 cs)
selections-split s (respond round_id responses ∷ cs) =
    omega (arith, selections-split (perform s (respond round_id responses)).0 cs)

-- In every session with a new machine, whatever the server and the user do, at most 24 selections
-- succeed in choosing a method, and all the others report a failure.
pub choices-le :
    (key encrypted : Bool) (cs : List Command)
    → (choices (new key encrypted) cs ≤ 24)
      × (choices (new key encrypted) cs + failed_selections (new key encrypted) cs ≡ selections cs)
unfolding new
choices-le key encrypted cs = (
  choices_left-run (new key encrypted) cs (new-Inv key encrypted),
  selections-split (new key encrypted) cs,
)
