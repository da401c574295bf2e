-- ===== src/Auth/Tests.antt =====
-- Runs of the state machine of authentication.rs on concrete servers and users.
use leantty.Prelude.{
  ◌+◌, ℕ, ◌≤◌, true, false, List, [], ◌∷◌, ◌++◌, ◌≡◌, refl, ◌↔◌, codes, All, ok, err, arith,
}
use leantty.Auth.{
  public_key, password, keyboard_interactive, AuthPrompt, AuthStateMachine, new, contains,
  challenge_too_large, unexpected_challenge, select_next_method, begin_stage, choose_method,
  submit_password, present_challenge, validate_responses, sanitize_server_text, stale_challenge,
}
use leantty.Auth.Command.{Command, select, give_password, challenge, respond, perform, run}
use leantty.Auth.Invariant.{Inv, run-Inv}
use leantty.Auth.Selection.{select_next_method-IsChosen, IsChosen, perform_refused}
use leantty.Auth.Challenge.{
  IsAnswer, validate_responses_lem, presented, count_up, presented-count_up,
}
use leantty.Auth.Bounds.{choices, selections, failed_selections, choices-le}
use leantty.Auth.Sanitize.{IsShown, sanitize_server_text_lem}

abbrev code_prompt : AuthPrompt
code_prompt = record { text = codes "Code: "; echo = false }

-- A key is refused, then a code is asked for and given, then a second one.
abbrev two_factors : List Command
two_factors =
    select (public_key ∷ keyboard_interactive ∷ []) false
    ∷ select (keyboard_interactive ∷ password ∷ []) false
    ∷ challenge (codes "Token") [] (code_prompt ∷ [])
    ∷ respond 1 (codes "1234" ∷ [])
    ∷ challenge [] [] (code_prompt ∷ code_prompt ∷ [])
    ∷ []

abbrev after_two_factors : AuthStateMachine
after_two_factors = (run (new true false) two_factors).0

abbrev fresh : AuthStateMachine
fresh = new true false

-- The third call of the session presents the challenge, whose answer names its round.
stale_answer :
    (validate_responses after_two_factors 1 (codes "1" ∷ codes "2" ∷ [])).1 ≡ err stale_challenge
unfolding new select_next_method begin_stage choose_method present_challenge validate_responses
    contains challenge_too_large
stale_answer = refl

good_answer : (validate_responses after_two_factors 2 (codes "1" ∷ codes "2" ∷ [])).1 ≡ ok tt
unfolding new select_next_method begin_stage choose_method present_challenge validate_responses
    contains challenge_too_large
good_answer = refl

run-Inv_example : Inv (run (new true false) two_factors).0
run-Inv_example = run-Inv true false two_factors

choices-le_example :
    (choices (new true false) two_factors ≤ 24)
    × (choices (new true false) two_factors + failed_selections (new true false) two_factors
        ≡ selections two_factors)
choices-le_example = choices-le true false two_factors

select_next_method-IsChosen_example :
    IsChosen fresh
      (password ∷ public_key ∷ [])
      false
      (select_next_method fresh (password ∷ public_key ∷ []) false).1
unfolding new
select_next_method-IsChosen_example =
    select_next_method-IsChosen fresh (password ∷ public_key ∷ []) false refl refl
      (λ h. ground arith)

perform_refused_example : (perform fresh give_password).0 ≡ fresh
unfolding new submit_password
perform_refused_example = perform_refused fresh give_password refl tt

validate_responses_lem_example :
    let t = validate_responses after_two_factors 2 (codes "1" ∷ codes "2" ∷ []) in
    ((t.1 ≡ ok tt) ↔ IsAnswer after_two_factors 2 (codes "1" ∷ codes "2" ∷ []))
    × (t.1 ≡ ok tt
        → (validate_responses t.0 2 (codes "1" ∷ codes "2" ∷ [])).1 ≡ err unexpected_challenge)
validate_responses_lem_example =
    validate_responses_lem after_two_factors 2 (codes "1" ∷ codes "2" ∷ [])

presented-count_up_example :
    (k : ℕ) × (k ≤ 8) × (presented (run (new true false) two_factors).1 ≡ count_up 1 k)
presented-count_up_example = presented-count_up true false two_factors

sanitize_server_text_lem_example :
    All IsShown (sanitize_server_text (b'a' ∷ 0x1b ∷ []))
    × (All IsShown (b'a' ∷ 0x1b ∷ []) → sanitize_server_text (b'a' ∷ 0x1b ∷ []) ≡ b'a' ∷ 0x1b ∷ [])
    × (¬ IsShown 0x1b → sanitize_server_text (0x1b ∷ []) ≡ [])
    × (sanitize_server_text ((b'a' ∷ 0x1b ∷ []) ++ codes "b")
        ≡ sanitize_server_text (b'a' ∷ 0x1b ∷ []) ++ sanitize_server_text (codes "b"))
sanitize_server_text_lem_example = sanitize_server_text_lem (b'a' ∷ 0x1b ∷ []) (codes "b") 0x1b
