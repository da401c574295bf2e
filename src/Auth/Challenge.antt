-- ===== src/Auth/Challenge.antt =====
-- Keyboard-interactive rounds of authentication.rs: which requests are presented, which answers are
-- accepted, and the round ids over a whole session.
use leantty.Prelude.{
  ℕ, zero, suc, ◌+◌, ◌≤◌, ◌<◌, Bool, true, false, not, ◌||◌, List, [], ◌∷◌, ◌++◌, map, ◌≡◌, ◌⊎◌,
  ◌↔◌, inl, inr, refl, none, some, arith, any, All, length, ok, err, Text, str_len, ltb, ◌∙◌,
}
use leantty.Auth.{
  is_some, AuthStateMachine, AuthPrompt, AuthAction, present_challenge_action, unexpected_challenge,
  new, sum, prompt_bytes, sanitize_prompt, sanitize_server_text, present_challenge,
  validate_responses, select_next_method, submit_private_key_passphrase, submit_password,
  begin_stage, choose_method,
}
use leantty.Auth.Command.{
  Command, select, give_passphrase, give_password, challenge, respond, Reply, action, result,
  perform, run,
}
use leantty.Auth.Invariant.{run-Inv}

any-false_iff {ℓ} :
    {A : Type ℓ} (f : A → ℕ) (m : ℕ) (xs : List A)
    → (any (λ x. ltb m (f x)) xs ≡ false) ↔ All (λ x. f x ≤ m) xs
any-false_iff f m [] = (λ _. tt, λ _. refl)
any-false_iff f m (x ∷ xs) = ground (arith, any-false_iff f m xs)

-- A request within all limits, and a machine that expects one.
pub record IsPresentable (s : AuthStateMachine) (name instructions : Text)
    (prompts : List AuthPrompt) : Type 0 where
  pub started : s.keyboard_interactive_attempted ≡ true
  pub nothing_pending : s.pending_challenge ≡ none
  pub round_left : s.interactive_rounds < 8
  pub few_prompts : length prompts ≤ 16
  pub name_fits : str_len name ≤ 4096
  pub instructions_fit : str_len instructions ≤ 4096
  pub prompts_fit : All (λ p. prompt_bytes p ≤ 4096) prompts
  pub round_fits : sum (map prompt_bytes prompts) ≤ 16384

-- What the user is shown, and what the machine remembers.
pub record IsPresented (s : AuthStateMachine) (name instructions : Text) (prompts : List AuthPrompt)
    (r : AuthStateMachine × AuthAction) : Type 0 where
  pub shown :
      r.1
      ≡ present_challenge_action (record {
        round_id = s.interactive_rounds + 1;
        name = sanitize_server_text name;
        instructions = sanitize_server_text instructions;
        prompts = map sanitize_prompt prompts;
      })
  pub awaited : r.0.pending_challenge ≡ some (s.interactive_rounds + 1, length prompts)
  pub counted : r.0.interactive_rounds ≡ s.interactive_rounds + 1

unexpected : AuthStateMachine → Bool
unexpected s = not s.keyboard_interactive_attempted || is_some s.pending_challenge

pub record IsAnswer (s : AuthStateMachine) (round_id : ℕ) (responses : List Text) : Type 0 where
  pub asked : s.pending_challenge ≡ some (round_id, length responses)
  pub responses_fit : All (λ r. str_len r ≤ 4096) responses
  pub round_fits : sum (map str_len responses) ≤ 16384

-- Responses are accepted exactly if they name the pending round, answer each of its prompts and are
-- within the limits on bytes; the same call made again right after is refused.
pub validate_responses_lem :
    (s : AuthStateMachine) (round_id : ℕ) (responses : List Text)
    → let t = validate_responses s round_id responses in
      ((t.1 ≡ ok tt) ↔ IsAnswer s round_id responses)
      × (t.1 ≡ ok tt → (validate_responses t.0 round_id responses).1 ≡ err unexpected_challenge)
unfolding validate_responses
validate_responses_lem s round_id responses = ground (arith, any-false_iff str_len 4096 responses)

-- The round ids of the challenges that a session was answered with.
abbrev pub presented : List Reply → List ℕ
presented [] = []
presented (action (present_challenge_action c) ∷ rs) = c.round_id ∷ presented rs
presented (_ ∷ rs) = presented rs

-- `n` numbers counted up from `start`.
abbrev pub count_up : ℕ → ℕ → List ℕ
count_up start zero = []
count_up start (suc n) = start ∷ count_up (start + 1) n

presented-cons :
    (r : Reply) (rs : List Reply) → presented (r ∷ rs) ≡ presented (r ∷ []) ++ presented rs
presented-cons (action (present_challenge_action c)) rs = refl
presented-cons (action _) rs = refl
presented-cons (result _) rs = refl

-- One call presents nothing and keeps the next id, or presents the next id and counts it.
abbrev Counts : AuthStateMachine → AuthStateMachine × Reply → Type 0
Counts s (s', r) =
    (presented (r ∷ []) ≡ []) × (s'.next_round_id ≡ s.next_round_id)
    ⊎ (presented (r ∷ []) ≡ s.next_round_id ∷ []) × (s'.next_round_id ≡ s.next_round_id + 1)

perform-Counts : (s : AuthStateMachine) (c : Command) → Counts s (perform s c)
unfolding select_next_method begin_stage choose_method submit_private_key_passphrase submit_password
    present_challenge validate_responses
perform-Counts s (select methods true) = ground arith
perform-Counts s (select methods false) = ground arith
perform-Counts s give_passphrase = ground arith
perform-Counts s give_password = ground arith
perform-Counts s (challenge name instructions prompts) = ground arith
perform-Counts s (respond round_id responses) = ground arith

-- All the ids of a session, and where the counter stands after it.
abbrev RunCounts : AuthStateMachine → AuthStateMachine × List Reply → Type 0
RunCounts s (s', rs) =
    (k : ℕ) × (presented rs ≡ count_up s.next_round_id k) × (s'.next_round_id ≡ s.next_round_id + k)

run-RunCounts : (s : AuthStateMachine) (cs : List Command) → RunCounts s (run s cs)
run-RunCounts s [] = (0, refl, omega arith)
run-RunCounts s (c ∷ cs) =
    let (k, ids, last) = run-RunCounts (perform s c).0 cs in
    let split = presented-cons (perform s c).1 (run (perform s c).0 cs).1 in
    elim (perform-Counts s c) [
      | inl (quiet, same) ↦ (k, split ∙ rw (quiet, ids, same), rw same at last)
      | inr (shown, next) ↦ (suc k, split ∙ rw (shown, ids, next), omega arith)
    ]

-- In every session with a new machine the challenges are presented under the round ids 1, 2, 3, …,
-- each used once and in this order, and there are at most 8.
pub presented-count_up :
    (key encrypted : Bool) (cs : List Command)
    → (k : ℕ) × (k ≤ 8) × (presented (run (new key encrypted) cs).1 ≡ count_up 1 k)
unfolding new
presented-count_up key encrypted cs =
    let (k, ids, last) = run-RunCounts (new key encrypted) cs in
    let inv = run-Inv key encrypted cs in (k, omega (arith, inv.rounds_capped, inv.ids_count), ids)
