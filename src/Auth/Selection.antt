-- ===== src/Auth/Selection.antt =====
-- Which method `select_next_method` of authentication.rs picks, against a description by membership.
use mathlib.Core.List.{Memᴰ}
use leantty.Prelude.{
  ◌<◌, Bool, true, false, not, ◌&&◌, ◌||◌, List, [], ◌∷◌, ◌≡◌, ◌⊎◌, ◌↔◌, inl, inr, refl, none,
  arith, Bool-cases, err,
}
use leantty.Auth.{
  AuthMethodKind, public_key, password, keyboard_interactive, AuthStateMachine, AuthAction,
  attempt_public_key, request_private_key_passphrase, request_password, start_keyboard_interactive,
  present_challenge_action, fail, rejected, no_supported_method, begin_stage, choose_method,
  same_kind, contains, select_next_method, submit_private_key_passphrase, submit_password,
  present_challenge, validate_responses,
}
use leantty.Auth.Command.{
  Command, select, give_passphrase, give_password, challenge, respond, Reply, action, result,
  perform,
}

same_kind_iff : (a b : AuthMethodKind) → (same_kind a b ≡ true) ↔ (a ≡ b)
same_kind_iff a b = grind arith

contains-mem :
    (methods : List AuthMethodKind) (k : AuthMethodKind)
    → contains methods k ≡ true
    → Memᴰ k methods
unfolding contains
contains-mem [] k h = absurd (cc)
contains-mem (m ∷ ms) k h = elim (Bool-cases (same_kind k m)) [
  | inl same ↦ Memᴰ.head ((same_kind_iff k m).0 same)
  | inr other ↦ Memᴰ.tail (contains-mem ms k (rw other at h))
]

not_contains-mem :
    (methods : List AuthMethodKind) (k : AuthMethodKind)
    → Memᴰ k methods
    → contains methods k ≡ false
    → ⊥
unfolding contains
not_contains-mem [] k m h = elim m [ ]
not_contains-mem (m ∷ ms) k (Memᴰ.head e) h = ground (arith, (same_kind_iff k m).1 e)
not_contains-mem (m ∷ ms) k (Memᴰ.tail t) h = ground (arith, not_contains-mem ms k t)

-- A method that the server offers, that was not tried in this stage (a partial success opens a new
-- one) and, for a public key, for which there is a key.
abbrev pub IsUsable : AuthStateMachine → List AuthMethodKind → Bool → AuthMethodKind → Type 0
IsUsable s methods partial_success public_key =
    Memᴰ public_key methods
    × (s.has_private_key ≡ true)
    × ((partial_success ≡ true) ⊎ (s.public_key_attempted ≡ false))
IsUsable s methods partial_success password =
    Memᴰ password methods × ((partial_success ≡ true) ⊎ (s.password_attempted ≡ false))
IsUsable s methods partial_success keyboard_interactive =
    Memᴰ keyboard_interactive methods
    × ((partial_success ≡ true) ⊎ (s.keyboard_interactive_attempted ≡ false))

abbrev pub IsChosen : AuthStateMachine → List AuthMethodKind → Bool → AuthAction → Type 0
IsChosen s methods partial_success attempt_public_key =
    IsUsable s methods partial_success public_key × (s.private_key_requires_passphrase ≡ false)
IsChosen s methods partial_success request_private_key_passphrase =
    IsUsable s methods partial_success public_key × (s.private_key_requires_passphrase ≡ true)
IsChosen s methods partial_success start_keyboard_interactive =
    IsUsable s methods partial_success keyboard_interactive
    × ¬ IsUsable s methods partial_success public_key
IsChosen s methods partial_success request_password =
    IsUsable s methods partial_success password
    × ¬ IsUsable s methods partial_success public_key
    × ¬ IsUsable s methods partial_success keyboard_interactive
IsChosen s methods partial_success (fail f) =
    ((k : AuthMethodKind) → ¬ IsUsable s methods partial_success k)
    × ((f ≡ rejected) × ((partial_success ≡ true) ⊎ (s.any_method_attempted ≡ true))
        ⊎ (f ≡ no_supported_method) × (partial_success ≡ false) × (s.any_method_attempted ≡ false))
IsChosen s methods partial_success (present_challenge_action c) = ⊥

usable : AuthStateMachine → List AuthMethodKind → Bool → AuthMethodKind → Bool
usable s methods partial_success public_key =
    s.has_private_key
    && (partial_success || not s.public_key_attempted)
    && contains methods public_key
usable s methods partial_success password =
    (partial_success || not s.password_attempted) && contains methods password
usable s methods partial_success keyboard_interactive =
    (partial_success || not s.keyboard_interactive_attempted)
    && contains methods keyboard_interactive

usable-IsUsable :
    (s : AuthStateMachine) (methods : List AuthMethodKind) (p : Bool) (k : AuthMethodKind)
    → usable s methods p k ≡ true
    → IsUsable s methods p k
unfolding usable
usable-IsUsable s methods p public_key h = ground (arith, contains-mem methods public_key)
usable-IsUsable s methods p password h = ground (arith, contains-mem methods password)
usable-IsUsable s methods p keyboard_interactive h =
    ground (arith, contains-mem methods keyboard_interactive)

not_usable-IsUsable :
    (s : AuthStateMachine) (methods : List AuthMethodKind) (p : Bool) (k : AuthMethodKind)
    → usable s methods p k ≡ false
    → ¬ IsUsable s methods p k
unfolding usable
not_usable-IsUsable s methods p public_key h u =
    ground (arith, not_contains-mem methods public_key u.0)
not_usable-IsUsable s methods p password h u = ground (arith, not_contains-mem methods password u.0)
not_usable-IsUsable s methods p keyboard_interactive h u =
    ground (arith, not_contains-mem methods keyboard_interactive u.0)

-- The choice as a table: usable methods in the order of preference, an encrypted key, an earlier try.
pick : Bool → Bool → Bool → Bool → Bool → AuthAction
pick true ki pw true tried = request_private_key_passphrase
pick true ki pw false tried = attempt_public_key
pick false true pw encrypted tried = start_keyboard_interactive
pick false false true encrypted tried = request_password
pick false false false encrypted true = fail rejected
pick false false false encrypted false = fail no_supported_method

select_next_method-pick :
    (s : AuthStateMachine) (methods : List AuthMethodKind) (p : Bool)
    → s.waiting_for ≡ none
    → s.pending_challenge ≡ none
    → (p ≡ true → s.auth_stages < 8)
    → (select_next_method s methods p).1
      ≡ pick
          (usable s methods p public_key)
          (usable s methods p keyboard_interactive)
          (usable s methods p password)
          s.private_key_requires_passphrase
          (p || s.any_method_attempted)
unfolding select_next_method begin_stage choose_method usable pick
select_next_method-pick s methods true w q g = ground arith
select_next_method-pick s methods false w q g = ground arith

module _ (s : AuthStateMachine) (methods : List AuthMethodKind) (p : Bool) where
  none_usable :
      usable s methods p public_key ≡ false
      → usable s methods p keyboard_interactive ≡ false
      → usable s methods p password ≡ false
      → (k : AuthMethodKind) → ¬ IsUsable s methods p k
  none_usable a b c public_key = not_usable-IsUsable s methods p public_key a
  none_usable a b c keyboard_interactive = not_usable-IsUsable s methods p keyboard_interactive b
  none_usable a b c password = not_usable-IsUsable s methods p password c

  pick-IsChosen :
      (pk ki pw encrypted tried : Bool)
      → usable s methods p public_key ≡ pk
      → usable s methods p keyboard_interactive ≡ ki
      → usable s methods p password ≡ pw
      → s.private_key_requires_passphrase ≡ encrypted
      → (p || s.any_method_attempted) ≡ tried
      → IsChosen s methods p (pick pk ki pw encrypted tried)
  unfolding pick
  pick-IsChosen true ki pw true tried a b c d e = (usable-IsUsable s methods p public_key a, d)
  pick-IsChosen true ki pw false tried a b c d e = (usable-IsUsable s methods p public_key a, d)
  pick-IsChosen false true pw encrypted tried a b c d e = (
    usable-IsUsable s methods p keyboard_interactive b,
    not_usable-IsUsable s methods p public_key a,
  )
  pick-IsChosen false false true encrypted tried a b c d e = (
    usable-IsUsable s methods p password c,
    not_usable-IsUsable s methods p public_key a,
    not_usable-IsUsable s methods p keyboard_interactive b,
  )
  pick-IsChosen false false false encrypted true a b c d e =
      (none_usable a b c, inl (refl, ground arith))
  pick-IsChosen false false false encrypted false a b c d e =
      (none_usable a b c, inr (refl, ground arith, ground arith))

-- Where nothing is awaited and a stage is left, the choice follows the order public key,
-- keyboard-interactive, password: a method is chosen only if it is usable and none before it is, and
-- the call fails only if no method is usable, with `rejected` exactly if a method was tried before.
pub select_next_method-IsChosen :
    (s : AuthStateMachine) (methods : List AuthMethodKind) (partial_success : Bool)
    → s.waiting_for ≡ none
    → s.pending_challenge ≡ none
    → (partial_success ≡ true → s.auth_stages < 8)
    → IsChosen s methods partial_success (select_next_method s methods partial_success).1
select_next_method-IsChosen s methods partial_success w q g =
    rw (select_next_method-pick s methods partial_success w q g)
      (pick-IsChosen s methods partial_success _ _ _ _ _ refl refl refl refl refl)

-- An answer that reports a failure.
abbrev pub IsRefusal : Reply → Type 0
IsRefusal (action (fail f)) = Unit {0}
IsRefusal (result (err f)) = Unit {0}
IsRefusal _ = ⊥

abbrev pub opens_stage : Command → Bool
opens_stage (select methods partial_success) = partial_success
opens_stage _ = false

select_refused :
    (s : AuthStateMachine) (methods : List AuthMethodKind)
    → IsRefusal (action (select_next_method s methods false).1)
    → (select_next_method s methods false).0 ≡ s
unfolding select_next_method begin_stage choose_method
select_refused s methods r = ground arith

-- A call that is refused leaves the machine as it was, unless it is a selection after a partial
-- success, which has opened the next stage by then.
pub perform_refused :
    (s : AuthStateMachine) (c : Command)
    → opens_stage c ≡ false
    → IsRefusal (perform s c).1
    → (perform s c).0 ≡ s
unfolding submit_private_key_passphrase submit_password present_challenge validate_responses
perform_refused s (select methods true) o r = cc
perform_refused s (select methods false) o r = select_refused s methods r
perform_refused s give_passphrase o r = ground arith
perform_refused s give_password o r = ground arith
perform_refused s (challenge name instructions prompts) o r = ground arith
perform_refused s (respond round_id responses) o r = ground arith
