-- ===== src/Waits/Tests.antt =====
-- A late answer for the jump host, and a slow user.
use leantty.Prelude.{
  ℕ, true, false, List, [], ◌∷◌, ◌++◌, map, Option, none, some, ◌≡◌, ◌≢◌, refl, ◌↔◌, Text, codes,
  All, err,
}
use leantty.Registry.{jump, target, password, HostKeyDecision}
use leantty.Waits.{
  wait_for_host_key_decision, command, AuthEvent, received, wait_for_auth_command, timed_out,
  waiting_for_user, network_activity_resumed, Ready, on_progress, connect_round, connect_rounds,
  wait_for_connect,
}
use leantty.Waits.Laws.{
  IsFirst, wait_for_auth_command_lem, TimedOutAfter, wait_for_connect-TimedOutAfter,
  wait_for_host_key_decision-accepted,
}

abbrev two_commands : List AuthEvent
two_commands =
    received (record { layer = jump; method = password (codes "old") })
    ∷ received (record { layer = target; method = password (codes "new") })
    ∷ []

target_command : wait_for_auth_command target two_commands ≡ some (command (password (codes "new")))
unfolding wait_for_auth_command
target_command = refl

wait_for_auth_command_lem_example :
    (wait_for_auth_command target two_commands ≡ some (command (password (codes "new"))))
    ↔ IsFirst target (password (codes "new")) two_commands
wait_for_auth_command_lem_example =
    wait_for_auth_command_lem target two_commands (password (codes "new"))

abbrev quiet : ℕ → Ready ℕ Text
quiet time = record { time = time; connect = none; disconnect_rx = false; progress = none }

-- The user takes from 5 to 90, with a timeout of 10.
abbrev slow_user : List (Ready ℕ Text)
slow_user =
    record {
      time = 5;
      connect = none;
      disconnect_rx = false;
      progress = some (some waiting_for_user);
    }
    ∷ quiet 60
    ∷ record {
      time = 90;
      connect = none;
      disconnect_rx = false;
      progress = some (some network_activity_resumed);
    }
    ∷ quiet 95
    ∷ quiet 100
    ∷ []

slow_user_times_out : wait_for_connect 10 0 slow_user ≡ err timed_out
unfolding wait_for_connect connect_rounds connect_round on_progress
slow_user_times_out = refl

wait_for_connect-TimedOutAfter_example : TimedOutAfter 10 0 false slow_user
wait_for_connect-TimedOutAfter_example =
    wait_for_connect-TimedOutAfter {T = ℕ} {E = Text} 10 0 slow_user slow_user_times_out

abbrev two_decisions : List (Option HostKeyDecision)
two_decisions =
    some (record { layer = jump; accepted = false })
    ∷ some (record { layer = target; accepted = true })
    ∷ []

two_decisions_accept : wait_for_host_key_decision target two_decisions ≡ some true
unfolding wait_for_host_key_decision
two_decisions_accept = refl

wait_for_host_key_decision-accepted_example :
    (before : List HostKeyDecision) × ((after : List (Option HostKeyDecision)) × (two_decisions
        ≡ map some before ++ some (record { layer = target; accepted = true }) ∷ after)
      × All (λ d. d.layer ≢ target) before)
wait_for_host_key_decision-accepted_example =
    wait_for_host_key_decision-accepted target two_decisions two_decisions_accept
