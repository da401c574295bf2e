-- ===== src/Session/Pressure.antt =====
-- How `run_connected_session` of leantty_ssh/src/lib.rs holds back a server that sends faster than the
-- user interface takes.
use leantty.Prelude.{
  ℕ, ◌+◌, ◌≤◌, ◌<◌, Bool, true, ◌||◌, List, [], ◌++◌, Option, none, some, ◌≡◌, refl, ◌∙◌, ap, arith,
  All, length, length-append, leb, is_empty, Bool-cases, inl, inr,
}
use leantty.Session.Metrics.{Status, status_ok, queue_full, other_status}
use leantty.Session.Loop.{
  ChannelMsg, payload, extended_payload, exit_status, eof, close, other_message, Turn, output_tick,
  metrics_tick, pause_changed, channel_read, disconnect_received, target_ended, jump_ended,
  writer_ended, Loop, Next, again, broken, Context, should_flush_immediately, flush, on_tick,
  on_data, on_message, on_pause, is_enabled, take_turn, session_loop, first_loop, extended,
}
use leantty.Session.Conserve.{received, received-append, pending_of}
use leantty.Session.Rule.{session_loop_rule}

-- No message holds more than `m` bytes.
abbrev pub IsWithin : ℕ → Turn → Type 0
IsWithin m (channel_read (some (payload bytes)) answer) = length bytes ≤ m
IsWithin m (channel_read (some (extended_payload bytes)) answer) = length bytes ≤ m
IsWithin m _ = Unit

flush-length :
    (l : Loop) (answer : Status)
    → length (flush l answer).1.pending_output ≤ length l.pending_output
unfolding flush
flush-length l status_ok = omega arith
flush-length l queue_full = omega arith
flush-length l other_status = omega arith

on_tick-length :
    (l : Loop) (answer : Status)
    → length (on_tick l answer).1.pending_output ≤ length l.pending_output
unfolding on_tick
on_tick-length l answer = elim (Bool-cases (is_empty l.pending_output)) [
  | inl nothing ↦ rw nothing (omega arith)
  | inr more ↦ rw more (flush-length l answer)
]

on_data-length :
    (l : Loop) (bytes : List ℕ) (answer : Status)
    → length (on_data l bytes answer).1.pending_output ≤ length l.pending_output + length bytes
unfolding on_data
on_data-length l bytes answer =
    elim (Bool-cases (
      should_flush_immediately (is_empty l.pending_output) (length bytes)
      || leb 65536 (length (l.pending_output ++ bytes)))) [
        | inl full ↦ rw full (
            omega
              (arith, flush-length (extended l bytes) answer, length-append l.pending_output bytes))
        | inr small ↦ rw small (omega (arith, length-append l.pending_output bytes))
      ]

module _ (c : Context) (m : ℕ) (l : Loop) (h : length l.pending_output ≤ 524287 + m) where
  read-length :
      (message : Option ChannelMsg) (answer : Status)
      → is_enabled c l (channel_read message answer) ≡ true
      → IsWithin m (channel_read message answer)
      → length (pending_of (on_message l message answer).1) ≤ 524287 + m
  unfolding on_message is_enabled
  read-length (some (payload bytes)) answer on k = ground (arith, on_data-length l bytes answer)
  read-length (some (extended_payload bytes)) answer on k =
      ground (arith, on_data-length l bytes answer)
  read-length (some (exit_status n)) answer on k = h
  read-length (some eof) answer on k = h
  read-length (some close) answer on k = h
  read-length (some other_message) answer on k = h
  read-length none answer on k = h

  take_turn-length :
      (t : Turn)
      → is_enabled c l t ≡ true
      → IsWithin m t
      → length (pending_of (take_turn c l t).1) ≤ 524287 + m
  unfolding take_turn on_pause
  take_turn-length (output_tick answer) on k = omega (arith, on_tick-length l answer)
  take_turn-length metrics_tick on k = h
  take_turn-length (pause_changed none) on k = h
  take_turn-length (pause_changed (some b)) on k = h
  take_turn-length (channel_read message answer) on k = read-length message answer on k
  take_turn-length disconnect_received on k = h
  take_turn-length (target_ended result) on k = h
  take_turn-length (jump_ended result) on k = h
  take_turn-length (writer_ended result) on k = h

-- However long a session runs and whatever the callback answers, the pending output stays below 512 KiB
-- and one message more, if no message of the channel is longer than `m` bytes.
pub session_loop-pending :
    (c : Context) (output_paused : Bool) (m : ℕ) (turns : List Turn)
    → All (IsWithin m) turns
    → length (pending_of (session_loop c (first_loop output_paused) turns).1) < 524288 + m
session_loop-pending c output_paused m turns h = omega (
  arith,
  (session_loop_rule c (IsWithin m) (λ s. Unit) (λ n. length (pending_of n) ≤ 524287 + m) tt
      (λ s t _ _. tt) (λ l t on k q. (tt, take_turn-length c m l q t on k))
      (first_loop output_paused) turns h (omega arith)).1,
)

-- The user interface does not resume.
abbrev pub IsNoChange : Turn → Type 0
IsNoChange (pause_changed change) = ⊥
IsNoChange _ = Unit

abbrev pub paused_of : Next → Bool
paused_of (again l) = l.output_paused
paused_of (broken l e) = l.output_paused

flush-pause :
    (l : Loop) (answer : Status)
    → (received (flush l answer).0 ≡ []) × ((flush l answer).1.output_paused ≡ l.output_paused)
unfolding flush
flush-pause l status_ok = (refl, refl)
flush-pause l queue_full = (refl, refl)
flush-pause l other_status = (refl, refl)

on_tick-pause :
    (l : Loop) (answer : Status)
    → (received (on_tick l answer).0 ≡ []) × ((on_tick l answer).1.output_paused ≡ l.output_paused)
unfolding on_tick
on_tick-pause l answer = elim (Bool-cases (is_empty l.pending_output)) [
  | inl nothing ↦ rw nothing (refl, refl)
  | inr more ↦ rw more (flush-pause l answer)
]

take_turn-pause :
    (c : Context) (l : Loop) (t : Turn)
    → is_enabled c l t ≡ true
    → IsNoChange t
    → l.output_paused ≡ true
    → (received (take_turn c l t).0 ≡ []) × (paused_of (take_turn c l t).1 ≡ true)
unfolding take_turn is_enabled
take_turn-pause c l (output_tick answer) on k h =
    ((on_tick-pause l answer).0, (on_tick-pause l answer).1 ∙ h)
take_turn-pause c l metrics_tick on k h = (refl, h)
take_turn-pause c l (pause_changed change) on k h = absurd k
take_turn-pause c l (channel_read message answer) on k h = absurd (ground arith)
take_turn-pause c l disconnect_received on k h = (refl, h)
take_turn-pause c l (target_ended result) on k h = (refl, h)
take_turn-pause c l (jump_ended result) on k h = (refl, h)
take_turn-pause c l (writer_ended result) on k h = (refl, h)

-- From the moment at which the user interface pauses the output until it changes that, nothing is taken
-- from the channel, whatever else happens.
pub session_loop_paused :
    (c : Context) (l : Loop) (turns : List Turn)
    → l.output_paused ≡ true
    → All IsNoChange turns
    → received (session_loop c l turns).0 ≡ []
session_loop_paused c l turns h k =
    (session_loop_rule c IsNoChange (λ s. received s ≡ []) (λ n. paused_of n ≡ true) refl
      (λ s t e f. received-append s t ∙ ap (λ x. x ++ received t) e ∙ f)
      (λ l t on k q. take_turn-pause c l t on k q) l turns k h).0
