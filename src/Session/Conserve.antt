-- ===== src/Session/Conserve.antt =====
-- The bytes in a session's steps, leantty_ssh/src/lib.rs, and the loop of `run_connected_session`.
use mathlib.Core.List.{append_assoc, append-nil}
use leantty.Prelude.{
  ℕ, true, false, List, [], ◌∷◌, ◌++◌, Option, none, some, ◌≡◌, refl, sym, ◌∙◌, ap, inl, inr,
  Bool-cases, is_empty, length, ◌||◌, leb,
}
use leantty.Session.Metrics.{Status, status_ok, queue_full, other_status}
use leantty.Session.Loop.{
  on_pause, ChannelMsg, payload, extended_payload, exit_status, eof, close, other_message, Turn,
  output_tick, metrics_tick, pause_changed, channel_read, disconnect_received, target_ended,
  jump_ended, writer_ended, Step, took, data_call, control, diagnostic_call, abort_writer,
  disconnect_target, disconnect_jump, Loop, Next, again, broken, Context, should_flush_immediately,
  flush, on_tick, on_data, on_message, is_enabled, take_turn, then_loop, session_loop,
}

abbrev pub payload_of : ChannelMsg → List ℕ
payload_of (payload bytes) = bytes
payload_of (extended_payload bytes) = bytes
payload_of _ = []

-- The bytes taken from the channel, and those that the callback queued, in order.
abbrev pub received : List Step → List ℕ
received [] = []
received (took message ∷ steps) = payload_of message ++ received steps
received (_ ∷ steps) = received steps

abbrev pub queued_by : List ℕ → Status → List ℕ
queued_by bytes status_ok = bytes
queued_by bytes _ = []

abbrev pub queued : List Step → List ℕ
queued [] = []
queued (data_call bytes answer ∷ steps) = queued_by bytes answer ++ queued steps
queued (_ ∷ steps) = queued steps

-- From one pending output to the next, nothing is lost, doubled or reordered.
abbrev pub Conserves : List ℕ → List Step → List ℕ → Type 0
Conserves before steps after = queued steps ++ after ≡ before ++ received steps

pub received-append : (s t : List Step) → received (s ++ t) ≡ received s ++ received t
received-append [] t = refl
received-append (took m ∷ s) t =
    ap (λ x. payload_of m ++ x) (received-append s t)
    ∙ sym (append_assoc (payload_of m) (received s) (received t))
received-append (data_call b a ∷ s) t = received-append s t
received-append (control e ∷ s) t = received-append s t
received-append (diagnostic_call e ∷ s) t = received-append s t
received-append (abort_writer ∷ s) t = received-append s t
received-append (disconnect_target ∷ s) t = received-append s t
received-append (disconnect_jump ∷ s) t = received-append s t

queued-append : (s t : List Step) → queued (s ++ t) ≡ queued s ++ queued t
queued-append [] t = refl
queued-append (data_call b a ∷ s) t =
    ap (λ x. queued_by b a ++ x) (queued-append s t)
    ∙ sym (append_assoc (queued_by b a) (queued s) (queued t))
queued-append (took m ∷ s) t = queued-append s t
queued-append (control e ∷ s) t = queued-append s t
queued-append (diagnostic_call e ∷ s) t = queued-append s t
queued-append (abort_writer ∷ s) t = queued-append s t
queued-append (disconnect_target ∷ s) t = queued-append s t
queued-append (disconnect_jump ∷ s) t = queued-append s t

pub Conserves-append :
    (p q r : List ℕ) (s t : List Step) → Conserves p s q → Conserves q t r → Conserves p (s ++ t) r
Conserves-append p q r s t h k =
    ap (λ x. x ++ r) (queued-append s t)
    ∙ append_assoc (queued s) (queued t) r
    ∙ ap (λ x. queued s ++ x) k
    ∙ sym (append_assoc (queued s) q (received t))
    ∙ ap (λ x. x ++ received t) h
    ∙ append_assoc p (received s) (received t)
    ∙ ap (λ x. p ++ x) (sym (received-append s t))

-- Steps that take nothing and call back with nothing.
pub Conserves-silent :
    (p : List ℕ) (s : List Step) → received s ≡ [] → queued s ≡ [] → Conserves p s p
Conserves-silent p s h k = rw (h, k) (sym (append-nil p))

flush-Conserves :
    (l : Loop) (answer : Status)
    → Conserves l.pending_output (flush l answer).0 (flush l answer).1.pending_output
unfolding flush
flush-Conserves l status_ok = append-nil _
flush-Conserves l queue_full = sym (append-nil _)
flush-Conserves l other_status = sym (append-nil _)

on_tick-Conserves :
    (l : Loop) (answer : Status)
    → Conserves l.pending_output (on_tick l answer).0 (on_tick l answer).1.pending_output
unfolding on_tick
on_tick-Conserves l answer = elim (Bool-cases (is_empty l.pending_output)) [
  | inl nothing ↦ rw nothing (sym (append-nil _))
  | inr more ↦ rw more (flush-Conserves l answer)
]

on_data-Conserves :
    (l : Loop) (bytes : List ℕ) (answer : Status)
    → Conserves
        (l.pending_output ++ bytes)
        (on_data l bytes answer).0
        (on_data l bytes answer).1.pending_output
unfolding on_data
on_data-Conserves l bytes answer =
    elim (Bool-cases (
      should_flush_immediately (is_empty l.pending_output) (length bytes)
      || leb 65536 (length (l.pending_output ++ bytes)))) [
        | inl full ↦ rw full (flush-Conserves _ answer)
        | inr small ↦ rw small (sym (append-nil _))
      ]

-- The pending output of either way to go on.
abbrev pub pending_of : Next → List ℕ
pending_of (again l) = l.pending_output
pending_of (broken l e) = l.pending_output

-- The bytes of a message are put behind those that are pending.
read-Conserves :
    (p bytes : List ℕ) (m : ChannelMsg) (r : List Step × Loop)
    → payload_of m ≡ bytes
    → Conserves (p ++ bytes) r.0 r.1.pending_output
    → Conserves p (took m ∷ r.0) r.1.pending_output
read-Conserves p bytes m r e h =
    h ∙ append_assoc p bytes (received r.0) ∙ ap (λ b. p ++ (b ++ received r.0)) (sym e)

on_message-Conserves :
    (l : Loop) (message : Option ChannelMsg) (answer : Status)
    → Conserves l.pending_output
        (on_message l message answer).0
        (pending_of (on_message l message answer).1)
unfolding on_message
on_message-Conserves l (some (payload bytes)) answer =
    read-Conserves _ bytes (payload bytes) (on_data l bytes answer) refl
      (on_data-Conserves l bytes answer)
on_message-Conserves l (some (extended_payload bytes)) answer =
    read-Conserves _ bytes (extended_payload bytes) (on_data l bytes answer) refl
      (on_data-Conserves l bytes answer)
on_message-Conserves l (some (exit_status n)) answer = sym (append-nil _)
on_message-Conserves l (some eof) answer = sym (append-nil _)
on_message-Conserves l (some close) answer = sym (append-nil _)
on_message-Conserves l (some other_message) answer = sym (append-nil _)
on_message-Conserves l none answer = sym (append-nil _)

take_turn-Conserves :
    (c : Context) (l : Loop) (t : Turn)
    → Conserves l.pending_output (take_turn c l t).0 (pending_of (take_turn c l t).1)
unfolding take_turn on_pause
take_turn-Conserves c l (output_tick answer) = on_tick-Conserves l answer
take_turn-Conserves c l metrics_tick = sym (append-nil _)
take_turn-Conserves c l (pause_changed none) = sym (append-nil _)
take_turn-Conserves c l (pause_changed (some b)) = sym (append-nil _)
take_turn-Conserves c l (channel_read message answer) = on_message-Conserves l message answer
take_turn-Conserves c l disconnect_received = sym (append-nil _)
take_turn-Conserves c l (target_ended result) = sym (append-nil _)
take_turn-Conserves c l (jump_ended result) = sym (append-nil _)
take_turn-Conserves c l (writer_ended result) = sym (append-nil _)

then_loop-Conserves :
    (p : List ℕ) (rest : Loop → List Step × Next) (r : List Step × Next)
    → Conserves p r.0 (pending_of r.1)
    → ((l : Loop) → Conserves l.pending_output (rest l).0 (pending_of (rest l).1))
    → Conserves p (then_loop rest r).0 (pending_of (then_loop rest r).1)
then_loop-Conserves p rest (steps, broken l e) h k = h
then_loop-Conserves p rest (steps, again l) h k =
    Conserves-append p l.pending_output _ steps (rest l).0 h (k l)

abbrev pub Conserved : List ℕ → List Step × Next → Type 0
Conserved p r = Conserves p r.0 (pending_of r.1)

pub session_loop-Conserves :
    (c : Context) (l : Loop) (ts : List Turn)
    → Conserves l.pending_output (session_loop c l ts).0 (pending_of (session_loop c l ts).1)
unfolding session_loop
session_loop-Conserves c l [] = sym (append-nil _)
session_loop-Conserves c l (t ∷ ts) =
    elim (is_enabled c l t)
      as (λ b. Conserved l.pending_output (elim b [
        | true ↦ then_loop (λ l'. session_loop c l' ts) (take_turn c l t)
        | false ↦ session_loop c l ts
      ])) [
        | true ↦
            then_loop-Conserves l.pending_output (λ l'. session_loop c l' ts) (take_turn c l t)
              (take_turn-Conserves c l t) (λ l'. session_loop-Conserves c l' ts)
        | false ↦ session_loop-Conserves c l ts
      ]
