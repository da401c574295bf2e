-- ===== src/Session/Loop.antt =====
-- `run_connected_session` of leantty_ssh/src/lib.rs: the loop that hands a shell's output on to the user
-- interface. A `Turn` is what a `select!` takes, with the answer of the callback if it is called; a
-- branch that is switched off is not taken.
use leantty.Prelude.{
  ℕ, ◌+◌, Bool, true, false, not, ◌&&◌, ◌||◌, List, [], ◌∷◌, ◌++◌, Option, none, some, ltb, leb,
  if◌then◌else◌, is_empty, length, Text, codes, Result, ok, err,
}
use leantty.Transfer.{u64}
use leantty.Registry.{ConnectionLayer, jump, target}
use leantty.Events.{ControlEvent, TransportEvent, error, output_metrics, minus_one}
use leantty.Session.Metrics.{
  Status, OutputDeliveryMetrics, no_metrics, record_callback_attempt, summary,
}

pub data ChannelMsg : Type 0 where
  payload extended_payload : List ℕ → ChannelMsg
  exit_status : ℕ → ChannelMsg  -- u32
  eof close other_message : ChannelMsg

pub data RusshError : Type 0 where
  keepalive_timeout other_error : RusshError

abbrev pub TaskResult : Type 0
TaskResult = Result (Unit {0}) RusshError

pub data Turn : Type 0 where
  output_tick : Status → Turn
  metrics_tick : Turn
  pause_changed : Option Bool → Turn  -- none: the sender is gone
  channel_read : Option ChannelMsg → Status → Turn
  disconnect_received : Turn
  target_ended jump_ended : TaskResult → Turn
  writer_ended : Result (Unit {0}) Text → Turn

-- What the session does, in order.
pub data Step : Type 0 where
  took : ChannelMsg → Step
  data_call : List ℕ → Status → Step
  control : ControlEvent → Step
  diagnostic_call : TransportEvent → Step
  abort_writer disconnect_target disconnect_jump : Step

pub record Loop : Type 0 where
  pub pending_output : List ℕ
  pub output_paused : Bool
  pub output_pause_open : Bool
  pub delivery_metrics : OutputDeliveryMetrics
  pub exit_code : ℕ  -- i32

-- The variables that say how the loop was left.
pub record Ending : Type 0 where
  pub connection_task_ended : Bool
  pub connection_task_result : Option TaskResult
  pub connection_task_layer : ConnectionLayer
  pub jump_connection_task_consumed : Bool
  pub local_disconnect_requested : Bool
  pub channel_writer_active : Bool

abbrev pub left : Ending
left = record {
  connection_task_ended = false;
  connection_task_result = none;
  connection_task_layer = target;
  jump_connection_task_consumed = false;
  local_disconnect_requested = false;
  channel_writer_active = true;
}

pub data Next : Type 0 where
  again : Loop → Next
  broken : Loop → Ending → Next

pub record Context : Type 0 where
  pub session_id : ℕ
  pub generation : ℕ
  pub verbose : Bool
  pub debug_assertions : Bool  -- of the build
  pub has_jump : Bool

unfoldable pub should_flush_immediately : Bool → ℕ → Bool
should_flush_immediately pending_empty decoded_len =
    pending_empty && ltb 0 decoded_len && leb decoded_len 256

-- The pending output goes to the callback, and stays pending unless that queues it.
unfoldable pub flush : Loop → Status → List Step × Loop
flush l answer =
    let (m, queued) =
      record_callback_attempt l.delivery_metrics answer (u64 (length l.pending_output)) in
    (
      data_call l.pending_output answer ∷ [],
      record l { pending_output = if queued then [] else l.pending_output; delivery_metrics = m },
    )

unfoldable pub on_tick : Loop → Status → List Step × Loop
on_tick l answer = if is_empty l.pending_output then ([], l) else flush l answer

abbrev pub extended : Loop → List ℕ → Loop
extended l bytes = record l {
  pending_output = l.pending_output ++ bytes;
  delivery_metrics = record l.delivery_metrics {
    received_bytes = u64 (l.delivery_metrics.received_bytes + length bytes);
  };
}

unfoldable pub on_data : Loop → List ℕ → Status → List Step × Loop
on_data l bytes answer =
    if should_flush_immediately (is_empty l.pending_output) (length bytes)
      || leb 65536 (length (l.pending_output ++ bytes))
    then flush (extended l bytes) answer
    else ([], extended l bytes)

abbrev pub continue : List Step → List Step × Loop → List Step × Next
continue before (steps, l) = (before ++ steps, again l)

unfoldable pub on_message : Loop → Option ChannelMsg → Status → List Step × Next
on_message l (some (payload bytes)) answer =
    continue (took (payload bytes) ∷ []) (on_data l bytes answer)
on_message l (some (extended_payload bytes)) answer =
    continue (took (extended_payload bytes) ∷ []) (on_data l bytes answer)
on_message l (some (exit_status n)) answer =
    (took (exit_status n) ∷ [], broken (record l { exit_code = n }) left)
on_message l (some eof) answer = (took eof ∷ [], again l)
on_message l (some close) answer = (took close ∷ [], broken l left)
on_message l (some other_message) answer = (took other_message ∷ [], again l)
on_message l none answer = ([], broken l (record left { connection_task_ended = true }))

unfoldable pub on_pause : Loop → Option Bool → Loop
on_pause l none = record l { output_pause_open = false; output_paused = false }
on_pause l (some paused) = record l { output_pause_open = true; output_paused = paused }

abbrev pub channel_writer_exit_message : Result (Unit {0}) Text → Text
channel_writer_exit_message (ok u) = codes "SSH channel writer stopped unexpectedly"
channel_writer_exit_message (err e) = codes "SSH channel writer task failed: " ++ e

-- The conditions of the branches.
unfoldable pub is_enabled : Context → Loop → Turn → Bool
is_enabled c l metrics_tick = c.debug_assertions
is_enabled c l (pause_changed change) = l.output_pause_open
is_enabled c l (channel_read message answer) =
    not l.output_paused && ltb (length l.pending_output) 524288
is_enabled c l (jump_ended result) = c.has_jump
is_enabled c l _ = true

unfoldable pub take_turn : Context → Loop → Turn → List Step × Next
unfolding summary
take_turn c l (output_tick answer) = continue [] (on_tick l answer)
take_turn c l metrics_tick = (
  control (
        output_metrics c.session_id c.generation (summary l.delivery_metrics l.output_paused false))
      ∷ [],
  again l,
)
take_turn c l (pause_changed change) = ([], again (on_pause l change))
take_turn c l (channel_read message answer) = on_message l message answer
take_turn c l disconnect_received =
    ([], broken l (record left { local_disconnect_requested = true }))
take_turn c l (target_ended result) =
    ([], broken l (record left { connection_task_result = some result }))
take_turn c l (jump_ended result) = (
  [],
  broken l (record left {
    connection_task_result = some result;
    connection_task_layer = jump;
    jump_connection_task_consumed = true;
  }),
)
take_turn c l (writer_ended result) = (
  control (
        error c.session_id c.generation target (codes "write") (codes "internal")
          (channel_writer_exit_message result))
      ∷ [],
  broken l (record left { channel_writer_active = false }),
)

-- What follows a turn; `rest` is the loop from a state on.
abbrev pub then_loop : (Loop → List Step × Next) → List Step × Next → List Step × Next
then_loop rest (steps, broken l e) = (steps, broken l e)
then_loop rest (steps, again l) = let (more, n) = rest l in (steps ++ more, n)

unfoldable pub session_loop : Context → Loop → List Turn → List Step × Next
session_loop c l [] = ([], again l)
session_loop c l (t ∷ ts) = elim (is_enabled c l t) [
  | true ↦ then_loop (λ l'. session_loop c l' ts) (take_turn c l t)
  | false ↦ session_loop c l ts
]

abbrev pub first_loop : Bool → Loop
first_loop output_paused = record {
  pending_output = [];
  output_paused = output_paused;
  output_pause_open = true;
  delivery_metrics = no_metrics;
  exit_code = minus_one;
}
