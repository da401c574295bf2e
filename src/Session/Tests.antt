-- ===== src/Session/Tests.antt =====
-- Runs of a connected session of leantty_ssh/src/lib.rs.
use leantty.Prelude.{
  ℕ, ◌+◌, ◌<◌, false, true, List, [], ◌∷◌, ◌++◌, none, some, ◌≡◌, ◌≢◌, refl, ◌⊎◌, codes, arith, err,
  length,
}
use leantty.Input.{send_scheduled_input, write_chunks, serve_resizes}
use leantty.Session.Metrics.{status_ok, queue_full}
use leantty.Session.Loop.{
  payload, exit_status, keepalive_timeout, Turn, output_tick, channel_read, Context,
  should_flush_immediately, flush, on_tick, on_data, on_message, is_enabled, take_turn,
  session_loop, first_loop,
}
use leantty.Session.Finish.{
  normal, Afterwards, settle_output, connection_result, keepalive_timeout_layer, finish,
  run_connected_session,
}
use leantty.Session.Conserve.{received, queued, pending_of}
use leantty.Session.Delivery.{run_connected_session-Delivers}
use leantty.Session.Pressure.{session_loop-pending, session_loop_paused}
use leantty.Session.Writer.{
  WriterTurn, write_rx, resize_rx, write_input, run_channel_writer_core, run_channel_writer,
}
use leantty.Session.Served.{Serves, run_channel_writer-Sends}

abbrev quiet : Context
quiet = record {
  session_id = 1;
  generation = 7;
  verbose = false;
  debug_assertions = false;
  has_jump = false;
}

abbrev afterwards : Afterwards
afterwards = record {
  retry = λ i. status_ok;
  jump_now = none;
  target_result = err keepalive_timeout;
}

-- The first call is refused, the tick after it queues both messages; then the shell exits with 3.
abbrev short_run : List Turn
short_run =
    channel_read (some (payload (1 ∷ 2 ∷ []))) queue_full
    ∷ channel_read (some (payload (3 ∷ []))) status_ok
    ∷ output_tick status_ok
    ∷ channel_read (some (exit_status 3)) status_ok
    ∷ []

short_run_ends : (run_connected_session quiet afterwards false short_run).1 ≡ some (normal 3)
unfolding run_connected_session session_loop is_enabled take_turn on_message on_data on_tick flush
    should_flush_immediately finish settle_output connection_result keepalive_timeout_layer normal
short_run_ends = refl

short_run-queued :
    queued (run_connected_session quiet afterwards false short_run).0 ≡ 1 ∷ 2 ∷ 3 ∷ []
unfolding run_connected_session session_loop is_enabled take_turn on_message on_data on_tick flush
    should_flush_immediately finish settle_output connection_result keepalive_timeout_layer
short_run-queued = refl

run_connected_session-Delivers_example :
    let steps = (run_connected_session quiet afterwards false short_run).0 in
    (lost : List ℕ) × (queued steps ++ lost ≡ received steps)
    × ((lost ≡ []) ⊎ ((i : ℕ) → i < 128 → afterwards.retry i ≢ status_ok))
run_connected_session-Delivers_example =
    run_connected_session-Delivers quiet afterwards false short_run (normal 3) short_run_ends

session_loop-pending_example :
    length (pending_of (session_loop quiet (first_loop false) short_run).1) < 524288 + 2
session_loop-pending_example =
    session_loop-pending quiet false 2 short_run (omega arith, (omega arith, (tt, (tt, tt))))

session_loop_paused_example : received (session_loop quiet (first_loop true) short_run).0 ≡ []
session_loop_paused_example =
    session_loop_paused quiet (first_loop true) short_run refl (tt, (tt, (tt, (tt, tt))))

-- The channel breaks at the second input.
abbrev writer_turns : List WriterTurn
writer_turns =
    write_rx (
      some (record {
        bytes = 1 ∷ 2 ∷ [];
        send_chunk = λ i bytes. none;
        send_resize = λ s. none;
        during = λ i. [];
      }))
    ∷ resize_rx (some (80, 24)) (some (codes "no"))
    ∷ write_rx (
        some (record {
          bytes = 3 ∷ [];
          send_chunk = λ i bytes. some (codes "gone");
          send_resize = λ s. none;
          during = λ i. [];
        }))
    ∷ write_rx none
    ∷ []

writer_run :
    (run_channel_writer_core writer_turns).1
    ≡ (codes "resize", codes "no") ∷ (codes "write", codes "gone") ∷ []
unfolding run_channel_writer_core write_input send_scheduled_input write_chunks serve_resizes
writer_run = refl

run_channel_writer-Sends_example :
    let w = run_channel_writer 1 7 writer_turns in Serves 1 7 writer_turns w.0 w.1
run_channel_writer-Sends_example = run_channel_writer-Sends 1 7 writer_turns
