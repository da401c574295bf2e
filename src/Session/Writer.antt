-- ===== src/Session/Writer.antt =====
-- `run_channel_writer` and `run_channel_writer_core` of leantty_ssh/src/lib.rs: the task that sends a
-- shell's input and its sizes, and reports what fails.
use leantty.Prelude.{
  ℕ, List, [], ◌∷◌, ◌++◌, map, Option, none, some, Text, codes, text_eq, if◌then◌else◌, Result, ok,
  err,
}
use leantty.Registry.{target}
use leantty.Events.{ControlEvent, error, warning}
use leantty.Input.{Sent, size, Report, send_scheduled_input}

-- Input to send, with what the channel answers and the sizes that come in between.
pub record Input : Type 0 where
  pub bytes : List ℕ
  pub send_chunk : ℕ → List ℕ → Option Text
  pub send_resize : ℕ × ℕ → Option Text
  pub during : ℕ → List (Option ((ℕ × ℕ) × List (ℕ × ℕ)))

-- What the `select!` takes from the two queues, and the answer to a size; none is the end of a queue.
pub data WriterTurn : Type 0 where
  write_rx : Option Input → WriterTurn
  resize_rx : Option (ℕ × ℕ) → Option Text → WriterTurn

unfoldable pub writer_event : ℕ → ℕ → Text → Text → ControlEvent
writer_event session_id generation stage detail =
    if text_eq stage (codes "resize")
    then warning session_id generation target stage (codes "internal") detail
    else error session_id generation target stage (codes "internal") detail

-- What was sent, and the stages and texts that were reported.
abbrev pub Written : Type 0
Written = List Sent × List (Text × Text)

abbrev pub write_report : Result (Unit {0}) Text → List (Text × Text)
write_report (ok u) = []
write_report (err e) = (codes "write", e) ∷ []

-- The fuel of `send_scheduled_input` is enough, so that it always answers.
abbrev pub reported : Option (Report Text) → Written
reported none = ([], [])
reported (some r) =
    (r.sent, map (λ e. (codes "resize", e)) r.resize_errors ++ write_report r.result)

unfoldable pub write_input : Input → Written
write_input i = reported (send_scheduled_input i.send_chunk i.send_resize i.during i.bytes)

abbrev pub resize_report : Option Text → List (Text × Text)
resize_report none = []
resize_report (some e) = (codes "resize", e) ∷ []

abbrev pub before : Written → Written → Written
before (s, r) (s', r') = (s ++ s', r ++ r')

unfoldable pub run_channel_writer_core : List WriterTurn → Written
run_channel_writer_core [] = ([], [])
run_channel_writer_core (write_rx none ∷ ts) = ([], [])
run_channel_writer_core (write_rx (some i) ∷ ts) =
    before (write_input i) (run_channel_writer_core ts)
run_channel_writer_core (resize_rx none answer ∷ ts) = ([], [])
run_channel_writer_core (resize_rx (some s) answer ∷ ts) =
    before (size s ∷ [], resize_report answer) (run_channel_writer_core ts)

-- The events that the user interface gets.
unfoldable pub run_channel_writer : ℕ → ℕ → List WriterTurn → List Sent × List ControlEvent
run_channel_writer session_id generation turns =
    let (sent, reports) = run_channel_writer_core turns in
    (sent, map (λ r. writer_event session_id generation r.0 r.1) reports)
