-- ===== src/Session/Served.antt =====
-- What the writer task of leantty_ssh/src/lib.rs sends of the input, and what it reports.
use mathlib.Core.List.{map-append}
use leantty.Prelude.{
  ℕ, List, [], ◌∷◌, ◌++◌, map, Option, none, some, ◌≡◌, refl, Text, codes, text_eq, Result, ok, err,
}
use leantty.Prelude.Decimal.{to_string}
use leantty.Registry.{as_str, target}
use leantty.Events.{ControlEvent, base, error, warning}
use leantty.Input.{Sent, size, Report, send_scheduled_input}
use leantty.Input.Chunks.{Delivers, send_scheduled_input-Delivers}
use leantty.Session.Writer.{
  Input, WriterTurn, write_rx, resize_rx, writer_event, write_report, reported, write_input,
  resize_report, run_channel_writer_core, run_channel_writer,
}

abbrev pub errors_of : Option Text → List Text
errors_of none = []
errors_of (some e) = e ∷ []

abbrev pub failure_of : Result (Unit {0}) Text → List Text
failure_of (ok u) = []
failure_of (err e) = e ∷ []

module _ (session_id generation : ℕ) where
  -- An event of this kind and stage about this text, with the id and generation of the session.
  abbrev pub Tells : Text → Text → Text → ControlEvent → Type 0
  Tells kind stage detail e =
      (e.kind ≡ kind)
      × (e.stage ≡ stage)
      × (e.detail ≡ detail)
      × (e.session_id ≡ to_string session_id)
      × (e.generation ≡ generation)
      × (e.layer ≡ as_str target)

  -- One event for each text, in order.
  abbrev pub TellAll : Text → Text → List Text → List ControlEvent → Type 0
  TellAll kind stage [] [] = Unit
  TellAll kind stage [] (e ∷ es) = ⊥
  TellAll kind stage (d ∷ ds) [] = ⊥
  TellAll kind stage (d ∷ ds) (e ∷ es) = Tells kind stage d e × TellAll kind stage ds es

  -- What is sent and reported for one input.
  abbrev pub ServesInput : Input → List Sent → List ControlEvent → Type 0
  ServesInput i own told =
      (r : Report Text) × (own ≡ r.sent)
      × Delivers i.send_chunk i.send_resize 0 i.bytes (some r)
      × (sizes : List ControlEvent) × (end : List ControlEvent) × (told ≡ sizes ++ end)
      × TellAll (codes "warning") (codes "resize") r.resize_errors sizes
      × TellAll (codes "error") (codes "write") (failure_of r.result) end

  -- The writer's work, turn by turn, until a queue ends.
  abbrev pub Serves : List WriterTurn → List Sent → List ControlEvent → Type 0
  Serves [] sent told = (sent ≡ []) × (told ≡ [])
  Serves (write_rx none ∷ ts) sent told = (sent ≡ []) × (told ≡ [])
  Serves (resize_rx none answer ∷ ts) sent told = (sent ≡ []) × (told ≡ [])
  Serves (write_rx (some i) ∷ ts) sent told =
      (own : List Sent) × (later : List Sent) × (own_told : List ControlEvent) × (later_told : List
        ControlEvent)
      × (sent ≡ own ++ later)
      × (told ≡ own_told ++ later_told)
      × ServesInput i own own_told
      × Serves ts later later_told
  Serves (resize_rx (some s) answer ∷ ts) sent told =
      (later : List Sent) × (own_told : List ControlEvent) × (later_told : List ControlEvent)
      × (sent ≡ size s ∷ later)
      × (told ≡ own_told ++ later_told)
      × TellAll (codes "warning") (codes "resize") (errors_of answer) own_told
      × Serves ts later later_told

  abbrev event_of : Text × Text → ControlEvent
  event_of r = writer_event session_id generation r.0 r.1

  abbrev events : List (Text × Text) → List ControlEvent
  events reports = map event_of reports

  resize-Tells :
      (d : Text) → Tells (codes "warning") (codes "resize") d (event_of (codes "resize", d))
  unfolding writer_event warning error base text_eq
  resize-Tells d = (refl, refl, refl, refl, refl, refl)

  write-Tells : (d : Text) → Tells (codes "error") (codes "write") d (event_of (codes "write", d))
  unfolding writer_event error base text_eq
  write-Tells d = (refl, refl, refl, refl, refl, refl)

  resizes-TellAll :
      (ds : List Text)
      → TellAll (codes "warning") (codes "resize") ds (events (map (λ e. (codes "resize", e)) ds))
  resizes-TellAll [] = tt
  resizes-TellAll (d ∷ ds) = (resize-Tells d, resizes-TellAll ds)

  resize_report-TellAll :
      (answer : Option Text)
      → TellAll
          (codes "warning")
          (codes "resize")
          (errors_of answer)
          (events (resize_report answer))
  resize_report-TellAll none = tt
  resize_report-TellAll (some e) = (resize-Tells e, tt)

  write_report-TellAll :
      (r : Result (Unit {0}) Text)
      → TellAll (codes "error") (codes "write") (failure_of r) (events (write_report r))
  write_report-TellAll (ok u) = tt
  write_report-TellAll (err e) = (write-Tells e, tt)

  reported-ServesInput :
      (i : Input) (o : Option (Report Text))
      → Delivers i.send_chunk i.send_resize 0 i.bytes o
      → ServesInput i (reported o).0 (events (reported o).1)
  reported-ServesInput i none d = absurd d
  reported-ServesInput i (some r) d = (
    r,
    refl,
    d,
    events (map (λ e. (codes "resize", e)) r.resize_errors),
    events (write_report r.result),
    map-append event_of (map (λ e. (codes "resize", e)) r.resize_errors) (write_report r.result),
    resizes-TellAll r.resize_errors,
    write_report-TellAll r.result,
  )

  run_channel_writer_core-Serves :
      (turns : List WriterTurn)
      → let w = run_channel_writer_core turns in Serves turns w.0 (events w.1)
  unfolding run_channel_writer_core write_input
  run_channel_writer_core-Serves [] = (refl, refl)
  run_channel_writer_core-Serves (write_rx none ∷ ts) = (refl, refl)
  run_channel_writer_core-Serves (resize_rx none answer ∷ ts) = (refl, refl)
  run_channel_writer_core-Serves (write_rx (some i) ∷ ts) =
      let o = send_scheduled_input i.send_chunk i.send_resize i.during i.bytes in
      let w = run_channel_writer_core ts in
      (
        (reported o).0,
        w.0,
        events (reported o).1,
        events w.1,
        refl,
        map-append event_of (reported o).1 w.1,
        reported-ServesInput i o
            (send_scheduled_input-Delivers i.send_chunk i.send_resize i.during i.bytes),
        run_channel_writer_core-Serves ts,
      )
  run_channel_writer_core-Serves (resize_rx (some s) answer ∷ ts) =
      let w = run_channel_writer_core ts in
      (
        w.0,
        events (resize_report answer),
        events w.1,
        refl,
        map-append event_of (resize_report answer) w.1,
        resize_report-TellAll answer,
        run_channel_writer_core-Serves ts,
      )

-- Until one of its queues ends, the writer serves its turns in order, each with its own part of what is
-- sent and of what is reported. An input is sent from its start in chunks of at most 32 KiB without a gap:
-- either the channel took all of it and no error is reported, or the channel refused a chunk, which is the
-- last one of that input, and exactly one error with the channel's text is reported. A size is sent as it
-- is. Each size that the channel refuses is reported as one warning with its text.
pub run_channel_writer-Sends :
    (session_id generation : ℕ) (turns : List WriterTurn)
    → let w = run_channel_writer session_id generation turns in
      Serves session_id generation turns w.0 w.1
unfolding run_channel_writer
run_channel_writer-Sends session_id generation turns =
    run_channel_writer_core-Serves session_id generation turns
