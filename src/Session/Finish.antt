-- ===== src/Session/Finish.antt =====
-- What `run_connected_session` of leantty_ssh/src/lib.rs does once its loop is left.
use leantty.Prelude.{
  ℕ, zero, suc, ◌+◌, Bool, true, false, not, ◌&&◌, List, [], ◌∷◌, ◌++◌, Option, none, some,
  if◌then◌else◌, is_empty, length, Text, codes, ok, err,
}
use leantty.Transfer.{u64}
use leantty.Registry.{ConnectionLayer, jump, target, as_str}
use leantty.Events.{connected, output_metrics, diagnostic}
use leantty.Session.Metrics.{
  Status, OutputDeliveryMetrics, record_callback_attempt, record_final_delivery_failure, summary,
}
use leantty.Session.Loop.{
  keepalive_timeout, other_error, TaskResult, Turn, Step, data_call, control, diagnostic_call,
  abort_writer, disconnect_target, disconnect_jump, Loop, Ending, Next, again, broken, Context,
  session_loop, first_loop,
}

pub record SessionClose : Type 0 where
  pub exit_code : ℕ  -- i32
  pub layer : Text
  pub code : Text
  pub detail : Text

unfoldable pub normal : ℕ → SessionClose
normal exit_code = record { exit_code = exit_code; layer = []; code = []; detail = [] }

unfoldable pub timed_out : ℕ → ConnectionLayer → SessionClose
timed_out exit_code layer = record {
  exit_code = exit_code;
  layer = as_str layer;
  code = codes "keepalive_timeout";
  detail = codes "SSH keepalive timed out. Check the network, then run the SSH command again.";
}

-- The answers after the loop: of the callback to an attempt, of the jump connection if it is over by
-- now, and of the target connection when it is over.
pub record Afterwards : Type 0 where
  pub retry : ℕ → Status
  pub jump_now : Option TaskResult
  pub target_result : TaskResult

abbrev pub final_delivery_retry_attempts : ℕ
final_delivery_retry_attempts = 128

-- One attempt, and `rest` if the callback refused it.
abbrev pub after_attempt :
    List ℕ
    → Status
    → OutputDeliveryMetrics × Bool
    → (OutputDeliveryMetrics → List Step × OutputDeliveryMetrics × Bool)
    → List Step × OutputDeliveryMetrics × Bool
after_attempt output answer (m, true) rest = (data_call output answer ∷ [], m, true)
after_attempt output answer (m, false) rest =
    let (steps, m', delivered) = rest m in (data_call output answer ∷ steps, m', delivered)

-- The attempts from a number on.
unfoldable pub deliver_final :
    (ℕ → Status) → ℕ → ℕ → List ℕ → OutputDeliveryMetrics → List Step × OutputDeliveryMetrics × Bool
deliver_final retry zero attempt output m = ([], m, false)
deliver_final retry (suc more) attempt output m =
    after_attempt output (retry attempt)
      (record_callback_attempt m (retry attempt) (u64 (length output)))
      (λ m'. deliver_final retry more (attempt + 1) output m')

unfoldable pub settle_output : (ℕ → Status) → Loop → List Step × OutputDeliveryMetrics
settle_output retry l =
    let (steps, m, delivered) =
      deliver_final retry final_delivery_retry_attempts 0 l.pending_output l.delivery_metrics in
    if is_empty l.pending_output then ([], l.delivery_metrics) else (
      steps,
      if delivered then m else record_final_delivery_failure m (u64 (length l.pending_output)),
    )

abbrev after_end : Context → Afterwards → Bool → Option (ConnectionLayer × TaskResult) × Bool
after_end c a consumed =
    if c.has_jump
    then elim a.jump_now [
      | some result ↦ (some (jump, result), true)
      | none ↦ (some (target, a.target_result), consumed)
    ]
    else (some (target, a.target_result), consumed)

-- The result of the connection that ended, and whether the jump connection's was taken.
unfoldable pub connection_result :
    Context → Afterwards → Ending → Option (ConnectionLayer × TaskResult) × Bool
connection_result c a e = elim e.connection_task_result [
  | some result ↦ (some (e.connection_task_layer, result), e.jump_connection_task_consumed)
  | none ↦
      if e.connection_task_ended
      then after_end c a e.jump_connection_task_consumed
      else (none, e.jump_connection_task_consumed)
]

abbrev pub send_transport_diagnostic : Context → ConnectionLayer → Text → Text → List Step
send_transport_diagnostic c layer stage outcome =
    if c.verbose then diagnostic_call (diagnostic layer stage outcome) ∷ [] else []

unfoldable pub keepalive_timeout_layer :
    Context → Option (ConnectionLayer × TaskResult) → List Step × Option ConnectionLayer
keepalive_timeout_layer c none = ([], none)
keepalive_timeout_layer c (some (layer, ok u)) = ([], none)
keepalive_timeout_layer c (some (layer, err keepalive_timeout)) =
    (send_transport_diagnostic c layer (codes "keepalive") (codes "timed_out"), some layer)
keepalive_timeout_layer c (some (layer, err other_error)) =
    (send_transport_diagnostic c layer (codes "session") (codes "failed"), none)

abbrev pub close_of : ℕ → Option ConnectionLayer → SessionClose
close_of exit_code none = normal exit_code
close_of exit_code (some layer) = timed_out exit_code layer

abbrev pub step_if : Bool → Step → List Step
step_if true s = s ∷ []
step_if false s = []

unfoldable pub finish : Context → Afterwards → Loop → Ending → List Step × SessionClose
unfolding settle_output connection_result keepalive_timeout_layer
finish c a l e =
    let (delivery, m) = settle_output a.retry l in
    let (result, consumed) = connection_result c a e in
    let (report, layer) = keepalive_timeout_layer c result in
    (
      step_if e.channel_writer_active abort_writer
          ++ (step_if e.local_disconnect_requested disconnect_target
              ++ (delivery
                  ++ (step_if (not consumed && c.has_jump) disconnect_jump
                      ++ (report
                          ++ (control (
                                output_metrics c.session_id c.generation
                                  (summary m l.output_paused true))
                              ∷ send_transport_diagnostic c target (codes "session") (
                                  if e.local_disconnect_requested
                                  then codes "cancelled"
                                  else codes "closed")))))),
      close_of l.exit_code layer,
    )

abbrev pub finished : Context → Afterwards → List Step × Next → List Step × Option SessionClose
finished c a (steps, again l) = (steps, none)
finished c a (steps, broken l e) = let (more, close) = finish c a l e in (steps ++ more, some close)

-- The session over the turns of its loop; nothing is returned while it goes on.
unfoldable pub run_connected_session :
    Context → Afterwards → Bool → List Turn → List Step × Option SessionClose
run_connected_session c a output_paused turns =
    let (steps, close) = finished c a (session_loop c (first_loop output_paused) turns) in
    (
      send_transport_diagnostic c target (codes "session") (codes "succeeded")
          ++ (control (connected c.session_id c.generation) ∷ steps),
      close,
    )
