-- ===== src/Session/Delivery.antt =====
-- What a connected session of leantty_ssh/src/lib.rs hands on of the output that it takes.
use leantty.Prelude.{
  ℕ, ◌<◌, Bool, true, false, List, [], ◌∷◌, ◌++◌, Option, none, some, ◌≡◌, ◌≢◌, refl, ◌⊎◌, inl, inr,
  Bool-cases, not, ◌&&◌, Text, codes, ok, err, if◌then◌else◌,
}
use leantty.Events.{ControlEvent, connected, output_metrics}
use leantty.Session.Metrics.{summary, status_ok}
use leantty.Registry.{ConnectionLayer, target}
use leantty.Session.Loop.{
  TaskResult, keepalive_timeout, other_error, Turn, Step, control, abort_writer, disconnect_target,
  disconnect_jump, Loop, Ending, Next, again, broken, Context, session_loop, first_loop,
}
use leantty.Session.Finish.{
  SessionClose, Afterwards, settle_output, finish, run_connected_session, finished, step_if,
  keepalive_timeout_layer, connection_result, send_transport_diagnostic,
}
use leantty.Session.Conserve.{
  received, queued, Conserves, Conserves-append, Conserves-silent, pending_of,
  session_loop-Conserves,
}
use leantty.Session.Retries.{IsSilent, Empties, settle_output-Empties}

silent-Conserves :
    (p q : List ℕ) (s t : List Step) → IsSilent s → Conserves p t q → Conserves p (s ++ t) q
silent-Conserves p q s t (h, k) later = Conserves-append p p q s t (Conserves-silent p s h k) later

step_if-IsSilent : (b : Bool) (s : Step) → IsSilent (s ∷ []) → IsSilent (step_if b s)
step_if-IsSilent true s h = h
step_if-IsSilent false s h = (refl, refl)

send_transport_diagnostic-IsSilent :
    (c : Context) (layer : ConnectionLayer) (stage outcome : Text)
    → IsSilent (send_transport_diagnostic c layer stage outcome)
send_transport_diagnostic-IsSilent c layer stage outcome = elim (Bool-cases c.verbose) [
  | inl on ↦ rw on (refl, refl)
  | inr off ↦ rw off (refl, refl)
]

keepalive_timeout_layer-IsSilent :
    (c : Context) (result : Option (ConnectionLayer × TaskResult))
    → IsSilent (keepalive_timeout_layer c result).0
unfolding keepalive_timeout_layer
keepalive_timeout_layer-IsSilent c none = (refl, refl)
keepalive_timeout_layer-IsSilent c (some (layer, ok u)) = (refl, refl)
keepalive_timeout_layer-IsSilent c (some (layer, err keepalive_timeout)) =
    send_transport_diagnostic-IsSilent c layer _ _
keepalive_timeout_layer-IsSilent c (some (layer, err other_error)) =
    send_transport_diagnostic-IsSilent c layer _ _

finish-Empties :
    (c : Context) (a : Afterwards) (l : Loop) (e : Ending)
    → Empties a.retry l.pending_output (finish c a l e).0
unfolding finish
finish-Empties c a l e =
    let delivery : List Step = (settle_output a.retry l).0 in
    let (lost, kept, why) = settle_output-Empties a.retry l in
    let r : Option (ConnectionLayer × TaskResult) × Bool = connection_result c a e in
    (
      lost,
      silent-Conserves l.pending_output lost (step_if e.channel_writer_active abort_writer) _
          (step_if-IsSilent e.channel_writer_active abort_writer (refl, refl))
          (silent-Conserves l.pending_output lost
            (step_if e.local_disconnect_requested disconnect_target) _
            (step_if-IsSilent e.local_disconnect_requested disconnect_target (refl, refl))
            (Conserves-append l.pending_output lost lost delivery _ kept (
              silent-Conserves lost lost (step_if (not r.1 && c.has_jump) disconnect_jump) _
                (step_if-IsSilent (not r.1 && c.has_jump) disconnect_jump (refl, refl))
                (silent-Conserves lost lost (keepalive_timeout_layer c r.0).0 _
                  (keepalive_timeout_layer-IsSilent c r.0)
                  (let t : List Step = send_transport_diagnostic c target (codes "session") (
                      if e.local_disconnect_requested then codes "cancelled" else codes "closed") in
                    let (h, k) : IsSilent t = send_transport_diagnostic-IsSilent c target _ _ in
                    let event : ControlEvent =
                      output_metrics c.session_id c.generation
                        (summary (settle_output a.retry l).1 l.output_paused true) in
                    Conserves-silent lost (control event ∷ t) h k))))),
      why,
    )

finished-Empties :
    (c : Context) (a : Afterwards) (p : List ℕ) (r : List Step × Next) (closed : SessionClose)
    → Conserves p r.0 (pending_of r.1)
    → (finished c a r).1 ≡ some closed
    → Empties a.retry p (finished c a r).0
finished-Empties c a p (steps, again l) closed h e = cc
finished-Empties c a p (steps, broken l ending) closed h e =
    let (lost, kept, why) = finish-Empties c a l ending in
    (lost, Conserves-append p l.pending_output lost steps (finish c a l ending).0 h kept, why)

-- When a session is closed, the bytes that the callback queued are, in order and without a gap, those
-- that were taken from the channel, up to a rest that is lost; and if anything is lost, the callback
-- refused each of the 128 final attempts.
pub run_connected_session-Delivers :
    (c : Context) (a : Afterwards) (output_paused : Bool) (turns : List Turn)
    (closed : SessionClose)
    → (run_connected_session c a output_paused turns).1 ≡ some closed
    → let steps = (run_connected_session c a output_paused turns).0 in
      (lost : List ℕ) × (queued steps ++ lost ≡ received steps)
      × ((lost ≡ []) ⊎ ((i : ℕ) → i < 128 → a.retry i ≢ status_ok))
unfolding run_connected_session
run_connected_session-Delivers c a output_paused turns closed h =
    let l : Loop = first_loop output_paused in
    let (lost, kept, why) =
      finished-Empties c a [] (session_loop c l turns) closed (session_loop-Conserves c l turns)
        h in
    (
      lost,
      silent-Conserves [] lost
          (send_transport_diagnostic c target (codes "session") (codes "succeeded"))
          (control (connected c.session_id c.generation)
            ∷ (finished c a (session_loop c l turns)).0)
          (send_transport_diagnostic-IsSilent c target (codes "session") (codes "succeeded")) kept,
      why,
    )
