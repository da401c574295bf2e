-- ===== src/Waits.antt =====
-- The waits of leantty_ssh/src/lib.rs, over the events that a `select!` takes one by one. A wait that no
-- event has ended yet is `none`.
pub mod Laws
mod Tests
use leantty.Prelude.{
  ℕ, ◌+◌, Bool, true, false, not, ◌&&◌, ◌||◌, List, [], ◌∷◌, Option, none, some, leb, ◌==◌,
  if◌then◌else◌, ok, err, Result, Text,
}
use leantty.Registry.{ConnectionLayer, jump, target, AuthMethod, LayeredAuthMethod, HostKeyDecision}

abbrev pub same_layer : ConnectionLayer → ConnectionLayer → Bool
same_layer jump jump = true
same_layer target target = true
same_layer _ _ = false

-- What a receiver yields: decisions, and at last the end of the channel.
unfoldable pub wait_for_host_key_decision :
    ConnectionLayer → List (Option HostKeyDecision) → Option Bool
wait_for_host_key_decision expected_layer [] = none
wait_for_host_key_decision expected_layer (none ∷ ds) = some false
wait_for_host_key_decision expected_layer (some d ∷ ds) =
    let rest = wait_for_host_key_decision expected_layer ds in
    if same_layer d.layer expected_layer then some d.accepted else rest

pub data AuthWaitResult : Type 0 where
  command : AuthMethod → AuthWaitResult
  auth_cancelled auth_timed_out : AuthWaitResult

pub data AuthEvent : Type 0 where
  received : LayeredAuthMethod → AuthEvent
  auth_closed disconnect_requested deadline_passed : AuthEvent

unfoldable pub wait_for_auth_command : ConnectionLayer → List AuthEvent → Option AuthWaitResult
wait_for_auth_command expected_layer [] = none
wait_for_auth_command expected_layer (received c ∷ es) =
    let rest = wait_for_auth_command expected_layer es in
    if same_layer c.layer expected_layer then some (command c.method) else rest
wait_for_auth_command expected_layer (auth_closed ∷ es) = some auth_cancelled
wait_for_auth_command expected_layer (disconnect_requested ∷ es) = some auth_cancelled
wait_for_auth_command expected_layer (deadline_passed ∷ es) = some auth_timed_out

pub data ConnectWaitResult (T E : Type 0) : Type 0 where
  connected : T → ConnectWaitResult T E
  failed : E → ConnectWaitResult T E
  timed_out cancelled : ConnectWaitResult T E

pub data ConnectProgress : Type 0 where
  waiting_for_user network_activity_resumed : ConnectProgress

-- What is ready at one time: the biased `select!` takes the first.
pub record Ready (T E : Type 0) : Type 0 where
  pub time : ℕ
  pub connect : Option (Result T E)
  pub disconnect_rx : Bool
  pub progress : Option (Option ConnectProgress)

pub record ConnectWait : Type 0 where
  pub waiting : Bool
  pub deadline : ℕ

unfoldable pub on_progress : ℕ → ℕ → ConnectWait → Option ConnectProgress → ConnectWait
on_progress timeout time w (some waiting_for_user) = record w { waiting = true }
on_progress timeout time w (some network_activity_resumed) = record {
  waiting = false;
  deadline = time + timeout;
}
on_progress timeout time w none = w

module _ {T E : Type 0} where
  abbrev pub connect_result : Result T E → ConnectWaitResult T E
  connect_result (ok value) = connected value
  connect_result (err error) = failed error

  -- One round of the loop: its answer, or the state of the next round.
  unfoldable pub connect_round :
      ℕ → ConnectWait → Ready T E → Result ConnectWait (ConnectWaitResult T E)
  connect_round timeout w r = elim r.connect [
    | some result ↦ err (connect_result result)
    | none ↦ if r.disconnect_rx then err cancelled else elim r.progress [
      | some progress ↦ ok (on_progress timeout r.time w progress)
      | none ↦ if not w.waiting && leb w.deadline r.time then err timed_out else ok w
    ]
  ]

  unfoldable pub connect_rounds :
      ℕ → ConnectWait → List (Ready T E) → Result ConnectWait (ConnectWaitResult T E)
  connect_rounds timeout w [] = ok w
  connect_rounds timeout w (r ∷ rs) = elim (connect_round timeout w r) [
    | ok w' ↦ connect_rounds timeout w' rs
    | err answer ↦ err answer
  ]

  unfoldable pub wait_for_connect :
      ℕ → ℕ → List (Ready T E) → Result ConnectWait (ConnectWaitResult T E)
  wait_for_connect timeout start rs =
      connect_rounds timeout (record { waiting = false; deadline = start + timeout }) rs

-- The first event of a `select!` over an exchange with the server, a disconnect and a timer.
pub data ExchangeEvent (T : Type 0) : Type 0 where
  exchange_done : Result T Text → ExchangeEvent T
  exchange_disconnect exchange_elapsed : ExchangeEvent T

pub data AuthExchangeResult (T : Type 0) : Type 0 where
  exchange_completed : T → AuthExchangeResult T
  exchange_failed : Text → AuthExchangeResult T
  exchange_cancelled exchange_timed_out : AuthExchangeResult T

unfoldable pub wait_for_auth_exchange : {T : Type 0} → ExchangeEvent T → AuthExchangeResult T
wait_for_auth_exchange (exchange_done (ok value)) = exchange_completed value
wait_for_auth_exchange (exchange_done (err error)) = exchange_failed error
wait_for_auth_exchange exchange_disconnect = exchange_cancelled
wait_for_auth_exchange exchange_elapsed = exchange_timed_out
