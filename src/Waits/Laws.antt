-- ===== src/Waits/Laws.antt =====
-- What the waits of leantty_ssh/src/lib.rs return, against the events before their answer.
use leantty.Prelude.{
  ℕ, ◌+◌, ◌≤◌, Bool, true, false, List, [], ◌∷◌, ◌++◌, map, Option, none, some, ◌≡◌, ◌≢◌, refl, sym,
  ◌∙◌, ap, inl, inr, ◌↔◌, arith, All, ok, err, Result-cases, Bool-cases,
}
use leantty.Registry.{ConnectionLayer, jump, target, AuthMethod, LayeredAuthMethod, HostKeyDecision}
use leantty.Waits.{
  same_layer, wait_for_host_key_decision, command, AuthEvent, received, auth_closed,
  disconnect_requested, deadline_passed, wait_for_auth_command, ConnectWaitResult, timed_out,
  ConnectProgress, waiting_for_user, network_activity_resumed, Ready, ConnectWait, on_progress,
  connect_round, connect_rounds, wait_for_connect,
}

same_layer_iff : (a b : ConnectionLayer) → (same_layer a b ≡ true) ↔ (a ≡ b)
same_layer_iff jump jump = ground arith
same_layer_iff jump target = ground arith
same_layer_iff target jump = ground arith
same_layer_iff target target = ground arith

same_layer-false : (a b : ConnectionLayer) → same_layer a b ≡ false → a ≢ b
same_layer-false a b h = ground (arith, same_layer_iff a b)

-- A command for another layer.
abbrev pub IsForeign : ConnectionLayer → AuthEvent → Type 0
IsForeign l (received c) = c.layer ≢ l
IsForeign l _ = ⊥

module _ (l : ConnectionLayer) (m : AuthMethod) where
  abbrev wanted : LayeredAuthMethod
  wanted = record { layer = l; method = m }

  wanted_eq : (c : LayeredAuthMethod) → c.layer ≡ l → c.method ≡ m → c ≡ wanted
  wanted_eq c h k = ground arith

  -- The first command on the layer, behind commands for the other layer.
  abbrev pub IsFirst : List AuthEvent → Type 0
  IsFirst es =
      (before : List AuthEvent) × ((after : List AuthEvent) × (es
          ≡ before ++ received wanted ∷ after)
        × All (IsForeign l) before)

  wait-IsFirst : (es : List AuthEvent) → wait_for_auth_command l es ≡ some (command m) → IsFirst es
  unfolding wait_for_auth_command
  wait-IsFirst [] h = absurd (ground arith)
  wait-IsFirst (auth_closed ∷ es) h = absurd (ground arith)
  wait-IsFirst (disconnect_requested ∷ es) h = absurd (ground arith)
  wait-IsFirst (deadline_passed ∷ es) h = absurd (ground arith)
  wait-IsFirst (received c ∷ es) h = elim (Bool-cases (same_layer c.layer l)) [
    | inl same ↦
        let e : c ≡ wanted = wanted_eq c ((same_layer_iff c.layer l).0 same) (ground arith) in
        ([], (es, ap (λ d. received d ∷ es) e, tt))
    | inr other ↦
        let (before, (after, e, foreign)) = wait-IsFirst es (rw other at h) in
        (
          received c ∷ before,
          (after, ap (λ xs. received c ∷ xs) e, (same_layer-false c.layer l other, foreign)),
        )
  ]

  first-wait :
      (before after : List AuthEvent)
      → All (IsForeign l) before
      → wait_for_auth_command l (before ++ received wanted ∷ after) ≡ some (command m)
  unfolding wait_for_auth_command
  first-wait [] after h = ground (arith, same_layer_iff l l)
  first-wait (received c ∷ before) after h =
      ground (arith, same_layer_iff c.layer l, first-wait before after h.1)
  first-wait (auth_closed ∷ before) after h = absurd h.0
  first-wait (disconnect_requested ∷ before) after h = absurd h.0
  first-wait (deadline_passed ∷ before) after h = absurd h.0

-- A wait returns a command exactly if it is the first on the layer asked for, and only commands for the
-- other layer came before: no close, disconnect or deadline.
pub wait_for_auth_command_lem :
    (l : ConnectionLayer) (es : List AuthEvent) (m : AuthMethod)
    → (wait_for_auth_command l es ≡ some (command m)) ↔ IsFirst l m es
wait_for_auth_command_lem l es m = (
  wait-IsFirst l m es,
  λ first. let (before, (after, e, foreign)) = first in rw e (first-wait l m before after foreign),
)

abbrev resumed : ℕ → ℕ → Option (Option ConnectProgress) → ℕ
resumed since time (some (some network_activity_resumed)) = time
resumed since time _ = since

abbrev asking : Bool → Option (Option ConnectProgress) → Bool
asking now (some (some waiting_for_user)) = true
asking now (some (some network_activity_resumed)) = false
asking now _ = now

abbrev wait_since : ℕ → ℕ → Bool → ConnectWait
wait_since timeout since now = record { waiting = now; deadline = since + timeout }

module _ {T E : Type 0} where
  -- When the network was last reported active, `since` at first.
  abbrev pub resumed_at : ℕ → List (Ready T E) → ℕ
  resumed_at since [] = since
  resumed_at since (r ∷ rs) = resumed_at (resumed since r.time r.progress) rs

  -- Whether the user is being waited for.
  abbrev pub asks : Bool → List (Ready T E) → Bool
  asks now [] = now
  asks now (r ∷ rs) = asks (asking now r.progress) rs

  connect_round-ok :
      (timeout since : ℕ) (now : Bool) (r : Ready T E) {w : ConnectWait}
      → connect_round timeout (wait_since timeout since now) r ≡ ok w
      → w ≡ wait_since timeout (resumed since r.time r.progress) (asking now r.progress)
  unfolding connect_round on_progress
  connect_round-ok timeout since now r h = ground arith

  connect_round-timed_out :
      (timeout since : ℕ) (now : Bool) (r : Ready T E)
      → connect_round timeout (wait_since timeout since now) r ≡ err timed_out
      → (since + timeout ≤ r.time) × (now ≡ false)
  unfolding connect_round
  connect_round-timed_out timeout since now r h = ground arith

  -- A round that finds the deadline passed, after the rounds before it.
  abbrev pub TimedOutAfter : ℕ → ℕ → Bool → List (Ready T E) → Type 0
  TimedOutAfter timeout since now rs =
      (before : List (Ready T E)) × ((r : Ready T E) × ((after : List (Ready T E)) × (rs
            ≡ before ++ r ∷ after)
          × (resumed_at since before + timeout ≤ r.time)
          × (asks now before ≡ false)))

  module _ (timeout : ℕ) (v : ConnectWait) (r : Ready T E) (rs : List (Ready T E)) where
    connect_rounds-stop :
        (a : ConnectWaitResult T E)
        → connect_round timeout v r ≡ err a
        → connect_rounds timeout v (r ∷ rs) ≡ err a
    unfolding connect_rounds
    connect_rounds-stop a e = ground arith

    connect_rounds-next :
        (w : ConnectWait)
        → connect_round timeout v r ≡ ok w
        → connect_rounds timeout v (r ∷ rs) ≡ connect_rounds timeout w rs
    unfolding connect_rounds
    connect_rounds-next w e = ground arith

  connect_rounds-timed_out :
      (timeout since : ℕ) (now : Bool) (rs : List (Ready T E))
      → connect_rounds timeout (wait_since timeout since now) rs ≡ err timed_out
      → TimedOutAfter timeout since now rs
  connect_rounds-timed_out timeout since now [] h = unfold connect_rounds in absurd (ground arith)
  connect_rounds-timed_out timeout since now (r ∷ rs) h =
      let v = wait_since timeout since now in
      elim (Result-cases (connect_round timeout v r)) [
        | inr (a, e) ↦
            let (late, quiet) =
              connect_round-timed_out timeout since now r
                (e ∙ sym (connect_rounds-stop timeout v r rs a e) ∙ h) in
            ([], (r, (rs, refl, late, quiet)))
        | inl (w, e) ↦
            let (before, (q, (after, split, late, quiet))) =
              connect_rounds-timed_out timeout (resumed since r.time r.progress)
                (asking now r.progress) rs
                (ap (λ u. connect_rounds timeout u rs)
                    (sym (connect_round-ok timeout since now r e))
                  ∙ sym (connect_rounds-next timeout v r rs w e)
                  ∙ h) in
            (r ∷ before, (q, (after, ap (λ xs. r ∷ xs) split, late, quiet)))
      ]

-- The wait for a connection times out only in a round that comes at least the timeout after the last
-- report of network activity, or after the start, and never while the user is being waited for.
pub wait_for_connect-TimedOutAfter :
    {T E : Type 0} (timeout start : ℕ) (rs : List (Ready T E))
    → wait_for_connect timeout start rs ≡ err timed_out
    → TimedOutAfter timeout start false rs
unfolding wait_for_connect
wait_for_connect-TimedOutAfter timeout start rs h =
    connect_rounds-timed_out timeout start false rs h

decision_eq :
    (d : HostKeyDecision) (l : ConnectionLayer)
    → d.layer ≡ l
    → d.accepted ≡ true
    → d ≡ record { layer = l; accepted = true }
decision_eq d l h k = ground arith

-- A host key is accepted only by a decision to accept it on the layer asked for, before which every
-- decision was for the other layer.
pub wait_for_host_key_decision-accepted :
    (l : ConnectionLayer) (ds : List (Option HostKeyDecision))
    → wait_for_host_key_decision l ds ≡ some true
    → (before : List HostKeyDecision) × ((after : List (Option HostKeyDecision)) × (ds
          ≡ map some before ++ some (record { layer = l; accepted = true }) ∷ after)
        × All (λ d. d.layer ≢ l) before)
unfolding wait_for_host_key_decision
wait_for_host_key_decision-accepted l [] h = absurd (ground arith)
wait_for_host_key_decision-accepted l (none ∷ ds) h = absurd (ground arith)
wait_for_host_key_decision-accepted l (some d ∷ ds) h = elim (Bool-cases (same_layer d.layer l)) [
  | inl same ↦
      let e : d ≡ record { layer = l; accepted = true } =
        decision_eq d l ((same_layer_iff d.layer l).0 same) (ground arith) in
      ([], (ds, ap (λ c. some c ∷ ds) e, tt))
  | inr other ↦
      let (before, (after, e, foreign)) =
        wait_for_host_key_decision-accepted l ds (rw other at h) in
      (d ∷ before, (after, ap (λ xs. some d ∷ xs) e, (same_layer-false d.layer l other, foreign)))
]
