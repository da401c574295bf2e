-- ===== src/Session/Retries.antt =====
-- The final attempts of `run_connected_session` of leantty_ssh/src/lib.rs.
use mathlib.Core.List.{append-nil}
use leantty.Prelude.{
  ℕ, zero, suc, ◌+◌, ◌<◌, Bool, List, [], ◌∷◌, ◌++◌, ◌≡◌, ◌≢◌, refl, sym, ◌∙◌, ap, ◌⊎◌, inl, inr,
  arith, length,
}
use leantty.Transfer.{u64}
use leantty.Session.Metrics.{
  Status, record_callback_attempt, status_ok, queue_full, other_status, OutputDeliveryMetrics,
}
use leantty.Session.Loop.{Step, data_call, Loop}
use leantty.Session.Finish.{
  after_attempt, deliver_final, settle_output, final_delivery_retry_attempts,
}
use leantty.Session.Conserve.{received, queued_by, queued, Conserves, Conserves-silent}

-- The attempts from a number on queue the whole output once, or are all refused.
abbrev Settles : (ℕ → Status) → ℕ → ℕ → List ℕ → List Step × OutputDeliveryMetrics × Bool → Type 0
Settles retry more attempt output r =
    (received r.0 ≡ [])
    × ((queued r.0 ≡ output)
        ⊎ (queued r.0 ≡ []) × ((i : ℕ) → i < more → retry (attempt + i) ≢ status_ok))

module _ (retry : ℕ → Status) (more attempt : ℕ) (output : List ℕ) where
  all_refused :
      retry attempt ≢ status_ok
      → ((i : ℕ) → i < more → retry (attempt + 1 + i) ≢ status_ok)
      → (i : ℕ) → i < suc more
      → retry (attempt + i) ≢ status_ok
  all_refused first later zero h e = first (ap retry (omega arith) ∙ e)
  all_refused first later (suc i) h e = later i (omega arith) (ap retry (omega arith) ∙ e)

  -- A refused attempt queues nothing.
  refused_attempt-Settles :
      (answer : Status)
      → queued_by output answer ≡ []
      → retry attempt ≢ status_ok
      → (r : List Step × OutputDeliveryMetrics × Bool) → Settles retry more (attempt + 1) output r
      → Settles retry (suc more) attempt output (data_call output answer ∷ r.0, r.1, r.2)
  refused_attempt-Settles answer e first r (silent, inl all) =
      (silent, inl (ap (λ x. x ++ queued r.0) e ∙ all))
  refused_attempt-Settles answer e first r (silent, inr (nothing, later)) =
      (silent, inr (ap (λ x. x ++ queued r.0) e ∙ nothing, all_refused first later))

  after_attempt-Settles :
      (answer : Status)
      → retry attempt ≡ answer
      → (m : OutputDeliveryMetrics) (n : ℕ)
      → (rest : OutputDeliveryMetrics → List Step × OutputDeliveryMetrics × Bool)
      → ((m' : OutputDeliveryMetrics) → Settles retry more (attempt + 1) output (rest m'))
      → Settles retry
          (suc more)
          attempt
          output
          (after_attempt output answer (record_callback_attempt m answer n) rest)
  after_attempt-Settles status_ok e m n rest h = (refl, inl (append-nil output))
  after_attempt-Settles queue_full e m n rest h =
      refused_attempt-Settles queue_full refl (λ k. cc) (rest _) (h _)
  after_attempt-Settles other_status e m n rest h =
      refused_attempt-Settles other_status refl (λ k. cc) (rest _) (h _)

deliver_final-Settles :
    (retry : ℕ → Status) (more attempt : ℕ) (output : List ℕ) (m : OutputDeliveryMetrics)
    → Settles retry more attempt output (deliver_final retry more attempt output m)
unfolding deliver_final
deliver_final-Settles retry zero attempt output m = (refl, inr (refl, λ i h. absurd (omega arith)))
deliver_final-Settles retry (suc more) attempt output m =
    after_attempt-Settles retry more attempt output (retry attempt) refl m (u64 (length output))
      (λ m'. deliver_final retry more (attempt + 1) output m')
      (λ m'. deliver_final-Settles retry more (attempt + 1) output m')

-- Steps that take no output and queue none.
abbrev pub IsSilent : List Step → Type 0
IsSilent s = (received s ≡ []) × (queued s ≡ [])

-- The output that was pending is queued, or every final attempt was refused and it is lost.
abbrev pub Empties : (ℕ → Status) → List ℕ → List Step → Type 0
Empties retry p s =
    (lost : List ℕ) × Conserves p s lost
    × ((lost ≡ []) ⊎ ((i : ℕ) → i < final_delivery_retry_attempts → retry i ≢ status_ok))

settled-Empties :
    (retry : ℕ → Status) (p : List ℕ) (r : List Step × OutputDeliveryMetrics × Bool)
    → Settles retry final_delivery_retry_attempts 0 p r
    → Empties retry p r.0
settled-Empties retry p r (silent, inl all) =
    ([], append-nil _ ∙ all ∙ sym (append-nil p) ∙ ap (λ x. p ++ x) (sym silent), inl refl)
settled-Empties retry p r (silent, inr (nothing, refused)) = (
  p,
  Conserves-silent p r.0 silent nothing,
  inr (λ i h e. refused i h (ap retry (omega arith) ∙ e)),
)

pub settle_output-Empties :
    (retry : ℕ → Status) (l : Loop) → Empties retry l.pending_output (settle_output retry l).0
unfolding settle_output
settle_output-Empties retry l = go l.pending_output
  where
    go : (p : List ℕ) → Empties retry p (settle_output retry (record l { pending_output = p })).0
    go [] = ([], refl, inl refl)
    go (b ∷ p) =
        settled-Empties retry (b ∷ p)
          (deliver_final retry final_delivery_retry_attempts 0 (b ∷ p) l.delivery_metrics)
          (deliver_final-Settles retry final_delivery_retry_attempts 0 (b ∷ p) l.delivery_metrics)
