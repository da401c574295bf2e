-- ===== src/Transfer/Put.antt =====
-- What a put of leantty_ssh/src/transfer.rs may do to the server, whatever the server answers.
use mathlib.Core.Path.{subst}
use mathlib.Core.List.{append_assoc, append-nil}
use leantty.Prelude.{
  ℕ, ◌+◌, Bool, true, false, List, [], ◌∷◌, ◌++◌, Option, none, some, ◌≡◌, refl, sym, inl, inr,
  Text, length, Result, ok, err, Bool-cases, ◌==◌, text_eq, codes,
}
use leantty.Transfer.{
  TransferFailure, TransferUpdate, Step, fstat_local, flush_local, sync_local, lstat_remote,
  open_remote, fstat_remote, create_remote, close_remote, remove_remote, rename_remote, write_bytes,
  notify, Traced, and_then, attempt, caught, u64, CopyTurn, finish_copy, end_of_source, reported,
  read_turn, write_turn, after_read, copy_turns, message, cancelled, failed, copy_with_cancel,
  bounded_operation,
}
use leantty.Transfer.Copy.{written}
use leantty.Transfer.Execute.{PutPeers, explain_commit, commit, removed, clean_up, tell_finalizing}

module _ (temp target : Text) (IsWhole : List ℕ → Type 0) where
  -- After the bytes `acc` were written: only the temporary file is made, closed and removed, nothing is
  -- opened, and it becomes the target only where the bytes written before are whole.
  abbrev pub IsSafe : List ℕ → List Step → Type 0
  IsSafe acc [] = Unit
  IsSafe acc (write_bytes bs ∷ t) = IsSafe (acc ++ bs) t
  IsSafe acc (create_remote p ∷ t) = (p ≡ temp) × IsSafe acc t
  IsSafe acc (close_remote p ∷ t) = (p ≡ temp) × IsSafe acc t
  IsSafe acc (remove_remote p ∷ t) = (p ≡ temp) × IsSafe acc t
  IsSafe acc (rename_remote p q ∷ t) = (p ≡ temp) × (q ≡ target) × IsWhole acc × IsSafe acc t
  IsSafe acc (open_remote p ∷ t) = ⊥
  IsSafe acc (_ ∷ t) = IsSafe acc t

  IsSafe-append :
      (acc : List ℕ) (t u : List Step)
      → IsSafe acc t
      → IsSafe (acc ++ written t) u
      → IsSafe acc (t ++ u)
  IsSafe-append acc [] u h k = subst (λ a. IsSafe a u) (append-nil acc) k
  IsSafe-append acc (write_bytes bs ∷ t) u h k =
      IsSafe-append (acc ++ bs) t u h
        (subst (λ a. IsSafe a u) (sym (append_assoc acc bs (written t))) k)
  IsSafe-append acc (create_remote p ∷ t) u h k = (h.0, IsSafe-append acc t u h.1 k)
  IsSafe-append acc (close_remote p ∷ t) u h k = (h.0, IsSafe-append acc t u h.1 k)
  IsSafe-append acc (remove_remote p ∷ t) u h k = (h.0, IsSafe-append acc t u h.1 k)
  IsSafe-append acc (rename_remote p q ∷ t) u h k = (h.0, h.1, h.2, IsSafe-append acc t u h.3 k)
  IsSafe-append acc (open_remote p ∷ t) u h k = absurd h
  IsSafe-append acc (fstat_local ∷ t) u h k = IsSafe-append acc t u h k
  IsSafe-append acc (flush_local ∷ t) u h k = IsSafe-append acc t u h k
  IsSafe-append acc (sync_local ∷ t) u h k = IsSafe-append acc t u h k
  IsSafe-append acc (lstat_remote p ∷ t) u h k = IsSafe-append acc t u h k
  IsSafe-append acc (fstat_remote p ∷ t) u h k = IsSafe-append acc t u h k
  IsSafe-append acc (notify a ∷ t) u h k = IsSafe-append acc t u h k

  -- A chain of steps is safe if each is, given what was written before and answered.
  pub IsSafe-and_then :
      {A B : Type 0} (acc : List ℕ) (m : Traced A) (f : A → Traced B)
      → IsSafe acc m.0
      → ((a : A) → m.1 ≡ ok a → IsSafe (acc ++ written m.0) (f a).0)
      → IsSafe acc (and_then m f).0
  IsSafe-and_then acc (t, err e) f h k = h
  IsSafe-and_then acc (t, ok a) f h k = IsSafe-append acc t (f a).0 h (k a refl)

  pub IsSafe-and_then_silent :
      {A B : Type 0} (acc : List ℕ) (m : Traced A) (f : A → Traced B)
      → IsSafe acc m.0
      → written m.0 ≡ []
      → ((a : A) → m.1 ≡ ok a → IsSafe acc (f a).0)
      → IsSafe acc (and_then m f).0
  IsSafe-and_then_silent acc m f h e k = IsSafe-and_then acc m f h (λ a r.
      subst (λ b. IsSafe (acc ++ b) (f a).0) (sym e)
        (subst (λ b. IsSafe b (f a).0) (sym (append-nil acc)) (k a r)))

  reported-IsSafe : (acc : List ℕ) (d : Bool) (a : TransferUpdate) → IsSafe acc (reported d a)
  reported-IsSafe acc true a = tt
  reported-IsSafe acc false a = tt

  reported-written : (d : Bool) (a : TransferUpdate) → written (reported d a) ≡ []
  reported-written true a = refl
  reported-written false a = refl

  finish_copy-IsSafe :
      (acc : List ℕ) (expected : Option ℕ) (n : ℕ) → IsSafe acc (finish_copy expected n).0
  unfolding finish_copy end_of_source
  finish_copy-IsSafe acc none n = tt
  finish_copy-IsSafe acc (some x) n = elim (Bool-cases (n == x)) [
    | inl same ↦ rw same tt
    | inr other ↦ rw other tt
  ]

  after_read-IsSafe :
      (acc : List ℕ) (expected : Option ℕ) (n : ℕ) (t : CopyTurn) (rest : ℕ → Traced ℕ)
      (r : Result (List ℕ) TransferFailure)
      → ((acc : List ℕ) (m : ℕ) → IsSafe acc (rest m).0)
      → IsSafe acc (after_read expected n t rest r).0
  unfolding after_read
  after_read-IsSafe acc expected n t rest (err e) k = tt
  after_read-IsSafe acc expected n t rest (ok []) k = finish_copy-IsSafe acc expected n
  after_read-IsSafe acc expected n t rest (ok (b ∷ bs)) k =
      IsSafe-and_then acc (attempt (write_bytes (b ∷ bs)) (write_turn t)) _ tt (λ u e.
        IsSafe-and_then _ (reported t.progress_due _, ok tt) (λ v. rest (u64 (n + length (b ∷ bs))))
          (reported-IsSafe _ t.progress_due _) (λ v e. k _ (u64 (n + length (b ∷ bs)))))

  copy_turns-IsSafe :
      (acc : List ℕ) (expected : Option ℕ) (code : Text) (n : ℕ) (ts : List CopyTurn)
      → IsSafe acc (copy_turns expected code n ts).0
  unfolding copy_turns
  copy_turns-IsSafe acc expected code n [] = finish_copy-IsSafe acc expected n
  copy_turns-IsSafe acc expected code n (t ∷ ts) =
      after_read-IsSafe acc expected n t (λ m. copy_turns expected code m ts) (read_turn code t)
        (λ acc' m. copy_turns-IsSafe acc' expected code m ts)

  pub copy_with_cancel-IsSafe :
      (acc : List ℕ) (expected : Option ℕ) (code : Text) (ts : List CopyTurn)
      → IsSafe acc (copy_with_cancel expected code ts).0
  unfolding copy_with_cancel
  copy_with_cancel-IsSafe acc expected code ts = copy_turns-IsSafe acc expected code 0 ts

  module _ (peers : PutPeers) where
    explain_commit-IsSafe :
        (acc : List ℕ) (r : Result (Unit {0}) TransferFailure)
        → IsSafe acc (explain_commit peers target r).0
    unfolding explain_commit
    explain_commit-IsSafe acc (ok u) = tt
    explain_commit-IsSafe acc (err cancelled) = tt
    explain_commit-IsSafe acc (err (failed code detail)) =
        elim (Bool-cases (text_eq code (codes "REMOTE_COMMIT"))) [
          | inl same ↦ rw same tt
          | inr other ↦ rw other tt
        ]

    pub commit-IsSafe :
        (acc : List ℕ) (total : ℕ) (copied : Result ℕ TransferFailure)
        (closed : Result (Unit {0}) TransferFailure)
        → ((bytes : ℕ) → copied ≡ ok bytes → IsWhole acc)
        → IsSafe acc (commit peers temp target total copied closed).0
    unfolding commit
    commit-IsSafe acc total (err e) closed h = tt
    commit-IsSafe acc total (ok bytes) (err e) h = tt
    commit-IsSafe acc total (ok bytes) (ok u) h =
        IsSafe-and_then_silent {B = ℕ × ℕ} acc
          (caught (
            attempt (rename_remote temp target) (
              bounded_operation message peers.rename (codes "REMOTE_COMMIT")
                (codes "no-replace remote commit failed"))))
          (λ renamed. and_then (explain_commit peers target renamed) (λ v. ([], ok (bytes, total))))
          (refl, refl, h bytes refl, tt) refl
          (λ renamed e.
            IsSafe-and_then {B = ℕ × ℕ} acc (explain_commit peers target renamed)
              (λ v. ([], ok (bytes, total))) (explain_commit-IsSafe acc renamed) (λ v e. tt))

    pub clean_up-IsSafe :
        (acc : List ℕ) (r : Result (ℕ × ℕ) TransferFailure) → IsSafe acc (clean_up peers temp r).0
    unfolding clean_up
    clean_up-IsSafe acc (ok r) = tt
    clean_up-IsSafe acc (err e) =
        IsSafe-and_then acc (attempt (remove_remote temp) (removed peers.removal))
          (λ u. ([], err e)) (refl, tt) (λ u k. tt)

    pub tell_finalizing-IsSafe :
        (acc : List ℕ) (total : ℕ) (copied : Result ℕ TransferFailure)
        → IsSafe acc (tell_finalizing total copied).0
    tell_finalizing-IsSafe acc total (ok bytes) = tt
    tell_finalizing-IsSafe acc total (err e) = tt

    pub tell_finalizing-written :
        (total : ℕ) (copied : Result ℕ TransferFailure)
        → written (tell_finalizing total copied).0 ≡ []
    tell_finalizing-written total (ok bytes) = refl
    tell_finalizing-written total (err e) = refl
