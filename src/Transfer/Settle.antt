-- ===== src/Transfer/Settle.antt =====
-- How a put of leantty_ssh/src/transfer.rs ends: with the target, or without the temporary file.
use mathlib.Core.Path.{subst}
use mathlib.Core.List.{append_assoc, append-nil}
use leantty.Prelude.{
  false, ℕ, List, [], ◌∷◌, ◌++◌, some, ◌≡◌, refl, sym, ap, ◌∙◌, arith, Text, inl, inr, ◌⊎◌,
  Bool-cases, text_eq, Result, ok, err, codes, All, All-append,
}
use leantty.Transfer.{
  SftpError, Arrival, bounded, wait_for_operation, TransferFailure, cancelled, failed, Step,
  fstat_local, lstat_remote, create_remote, close_remote, remove_remote, rename_remote, notify,
  Traced, and_then, attempt, tell, caught, message, progress, finalizing, copy_with_cancel,
  bounded_operation, lstat_optional, remote_temp_path,
}
use leantty.Transfer.Execute.{
  PutPeers, opened, refuse_existing, explain_commit, commit, removed, clean_up, tell_finalizing,
  fill_and_commit, put_temp, put_measured, execute_put,
}

abbrev pub LastIs : Step → List Step → Type 0
LastIs s t = (before : List Step) × (t ≡ before ++ s ∷ [])

-- The steps before a byte is written.
abbrev pub IsLook : Step → Type 0
IsLook fstat_local = Unit
IsLook (lstat_remote p) = Unit
IsLook (create_remote p) = Unit
IsLook (notify u) = Unit
IsLook _ = ⊥

-- The server did what it was asked for, before its time and any disconnect.
abbrev pub IsTaken : Arrival (Unit {0}) SftpError → Type 0
IsTaken a = (a.disconnected ≡ false) × (a.answer ≡ some (ok tt))

bounded_operation-IsTaken :
    (a : Arrival (Unit {0}) SftpError) (code context : Text)
    → bounded_operation message a code context ≡ ok tt
    → IsTaken a
unfolding bounded_operation bounded wait_for_operation
bounded_operation-IsTaken a code context h = ground arith

module _ (temp target : Text) (peers : PutPeers) where
  abbrev pub EndsAs : Result (ℕ × ℕ) TransferFailure → List Step → Type 0
  EndsAs (ok r) t =
      LastIs (rename_remote temp target) t × IsTaken peers.rename × IsTaken peers.close
  EndsAs (err e) t = LastIs (remove_remote temp) t

  -- The last step of a success is the rename, which the server took; that of a failure is the removal, or
  -- the put failed before a byte was written.
  abbrev pub Settles : Traced (ℕ × ℕ) → Type 0
  Settles c = EndsAs c.1 c.0 ⊎ (((e : TransferFailure) × (c.1 ≡ err e)) × All IsLook c.0)

  LastIs-prefix : (s : Step) (u t : List Step) → LastIs s t → LastIs s (u ++ t)
  LastIs-prefix s u t (before, e) =
      (u ++ before, ap (λ x. u ++ x) e ∙ sym (append_assoc u before (s ∷ [])))

  EndsAs-prefix :
      (r : Result (ℕ × ℕ) TransferFailure) (u t : List Step) → EndsAs r t → EndsAs r (u ++ t)
  EndsAs-prefix (ok r) u t (h, renamed, closed) =
      (LastIs-prefix (rename_remote temp target) u t h, renamed, closed)
  EndsAs-prefix (err e) u t h = LastIs-prefix (remove_remote temp) u t h

  Settles-and_then :
      {A : Type 0} (m : Traced A) (f : A → Traced (ℕ × ℕ))
      → All IsLook m.0
      → ((a : A) → Settles (f a))
      → Settles (and_then m f)
  Settles-and_then (t, err e) f h k = inr ((e, refl), h)
  Settles-and_then (t, ok a) f h k = elim (k a) [
    | inl s ↦ inl (EndsAs-prefix (f a).1 t (f a).0 s)
    | inr (e, l) ↦ inr (e, All-append IsLook t (f a).0 h l)
  ]

  module _ (total : ℕ) where
    explain_commit-ok :
        (r : Result (Unit {0}) TransferFailure) (bytes : ℕ) (x : ℕ × ℕ)
        → (and_then (explain_commit peers target r) (λ v. ([], ok (bytes, total)))).1 ≡ ok x
        → ((and_then {B = ℕ × ℕ} (explain_commit peers target r) (λ v. ([], ok (bytes, total)))).0
            ≡ [])
          × (r ≡ ok tt)
    unfolding explain_commit
    explain_commit-ok (ok u) bytes x h = (refl, refl)
    explain_commit-ok (err cancelled) bytes x h = absurd (ground arith)
    explain_commit-ok (err (failed code detail)) bytes x h =
        elim (Bool-cases (text_eq code (codes "REMOTE_COMMIT"))) [
          | inl same ↦ absurd (ground arith)
          | inr other ↦ absurd (ground arith)
        ]

    commit-ok :
        (copied : Result ℕ TransferFailure) (closed : Result (Unit {0}) TransferFailure) (x : ℕ × ℕ)
        → (commit peers temp target total copied closed).1 ≡ ok x
        → LastIs (rename_remote temp target) (commit peers temp target total copied closed).0
          × IsTaken peers.rename
          × (closed ≡ ok tt)
    unfolding commit
    commit-ok (err e) closed x h = absurd (ground arith)
    commit-ok (ok bytes) (err e) x h = absurd (ground arith)
    commit-ok (ok bytes) (ok u) x h =
        let (silent, renamed) =
          explain_commit-ok
            (bounded_operation message peers.rename (codes "REMOTE_COMMIT")
              (codes "no-replace remote commit failed"))
            bytes x h in
        (
          ([], ap (λ t. rename_remote temp target ∷ t) silent),
          bounded_operation-IsTaken peers.rename (codes "REMOTE_COMMIT")
              (codes "no-replace remote commit failed") renamed,
          refl,
        )

    removed-EndsAs :
        (r : Result (Unit {0}) TransferFailure) (e : TransferFailure)
        → let c : Traced (ℕ × ℕ) = and_then (attempt (remove_remote temp) r) (λ _. ([], err e)) in
          EndsAs c.1 c.0
    removed-EndsAs (ok u) e = ([], refl)
    removed-EndsAs (err f) e = ([], refl)

    clean_up-EndsAs :
        (c : Traced (ℕ × ℕ))
        → ((x : ℕ × ℕ)
            → c.1 ≡ ok x
            → LastIs (rename_remote temp target) c.0 × IsTaken peers.rename × IsTaken peers.close)
        → EndsAs
            (and_then (caught c) (λ r. clean_up peers temp r)).1
            (and_then (caught c) (λ r. clean_up peers temp r)).0
    unfolding clean_up
    clean_up-EndsAs (t, ok x) h =
        let (last, renamed, closed) = h x refl in
        (subst (LastIs (rename_remote temp target)) (sym (append-nil t)) last, renamed, closed)
    clean_up-EndsAs (t, err e) h =
        let c : Traced (ℕ × ℕ) =
          and_then (attempt (remove_remote temp) (removed peers.removal)) (λ _. ([], err e)) in
        EndsAs-prefix c.1 t c.0 (removed-EndsAs (removed peers.removal) e)

    -- What follows the copy.
    abbrev finish : Result ℕ TransferFailure → Result (Unit {0}) TransferFailure → Traced (ℕ × ℕ)
    finish copied closed = and_then (caught (attempt (close_remote temp) closed)) (λ closed.
        and_then (caught (commit peers temp target total copied closed))
          (λ result. clean_up peers temp result))

    finish-EndsAs :
        (copied : Result ℕ TransferFailure) (closed : Result (Unit {0}) TransferFailure)
        → (closed ≡ ok tt → IsTaken peers.close)
        → EndsAs (finish copied closed).1 (finish copied closed).0
    finish-EndsAs copied closed k =
        let c : Traced (ℕ × ℕ) =
          and_then (caught (commit peers temp target total copied closed))
            (λ r. clean_up peers temp r) in
        EndsAs-prefix c.1 (close_remote temp ∷ []) c.0 (
          clean_up-EndsAs (commit peers temp target total copied closed) (λ x h.
            let (last, renamed, done) = commit-ok copied closed x h in (last, renamed, k done)))

    told-EndsAs :
        (copied : Result ℕ TransferFailure) (closed : Result (Unit {0}) TransferFailure)
        → (closed ≡ ok tt → IsTaken peers.close)
        → let c : Traced (ℕ × ℕ) =
            and_then (tell_finalizing total copied) (λ _. finish copied closed) in
          EndsAs c.1 c.0
    told-EndsAs (ok bytes) closed k =
        EndsAs-prefix (finish (ok bytes) closed).1 (notify (finalizing bytes total) ∷ [])
          (finish (ok bytes) closed).0 (finish-EndsAs (ok bytes) closed k)
    told-EndsAs (err e) closed k = finish-EndsAs (err e) closed k

    fill_and_commit-EndsAs :
        EndsAs
          (fill_and_commit peers temp target total).1
          (fill_and_commit peers temp target total).0
    unfolding fill_and_commit
    fill_and_commit-EndsAs =
        let copy : Traced ℕ = copy_with_cancel (some total) (codes "READ") peers.turns in
        let closed : Result (Unit {0}) TransferFailure =
          bounded_operation message peers.close (codes "REMOTE_CLOSE")
            (codes "remote temporary file close failed") in
        let c : Traced (ℕ × ℕ) =
          and_then (tell_finalizing total copy.1) (λ _. finish copy.1 closed) in
        EndsAs-prefix c.1 copy.0 c.0 (
          told-EndsAs copy.1 closed (
            bounded_operation-IsTaken peers.close (codes "REMOTE_CLOSE")
              (codes "remote temporary file close failed")))

    put_temp-Settles : Settles (put_temp peers temp target total)
    unfolding put_temp
    put_temp-Settles =
        Settles-and_then
          (attempt (create_remote temp) (
            bounded_operation message peers.create (codes "REMOTE_TEMP_CREATE")
              (codes "exclusive remote temporary file creation failed")))
          (λ _. fill_and_commit peers temp target total) (tt, tt) (λ u. inl fill_and_commit-EndsAs)

    put_measured-Settles : Settles (put_measured peers temp target total)
    unfolding put_measured
    put_measured-Settles =
        Settles-and_then (tell (notify (progress 0 total)))
          (λ _.
            and_then (attempt (lstat_remote target) (lstat_optional peers.target_before)) (λ found.
              and_then ([], refuse_existing found) (λ _. put_temp peers temp target total)))
          (tt, tt)
          (λ u.
            Settles-and_then (attempt (lstat_remote target) (lstat_optional peers.target_before))
              (λ found.
                and_then ([], refuse_existing found) (λ _. put_temp peers temp target total))
              (tt, tt)
              (λ found.
                Settles-and_then ([], refuse_existing found) (λ _. put_temp peers temp target total)
                  tt (λ v. put_temp-Settles)))

-- A put that succeeds renames the temporary file to the target as its last step, and the server took that
-- rename and the close before it, each in time and before any disconnect; one that fails asks
-- for the removal of the temporary file as its last step, or failed before a byte was written, with
-- nothing closed, renamed or removed.
pub execute_put-Settles :
    (peers : PutPeers) (target : Text) (transfer_id : ℕ)
    → Settles
        (remote_temp_path target transfer_id peers.nonce)
        target
        peers
        (execute_put peers target transfer_id)
unfolding execute_put
execute_put-Settles peers target transfer_id =
    let temp = remote_temp_path target transfer_id peers.nonce in
    Settles-and_then temp target peers (attempt fstat_local (opened peers.local_len))
      (λ total. put_measured peers temp target total) (tt, tt)
      (λ total. put_measured-Settles temp target peers total)
