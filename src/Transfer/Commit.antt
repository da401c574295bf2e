-- ===== src/Transfer/Commit.antt =====
-- When a put of leantty_ssh/src/transfer.rs makes its target.
use leantty.Prelude.{
  ℕ, List, [], ◌++◌, some, ◌≡◌, refl, sym, ap, ◌∙◌, arith, Text, length, Result, ok, err, codes,
}
use leantty.Transfer.{
  TransferFailure, fstat_local, lstat_remote, create_remote, close_remote, Traced, and_then,
  attempt, caught, u64, message, copy_with_cancel, bounded_operation, lstat_optional,
  remote_temp_path,
}
use leantty.Transfer.Copy.{written, IsWholeSource, Copied, copy_with_cancel-Copied}
use leantty.Transfer.Execute.{
  PutPeers, opened, refuse_existing, commit, clean_up, tell_finalizing, fill_and_commit, put_temp,
  put_measured, execute_put,
}
use leantty.Transfer.Put.{
  IsSafe, IsSafe-and_then, IsSafe-and_then_silent, copy_with_cancel-IsSafe, commit-IsSafe,
  clean_up-IsSafe, tell_finalizing-IsSafe, tell_finalizing-written,
}

-- The bytes are the whole local file, every write of them was taken, and their number is the length that
-- was measured first.
abbrev pub IsWholeFile : PutPeers → List ℕ → Type 0
IsWholeFile peers acc = IsWholeSource peers.turns acc × (peers.local_len ≡ ok (u64 (length acc)))

caught-ok :
    {A : Type 0} (m : Traced A) (r : Result A TransferFailure) → (caught m).1 ≡ ok r → m.1 ≡ r
caught-ok m r h = ground arith

Copied-IsWholeFile :
    (peers : PutPeers) (total bytes : ℕ) (c : Traced ℕ)
    → peers.local_len ≡ ok total
    → Copied (some total) 0 peers.turns c
    → c.1 ≡ ok bytes
    → IsWholeFile peers (written c.0)
Copied-IsWholeFile peers total bytes c l h e =
    let same : total ≡ u64 (length (written c.0)) =
      sym (h.as_expected bytes total e refl) ∙ (h.measured bytes e ∙ omega arith) in
    (h.complete bytes e, l ∙ ap (λ n. ok n) same)

module _ (peers : PutPeers) (temp target : Text) (total : ℕ) (l : peers.local_len ≡ ok total) where
  finish-IsSafe :
      (acc : List ℕ) (copied : Result ℕ TransferFailure)
      → ((bytes : ℕ) → copied ≡ ok bytes → IsWholeFile peers acc)
      → (closed : Result (Unit {0}) TransferFailure)
      → IsSafe temp target
          (IsWholeFile peers)
          acc
          (and_then (tell_finalizing total copied) (λ _.
            and_then (caught (attempt (close_remote temp) closed)) (λ closed.
              and_then
                (caught (commit peers temp target total copied closed))
                (λ result. clean_up peers temp result)))).0
  finish-IsSafe acc copied w closed =
      IsSafe-and_then_silent temp target (IsWholeFile peers) acc (tell_finalizing total copied)
        (λ _. and_then (caught (attempt (close_remote temp) closed)) (λ closed.
          and_then (caught (commit peers temp target total copied closed))
            (λ result. clean_up peers temp result)))
        (tell_finalizing-IsSafe temp target (IsWholeFile peers) peers acc total copied)
        (tell_finalizing-written temp target (IsWholeFile peers) peers total copied)
        (λ v e. (
          refl,
          IsSafe-and_then temp target (IsWholeFile peers) acc
              (caught (commit peers temp target total copied closed))
              (λ result. clean_up peers temp result)
              (commit-IsSafe temp target (IsWholeFile peers) peers acc total copied closed w)
              (λ r k.
                clean_up-IsSafe temp target (IsWholeFile peers) peers
                  (acc ++ written (commit peers temp target total copied closed).0) r),
        ))

  fill_and_commit-IsSafe :
      IsSafe temp target (IsWholeFile peers) [] (fill_and_commit peers temp target total).0
  unfolding fill_and_commit
  fill_and_commit-IsSafe =
      let copy : Traced ℕ = copy_with_cancel (some total) (codes "READ") peers.turns in
      IsSafe-and_then temp target (IsWholeFile peers) [] (caught copy)
        (λ copied. and_then (tell_finalizing total copied) (λ _.
          and_then
            (caught (
              attempt (close_remote temp) (
                bounded_operation message peers.close (codes "REMOTE_CLOSE")
                  (codes "remote temporary file close failed"))))
            (λ closed.
              and_then (caught (commit peers temp target total copied closed))
                (λ result. clean_up peers temp result))))
        (copy_with_cancel-IsSafe temp target (IsWholeFile peers) [] (some total) (codes "READ")
          peers.turns)
        (λ copied e.
          finish-IsSafe (written copy.0) copied
            (λ bytes k.
              Copied-IsWholeFile peers total bytes copy l
                (copy_with_cancel-Copied (some total) (codes "READ") peers.turns)
                (caught-ok copy copied e ∙ k))
            (bounded_operation message peers.close (codes "REMOTE_CLOSE")
              (codes "remote temporary file close failed")))

  put_temp-IsSafe : IsSafe temp target (IsWholeFile peers) [] (put_temp peers temp target total).0
  unfolding put_temp
  put_temp-IsSafe =
      IsSafe-and_then temp target (IsWholeFile peers) []
        (attempt (create_remote temp) (
          bounded_operation message peers.create (codes "REMOTE_TEMP_CREATE")
            (codes "exclusive remote temporary file creation failed")))
        (λ _. fill_and_commit peers temp target total) (refl, tt) (λ u e. fill_and_commit-IsSafe)

  put_measured-IsSafe :
      IsSafe temp target (IsWholeFile peers) [] (put_measured peers temp target total).0
  unfolding put_measured
  put_measured-IsSafe =
      IsSafe-and_then temp target (IsWholeFile peers) []
        (attempt (lstat_remote target) (lstat_optional peers.target_before))
        (λ found. and_then ([], refuse_existing found) (λ _. put_temp peers temp target total)) tt
        (λ found e.
          IsSafe-and_then temp target (IsWholeFile peers) [] ([], refuse_existing found)
            (λ _. put_temp peers temp target total) tt (λ u k. put_temp-IsSafe))

opened-len : (r : Result ℕ Text) (n : ℕ) → opened r ≡ ok n → r ≡ ok n
unfolding opened
opened-len (ok len) n h = ground arith
opened-len (err e) n h = absurd (ground arith)

-- Whatever the server answers to a put and whenever a disconnect comes: nothing but the temporary file
-- is made, closed or removed, no file is opened, and the temporary file is renamed to the target, and
-- to nothing else, only after the whole local file was read and every write of it succeeded, with the length
-- measured first.
pub execute_put-IsSafe :
    (peers : PutPeers) (target : Text) (transfer_id : ℕ)
    → IsSafe
        (remote_temp_path target transfer_id peers.nonce)
        target
        (IsWholeFile peers)
        []
        (execute_put peers target transfer_id).0
unfolding execute_put
execute_put-IsSafe peers target transfer_id =
    let temp = remote_temp_path target transfer_id peers.nonce in
    IsSafe-and_then temp target (IsWholeFile peers) []
      (attempt fstat_local (opened peers.local_len)) (λ total. put_measured peers temp target total)
      tt
      (λ total e. put_measured-IsSafe peers temp target total (opened-len peers.local_len total e))
