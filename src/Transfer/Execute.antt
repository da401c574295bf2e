-- ===== src/Transfer/Execute.antt =====
-- `execute` of leantty_ssh/src/transfer.rs, in its two directions.
use leantty.Prelude.{
  ℕ, Bool, not, ◌||◌, Option, none, some, if◌then◌else◌, Text, codes, text_eq, List, [], Result, ok,
  err,
}
use leantty.Transfer.{
  TransferFailure, cancelled, failed, progress, finalizing, io_failure, SftpError, no_such_file,
  other_error, message, Arrival, bounded_operation, lstat_optional, remote_temp_path, fstat_local,
  flush_local, sync_local, lstat_remote, open_remote, fstat_remote, create_remote, close_remote,
  remove_remote, rename_remote, notify, Traced, ◌>>=◌, ◌>>◌, attempt, tell, caught, CopyTurn,
  total_of, copy_with_cancel,
}

pub record Metadata : Type 0 where
  pub is_dir : Bool
  pub is_symlink : Bool
  pub is_regular : Bool
  pub size : Option ℕ

-- What the local file and the server answer while a file is put; a removal sees no disconnect, and no
-- answer at its timeout.
pub record PutPeers : Type 0 where
  pub local_len : Result ℕ Text
  pub target_before : Arrival Metadata SftpError
  pub create : Arrival (Unit {0}) SftpError
  pub turns : List CopyTurn
  pub close : Arrival (Unit {0}) SftpError
  pub rename : Arrival (Unit {0}) SftpError
  pub target_after : Arrival Metadata SftpError
  pub removal : Option (Result (Unit {0}) SftpError)
  pub nonce : ℕ

unfoldable pub opened : Result ℕ Text → Result ℕ TransferFailure
opened (ok len) = ok len
opened (err e) = err (io_failure (codes "LOCAL_METADATA") (codes "local source fstat failed") e)

unfoldable pub refuse_existing : Option Metadata → Result (Unit {0}) TransferFailure
refuse_existing none = ok tt
refuse_existing (some m) =
    if m.is_dir
    then err (
        failed (codes "REMOTE_PATH")
          (codes "remote target is a directory; add / to upload using the local file name"))
    else err (failed (codes "REMOTE_CONFLICT") (codes "remote target already exists"))

-- What a refused commit means, once the target was looked up again.
unfoldable pub conflict : Text → Result (Option Metadata) TransferFailure → TransferFailure
conflict detail (ok (some m)) =
    failed (codes "REMOTE_CONFLICT") (codes "remote target was claimed before commit")
conflict detail _ = failed (codes "REMOTE_COMMIT") detail

unfoldable pub explain_commit :
    PutPeers → Text → Result (Unit {0}) TransferFailure → Traced (Unit {0})
explain_commit peers remote_path (ok u) = ([], ok tt)
explain_commit peers remote_path (err cancelled) = ([], err cancelled)
explain_commit peers remote_path (err (failed code detail)) =
    if text_eq code (codes "REMOTE_COMMIT")
    then (do
      after ← caught (attempt (lstat_remote remote_path) (lstat_optional peers.target_after))
      ([], err (conflict detail after)))
    else ([], err (failed code detail))

-- The `match` on the copy and the close: only a whole, closed copy is renamed to the target.
unfoldable pub commit :
    PutPeers
    → Text
    → Text
    → ℕ
    → Result ℕ TransferFailure
    → Result (Unit {0}) TransferFailure
    → Traced (ℕ × ℕ)
commit peers temp remote_path total (err e) closed = ([], err e)
commit peers temp remote_path total (ok bytes) (err e) = ([], err e)
commit peers temp remote_path total (ok bytes) (ok u) = do
  renamed ← caught (
      attempt (rename_remote temp remote_path) (
        bounded_operation message peers.rename (codes "REMOTE_COMMIT")
          (codes "no-replace remote commit failed")))
  explain_commit peers remote_path renamed
  ([], ok (bytes, total))

unfoldable pub removed : Option (Result (Unit {0}) SftpError) → Result (Unit {0}) TransferFailure
removed none =
    err (failed (codes "REMOTE_CLEANUP") (codes "remote temporary file cleanup timed out"))
removed (some (ok u)) = ok tt
removed (some (err (no_such_file t))) = ok tt
removed (some (err (other_error t))) =
    err (io_failure (codes "REMOTE_CLEANUP") (codes "remote temporary file cleanup failed") t)

unfoldable pub clean_up : PutPeers → Text → Result (ℕ × ℕ) TransferFailure → Traced (ℕ × ℕ)
clean_up peers temp (ok r) = ([], ok r)
clean_up peers temp (err e) = do attempt (remove_remote temp) (removed peers.removal); ([], err e)

abbrev pub tell_finalizing : ℕ → Result ℕ TransferFailure → Traced (Unit {0})
tell_finalizing total (ok bytes) = tell (notify (finalizing bytes total))
tell_finalizing total (err e) = ([], ok tt)

-- What is done once the temporary file was created.
unfoldable pub fill_and_commit : PutPeers → Text → Text → ℕ → Traced (ℕ × ℕ)
fill_and_commit peers temp remote_path total = do
  copied ← caught (copy_with_cancel (some total) (codes "READ") peers.turns)
  tell_finalizing total copied
  closed ← caught (
      attempt (close_remote temp) (
        bounded_operation message peers.close (codes "REMOTE_CLOSE")
          (codes "remote temporary file close failed")))
  result ← caught (commit peers temp remote_path total copied closed)
  clean_up peers temp result

unfoldable pub put_temp : PutPeers → Text → Text → ℕ → Traced (ℕ × ℕ)
put_temp peers temp remote_path total = do
  attempt (create_remote temp) (
      bounded_operation message peers.create (codes "REMOTE_TEMP_CREATE")
        (codes "exclusive remote temporary file creation failed"))
  fill_and_commit peers temp remote_path total

-- Once the local file is measured.
unfoldable pub put_measured : PutPeers → Text → Text → ℕ → Traced (ℕ × ℕ)
put_measured peers temp remote_path total = do
  tell (notify (progress 0 total))
  found ← attempt (lstat_remote remote_path) (lstat_optional peers.target_before)
  ([], refuse_existing found)
  put_temp peers temp remote_path total

unfoldable pub execute_put : PutPeers → Text → ℕ → Traced (ℕ × ℕ)
execute_put peers remote_path transfer_id = do
  total ← attempt fstat_local (opened peers.local_len)
  put_measured peers (remote_temp_path remote_path transfer_id peers.nonce) remote_path total

-- What the server and the local file answer while a file is got.
pub record GetPeers : Type 0 where
  pub source : Arrival Metadata SftpError
  pub open_source : Arrival (Unit {0}) SftpError
  pub opened_metadata : Arrival Metadata SftpError
  pub turns : List CopyTurn
  pub close : Arrival (Unit {0}) SftpError
  pub flush : Arrival (Unit {0}) Text
  pub sync : Arrival (Unit {0}) Text

unfoldable pub regular_source : Option Metadata → Result (Unit {0}) TransferFailure
regular_source none = err (failed (codes "REMOTE_NOT_FOUND") (codes "remote source does not exist"))
regular_source (some m) =
    if m.is_symlink || not m.is_regular
    then err (
        failed (codes "REMOTE_PATH")
          (codes "remote source must be a regular file, not a directory or symbolic link"))
    else ok tt

unfoldable pub still_regular : Metadata → Result (Unit {0}) TransferFailure
still_regular m =
    if not m.is_regular
    then err (failed (codes "REMOTE_PATH") (codes "opened remote source is not a regular file"))
    else ok tt

unfoldable pub store_local :
    GetPeers → ℕ → Result ℕ TransferFailure → Result (Unit {0}) TransferFailure → Traced (ℕ × ℕ)
store_local peers total (err e) closed = ([], err e)
store_local peers total (ok bytes) (err e) = ([], err e)
store_local peers total (ok bytes) (ok u) = do
  attempt flush_local (
      bounded_operation (λ e. e) peers.flush (codes "LOCAL_FLUSH")
        (codes "local temporary file flush failed"))
  attempt sync_local (
      bounded_operation (λ e. e) peers.sync (codes "LOCAL_SYNC")
        (codes "local temporary file sync failed"))
  ([], ok (bytes, total))

unfoldable pub fetch_bytes : GetPeers → Text → Option ℕ → Traced (ℕ × ℕ)
fetch_bytes peers remote_path expected = do
  let total = total_of expected
  tell (notify (progress 0 total))
  copied ← caught (copy_with_cancel expected (codes "NETWORK") peers.turns)
  tell_finalizing total copied
  closed ← caught (
      attempt (close_remote remote_path) (
        bounded_operation message peers.close (codes "REMOTE_CLOSE")
          (codes "remote source close failed")))
  store_local peers total copied closed

unfoldable pub execute_get : GetPeers → Text → Traced (ℕ × ℕ)
execute_get peers remote_path = do
  found ← attempt (lstat_remote remote_path) (lstat_optional peers.source)
  ([], regular_source found)
  attempt (open_remote remote_path) (
      bounded_operation message peers.open_source (codes "REMOTE_OPEN")
        (codes "remote source open failed"))
  metadata ← attempt (fstat_remote remote_path) (
      bounded_operation message peers.opened_metadata (codes "REMOTE_METADATA")
        (codes "opened remote file fstat failed"))
  ([], still_regular metadata)
  fetch_bytes peers remote_path metadata.size
