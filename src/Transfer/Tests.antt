-- ===== src/Transfer/Tests.antt =====
-- Runs of the transfers of leantty_ssh/src/transfer.rs.
use leantty.Prelude.{
  ℕ, false, true, List, [], ◌∷◌, some, ◌≡◌, refl, Text, text_eq, codes, Result, ok, err,
}
use leantty.Transfer.{
  SftpError, no_such_file, other_error, Arrival, fstat_local, lstat_remote, create_remote,
  close_remote, rename_remote, write_bytes, notify, progress, finalizing, failed, CopyTurn,
  copy_with_cancel, remote_temp_path, rsplit_slash, hex, temp_name, copy_turns, after_read,
  read_turn, write_turn, finish_copy, end_of_source, bounded_operation, bounded, wait_for_operation,
  lstat_optional, looked_up, io_failure,
}
use leantty.Prelude.Decimal.{to_string}
use leantty.Transfer.Copy.{Copied, copy_with_cancel-Copied}
use leantty.Transfer.Execute.{
  PutPeers, opened, refuse_existing, explain_commit, commit, clean_up, fill_and_commit, put_temp,
  put_measured, execute_put, removed, conflict,
}
use leantty.Transfer.Put.{IsSafe}
use leantty.Transfer.Commit.{IsWholeFile, execute_put-IsSafe}
use leantty.Transfer.Settle.{Settles, execute_put-Settles}

abbrev reading : List ℕ → CopyTurn
reading bs = record {
  read_disconnected = false;
  read = ok bs;
  write_disconnected = false;
  write = ok tt;
  progress_due = true;
}

abbrev answers : {T E : Type 0} → Result T E → Arrival T E
answers r = record { disconnected = false; answer = some r }

abbrev target : Text
target = codes "dir/a"

abbrev temp : Text
temp = codes "dir/.leantty-7-00000000000000ff.part"

-- A server that takes three bytes and answers the rename with `r`.
abbrev peers : Result (Unit {0}) SftpError → PutPeers
peers r = record {
  local_len = ok 3;
  target_before = answers (err (no_such_file []));
  create = answers (ok tt);
  turns = reading (1 ∷ 2 ∷ []) ∷ reading (3 ∷ []) ∷ reading [] ∷ [];
  close = answers (ok tt);
  rename = answers r;
  target_after = answers (err (no_such_file []));
  removal = some (ok tt);
  nonce = 255;
}

remote_temp_path_run : remote_temp_path target 7 255 ≡ temp
unfolding remote_temp_path rsplit_slash temp_name hex text_eq to_string
remote_temp_path_run = refl

put_run : execute_put (peers (ok tt)) target 7 ≡ (
  fstat_local
      ∷ notify (progress 0 3)
      ∷ lstat_remote target
      ∷ create_remote temp
      ∷ write_bytes (1 ∷ 2 ∷ [])
      ∷ notify (progress 2 3)
      ∷ write_bytes (3 ∷ [])
      ∷ notify (progress 3 3)
      ∷ notify (progress 3 3)
      ∷ notify (finalizing 3 3)
      ∷ close_remote temp
      ∷ rename_remote temp target
      ∷ [],
  ok (3, 3),
)
unfolding text_eq to_string remote_temp_path rsplit_slash temp_name hex execute_put opened
    put_measured put_temp fill_and_commit refuse_existing commit explain_commit clean_up
    copy_with_cancel copy_turns after_read read_turn write_turn finish_copy end_of_source
    bounded_operation bounded wait_for_operation lstat_optional looked_up
put_run = refl

refused_run :
    (execute_put (peers (err (other_error (codes "no")))) target 7).1
    ≡ err (failed (codes "REMOTE_COMMIT") (codes "no-replace remote commit failed: no"))
unfolding text_eq to_string remote_temp_path rsplit_slash temp_name hex execute_put opened
    put_measured put_temp fill_and_commit refuse_existing commit explain_commit clean_up
    copy_with_cancel copy_turns after_read read_turn write_turn finish_copy end_of_source
    bounded_operation bounded wait_for_operation lstat_optional looked_up removed conflict
    io_failure
refused_run = refl

copy_with_cancel-Copied_example :
    let ts = (peers (ok tt)).turns in
    Copied (some 3) 0 ts (copy_with_cancel (some 3) (codes "READ") ts)
copy_with_cancel-Copied_example =
    copy_with_cancel-Copied (some 3) (codes "READ") (peers (ok tt)).turns

execute_put-IsSafe_example :
    IsSafe
      (remote_temp_path target 7 255)
      target
      (IsWholeFile (peers (ok tt)))
      []
      (execute_put (peers (ok tt)) target 7).0
execute_put-IsSafe_example = execute_put-IsSafe (peers (ok tt)) target 7

execute_put-Settles_example :
    Settles
      (remote_temp_path target 7 255)
      target
      (peers (ok tt))
      (execute_put (peers (ok tt)) target 7)
execute_put-Settles_example = execute_put-Settles (peers (ok tt)) target 7
