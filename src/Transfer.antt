-- ===== src/Transfer.antt =====
-- leantty_ssh/src/transfer.rs: one file is put to or got from an SFTP server. A call of the server, of
-- the local file or of the progress callback is a `Step`; what it answers comes from outside, and a
-- `select!` sees a disconnect before the answer, and no answer at its timeout.
pub mod Commit
pub mod Copy
pub mod Execute
pub mod Put
pub mod Settle
mod Tests
use leantty.Prelude.{
  ℕ, zero, suc, ◌+◌, ◌-◌, ◌/◌, ◌%◌, ltb, Bool, true, false, List, [], ◌∷◌, ◌++◌, Option, none, some,
  ◌==◌, if◌then◌else◌, is_empty, Text, codes, text_eq, length, Result, ok, err,
}
use leantty.Prelude.Decimal.{to_string}

pub data TransferFailure : Type 0 where
  cancelled : TransferFailure
  failed : Text → Text → TransferFailure  -- code, detail

pub data TransferUpdate : Type 0 where
  progress finalizing : ℕ → ℕ → TransferUpdate  -- transferred, total

unfoldable pub io_failure : Text → Text → Text → TransferFailure
io_failure code context error = failed code (context ++ (codes ": " ++ error))

-- An error of the SFTP client with its text; `NoSuchFile` is the status that the code looks for.
pub data SftpError : Type 0 where
  no_such_file other_error : Text → SftpError

abbrev pub message : SftpError → Text
message (no_such_file t) = t
message (other_error t) = t

pub data OperationWait (T E : Type 0) : Type 0 where
  completed : Result T E → OperationWait T E
  wait_cancelled wait_timed_out : OperationWait T E

-- What is there when a wait ends: a disconnect, or the operation's answer, or neither.
pub record Arrival (T E : Type 0) : Type 0 where
  pub disconnected : Bool
  pub answer : Option (Result T E)

module _ {T : Type 0} where
  abbrev pub answered_in_time : {E : Type 0} → Option (Result T E) → OperationWait T E
  answered_in_time none = wait_timed_out
  answered_in_time (some r) = completed r

  unfoldable pub wait_for_operation : {E : Type 0} → Arrival T E → OperationWait T E
  wait_for_operation a = if a.disconnected then wait_cancelled else answered_in_time a.answer

  -- `error.to_string()` of an `E` is given by `show`.
  unfoldable pub bounded :
      {E : Type 0} → (E → Text) → OperationWait T E → Text → Text → Result T TransferFailure
  bounded show (completed (ok value)) code context = ok value
  bounded show (completed (err error)) code context = err (io_failure code context (show error))
  bounded show wait_cancelled code context = err cancelled
  bounded show wait_timed_out code context =
      err (failed (codes "SFTP_TIMEOUT") (context ++ codes " timed out"))

  unfoldable pub bounded_operation :
      {E : Type 0} → (E → Text) → Arrival T E → Text → Text → Result T TransferFailure
  bounded_operation show a code context = bounded show (wait_for_operation a) code context

  unfoldable pub looked_up : OperationWait T SftpError → Result (Option T) TransferFailure
  looked_up wait_cancelled = err cancelled
  looked_up wait_timed_out =
      err (failed (codes "SFTP_TIMEOUT") (codes "remote metadata check timed out"))
  looked_up (completed (ok metadata)) = ok (some metadata)
  looked_up (completed (err (no_such_file t))) = ok none
  looked_up (completed (err (other_error t))) =
      err (io_failure (codes "REMOTE_METADATA") (codes "remote metadata check failed") t)

  unfoldable pub lstat_optional : Arrival T SftpError → Result (Option T) TransferFailure
  lstat_optional a = looked_up (wait_for_operation a)

-- `rsplit_once('/')`: what stands before the last slash and behind it.
unfoldable pub rsplit_slash : Text → Option (Text × Text)
rsplit_slash [] = none
rsplit_slash (c ∷ cs) = elim (rsplit_slash cs) [
  | some (before, after) ↦ some (c ∷ before, after)
  | none ↦ if c == b'/' then some ([], cs) else none
]

abbrev pub hex_digit : ℕ → ℕ
hex_digit n = if ltb n 10 then b'0' + n else b'a' + (n - 10)

-- The last `width` digits of a number to base 16.
unfoldable pub hex : ℕ → ℕ → Text
hex zero n = []
hex (suc width) n = hex width (n / 16) ++ hex_digit (n % 16) ∷ []

abbrev pub directory_of : Option (Text × Text) → Text
directory_of none = []
directory_of (some ([], base)) = codes "/"
directory_of (some (c ∷ cs, base)) = c ∷ cs

unfoldable pub temp_name : ℕ → ℕ → Text
temp_name transfer_id nonce =
    codes ".leantty-" ++ (to_string transfer_id ++ (b'-' ∷ (hex 16 nonce ++ codes ".part")))

unfoldable pub remote_temp_path : Text → ℕ → ℕ → Text
remote_temp_path remote_path transfer_id nonce =
    let directory = directory_of (rsplit_slash remote_path) in
    if is_empty directory
    then temp_name transfer_id nonce
    else if text_eq directory (codes "/")
    then b'/' ∷ temp_name transfer_id nonce
    else directory ++ (b'/' ∷ temp_name transfer_id nonce)

-- What a transfer does, in order.
pub data Step : Type 0 where
  fstat_local flush_local sync_local : Step
  lstat_remote open_remote fstat_remote create_remote close_remote remove_remote : Text → Step
  rename_remote : Text → Text → Step
  write_bytes : List ℕ → Step
  notify : TransferUpdate → Step

-- Steps taken and an answer; `?` is the bind of a `do` block.
abbrev pub Traced : Type 0 → Type 0
Traced A = List Step × Result A TransferFailure

abbrev pub and_then : {A B : Type 0} → Traced A → (A → Traced B) → Traced B
and_then (t, err e) f = (t, err e)
and_then (t, ok a) f = let (u, r) = f a in (t ++ u, r)

infixl 5 ◌>>=◌ ◌>>◌
abbrev pub ◌>>=◌ : {A B : Type 0} → Traced A → (A → Traced B) → Traced B
m >>= f = and_then m f

abbrev pub ◌>>◌ : {A B : Type 0} → Traced A → Traced B → Traced B
m >> k = and_then m (λ _. k)

abbrev pub attempt : {A : Type 0} → Step → Result A TransferFailure → Traced A
attempt s r = (s ∷ [], r)

abbrev pub tell : Step → Traced (Unit {0})
tell s = (s ∷ [], ok tt)

-- An answer that is looked at later: nothing is returned early.
abbrev pub caught : {A : Type 0} → Traced A → Traced (Result A TransferFailure)
caught (t, r) = (t, ok r)

-- One turn of the copy: what is there for the read and for the write, and whether progress is due. A
-- read gives at most 64 KiB, which no answer depends on.
pub record CopyTurn : Type 0 where
  pub read_disconnected : Bool
  pub read : Result (List ℕ) Text
  pub write_disconnected : Bool
  pub write : Result (Unit {0}) Text
  pub progress_due : Bool

abbrev pub u64 : ℕ → ℕ
u64 n = n % 18446744073709551616

abbrev pub source_changed : ℕ → ℕ → TransferFailure
source_changed transferred expected = failed (codes "SOURCE_CHANGED") (
    codes "source size changed during transfer: copied "
    ++ (to_string transferred ++ (codes " of " ++ (to_string expected ++ codes " bytes"))))

unfoldable pub end_of_source : Option ℕ → ℕ → Traced (Unit {0})
end_of_source none transferred = ([], ok tt)
end_of_source (some expected) transferred =
    if transferred == expected then ([], ok tt) else ([], err (source_changed transferred expected))

-- The read of a turn: nothing at the end of the source.
unfoldable pub read_turn : Text → CopyTurn → Result (List ℕ) TransferFailure
read_turn read_failure_code t = if t.read_disconnected then err cancelled else elim t.read [
  | ok bytes ↦ ok bytes
  | err e ↦ err (io_failure read_failure_code (codes "file read failed") e)
]

unfoldable pub write_turn : CopyTurn → Result (Unit {0}) TransferFailure
write_turn t = if t.write_disconnected then err cancelled else elim t.write [
  | ok u ↦ ok tt
  | err e ↦ err (io_failure (codes "WRITE") (codes "file write failed") e)
]

abbrev pub reported : Bool → TransferUpdate → List Step
reported true u = notify u ∷ []
reported false u = []

-- `expected_bytes.unwrap_or(0)`
abbrev pub total_of : Option ℕ → ℕ
total_of none = 0
total_of (some expected) = expected

unfoldable pub finish_copy : Option ℕ → ℕ → Traced ℕ
finish_copy expected transferred = do
  end_of_source expected transferred
  tell (notify (progress transferred (total_of expected)))
  ([], ok transferred)

-- What a turn does with its read; `rest` is the loop from a count on.
unfoldable pub after_read :
    Option ℕ → ℕ → CopyTurn → (ℕ → Traced ℕ) → Result (List ℕ) TransferFailure → Traced ℕ
after_read expected transferred t rest (err e) = ([], err e)
after_read expected transferred t rest (ok []) = finish_copy expected transferred
after_read expected transferred t rest (ok (b ∷ bs)) = do
  attempt (write_bytes (b ∷ bs)) (write_turn t)
  let copied = u64 (transferred + length (b ∷ bs))
  (reported t.progress_due (progress copied (total_of expected)), ok tt)
  rest copied

-- The loop; a source without another turn is at its end.
unfoldable pub copy_turns : Option ℕ → Text → ℕ → List CopyTurn → Traced ℕ
copy_turns expected read_failure_code transferred [] = finish_copy expected transferred
copy_turns expected read_failure_code transferred (t ∷ ts) =
    after_read expected transferred t (λ copied. copy_turns expected read_failure_code copied ts)
      (read_turn read_failure_code t)

unfoldable pub copy_with_cancel : Option ℕ → Text → List CopyTurn → Traced ℕ
copy_with_cancel expected read_failure_code turns = copy_turns expected read_failure_code 0 turns
