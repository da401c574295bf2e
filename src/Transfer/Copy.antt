-- ===== src/Transfer/Copy.antt =====
-- What `copy_with_cancel` of leantty_ssh/src/transfer.rs writes, reports and returns.
use mathlib.Core.Path.{subst}
use mathlib.Core.List.{append_assoc, append-nil}
use leantty.Prelude.{
  ℕ, suc, ◌+◌, ◌<◌, Bool, true, false, List, [], ◌∷◌, ◌++◌, Option, none, some, ◌≡◌, refl, sym, ap,
  ◌∙◌, inl, inr, ◌⊎◌, ◌==◌, arith, ==_iff, Text, length, length-append, Result, ok, err, Bool-cases,
}
use leantty.Transfer.{
  TransferFailure, TransferUpdate, progress, Step, write_bytes, notify, Traced, attempt, and_then,
  u64, CopyTurn, end_of_source, finish_copy, read_turn, write_turn, reported, total_of,
  source_changed, after_read, copy_turns, copy_with_cancel,
}

-- The bytes that the steps hand to the destination.
abbrev pub written : List Step → List ℕ
written [] = []
written (write_bytes bs ∷ t) = bs ++ written t
written (_ ∷ t) = written t

abbrev pub reads : CopyTurn → List ℕ
reads t = elim t.read [ ok bs ↦ bs | err e ↦ [] ]

-- The bytes are the whole source, and all of them were taken: no read and no write failed or was cut off
-- by a disconnect, up to the empty read at the end or to the end of the turns.
abbrev pub IsWholeSource : List CopyTurn → List ℕ → Type 0
IsWholeSource [] bytes = bytes ≡ []
IsWholeSource (t ∷ ts) bytes =
    (t.read_disconnected ≡ false)
    × ((t.read ≡ ok []) × (bytes ≡ [])
        ⊎ ((b : ℕ) × (bs : List ℕ) × (later : List ℕ) × (t.read ≡ ok (b ∷ bs))
            × (t.write_disconnected ≡ false)
            × (t.write ≡ ok tt)
            × (bytes ≡ (b ∷ bs) ++ later)
            × IsWholeSource ts later))

abbrev onto_read : List ℕ → List ℕ → List ℕ
onto_read [] later = []
onto_read (b ∷ bs) later = (b ∷ bs) ++ later

-- The bytes of the source: what is read up to the first empty or failed read.
abbrev pub source_of : List CopyTurn → List ℕ
source_of [] = []
source_of (t ∷ ts) = onto_read (reads t) (source_of ts)

-- Every report of progress is the count of the bytes before it, `n` at first.
abbrev pub Counts : ℕ → List Step → Type 0
Counts n [] = Unit
Counts n (write_bytes bs ∷ t) = Counts (u64 (n + length bs)) t
Counts n (notify (progress k total) ∷ t) = (k ≡ n) × Counts n t
Counts n (_ ∷ t) = Counts n t

-- The copy of a source of which `n` bytes are counted.
pub record Copied (expected : Option ℕ) (n : ℕ) (ts : List CopyTurn) (c : Traced ℕ) : Type 0 where
  pub counted : Counts n c.0
  pub is_prefix : (rest : List ℕ) × (written c.0 ++ rest ≡ source_of ts)
  pub complete : (m : ℕ) → c.1 ≡ ok m → IsWholeSource ts (written c.0)
  pub measured : (m : ℕ) → c.1 ≡ ok m → m ≡ u64 (n + length (written c.0))
  pub as_expected : (m e : ℕ) → c.1 ≡ ok m → expected ≡ some e → m ≡ e

finish_copy-cases :
    (expected : Option ℕ) (n : ℕ)
    → (finish_copy expected n ≡ (notify (progress n (total_of expected)) ∷ [], ok n))
        × ((e : ℕ) → expected ≡ some e → n ≡ e)
      ⊎ ((f : TransferFailure) × (finish_copy expected n ≡ ([], err f)))
unfolding finish_copy end_of_source
finish_copy-cases none n = inl (refl, λ e h. ground arith)
finish_copy-cases (some x) n = elim (Bool-cases (n == x)) [
  | inl same ↦ inl (rw same refl, λ e h. ground (arith, ==_iff n x))
  | inr other ↦ inr (source_changed n x, rw other refl)
]

module _ (expected : Option ℕ) (n : ℕ) (ts : List CopyTurn) where
  failed-Copied : (f : TransferFailure) → Copied expected n ts ([], err f)
  failed-Copied f = record {
    counted = tt;
    is_prefix = (source_of ts, refl);
    complete = λ m k. absurd (ground arith);
    measured = λ m k. absurd (ground arith);
    as_expected = λ m e k l. absurd (ground arith);
  }

  finish_copy-Copied :
      n < 18446744073709551616
      → source_of ts ≡ []
      → IsWholeSource ts []
      → Copied expected n ts (finish_copy expected n)
  finish_copy-Copied h e whole = elim (finish_copy-cases expected n) [
    | inr (f, k) ↦ subst (Copied expected n ts) (sym k) (failed-Copied f)
    | inl (k, same) ↦ subst (Copied expected n ts) (sym k) (record {
      counted = (refl, tt);
      is_prefix = ([], sym e);
      complete = λ m k. whole;
      measured = λ m k. ground arith;
      as_expected = λ m x k l. ground (arith, same x l);
    })
  ]

read_turn-ok :
    (code : Text) (t : CopyTurn) (bs : List ℕ)
    → read_turn code t ≡ ok bs
    → (t.read_disconnected ≡ false) × (t.read ≡ ok bs)
unfolding read_turn
read_turn-ok code t bs h = ground arith

write_turn-ok :
    (t : CopyTurn) → write_turn t ≡ ok tt → (t.write_disconnected ≡ false) × (t.write ≡ ok tt)
unfolding write_turn
write_turn-ok t h = ground arith

read-reads : (t : CopyTurn) (bs : List ℕ) → t.read ≡ ok bs → reads t ≡ bs
read-reads t bs h = ground arith

source_of-empty : (t : CopyTurn) (ts : List CopyTurn) → reads t ≡ [] → source_of (t ∷ ts) ≡ []
source_of-empty t ts h = ap (λ r. onto_read r (source_of ts)) h

source_of-cons :
    (t : CopyTurn) (ts : List CopyTurn) (b : ℕ) (bs : List ℕ)
    → reads t ≡ b ∷ bs
    → source_of (t ∷ ts) ≡ (b ∷ bs) ++ source_of ts
source_of-cons t ts b bs h = ap (λ r. onto_read r (source_of ts)) h

reported-Counts :
    (d : Bool) (k total : ℕ) (u : List Step)
    → Counts k u
    → Counts k (reported d (progress k total) ++ u)
reported-Counts true k total u h = (refl, h)
reported-Counts false k total u h = h

written-reported :
    (d : Bool) (a : TransferUpdate) (u : List Step) → written (reported d a ++ u) ≡ written u
written-reported true a u = refl
written-reported false a u = refl

u64-add : (n a b : ℕ) → u64 (u64 (n + suc a) + b) ≡ u64 (n + suc (a + b))
u64-add n a b = omega arith

module _ (expected : Option ℕ) (n : ℕ) (t : CopyTurn) (ts : List CopyTurn)
    (rest : ℕ → Traced ℕ) where
  -- The turn read these bytes, and they were written.
  abbrev IsTaken : ℕ → List ℕ → Type 0
  IsTaken b bs =
      (t.read_disconnected ≡ false)
      × (t.read ≡ ok (b ∷ bs))
      × (t.write_disconnected ≡ false)
      × (t.write ≡ ok tt)

  wrote-Copied :
      (b : ℕ) (bs : List ℕ) (d : Bool)
      → IsTaken b bs
      → let m = u64 (n + length (b ∷ bs)) in
        Copied expected m ts (rest m)
        → Copied expected n (t ∷ ts) (
          write_bytes (b ∷ bs) ∷ (reported d (progress m (total_of expected)) ++ (rest m).0),
          (rest m).1,
        )
  wrote-Copied b bs d (r, rd, w, wr) c =
      let e : reads t ≡ b ∷ bs = read-reads t (b ∷ bs) rd in
      let m = u64 (n + length (b ∷ bs)) in
      let same : written (reported d (progress m (total_of expected)) ++ (rest m).0)
          ≡ written (rest m).0 =
        written-reported d (progress m (total_of expected)) (rest m).0 in
      let (later, k) = c.is_prefix in
      record {
        counted = reported-Counts d m (total_of expected) (rest m).0 c.counted;
        is_prefix = (
          later,
          rw (same, source_of-cons t ts b bs e)
              (append_assoc (b ∷ bs) (written (rest m).0) later ∙ ap (λ x. (b ∷ bs) ++ x) k),
        );
        complete = λ i h. (
          r,
          inr (b, bs, written (rest m).0, rd, w, wr, ap (λ x. (b ∷ bs) ++ x) same, c.complete i h),
        );
        measured = λ i h.
            rw (same, length-append bs (written (rest m).0))
              (c.measured i h ∙ u64-add n (length bs) (length (written (rest m).0)));
        as_expected = c.as_expected;
      }

  after_write-Copied :
      (b : ℕ) (bs : List ℕ) (w : Result (Unit {0}) TransferFailure)
      → reads t ≡ b ∷ bs
      → (w ≡ ok tt → IsTaken b bs)
      → let m = u64 (n + length (b ∷ bs)) in
        Copied expected m ts (rest m)
        → Copied expected n (t ∷ ts) (
            and_then (attempt (write_bytes (b ∷ bs)) w) (λ _.
              and_then
                (reported t.progress_due (progress m (total_of expected)), ok tt)
                (λ _. rest m)))
  after_write-Copied b bs (ok u) e k c = wrote-Copied b bs t.progress_due (k refl) c
  after_write-Copied b bs (err f) e k c = record {
    counted = tt;
    is_prefix = (source_of ts, rw (append-nil bs) (sym (source_of-cons t ts b bs e)));
    complete = λ i h. absurd (ground arith);
    measured = λ i h. absurd (ground arith);
    as_expected = λ i x h k. absurd (ground arith);
  }

  after_read-Copied :
      (r : Result (List ℕ) TransferFailure)
      → n < 18446744073709551616
      → ((bs : List ℕ) → r ≡ ok bs → (t.read_disconnected ≡ false) × (t.read ≡ ok bs))
      → ((m : ℕ) → m < 18446744073709551616 → Copied expected m ts (rest m))
      → Copied expected n (t ∷ ts) (after_read expected n t rest r)
  unfolding after_read
  after_read-Copied (err e) h k c = failed-Copied expected n (t ∷ ts) e
  after_read-Copied (ok []) h k c =
      let (r, rd) = k [] refl in
      finish_copy-Copied expected n (t ∷ ts) h (source_of-empty t ts (read-reads t [] rd))
        (r, inl (rd, refl))
  after_read-Copied (ok (b ∷ bs)) h k c =
      let (r, rd) = k (b ∷ bs) refl in
      after_write-Copied b bs (write_turn t) (read-reads t (b ∷ bs) rd)
        (λ e. let (w, wr) = write_turn-ok t e in (r, rd, w, wr))
        (c (u64 (n + length (b ∷ bs))) (omega arith))

copy_turns-Copied :
    (expected : Option ℕ) (code : Text) (n : ℕ) (ts : List CopyTurn)
    → n < 18446744073709551616
    → Copied expected n ts (copy_turns expected code n ts)
unfolding copy_turns
copy_turns-Copied expected code n [] h = finish_copy-Copied expected n [] h refl refl
copy_turns-Copied expected code n (t ∷ ts) h =
    after_read-Copied expected n t ts (λ m. copy_turns expected code m ts) (read_turn code t) h
      (read_turn-ok code t) (λ m k. copy_turns-Copied expected code m ts k)

-- What a copy hands to the destination is what was read, from the start and in order; every report of
-- progress is the number of bytes before it, wrapped to 64 bits; and if a copy succeeds, no read or write
-- failed or was cut off up to the end of the source, what was written is the whole source, and the number
-- that is returned is its length, wrapped to 64 bits, and the expected size if there was one.
pub copy_with_cancel-Copied :
    (expected : Option ℕ) (code : Text) (ts : List CopyTurn)
    → Copied expected 0 ts (copy_with_cancel expected code ts)
unfolding copy_with_cancel
copy_with_cancel-Copied expected code ts = copy_turns-Copied expected code 0 ts (omega arith)
