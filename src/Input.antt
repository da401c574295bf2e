-- ===== src/Input.antt =====
-- `send_scheduled_input` of leantty_ssh/src/lib.rs: input goes out in chunks, and the terminal sizes that
-- arrive while a chunk is on its way go out before the chunk is done.
pub mod Chunks
mod Tests
use leantty.Prelude.{
  ℕ, zero, suc, ◌+◌, Bool, true, false, List, [], ◌∷◌, ◌++◌, Option, none, some, is_empty, take,
  drop, length, Result, ok, err,
}

abbrev pub input_write_chunk_bytes : ℕ
input_write_chunk_bytes = 32768

pub data Sent : Type 0 where
  chunk : List ℕ → Sent
  size : ℕ × ℕ → Sent

-- The latest of the sizes that are queued at one time.
abbrev pub latest : ℕ × ℕ → List (ℕ × ℕ) → ℕ × ℕ
latest s [] = s
latest s (t ∷ ts) = latest t ts

pub record Report (E : Type 0) : Type 0 where
  pub sent : List Sent
  pub result : Result (Unit {0}) E
  pub resize_errors : List E

-- `send_chunk` and `send_resize` answer with an error or none; `during` holds what the queue of sizes
-- yields while a chunk is sent: a size with those queued behind it, or the end of the queue.
module _ {E : Type 0} (send_chunk : ℕ → List ℕ → Option E) (send_resize : ℕ × ℕ → Option E)
    (during : ℕ → List (Option ((ℕ × ℕ) × List (ℕ × ℕ)))) where
  abbrev pub push : Option E → List E → List E
  push none es = es
  push (some e) es = e ∷ es

  -- The sizes sent, the errors, and whether the queue is still open.
  unfoldable pub serve_resizes :
      Bool → List (Option ((ℕ × ℕ) × List (ℕ × ℕ))) → List Sent × List E × Bool
  serve_resizes false events = ([], [], false)
  serve_resizes true [] = ([], [], true)
  serve_resizes true (none ∷ events) = ([], [], false)
  serve_resizes true (some (first, queued) ∷ events) =
      let (sizes, errors, is_open) = serve_resizes true events in
      (size (latest first queued) ∷ sizes, push (send_resize (latest first queued)) errors, is_open)

  abbrev pub prepend : List Sent → List E → Option (Report E) → Option (Report E)
  prepend sent errors none = none
  prepend sent errors (some r) = some (record {
    sent = sent ++ r.sent;
    result = r.result;
    resize_errors = errors ++ r.resize_errors;
  })

  abbrev pub stopped : List Sent → List E → E → Option (Report E)
  stopped sent errors e = some (record { sent = sent; result = err e; resize_errors = errors })

  -- The loop over the bytes from the offset on.
  unfoldable pub write_chunks : ℕ → ℕ → Bool → List ℕ → Option (Report E)
  write_chunks fuel i is_open [] = some (record { sent = []; result = ok tt; resize_errors = [] })
  write_chunks zero i is_open (b ∷ bs) = none
  write_chunks (suc fuel) i is_open (b ∷ bs) =
      let c = take input_write_chunk_bytes (b ∷ bs) in
      let (sizes, errors, is_open') = serve_resizes is_open (during i) in
      elim (send_chunk i c) [
        | some e ↦ stopped (sizes ++ chunk c ∷ []) errors e
        | none ↦
            prepend (sizes ++ chunk c ∷ []) errors
              (write_chunks fuel (i + 1) is_open' (drop input_write_chunk_bytes (b ∷ bs)))
      ]

  abbrev pub answered : Option E → Result (Unit {0}) E
  answered none = ok tt
  answered (some e) = err e

  unfoldable pub send_scheduled_input : List ℕ → Option (Report E)
  send_scheduled_input [] =
      some
        (record { sent = chunk [] ∷ []; result = answered (send_chunk 0 []); resize_errors = [] })
  send_scheduled_input (b ∷ bs) = write_chunks (length (b ∷ bs)) 0 true (b ∷ bs)
