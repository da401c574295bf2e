-- ===== src/Input/Chunks.antt =====
-- What `send_scheduled_input` of leantty_ssh/src/lib.rs sends of its input.
use mathlib.Core.List.{append_assoc, append-nil}
use mathlib.Core.Path.{subst}
use leantty.Prelude.{
  ℕ, zero, suc, ◌+◌, ◌≤◌, Bool, true, false, List, [], ◌∷◌, ◌++◌, Option, none, some, ◌≡◌, refl,
  sym, ◌∙◌, ap, arith, take, drop, length, length-drop, length-take-le, take-append-drop, All, ok,
  err, Result, inl, inr, ◌⊎◌,
}
use leantty.Input.{
  input_write_chunk_bytes, Sent, chunk, size, Report, serve_resizes, prepend, stopped, push, latest,
  answered, write_chunks, send_scheduled_input,
}

-- The bytes that went out, in order.
abbrev pub bytes_of : List Sent → List ℕ
bytes_of [] = []
bytes_of (chunk c ∷ ss) = c ++ bytes_of ss
bytes_of (size s ∷ ss) = bytes_of ss

abbrev pub IsShort : Sent → Type 0
IsShort (chunk c) = length c ≤ 32768
IsShort (size s) = Unit

pub bytes_of-append : (ss ts : List Sent) → bytes_of (ss ++ ts) ≡ bytes_of ss ++ bytes_of ts
bytes_of-append [] ts = refl
bytes_of-append (chunk c ∷ ss) ts =
    ap (λ x. c ++ x) (bytes_of-append ss ts) ∙ sym (append_assoc c (bytes_of ss) (bytes_of ts))
bytes_of-append (size s ∷ ss) ts = bytes_of-append ss ts

All-append-IsShort : (ss ts : List Sent) → All IsShort ss → All IsShort ts → All IsShort (ss ++ ts)
All-append-IsShort [] ts h k = k
All-append-IsShort (s ∷ ss) ts h k = (h.0, All-append-IsShort ss ts h.1 k)

-- What the channel answers, and what is reported of it.
module _ {E : Type 0} (send_chunk : ℕ → List ℕ → Option E) (send_resize : ℕ × ℕ → Option E) where
  -- From the chunk `i` on: the channel takes every chunk, and the result is a success; or it refuses one,
  -- after which nothing is sent, and the result is its error.
  abbrev pub Answers : ℕ → Result (Unit {0}) E → List Sent → Type 0
  Answers i result [] = result ≡ ok tt
  Answers i result (size s ∷ ss) = Answers i result ss
  Answers i result (chunk c ∷ ss) =
      (send_chunk i c ≡ none) × Answers (i + 1) result ss
      ⊎ ((e : E) × (send_chunk i c ≡ some e) × (result ≡ err e) × (ss ≡ []))

  abbrev onto : Option E → List E → List E
  onto none es = es
  onto (some e) es = e ∷ es

  -- The errors of the sizes that were sent.
  abbrev pub refused_sizes : List Sent → List E
  refused_sizes [] = []
  refused_sizes (chunk c ∷ ss) = refused_sizes ss
  refused_sizes (size s ∷ ss) = onto (send_resize s) (refused_sizes ss)

  refused_sizes-append :
      (ss ts : List Sent) → refused_sizes (ss ++ ts) ≡ refused_sizes ss ++ refused_sizes ts
  refused_sizes-append [] ts = refl
  refused_sizes-append (chunk c ∷ ss) ts = refused_sizes-append ss ts
  refused_sizes-append (size s ∷ ss) ts =
      onto-append (send_resize s) _ (refused_sizes ss) (refused_sizes ts)
        (refused_sizes-append ss ts)
    where
      onto-append : (o : Option E) (a b c : List E) → a ≡ b ++ c → onto o a ≡ onto o b ++ c
      onto-append none a b c e = e
      onto-append (some x) a b c e = ap (λ es. x ∷ es) e

  -- A report on the bytes, from the chunk `i` on: they went out up to a rest, which is empty if the channel
  -- took every chunk; and the errors are those of the channel.
  abbrev pub Delivers : ℕ → List ℕ → Option (Report E) → Type 0
  Delivers i bytes none = ⊥
  Delivers i bytes (some r) =
      ((rest : List ℕ) × (bytes_of r.sent ++ rest ≡ bytes) × (r.result ≡ ok tt → rest ≡ []))
      × All IsShort r.sent
      × Answers i r.result r.sent
      × (r.resize_errors ≡ refused_sizes r.sent)

  -- Sizes are no chunks.
  abbrev NoChunk : Sent → Type 0
  NoChunk (chunk c) = ⊥
  NoChunk (size s) = Unit

  Answers-sizes :
      (i : ℕ) (result : Result (Unit {0}) E) (sizes ss : List Sent)
      → All NoChunk sizes
      → Answers i result ss
      → Answers i result (sizes ++ ss)
  Answers-sizes i result [] ss h a = a
  Answers-sizes i result (chunk c ∷ sizes) ss h a = absurd h.0
  Answers-sizes i result (size s ∷ sizes) ss h a = Answers-sizes i result sizes ss h.1 a

module _ {E : Type 0} (send_chunk : ℕ → List ℕ → Option E) (send_resize : ℕ × ℕ → Option E)
    (during : ℕ → List (Option ((ℕ × ℕ) × List (ℕ × ℕ)))) where
  -- Sizes are no bytes.
  serve_resizes-bytes :
      (is_open : Bool) (events : List (Option ((ℕ × ℕ) × List (ℕ × ℕ))))
      → let served = serve_resizes send_chunk send_resize during is_open events in
        (bytes_of served.0 ≡ [])
        × All IsShort served.0
        × All (NoChunk send_chunk send_resize) served.0
        × (served.1 ≡ refused_sizes send_chunk send_resize served.0)
  unfolding serve_resizes
  serve_resizes-bytes false events = (refl, tt, tt, refl)
  serve_resizes-bytes true [] = (refl, tt, tt, refl)
  serve_resizes-bytes true (none ∷ events) = (refl, tt, tt, refl)
  serve_resizes-bytes true (some (first, queued) ∷ events) =
      let (e, h, n, same) = serve_resizes-bytes true events in
      (e, (tt, h), (tt, n), pushed (send_resize (latest first queued)) same)
    where
      pushed :
          (o : Option E) {a b : List E}
          → a ≡ b
          → push send_chunk send_resize during o a ≡ onto send_chunk send_resize o b
      pushed none e = e
      pushed (some x) e = ap (λ es. x ∷ es) e

  round_bytes :
      (sizes : List Sent) (c : List ℕ) → bytes_of sizes ≡ [] → bytes_of (sizes ++ chunk c ∷ []) ≡ c
  round_bytes sizes c h = bytes_of-append sizes (chunk c ∷ []) ∙ (rw h (append-nil c))

  module _ (i : ℕ) (sizes : List Sent) (errors : List E) (c bytes : List ℕ)
      (no_bytes : bytes_of sizes ≡ []) (short : All IsShort sizes)
      (no_chunk : All (NoChunk send_chunk send_resize) sizes)
      (told : errors ≡ refused_sizes send_chunk send_resize sizes) (fits : length c ≤ 32768) where
    abbrev out : List Sent
    out = sizes ++ chunk c ∷ []

    out-IsShort : All IsShort out
    out-IsShort = All-append-IsShort sizes (chunk c ∷ []) short (fits, tt)

    out-told : errors ≡ refused_sizes send_chunk send_resize out
    out-told =
        told
        ∙ sym (append-nil (refused_sizes send_chunk send_resize sizes))
        ∙ sym (refused_sizes-append send_chunk send_resize sizes (chunk c ∷ []))

    prepend-Delivers :
        (o : Option (Report E))
        → send_chunk i c ≡ none
        → Delivers send_chunk send_resize (i + 1) bytes o
        → Delivers send_chunk send_resize i
            (c ++ bytes)
            (prepend send_chunk send_resize during out errors o)
    prepend-Delivers none t d = d
    prepend-Delivers (some r) t ((rest, f, g), k, a, w) = (
      (
        rest,
        rw
            (
              bytes_of-append out r.sent,
              round_bytes sizes c no_bytes,
              append_assoc c (bytes_of r.sent) rest,
            )
            (ap (λ x. c ++ x) f),
        g,
      ),
      All-append-IsShort out r.sent out-IsShort k,
      rw (append_assoc sizes (chunk c ∷ []) r.sent) (
          Answers-sizes send_chunk send_resize i r.result sizes (chunk c ∷ r.sent) no_chunk
            (inl (t, a))),
      rw (refused_sizes-append send_chunk send_resize out r.sent, ← out-told, w) refl,
    )

    stopped-Delivers :
        (e : E)
        → send_chunk i c ≡ some e
        → Delivers send_chunk send_resize i
            (c ++ bytes)
            (stopped send_chunk send_resize during out errors e)
    stopped-Delivers e t = (
      (bytes, ap (λ x. x ++ bytes) (round_bytes sizes c no_bytes), λ k. absurd (ground arith)),
      out-IsShort,
      Answers-sizes send_chunk send_resize i (err e) sizes (chunk c ∷ []) no_chunk
          (inr (e, t, refl, refl)),
      out-told,
    )

    after_chunk-Delivers :
        (o : Option (Report E)) (a : Option E)
        → send_chunk i c ≡ a
        → Delivers send_chunk send_resize (i + 1) bytes o
        → Delivers send_chunk send_resize i (c ++ bytes) (elim a [
          | some e ↦ stopped send_chunk send_resize during out errors e
          | none ↦ prepend send_chunk send_resize during out errors o
        ])
    after_chunk-Delivers o none t d = prepend-Delivers o t d
    after_chunk-Delivers o (some e) t d = stopped-Delivers e t

  write_chunks-Delivers :
      (fuel i : ℕ) (is_open : Bool) (bytes : List ℕ)
      → length bytes ≤ fuel
      → Delivers send_chunk send_resize i bytes
          (write_chunks send_chunk send_resize during fuel i is_open bytes)
  unfolding write_chunks
  write_chunks-Delivers fuel i is_open [] h = (([], refl, λ k. refl), tt, refl, refl)
  write_chunks-Delivers zero i is_open (b ∷ bs) h = absurd (omega arith)
  write_chunks-Delivers (suc fuel) i is_open (b ∷ bs) h =
      let c = take input_write_chunk_bytes (b ∷ bs) in
      let later = drop input_write_chunk_bytes (b ∷ bs) in
      let served = serve_resizes send_chunk send_resize during is_open (during i) in
      let (no_bytes, short, no_chunk, told) = serve_resizes-bytes is_open (during i) in
      subst
        (λ bytes.
          Delivers send_chunk send_resize i bytes
            (write_chunks send_chunk send_resize during (suc fuel) i is_open (b ∷ bs)))
        (take-append-drop input_write_chunk_bytes (b ∷ bs))
        (after_chunk-Delivers i served.0 served.1 c later no_bytes short no_chunk told
          (length-take-le input_write_chunk_bytes (b ∷ bs))
          (write_chunks send_chunk send_resize during fuel (i + 1) served.2 later) (send_chunk i c)
          refl
          (write_chunks-Delivers fuel (i + 1) served.2 later
            (omega (arith, length-drop input_write_chunk_bytes (b ∷ bs)))))

-- Whatever the answers of the channel and the sizes in between, the input is sent from its start in
-- chunks of at most 32 KiB, in order and without a gap. If the call succeeds, the channel took every chunk,
-- and the chunks are the whole input; if it fails, the channel took every chunk but the last one, whose
-- error is returned. The errors of sizes are those of the sizes that were sent. The fuel for one turn per
-- byte is enough.
pub send_scheduled_input-Delivers :
    {E : Type 0} (send_chunk : ℕ → List ℕ → Option E) (send_resize : ℕ × ℕ → Option E)
    (during : ℕ → List (Option ((ℕ × ℕ) × List (ℕ × ℕ)))) (bytes : List ℕ)
    → Delivers send_chunk send_resize 0 bytes
        (send_scheduled_input send_chunk send_resize during bytes)
unfolding send_scheduled_input
send_scheduled_input-Delivers {E} send_chunk send_resize during [] =
    (([], refl, λ k. refl), (omega arith, tt), answered-Answers (send_chunk 0 []) refl, refl)
  where
    answered-Answers :
        (a : Option E)
        → send_chunk 0 [] ≡ a
        → Answers send_chunk send_resize 0
            (answered send_chunk send_resize during a)
            (chunk [] ∷ [])
    answered-Answers none t = inl (t, refl)
    answered-Answers (some e) t = inr (e, t, refl, refl)
send_scheduled_input-Delivers send_chunk send_resize during (b ∷ bs) =
    write_chunks-Delivers send_chunk send_resize during (length (b ∷ bs)) 0 true (b ∷ bs)
      (omega arith)
