-- ===== src/Registry/Cleanup.antt =====
-- What the removal of a session, and the cancellation of all, in leantty_ssh/src/lib.rs do to the calls
-- that come after.
use mathlib.Core.List.{append_assoc, append-nil}
use leantty.Prelude.{
  ℕ, ◌+◌, ◌∙◌, Bool, true, false, some, length, keep, Result, List, [], ◌∷◌, ◌++◌, map, Option,
  none, ◌≡◌, ◌≢◌, refl, ap, Text, codes, arith, u32, ok, err,
}
use leantty.Registry.{
  Message, disconnect, Registry, get, remove, drop_entry, remove_session, parse_session_id,
  find_shell, Outcome, ssh_write, cancel_map, cancel_all_sessions, accepted_disconnects,
}

module _ {A : Type 0} where
  pub get-remove : (id : ℕ) (es : List (ℕ × A)) → get id (remove id es) ≡ none
  unfolding get remove
  get-remove id [] = refl
  get-remove id ((k, a) ∷ es) = ground (arith, get-remove id es)

  pub get-remove_other :
      (id other : ℕ) (es : List (ℕ × A)) → other ≢ id → get other (remove id es) ≡ get other es
  unfolding get remove
  get-remove_other id other [] h = refl
  get-remove_other id other ((k, a) ∷ es) h = ground (arith, get-remove_other id other es h)

-- Once a shell session was removed, a write to it fails with `session not found` and sends nothing, and
-- a write to any other id does what it did before.
pub ssh_write-remove_session :
    (try_send : ℕ → Message → Option Text) (r : Registry) (id : ℕ) (session_id data' : Text)
    → r.sessions.poisoned ≡ false
    → (parse_session_id session_id ≡ ok id
        → ssh_write try_send (remove_session r id) session_id data'
          ≡ record { sends = []; result = err (codes "session not found") })
      × ((other : ℕ)
          → parse_session_id session_id ≡ ok other
          → other ≢ id
          → ssh_write try_send (remove_session r id) session_id data'
            ≡ ssh_write try_send r session_id data')
unfolding ssh_write find_shell remove_session drop_entry
ssh_write-remove_session try_send r id session_id data' healthy = (
  λ h. rw (h, healthy, get-remove id r.sessions.entries) refl,
  λ other h ne. rw (h, healthy, get-remove_other id other r.sessions.entries ne) refl,
)

module _ (try_send : ℕ → Message → Option Text) where
  accepted_disconnects-append :
      (cs ds : List ℕ)
      → accepted_disconnects try_send (cs ++ ds)
        ≡ accepted_disconnects try_send cs + accepted_disconnects try_send ds
  accepted_disconnects-append [] ds = omega arith
  accepted_disconnects-append (c ∷ cs) ds = ground (arith, accepted_disconnects-append cs ds)

map-append {ℓ κ} :
    {A : Type ℓ} {B : Type κ} (f : A → B) (cs ds : List A) → map f (cs ++ ds) ≡ map f cs ++ map f ds
map-append f [] ds = refl
map-append f (c ∷ cs) ds = ap (λ xs. f c ∷ xs) (map-append f cs ds)

u32-sum : (a b c : ℕ) → u32 (u32 (u32 (0 + a) + b) + c) ≡ u32 (a + (b + c))
u32-sum a b c = omega arith

concatenated {ℓ κ} :
    {A : Type ℓ} {B : Type κ} (f : A → B) (xs bs cs : List A)
    → (map f xs ++ map f bs) ++ map f cs ≡ map f (xs ++ (bs ++ cs))
concatenated f xs bs cs =
    rw (map-append f xs (bs ++ cs), map-append f bs cs)
      (append_assoc (map f xs) (map f bs) (map f cs))

counted :
    (try_send : ℕ → Message → Option Text) (cs ds es : List ℕ)
    → u32 (
        u32 (u32 (0 + accepted_disconnects try_send cs) + accepted_disconnects try_send ds)
        + accepted_disconnects try_send es)
      ≡ u32 (accepted_disconnects try_send (cs ++ (ds ++ es)))
counted try_send cs ds es =
    rw
      (
        accepted_disconnects-append try_send cs (ds ++ es),
        accepted_disconnects-append try_send ds es,
      )
      (u32-sum _ _ _)

same_outcome :
    {s t : List (ℕ × Message)} {m n : ℕ}
    → s ≡ t
    → m ≡ n
    → ◌≡◌ {A = Outcome ℕ}
        (record { sends = s; result = ok m })
        (record { sends = t; result = ok n })
same_outcome p q = cc

-- The channel takes the request to disconnect.
abbrev pub takes_disconnect : (ℕ → Message → Option Text) → ℕ → Bool
takes_disconnect try_send c = elim (try_send c disconnect) [ none ↦ true | some error ↦ false ]

accepted_disconnects-keep :
    (try_send : ℕ → Message → Option Text) (cs : List ℕ)
    → accepted_disconnects try_send cs ≡ length (keep (takes_disconnect try_send) cs)
accepted_disconnects-keep try_send [] = refl
accepted_disconnects-keep try_send (c ∷ cs) = ground (arith, accepted_disconnects-keep try_send cs)

-- A map as the cancellation sees it: whether its lock is poisoned, the error of that, and its channels.
abbrev pub Locked : Type 0
Locked = Bool × Text × List ℕ

abbrev pub disconnect_maps : Registry → List Locked
disconnect_maps r =
    (
      r.sessions.poisoned,
      codes "SSH session map lock poisoned",
      map (λ e. e.1.disconnect_tx) r.sessions.entries,
    )
    ∷ (
      r.mosh_sessions.poisoned,
      codes "Mosh session map lock poisoned",
      map (λ e. e.1.disconnect_tx) r.mosh_sessions.entries,
    )
    ∷ (
      r.file_transfer_sessions.poisoned,
      codes "file transfer session map lock poisoned",
      map (λ e. e.1.disconnect_tx) r.file_transfer_sessions.entries,
    )
    ∷ []

-- The channels of the maps in front of the first poisoned one, and the error of that one.
abbrev pub unlocked : List Locked → List ℕ × Option Text
unlocked [] = ([], none)
unlocked ((true, message, cs) ∷ ms) = ([], some message)
unlocked ((false, message, cs) ∷ ms) = let (ds, e) = unlocked ms in (cs ++ ds, e)

abbrev pub counted_or : ℕ → Option Text → Result ℕ Text
counted_or n none = ok n
counted_or n (some message) = err message

module _ (try_send : ℕ → Message → Option Text) where
  abbrev ask : ℕ → ℕ × Message
  ask c = (c, disconnect)

  three_maps :
      (a b c : Bool) (m n o : Text) (xs ys zs : List ℕ)
      → let u = unlocked ((a, m, xs) ∷ (b, n, ys) ∷ (c, o, zs) ∷ []) in
        cancel_map try_send c o zs (
          cancel_map try_send b n ys
            (cancel_map try_send a m xs (record { sends = []; result = ok 0 })))
        ≡ record {
          sends = map ask u.0;
          result = counted_or (u32 (length (keep (takes_disconnect try_send) u.0))) u.1;
        }
  unfolding cancel_map
  three_maps true b c m n o xs ys zs = refl
  three_maps false true c m n o xs ys zs = rw (append-nil xs) refl
  three_maps false false true m n o xs ys zs = rw (append-nil ys, map-append ask xs ys) refl
  three_maps false false false m n o xs ys zs = rw (append-nil zs) (
      same_outcome (concatenated ask xs ys zs) (
        counted try_send xs ys zs ∙ ap u32 (accepted_disconnects-keep try_send (xs ++ (ys ++ zs)))))

-- The cancellation takes the maps in turn, the shells first and the transfers last, until a lock is
-- poisoned: it asks every session of the maps before that one once to disconnect, in the order of the
-- maps, and no other. It returns the poisoned map's error, or else the number of the channels that took the
-- request, wrapped to 32 bits.
pub cancel_all_sessions_lem :
    (try_send : ℕ → Message → Option Text) (r : Registry)
    → let (channels, poisoned) = unlocked (disconnect_maps r) in
      cancel_all_sessions try_send r ≡ record {
        sends = map (λ c. (c, disconnect)) channels;
        result = counted_or (u32 (length (keep (takes_disconnect try_send) channels))) poisoned;
      }
unfolding cancel_all_sessions
cancel_all_sessions_lem try_send r =
    three_maps try_send r.sessions.poisoned r.mosh_sessions.poisoned
      r.file_transfer_sessions.poisoned (codes "SSH session map lock poisoned")
      (codes "Mosh session map lock poisoned") (codes "file transfer session map lock poisoned")
      (map (λ e. e.1.disconnect_tx) r.sessions.entries)
      (map (λ e. e.1.disconnect_tx) r.mosh_sessions.entries)
      (map (λ e. e.1.disconnect_tx) r.file_transfer_sessions.entries)
