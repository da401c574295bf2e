-- ===== src/HostKey/Trust.antt =====
-- Which host keys `check_server_key` of leantty_ssh/src/lib.rs lets pass, and what it says of the others.
use leantty.Prelude.{
  ℕ, Bool, true, false, List, [], ◌∷◌, ◌++◌, map, Option, none, some, Text, codes, ◌≡◌, ◌≢◌, ◌⊎◌,
  inl, inr, refl, ap, ◌∙◌, arith, All, Result, ok, err, Bool-cases, ◌==◌, ==_iff,
}
use leantty.Prelude.Decimal.{to_string}
use leantty.Registry.{as_str, HostKeyDecision}
use leantty.Events.{ControlEvent, base, error, host_key_prompt, host_key_changed}
use leantty.Waits.{wait_for_host_key_decision}
use leantty.Waits.Laws.{wait_for_host_key_decision-accepted}
use leantty.KnownHosts.{format_known_hosts_target}
use leantty.HostKey.{
  prompted_line, recorded_at, old_fingerprint, HostKeyCrate, ClientHandler, Act, sends_control,
  sends_diagnostic, reports_progress, KeysError, key_changed, other_failure, PublicKeyOrCertificate,
  plain_key, certificate, changed_event, prompt_event, refusal_event, failure_event, report,
  decided, ask_user, settle_key, check_server_key,
}

-- The events that the user interface gets.
unfoldable pub controls : List Act → List ControlEvent
controls [] = []
controls (sends_control e ∷ acts) = e ∷ controls acts
controls (sends_diagnostic e ∷ acts) = controls acts
controls (reports_progress p ∷ acts) = controls acts

controls-report :
    (h : ClientHandler) (status : Text) (acts : List Act)
    → controls (report h status ++ acts) ≡ controls acts
unfolding controls
controls-report h status acts = ground arith

module _ (crate : HostKeyCrate) (h : ClientHandler) where
  open crate use {
    PublicKey, algorithm, fingerprint, to_openssh, check_known_hosts_path, known_host_keys_path,
  }

  -- What russh says of the file of known hosts: whether it knows the key for the host and port, or an error.
  abbrev checked : PublicKey → Result Bool KeysError
  checked key = check_known_hosts_path h.host h.port key h.known_hosts_path

  -- An event that names this session and layer.
  abbrev pub IsAddressed : ControlEvent → Type 0
  IsAddressed e =
      (e.session_id ≡ to_string h.session_id)
      × (e.generation ≡ h.generation)
      × (e.layer ≡ as_str h.layer)

  -- A prompt with the key's algorithm and fingerprint, and its line for the host and port.
  abbrev pub Shows : PublicKey → Text → ControlEvent → Type 0
  Shows key text e =
      (e.kind ≡ codes "host_key_prompt")
      × (e.fingerprint ≡ algorithm key ++ (b' ' ∷ fingerprint key))
      × (e.known_host_line ≡ format_known_hosts_target h.host h.port ++ (b' ' ∷ text))

  -- An error of the host key with this detail.
  abbrev pub Fails : Text → ControlEvent → Type 0
  Fails detail e =
      (e.kind ≡ codes "error")
      × (e.stage ≡ codes "host_key")
      × (e.code ≡ codes "host_key")
      × (e.detail ≡ detail)

  -- The fingerprint of the first key that is recorded at the line, if one is.
  abbrev pub IsOldFingerprint : ℕ → Result (List (ℕ × PublicKey)) KeysError → Text → Type 0
  IsOldFingerprint line (err e) old = old ≡ codes "unavailable"
  IsOldFingerprint line (ok keys) old =
      ((before : List (ℕ × PublicKey)) × (key : PublicKey) × (later : List (ℕ × PublicKey)) × (keys
          ≡ before ++ (line, key) ∷ later)
        × All (λ r. r.0 ≢ line) before
        × (old ≡ fingerprint key))
      ⊎ All (λ r. r.0 ≢ line) keys × (old ≡ codes "unavailable")

  -- A change of the key, with the old and the new fingerprint.
  abbrev pub Changes : PublicKey → ℕ → ControlEvent → Type 0
  Changes key line e =
      (e.kind ≡ codes "host_key_changed")
      × (e.algorithm ≡ algorithm key)
      × (e.new_fingerprint ≡ fingerprint key)
      × (e.host ≡ h.host)
      × (e.port ≡ h.port)
      × IsOldFingerprint line (known_host_keys_path h.host h.port h.known_hosts_path)
          e.old_fingerprint

  prompt_event-Shows :
      (key : PublicKey) (text : Text)
      → IsAddressed (prompt_event crate h key text) × Shows key text (prompt_event crate h key text)
  unfolding host_key_prompt base prompted_line format_known_hosts_target
  prompt_event-Shows key text = ((refl, refl, refl), (refl, refl, refl))

  failure_event-Fails :
      (detail : Text) → IsAddressed (failure_event h detail) × Fails detail (failure_event h detail)
  unfolding error base
  failure_event-Fails detail = ((refl, refl, refl), (refl, refl, refl, refl))

  recorded_at-IsOldFingerprint :
      (line : ℕ) (keys : List (ℕ × PublicKey))
      → IsOldFingerprint line (ok keys) (old_fingerprint crate h line (ok keys))
  unfolding recorded_at
  recorded_at-IsOldFingerprint line [] = inr (tt, refl)
  recorded_at-IsOldFingerprint line ((n, key) ∷ keys) = elim (Bool-cases (n == line)) [
    | inl here ↦
        rw here (inl ([], key, keys, ap (λ m. (m, key) ∷ keys) ((==_iff n line).0 here), tt, refl))
    | inr there ↦ rw there (elim (recorded_at-IsOldFingerprint line keys) [
      | inl (before, k, later, same, others, old) ↦
          inl (
            (n, key) ∷ before,
            k,
            later,
            ap (λ ks. (n, key) ∷ ks) same,
            (ground arith, others),
            old,
          )
      | inr (others, old) ↦ inr ((ground arith, others), old)
    ])
  ]

  old_fingerprint-IsOldFingerprint :
      (line : ℕ) (r : Result (List (ℕ × PublicKey)) KeysError)
      → IsOldFingerprint line r (old_fingerprint crate h line r)
  old_fingerprint-IsOldFingerprint line (err e) = refl
  old_fingerprint-IsOldFingerprint line (ok keys) = recorded_at-IsOldFingerprint line keys

  changed_event-Changes :
      (key : PublicKey) (line : ℕ)
      → IsAddressed (changed_event crate h key line)
        × Changes key line (changed_event crate h key line)
  unfolding host_key_changed base
  changed_event-Changes key line = (
    (refl, refl, refl),
    (
      refl,
      refl,
      refl,
      refl,
      refl,
      old_fingerprint-IsOldFingerprint line (known_host_keys_path h.host h.port h.known_hosts_path),
    ),
  )

  controls-prompt :
      (decisions : List (Option HostKeyDecision)) (key : PublicKey) (text : Text)
      → controls (ask_user crate h key (ok text) decisions).0 ≡ prompt_event crate h key text ∷ []
  unfolding ask_user controls
  controls-prompt decisions key text = ground arith

  module _ (decisions : List (Option HostKeyDecision)) where
    -- The user was shown the key, and the first decision on the layer accepts it.
    abbrev IsAccepted : PublicKey → List Act → Type 0
    IsAccepted key acts =
        (text : Text) × (e : ControlEvent) × (to_openssh key ≡ ok text)
        × (controls acts ≡ e ∷ [])
        × IsAddressed e
        × Shows key text e
        × (before : List HostKeyDecision) × ((later : List (Option HostKeyDecision)) × (decisions
              ≡ map some before ++ some (record { layer = h.layer; accepted = true }) ∷ later)
            × All (λ d. d.layer ≢ h.layer) before)

    abbrev pub IsTrusted : PublicKeyOrCertificate crate h → List Act → Type 0
    IsTrusted server_key acts =
        (key : PublicKey) × (server_key ≡ plain_key key)
        × ((checked key ≡ ok true) ⊎ ((checked key ≡ ok false) × IsAccepted key acts))

    decided-answer : (a : Option Bool) → (decided crate h a).1 ≡ a
    decided-answer none = refl
    decided-answer (some b) = refl

    ask_user-IsAccepted :
        (key : PublicKey) (r : Result Text Text)
        → to_openssh key ≡ r
        → (ask_user crate h key r decisions).1 ≡ some true
        → IsAccepted key (report h (codes "started") ++ (ask_user crate h key r decisions).0)
    unfolding ask_user
    ask_user-IsAccepted key (err e) same h' = absurd (ground arith)
    ask_user-IsAccepted key (ok text) same h' =
        let (before, first) =
          wait_for_host_key_decision-accepted h.layer decisions
            (ground (arith, decided-answer (wait_for_host_key_decision h.layer decisions))) in
        let (to, shows) = prompt_event-Shows key text in
        (
          text,
          prompt_event crate h key text,
          same,
          controls-report h (codes "started") (ask_user crate h key (ok text) decisions).0
              ∙ controls-prompt decisions key text,
          to,
          shows,
          before,
          first,
        )

    settled :
        (key : PublicKey) (r : Result Bool KeysError)
        → checked key ≡ r
        → (settle_key crate h key r decisions).1 ≡ some true
        → (checked key ≡ ok true)
          ⊎ ((checked key ≡ ok false)
              × IsAccepted key
                  (report h (codes "started") ++ (settle_key crate h key r decisions).0))
    unfolding settle_key
    settled key (ok true) same h' = inl same
    settled key (ok false) same h' = inr (same, ask_user-IsAccepted key (to_openssh key) refl h')
    settled key (err e) same h' = absurd (ground arith)

  -- A host key passes only if it is a plain key, never a certificate, and russh's check of the file of known
  -- hosts for the host and port answers that it knows the key; or that check answers, without an error,
  -- that it does not know the key, the only event that the user interface got is a prompt for this session
  -- and layer with the key's algorithm and fingerprint and with its line for the host and port, and the
  -- first decision on the layer accepts it.
  pub check_server_key-IsTrusted :
      (decisions : List (Option HostKeyDecision)) (server_key : PublicKeyOrCertificate crate h)
      → (check_server_key crate h server_key decisions).1 ≡ some true
      → IsTrusted decisions server_key (check_server_key crate h server_key decisions).0
  unfolding check_server_key
  check_server_key-IsTrusted decisions certificate h' = absurd (ground arith)
  check_server_key-IsTrusted decisions (plain_key key) h' =
      (key, refl, settled decisions key (checked key) refl h')

  -- What an event says, by the answer of russh's check.
  abbrev pub Explains : PublicKey → Result Bool KeysError → ControlEvent → Type 0
  Explains key (ok known) e =
      ((text : Text) × (to_openssh key ≡ ok text) × Shows key text e)
      ⊎ ((m : Text) × (to_openssh key ≡ err m) × Fails m e)
  Explains key (err (key_changed line)) e = Changes key line e
  Explains key (err (other_failure m)) e = Fails m e

  abbrev pub IsTold : PublicKey → Result Bool KeysError → List Act → Type 0
  IsTold key answer acts =
      (e : ControlEvent) × (controls acts ≡ e ∷ []) × IsAddressed e × Explains key answer e

  controls-failed :
      (e : ControlEvent) → controls (report h (codes "failed") ++ sends_control e ∷ []) ≡ e ∷ []
  unfolding controls
  controls-failed e = controls-report h (codes "failed") (sends_control e ∷ [])

  ask_user-IsTold :
      (decisions : List (Option HostKeyDecision)) (key : PublicKey) (r : Result Text Text)
      → to_openssh key ≡ r
      → IsTold key (ok false) (ask_user crate h key r decisions).0
  ask_user-IsTold decisions key (ok text) same =
      let (to, shows) = prompt_event-Shows key text in
      (
        prompt_event crate h key text,
        controls-prompt decisions key text,
        to,
        inl (text, same, shows),
      )
  ask_user-IsTold decisions key (err m) same =
      let (to, fails) = failure_event-Fails m in
      (failure_event h m, unfold ask_user controls in refl, to, inr (m, same, fails))

  refusal_event-IsTold :
      (key : PublicKey) (e : KeysError)
      → IsTold key
          (err e)
          (report h (codes "failed") ++ sends_control (refusal_event crate h key e) ∷ [])
  refusal_event-IsTold key (key_changed line) =
      let (to, changes) = changed_event-Changes key line in
      (
        changed_event crate h key line,
        controls-failed (changed_event crate h key line),
        to,
        changes,
      )
  refusal_event-IsTold key (other_failure m) =
      let (to, fails) = failure_event-Fails m in
      (failure_event h m, controls-failed (failure_event h m), to, fails)

  settle_key-IsTold :
      (decisions : List (Option HostKeyDecision)) (key : PublicKey) (r : Result Bool KeysError)
      → r ≢ ok true
      → IsTold key r (settle_key crate h key r decisions).0
  unfolding settle_key
  settle_key-IsTold decisions key (ok true) unknown = absurd (unknown refl)
  settle_key-IsTold decisions key (ok false) unknown =
      ask_user-IsTold decisions key (to_openssh key) refl
  settle_key-IsTold decisions key (err e) unknown = refusal_event-IsTold key e

  -- About a plain key, unless russh's check of the file of known hosts answers that it knows it, exactly one
  -- event is sent, with the id, generation and layer of the session. It is the prompt that shows the key and
  -- its line if the check answers that it does not know it, or the error of printing the key; it is the
  -- change of the key, with the new fingerprint and with that of the first key that is recorded at the line,
  -- or `unavailable` without one, if the check fails with a change at that line; and it is an error with the
  -- text of any other failure.
  pub check_server_key-IsTold :
      (decisions : List (Option HostKeyDecision)) (key : PublicKey)
      → checked key ≢ ok true
      → IsTold key (checked key) (check_server_key crate h (plain_key key) decisions).0
  unfolding check_server_key
  check_server_key-IsTold decisions key unknown =
      let (e, one, to, says) = settle_key-IsTold decisions key (checked key) unknown in
      (
        e,
        controls-report h (codes "started") (settle_key crate h key (checked key) decisions).0
            ∙ one,
        to,
        says,
      )
