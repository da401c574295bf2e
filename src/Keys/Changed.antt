-- ===== src/Keys/Changed.antt =====
-- `change_private_key_passphrase` of leantty_ssh/leantty-ssh-core/src/keygen.rs as a whole.
use mathlib.Core.Path.{subst}
use leantty.Prelude.{
  true, false, is_empty, ◌⊎◌, inl, inr, Bool-cases, ℕ, Option, none, some, ◌≡◌, ◌≢◌, refl, sym, ◌∙◌,
  ap, arith, Text, codes, Result, ok, err,
}
use leantty.Keys.Disk.{utf8, Disk, Failure, and_then}
use leantty.Keys.Frame.{and_then_rule, and_then-ok, labelled-ok, Keeps, remove_file-Keeps}
use leantty.Keys.Crate.{KeyCrate}
use leantty.Keys.Paths.{free_path-ok, passphrase_name, create_passphrase_temporary_path}
use leantty.Keys.Passphrase.{
  clean_up, stored_key, encoded_key, write_and_replace, old_key, change_private_key_passphrase,
}
use leantty.Keys.Replaced.{
  Holds, Verified, IsReplaced, old_key-Keeps, old_key-Holds, write_and_replace-IsReplaced,
  write_and_replace-Keeps,
}

-- The path of a temporary file is one where there is no file.
pub create_passphrase_temporary_path-free :
    (pid : ℕ) (target temp : Text) (d : Disk)
    → (create_passphrase_temporary_path pid target d).1 ≡ ok temp
    → d.files temp ≡ none
unfolding create_passphrase_temporary_path
create_passphrase_temporary_path-free pid target temp d h =
    (free_path-ok d target (passphrase_name pid) (codes "private key path has no parent directory")
      (codes "private key path has an invalid file name")
      (codes "cannot allocate temporary private key path") temp h).6

module _ (os : ℕ → Option Failure) (crate : KeyCrate) where
  open crate use {PrivateKey, encrypt, to_openssh}

  module _ (d : Disk) (key_path old_passphrase new_passphrase : Text) where
    -- The text of a key under a passphrase: that of the key as it is without one, and otherwise that of what
    -- the crate's encryption makes of it.
    abbrev pub IsEncoded : PrivateKey → Text → Type 0
    IsEncoded original written =
        (is_empty new_passphrase ≡ true) × (to_openssh original ≡ ok written)
        ⊎ ((is_empty new_passphrase ≡ false)
            × (stored : PrivateKey) × (encrypt original new_passphrase ≡ ok stored)
            × (to_openssh stored ≡ ok written))

    -- Success: the file held a key under the old passphrase, and now holds its text under the new one, which
    -- was read back as the same key. Failure: the file is as it was.
    abbrev pub IsChanged : Disk × Result (Unit {0}) Text → Type 0
    IsChanged (d', ok u) =
        (original : PrivateKey) × Holds os crate d key_path old_passphrase original
        × (written : Text) × IsEncoded original written
        × (d'.files key_path ≡ some (utf8 written))
        × Verified os crate written new_passphrase original
    IsChanged (d', err e) = d'.files key_path ≡ d.files key_path

    abbrev pub SparesOthers : Disk × Result (Unit {0}) Text → Type 0
    SparesOthers r = (q : Text) → d.files q ≢ none → key_path ≢ q → r.0.files q ≡ d.files q

    temp-ne : (temp q : Text) → d.files temp ≡ none → d.files q ≢ none → temp ≢ q
    temp-ne temp q free there same = there (ap d.files (sym same) ∙ free)

    module _ (temp : Text) (apart : temp ≢ key_path) (original : PrivateKey) (encoded : Text) where
      clean_up-IsReplaced :
          (r : Disk × Result (Unit {0}) Text)
          → IsReplaced os crate (d.files key_path) key_path new_passphrase original encoded r
          → IsReplaced os crate
              (d.files key_path)
              key_path
              new_passphrase
              original
              encoded
              (clean_up os temp r)
      clean_up-IsReplaced (d', ok u) h = h
      clean_up-IsReplaced (d', err e) h = remove_file-Keeps key_path os temp apart d' ∙ h

    clean_up-files :
        (temp q : Text) (r : Disk × Result (Unit {0}) Text)
        → temp ≢ q
        → (clean_up os temp r).0.files q ≡ r.0.files q
    clean_up-files temp q (d', ok u) h = refl
    clean_up-files temp q (d', err e) h = remove_file-Keeps q os temp h d'

    IsReplaced-IsChanged :
        (original : PrivateKey) (encoded : Text) (r : Disk × Result (Unit {0}) Text)
        → Holds os crate d key_path old_passphrase original
        → IsEncoded original encoded
        → IsReplaced os crate (d.files key_path) key_path new_passphrase original encoded r
        → IsChanged r
    IsReplaced-IsChanged original encoded (d', ok u) h made (now, verified) =
        (original, h, encoded, made, now, verified)
    IsReplaced-IsChanged original encoded (d', err e) h made k = k

    -- Both parts of the statement, carried through the steps of the call.
    abbrev Settles : Disk × Result (Unit {0}) Text → Type 0
    Settles r = IsChanged r × SparesOthers r

    -- A step that fails before the temporary file is made.
    stopped-Settles :
        (d' : Disk) (e : Text) → ((q : Text) → d'.files q ≡ d.files q) → Settles (d', err e)
    stopped-Settles d' e same = (same key_path, λ q there other. same q)

    replaced-Settles :
        (d' : Disk) (temp encoded : Text) (original : PrivateKey)
        → ((q : Text) → d'.files q ≡ d.files q)
        → d'.files temp ≡ none
        → Holds os crate d key_path old_passphrase original
        → IsEncoded original encoded
        → Settles (
            clean_up os temp
              (write_and_replace os crate temp key_path original new_passphrase encoded d'))
    replaced-Settles d' temp encoded original same free h made =
        let r = write_and_replace os crate temp key_path original new_passphrase encoded d' in
        let there : d.files key_path ≢ none = λ e. cc (h.2) in
        let free' : d.files temp ≡ none = sym (same temp) ∙ free in
        let apart : temp ≢ key_path = temp-ne temp key_path free' there in
        (
          IsReplaced-IsChanged original encoded (clean_up os temp r) h made (
              clean_up-IsReplaced temp apart original encoded r (
                subst (λ b. IsReplaced os crate b key_path new_passphrase original encoded r)
                  (same key_path)
                  (write_and_replace-IsReplaced os crate temp key_path apart original new_passphrase
                    encoded d'))),
          λ q was other.
              let away : temp ≢ q = temp-ne temp q free' was in
              clean_up-files temp q r away
              ∙ write_and_replace-Keeps os crate temp key_path apart original new_passphrase encoded
                  q away other d'
              ∙ same q,
        )

encoded_key-IsEncoded :
    (os : ℕ → Option Failure) (crate : KeyCrate) (d : Disk)
    (key_path old_passphrase new_passphrase : Text) (original : crate.PrivateKey) (d' : Disk)
    (encoded : Text)
    → (encoded_key crate original new_passphrase d').1 ≡ ok encoded
    → IsEncoded os crate d key_path old_passphrase new_passphrase original encoded
unfolding encoded_key
encoded_key-IsEncoded os crate d key_path old_passphrase new_passphrase original d' encoded h =
    elim (Bool-cases (is_empty new_passphrase)) [
      | inl clear ↦ inl (
        clear,
        labelled-ok (codes "private key encoding failed: ") (crate.to_openssh original)
            (rw clear at h),
      )
      | inr secret ↦
          let (stored, made, text) =
            and_then-ok (d', stored_key crate original new_passphrase) _ h in
          inr (
            secret,
            stored,
            labelled-ok (codes "key encryption failed: ") (crate.encrypt original new_passphrase)
                (rw secret at made),
            labelled-ok (codes "private key encoding failed: ") (crate.to_openssh stored) text,
          )
    ]

encoded_key-Keeps :
    (crate : KeyCrate) (k : crate.PrivateKey) (passphrase q : Text)
    → Keeps q (encoded_key crate k passphrase)
unfolding encoded_key
encoded_key-Keeps crate k passphrase q d = ground arith

-- Whatever fails on the way, a change of the passphrase is all or nothing: if it succeeds, the key file
-- held a key under the old passphrase, and now holds the text of that key, encrypted under the new
-- passphrase by the key crate or in clear if the new one is empty, and this text was read back as a key
-- with the same fingerprint and public key; if it fails, the key file is as it was; and no other file that
-- was there before has changed.
pub change_private_key_passphrase-IsChanged :
    (os : ℕ → Option Failure) (crate : KeyCrate) (pid : ℕ) (d : Disk)
    (key_path old_passphrase new_passphrase : Text)
    → let r = change_private_key_passphrase os crate pid key_path old_passphrase new_passphrase d in
      IsChanged os crate d key_path old_passphrase new_passphrase r
      × SparesOthers os crate d key_path old_passphrase new_passphrase r
unfolding change_private_key_passphrase
change_private_key_passphrase-IsChanged os crate pid d key_path old_passphrase new_passphrase =
    let Goal = Settles os crate d key_path old_passphrase new_passphrase in
    let r : Disk × Result crate.PrivateKey Text = old_key os crate key_path old_passphrase d in
    let same : (q : Text) → r.0.files q ≡ d.files q =
      λ q. old_key-Keeps os crate key_path old_passphrase q d in
    and_then_rule Goal r
      (λ original d. and_then (encoded_key crate original new_passphrase d) (λ encoded d.
        and_then (create_passphrase_temporary_path pid key_path d) (λ temp d.
          clean_up os temp
            (write_and_replace os crate temp key_path original new_passphrase encoded d))))
      (λ e k. stopped-Settles os crate d key_path old_passphrase new_passphrase r.0 e same)
      (λ original k.
        let s : Disk × Result Text Text = encoded_key crate original new_passphrase r.0 in
        let same' : (q : Text) → s.0.files q ≡ d.files q =
          λ q. encoded_key-Keeps crate original new_passphrase q r.0 ∙ same q in
        and_then_rule Goal s
          (λ encoded d. and_then (create_passphrase_temporary_path pid key_path d) (λ temp d.
            clean_up os temp
              (write_and_replace os crate temp key_path original new_passphrase encoded d)))
          (λ e l. stopped-Settles os crate d key_path old_passphrase new_passphrase s.0 e same')
          (λ encoded l.
            let t : Disk × Result Text Text = create_passphrase_temporary_path pid key_path s.0 in
            let same'' : (q : Text) → t.0.files q ≡ d.files q =
              λ q. unfold create_passphrase_temporary_path in same' q in
            and_then_rule Goal t
              (λ temp d.
                clean_up os temp
                  (write_and_replace os crate temp key_path original new_passphrase encoded d))
              (λ e m.
                stopped-Settles os crate d key_path old_passphrase new_passphrase t.0 e same'')
              (λ temp m.
                replaced-Settles os crate d key_path old_passphrase new_passphrase t.0 temp encoded
                  original same''
                  (unfold create_passphrase_temporary_path in
                    create_passphrase_temporary_path-free pid key_path temp s.0 m)
                  (old_key-Holds os crate d key_path old_passphrase original k)
                  (encoded_key-IsEncoded os crate d key_path old_passphrase new_passphrase original
                    r.0 encoded l))))
