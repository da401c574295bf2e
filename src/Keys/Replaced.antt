-- ===== src/Keys/Replaced.antt =====
-- What a change of the passphrase does to the key file, leantty_ssh/leantty-ssh-core/src/keygen.rs.
use mathlib.Core.Path.{subst}
use leantty.Prelude.{
  ℕ, Bool, true, false, Option, some, ◌≡◌, ◌≢◌, refl, sym, ◌∙◌, arith, Text, codes, text_eq_iff,
  Result, ok, err,
}
use leantty.Keys.Disk.{
  Contents, utf8, Disk, Failure, and_then, labelled, pure, label, caught, read_to_string,
  create_new, write_all, touch, rename,
}
use leantty.Keys.Frame.{
  and_then_rule, and_then-ok, labelled-ok, read_to_string-ok, Keeps, Keeps-and_then,
}
use leantty.Keys.Crate.{KeyCrate, unlock, reopen, read_private_key}
use leantty.Keys.Passphrase.{
  sync_parent_directory, write_temporary, same_identity, guarded, verify_temporary, replace_key,
  write_and_replace, old_key,
}

module _ (os : ℕ → Option Failure) (crate : KeyCrate) where
  open crate use {PrivateKey, parse_private}

  -- The key that a file holds, unlocked.
  abbrev pub Holds : Disk → Text → Text → PrivateKey → Type 0
  Holds d p passphrase k =
      (content : Text) × (parsed : PrivateKey) × (d.files p ≡ some (utf8 content))
      × (parse_private content ≡ ok parsed)
      × (unlock crate parsed passphrase (codes "old passphrase is incorrect") ≡ ok k)

  pub old_key-Keeps : (p passphrase q : Text) → Keeps q (old_key os crate p passphrase)
  unfolding read_to_string
  old_key-Keeps p passphrase q d = ground arith

  pub old_key-Holds :
      (d : Disk) (p passphrase : Text) (k : PrivateKey)
      → (old_key os crate p passphrase d).1 ≡ ok k
      → Holds d p passphrase k
  old_key-Holds d p passphrase k h =
      let (parsed, loaded, unlocked) = and_then-ok (read_private_key crate os p d) _ h in
      let (content, found, same) =
        and_then-ok (label (codes "read private key failed: ") (read_to_string os p) d) _ loaded in
      (
        content,
        parsed,
        read_to_string-ok os p d
            (labelled-ok (codes "read private key failed: ") (read_to_string os p d).1 found),
        labelled-ok (codes "parse private key failed: ") (parse_private content) same,
        unlocked,
      )

  write_temporary-Keeps :
      (temp encoded q : Text) → temp ≢ q → Keeps q (write_temporary os temp encoded)
  unfolding write_temporary create_new write_all touch
  write_temporary-Keeps temp encoded q h d = ground (arith, text_eq_iff temp q)

  write_temporary-ok :
      (temp encoded : Text) (d : Disk)
      → (write_temporary os temp encoded d).1 ≡ ok tt
      → (write_temporary os temp encoded d).0.files temp ≡ some (utf8 encoded)
  unfolding write_temporary create_new write_all touch
  write_temporary-ok temp encoded d h = ground (arith, text_eq_iff temp temp)

  text_of_file : {a b : Text} → ◌≡◌ {A = Option Contents} (some (utf8 a)) (some (utf8 b)) → a ≡ b
  text_of_file e = cc

  verify_temporary-Keeps :
      (temp : Text) (original : PrivateKey) (passphrase q : Text)
      → Keeps q (verify_temporary os crate temp original passphrase)
  unfolding verify_temporary read_to_string
  verify_temporary-Keeps temp original passphrase q d = ground arith

  -- A text that was read back as the same key.
  abbrev pub Verified : Text → Text → PrivateKey → Type 0
  Verified written passphrase original =
      (key : PrivateKey) × (verified : PrivateKey) × (parse_private written ≡ ok key)
      × (reopen crate key passphrase (codes "verify temporary private key failed: ") ≡ ok verified)
      × (same_identity crate verified original ≡ true)

  guarded-ok : (b : Bool) (d : Disk) → (guarded b d).1 ≡ ok tt → b ≡ true
  guarded-ok true d h = refl
  guarded-ok false d h = cc

  verify_temporary-Verified :
      (temp : Text) (original : PrivateKey) (passphrase : Text) (d : Disk)
      → (verify_temporary os crate temp original passphrase d).1 ≡ ok tt
      → (written : Text) × (d.files temp ≡ some (utf8 written))
        × Verified written passphrase original
  unfolding verify_temporary
  verify_temporary-Verified temp original passphrase d h =
      let context : Text = codes "verify temporary private key failed: " in
      let r : Disk × Result Text Text = label context (read_to_string os temp) d in
      let (written, found, rest) = and_then-ok r _ h in
      let (key, parsed, rest') =
        and_then-ok (r.0, labelled context (parse_private written)) _ rest in
      let (verified, opened, same) =
        and_then-ok (r.0, reopen crate key passphrase context) _ rest' in
      (
        written,
        read_to_string-ok os temp d (labelled-ok context (read_to_string os temp d).1 found),
        (
          key,
          verified,
          labelled-ok context (parse_private written) parsed,
          opened,
          guarded-ok (same_identity crate verified original) r.0 same,
        ),
      )

  -- The key file holds the text that was to be written, which was read back as the same key, or is as it
  -- was.
  abbrev pub IsReplaced :
      Option Contents → Text → Text → PrivateKey → Text → Disk × Result (Unit {0}) Text → Type 0
  IsReplaced before target passphrase original encoded (d, ok u) =
      (d.files target ≡ some (utf8 encoded)) × Verified encoded passphrase original
  IsReplaced before target passphrase original encoded (d, err e) = d.files target ≡ before

  module _ (temp target : Text) (apart : temp ≢ target) where
    sync_parent_directory-Keeps : (q : Text) → Keeps q (sync_parent_directory os target)
    unfolding sync_parent_directory touch
    sync_parent_directory-Keeps q d = ground arith

    rename-ok :
        (d : Disk) (c : Contents)
        → d.files temp ≡ some c
        → (rename os temp target d).1 ≡ ok tt
        → (rename os temp target d).0.files target ≡ some c
    unfolding rename
    rename-ok d c h k = ground (arith, text_eq_iff target target, text_eq_iff temp target)

    rename-err :
        (d : Disk) (e : Text)
        → (rename os temp target d).1 ≡ err e
        → (q : Text) → (rename os temp target d).0.files q ≡ d.files q
    unfolding rename
    rename-err d e k q = ground arith

    replace_key-IsReplaced :
        (d : Disk) (original : PrivateKey) (passphrase written : Text)
        → d.files temp ≡ some (utf8 written)
        → Verified written passphrase original
        → IsReplaced
            (d.files target)
            target
            passphrase
            original
            written
            (replace_key os temp target d)
    unfolding replace_key
    replace_key-IsReplaced d original passphrase written h v =
        let failed : Text = codes "replace private key failed: " in
        let r : Disk × Result (Unit {0}) Text = label failed (rename os temp target) d in
        and_then_rule (IsReplaced (d.files target) target passphrase original written) r
          (λ u d. and_then (caught (sync_parent_directory os target) d) (λ s. pure (ok tt)))
          (λ e k. renamed-err e (rename os temp target d).1 refl k)
          (λ u k. (
            sync_parent_directory-Keeps target r.0
                ∙ rename-ok d (utf8 written) h (labelled-ok failed (rename os temp target d).1 k),
            v,
          ))
      where
        renamed-err :
            (e : Text) (x : Result (Unit {0}) Text)
            → (rename os temp target d).1 ≡ x
            → labelled (codes "replace private key failed: ") x ≡ err e
            → (rename os temp target d).0.files target ≡ d.files target
        renamed-err e (ok u) k l = cc
        renamed-err e (err m) k l = rename-err d m k target

    replace_key-Keeps : (q : Text) → temp ≢ q → target ≢ q → Keeps q (replace_key os temp target)
    unfolding replace_key rename sync_parent_directory touch
    replace_key-Keeps q h k d = ground (arith, text_eq_iff temp q, text_eq_iff target q)

    pub write_and_replace-IsReplaced :
        (original : PrivateKey) (passphrase encoded : Text) (d : Disk)
        → IsReplaced
            (d.files target)
            target
            passphrase
            original
            encoded
            (write_and_replace os crate temp target original passphrase encoded d)
    unfolding write_and_replace
    write_and_replace-IsReplaced original passphrase encoded d =
        let r : Disk × Result (Unit {0}) Text = write_temporary os temp encoded d in
        let v : Disk × Result (Unit {0}) Text =
          verify_temporary os crate temp original passphrase r.0 in
        let kept : r.0.files target ≡ d.files target =
          write_temporary-Keeps temp encoded target apart d in
        let kept' : v.0.files target ≡ d.files target =
          verify_temporary-Keeps temp original passphrase target r.0 ∙ kept in
        and_then_rule (IsReplaced (d.files target) target passphrase original encoded) r
          (λ _ d.
            and_then (verify_temporary os crate temp original passphrase d)
              (λ _. replace_key os temp target))
          (λ e k. kept)
          (λ u k.
            and_then_rule (IsReplaced (d.files target) target passphrase original encoded) v
              (λ _. replace_key os temp target) (λ e l. kept')
              (λ w l.
                let (written, found, verified) =
                  verify_temporary-Verified temp original passphrase r.0 l in
                let there : r.0.files temp ≡ some (utf8 encoded) =
                  write_temporary-ok temp encoded d k in
                let same : written ≡ encoded = text_of_file (sym found ∙ there) in
                subst
                  (λ b.
                    IsReplaced b target passphrase original encoded
                      (replace_key os temp target v.0))
                  kept'
                  (replace_key-IsReplaced v.0 original passphrase encoded
                    (verify_temporary-Keeps temp original passphrase temp r.0 ∙ there)
                    (subst (λ w. Verified w passphrase original) same verified))))

    pub write_and_replace-Keeps :
        (original : PrivateKey) (passphrase encoded q : Text)
        → temp ≢ q
        → target ≢ q
        → Keeps q (write_and_replace os crate temp target original passphrase encoded)
    unfolding write_and_replace
    write_and_replace-Keeps original passphrase encoded q h k =
        Keeps-and_then q (write_temporary os temp encoded) _
          (write_temporary-Keeps temp encoded q h)
          (λ u.
            Keeps-and_then q (verify_temporary os crate temp original passphrase) _
              (verify_temporary-Keeps temp original passphrase q) (λ w. replace_key-Keeps q h k))
