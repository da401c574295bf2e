-- ===== src/Keys/Staged.antt =====
-- The steps of `change_key_comment` of leantty_ssh/leantty-ssh-core/src/keygen.rs in front of the replacement: staging,
-- reading back and the backups.
use leantty.Prelude.{
  ℕ, Option, some, ◌≡◌, ◌≢◌, sym, ap, ◌∙◌, ◌⊎◌, inl, inr, arith, Text, codes, text_eq_iff, Result,
  ok, err,
}
use leantty.Keys.Disk.{
  Contents, utf8, Disk, Failure, and_then, labelled, label, read_to_string, copy, touch, create_new,
  write_all,
}
use leantty.Keys.Frame.{
  and_then_rule, and_then_steps, labelled-ok, read_to_string-ok, Keeps, Keeps-and_then,
}
use leantty.Keys.Crate.{KeyCrate}
use leantty.Keys.Comment.{AuxPaths, public_path_of, Original, Updated, staged_key, verified_pair}
use leantty.Keys.Transaction.{
  write_key_comment_file, copy_key_comment_backup, commit_pair, back_up, stage, verify_staged,
  replace_pair,
}
use leantty.Keys.PairStates.{HasPair, IsApart, IsUnsynced, IsTorn}
use leantty.Keys.Commit.{commit_pair-IsSettled, IsSettled}

module _ (os : ℕ → Option Failure) where
  write_key_comment_file-Keeps :
      (path contents role q : Text)
      → path ≢ q
      → Keeps q (write_key_comment_file os path contents role)
  unfolding write_key_comment_file create_new write_all touch
  write_key_comment_file-Keeps path contents role q h d = ground (arith, text_eq_iff path q)

  copy_key_comment_backup-Keeps :
      (source backup role q : Text)
      → backup ≢ q
      → Keeps q (copy_key_comment_backup os source backup role)
  unfolding copy_key_comment_backup copy touch
  copy_key_comment_backup-Keeps source backup role q h d = ground (arith, text_eq_iff backup q)

  copy_key_comment_backup-ok :
      (source backup role : Text) (d : Disk)
      → (copy_key_comment_backup os source backup role d).1 ≡ ok tt
      → (copy_key_comment_backup os source backup role d).0.files backup ≡ d.files source
  unfolding copy_key_comment_backup copy touch
  copy_key_comment_backup-ok source backup role d h = ground (arith, text_eq_iff backup backup)

  module _ (crate : KeyCrate) (original : Original crate) (passphrase new_comment : Text) where
    open crate use {PrivateKey, PublicKey, parse_public}

    -- Texts that were read back as the same pair of keys with the new comment.
    abbrev pub IsStaged : Text → Text → Type 0
    IsStaged private_text public_text =
        (key : PrivateKey) × (public_key : PublicKey) × (staged_key crate original passphrase
            private_text
          ≡ ok key)
        × (parse_public public_text ≡ ok public_key)
        × (verified_pair crate original new_comment key public_key ≡ ok tt)

    module _ (aux : AuxPaths) where
      pub stage-Keeps :
          (updated : Updated crate) (q : Text)
          → aux.private_temporary ≢ q
          → aux.public_temporary ≢ q
          → Keeps q (stage os crate aux updated)
      unfolding stage
      stage-Keeps updated q h k =
          Keeps-and_then q
            (write_key_comment_file os aux.private_temporary updated.updated_private
              (codes "private"))
            _
            (write_key_comment_file-Keeps aux.private_temporary updated.updated_private
              (codes "private") q h)
            (λ _.
              write_key_comment_file-Keeps aux.public_temporary updated.updated_public
                (codes "public") q k)

      pub verify_staged-Keeps :
          (q : Text) → Keeps q (verify_staged os crate aux original passphrase new_comment)
      unfolding verify_staged read_to_string
      verify_staged-Keeps q d = ground arith

      read-same : (p q : Text) (d : Disk) → (read_to_string os p d).0.files q ≡ d.files q
      unfolding read_to_string
      read-same p q d = ground arith

      verify_staged-IsStaged :
          (d : Disk)
          → (verify_staged os crate aux original passphrase new_comment d).1 ≡ ok tt
          → (private_text : Text) × (public_text : Text) × (d.files aux.private_temporary
              ≡ some (utf8 private_text))
            × (d.files aux.public_temporary ≡ some (utf8 public_text))
            × IsStaged private_text public_text
      unfolding verify_staged
      verify_staged-IsStaged d h =
          let context : Text = codes "verify temporary private key failed: " in
          let context' : Text = codes "verify temporary public key failed: " in
          let r : Disk × Result Text Text =
            label context (read_to_string os aux.private_temporary) d in
          let (private_text, found, rest, e) = and_then_steps r _ h in
          let (key, parsed, rest', e') =
            and_then_steps (r.0, staged_key crate original passphrase private_text) _ rest in
          let s : Disk × Result Text Text =
            label context' (read_to_string os aux.public_temporary) r.0 in
          let (public_text, found', rest'', e'') = and_then_steps s _ rest' in
          let (public_key, parsed', same, e3) =
            and_then_steps (s.0, labelled context' (parse_public public_text)) _ rest'' in
          (
            private_text,
            public_text,
            read_to_string-ok os aux.private_temporary d
                (labelled-ok context (read_to_string os aux.private_temporary d).1 found),
            sym (read-same aux.private_temporary aux.public_temporary d)
                ∙ read_to_string-ok os aux.public_temporary r.0
                    (labelled-ok context' (read_to_string os aux.public_temporary r.0).1 found'),
            (
              key,
              public_key,
              parsed,
              labelled-ok context' (parse_public public_text) parsed',
              same,
            ),
          )

  module _ (key_path : Text) (aux : AuxPaths) where
    pub back_up-Keeps :
        (q : Text)
        → aux.private_backup ≢ q
        → aux.public_backup ≢ q
        → Keeps q (back_up os key_path aux)
    unfolding back_up
    back_up-Keeps q h k =
        Keeps-and_then q (copy_key_comment_backup os key_path aux.private_backup (codes "private"))
          _ (copy_key_comment_backup-Keeps key_path aux.private_backup (codes "private") q h)
          (λ _.
            copy_key_comment_backup-Keeps (public_path_of key_path) aux.public_backup
              (codes "public") q k)

    back_up-ok :
        (d : Disk)
        → aux.public_backup ≢ aux.private_backup
        → (back_up os key_path aux d).1 ≡ ok tt
        → (back_up os key_path aux d).0.files aux.private_backup ≡ d.files key_path
    unfolding back_up
    back_up-ok d apart h =
        let r : Disk × Result (Unit {0}) Text =
          copy_key_comment_backup os key_path aux.private_backup (codes "private") d in
        let (u, copied, rest, same) = and_then_steps r _ h in
        ap (λ d. d.files aux.private_backup) same
        ∙ copy_key_comment_backup-Keeps (public_path_of key_path) aux.public_backup (codes "public")
            aux.private_backup apart r.0
        ∙ copy_key_comment_backup-ok key_path aux.private_backup (codes "private") d copied

  module _ (crate : KeyCrate) (original : Original crate) (passphrase new_comment key_path : Text)
      (old_private old_public : Contents) where
    -- What becomes of the two files: both are as they were, or hold texts that were read back.
    abbrev pub IsReplacedPair : Disk × Result (Unit {0}) Text → Type 0
    IsReplacedPair (d, ok u) =
        (private_text : Text) × (public_text : Text) × IsStaged crate original passphrase
          new_comment private_text public_text
        × HasPair key_path d (utf8 private_text) (utf8 public_text)
    IsReplacedPair (d, err e) =
        HasPair key_path d old_private old_public
        ⊎ ((private_text : Text) × (public_text : Text) × IsStaged crate original passphrase
              new_comment private_text public_text
            × (IsUnsynced os key_path (utf8 private_text) (utf8 public_text) d e
                ⊎ IsTorn key_path (utf8 private_text) old_public d e))

    module _ (aux : AuxPaths) (x : IsApart key_path aux) (updated : Updated crate) where
      settled :
          (private_text public_text : Text)
          → IsStaged crate original passphrase new_comment private_text public_text
          → (r : Disk × Result (Unit {0}) Text)
          → IsSettled os key_path aux old_private old_public
              (utf8 private_text)
              (utf8 public_text)
              r
          → IsReplacedPair r
      settled private_text public_text s (d, ok u) h = (private_text, public_text, s, h)
      settled private_text public_text s (d, err e) (inl h) = inl h
      settled private_text public_text s (d, err e) (inr h) = inr (private_text, public_text, s, h)

      abbrev rest : Disk → Disk × Result (Unit {0}) Text
      rest d = and_then (back_up os key_path aux d) (λ _. commit_pair os key_path aux)

      backed_up :
          (private_text public_text : Text) (d : Disk)
          → IsStaged crate original passphrase new_comment private_text public_text
          → HasPair key_path d old_private old_public
          → d.files aux.private_temporary ≡ some (utf8 private_text)
          → d.files aux.public_temporary ≡ some (utf8 public_text)
          → IsReplacedPair (rest d)
      backed_up private_text public_text d s h staged staged' =
          let r : Disk × Result (Unit {0}) Text = back_up os key_path aux d in
          let kept : HasPair key_path r.0 old_private old_public = (
            back_up-Keeps key_path aux key_path x.private_backup_private x.public_backup_private d
                ∙ h.0,
            back_up-Keeps key_path aux (public_path_of key_path) x.private_backup_public
                  x.public_backup_public d
                ∙ h.1,
          ) in
          and_then_rule IsReplacedPair r (λ _. commit_pair os key_path aux) (λ e k. inl kept)
            (λ u k. settled private_text public_text s (commit_pair os key_path aux r.0) (
              commit_pair-IsSettled os key_path aux old_private old_public (utf8 private_text)
                (utf8 public_text) x r.0 kept
                (back_up-Keeps key_path aux aux.private_temporary x.private_temporary_backup
                    x.private_temporary_backup' d
                  ∙ staged)
                (back_up-Keeps key_path aux aux.public_temporary x.public_temporary_backup
                    x.public_temporary_backup' d
                  ∙ staged')
                (back_up-ok key_path aux d x.backups k ∙ h.0)))

      pub replace_pair-IsReplacedPair :
          (d : Disk)
          → HasPair key_path d old_private old_public
          → IsReplacedPair
              (replace_pair os crate key_path aux original updated passphrase new_comment d)
      unfolding replace_pair
      replace_pair-IsReplacedPair d h =
          let r : Disk × Result (Unit {0}) Text = stage os crate aux updated d in
          let kept : HasPair key_path r.0 old_private old_public = (
            stage-Keeps crate original passphrase new_comment aux updated key_path
                  x.private_temporary_private x.public_temporary_private d
                ∙ h.0,
            stage-Keeps crate original passphrase new_comment aux updated (public_path_of key_path)
                  x.private_temporary_public x.public_temporary_public d
                ∙ h.1,
          ) in
          let v : Disk × Result (Unit {0}) Text =
            verify_staged os crate aux original passphrase new_comment r.0 in
          let same : (q : Text) → v.0.files q ≡ r.0.files q =
            λ q. verify_staged-Keeps crate original passphrase new_comment aux q r.0 in
          let kept' : HasPair key_path v.0 old_private old_public =
            (same key_path ∙ kept.0, same (public_path_of key_path) ∙ kept.1) in
          and_then_rule IsReplacedPair r
            (λ _ d.
              and_then (verify_staged os crate aux original passphrase new_comment d) (λ _. rest))
            (λ e k. inl kept)
            (λ u k.
              and_then_rule IsReplacedPair v (λ _. rest) (λ e l. inl kept')
                (λ w l.
                  let (private_text, public_text, a, b, s) =
                    verify_staged-IsStaged crate original passphrase new_comment aux r.0 l in
                  backed_up private_text public_text v.0 s kept' (same aux.private_temporary ∙ a)
                    (same aux.public_temporary ∙ b)))
