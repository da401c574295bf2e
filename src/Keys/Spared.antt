-- ===== src/Keys/Spared.antt =====
-- The files that `change_key_comment` of leantty_ssh/leantty-ssh-core/src/keygen.rs leaves alone.
use leantty.Prelude.{ℕ, Option, ◌≡◌, ◌≢◌, refl, ◌∙◌, arith, Text, codes, Result, ok, err}
use leantty.Keys.Disk.{Disk, Failure, label, rename, remove_file, touch}
use leantty.Keys.Frame.{Keeps, Keeps-and_then, rename-Keeps, remove_file-Keeps}
use leantty.Keys.Crate.{KeyCrate}
use leantty.Keys.Passphrase.{sync_parent_directory}
use leantty.Keys.Comment.{AuxPaths, public_path_of, Original, Updated}
use leantty.Keys.Transaction.{
  replace, rolled_back, restored, drop_backups, commit_pair, back_up, stage, verify_staged,
  replace_pair, remove_auxiliary, tidied,
}
use leantty.Keys.Staged.{stage-Keeps, verify_staged-Keeps, back_up-Keeps}

module _ (os : ℕ → Option Failure) (key_path : Text) (aux : AuxPaths) (q : Text)
    (a : aux.private_temporary ≢ q) (b : aux.public_temporary ≢ q) (c : aux.private_backup ≢ q)
    (e : aux.public_backup ≢ q) where
  remove_auxiliary-Keeps : Keeps q (remove_auxiliary os aux)
  unfolding remove_auxiliary
  remove_auxiliary-Keeps d =
      let d1 = (remove_file os aux.private_temporary d).0 in
      let d2 = (remove_file os aux.public_temporary d1).0 in
      let d3 = (remove_file os aux.private_backup d2).0 in
      remove_file-Keeps q os aux.public_backup e d3
      ∙ remove_file-Keeps q os aux.private_backup c d2
      ∙ remove_file-Keeps q os aux.public_temporary b d1
      ∙ remove_file-Keeps q os aux.private_temporary a d

  pub tidied-files :
      (old_comment : Text) (r : Disk × Result (Unit {0}) Text)
      → (tidied os aux old_comment r).0.files q ≡ r.0.files q
  tidied-files old_comment (d, ok u) = remove_auxiliary-Keeps d
  tidied-files old_comment (d, err m) = remove_auxiliary-Keeps d

  module _ (k : key_path ≢ q) (k' : public_path_of key_path ≢ q) where
    restored-files :
        (m : Text) (r : Disk × Result (Unit {0}) Text) → (restored os m r).0.files q ≡ r.0.files q
    restored-files m (d, ok u) = refl
    restored-files m (d, err n) = refl

    rolled_back-files :
        (r : Disk × Result (Unit {0}) Text)
        → (rolled_back os aux.private_backup key_path r).0.files q ≡ r.0.files q
    rolled_back-files (d, ok u) = refl
    rolled_back-files (d, err m) =
        restored-files m
          (label (codes "restore private key failed: ") (rename os aux.private_backup key_path) d)
        ∙ rename-Keeps q os aux.private_backup key_path c k d

    dropped-Keeps : Keeps q (drop_backups os aux)
    unfolding drop_backups
    dropped-Keeps d =
        remove_file-Keeps q os aux.public_backup e (remove_file os aux.private_backup d).0
        ∙ remove_file-Keeps q os aux.private_backup c d

    synced-Keeps : Keeps q (sync_parent_directory os key_path)
    unfolding sync_parent_directory touch
    synced-Keeps d = ground arith

    commit_pair-Keeps : Keeps q (commit_pair os key_path aux)
    unfolding commit_pair
    commit_pair-Keeps =
        Keeps-and_then q (replace os aux.private_temporary key_path) _
          (rename-Keeps q os aux.private_temporary key_path a k)
          (λ _.
            Keeps-and_then q
              (λ d.
                rolled_back os aux.private_backup key_path
                  (replace os aux.public_temporary (public_path_of key_path) d))
              _
              (λ d.
                rolled_back-files (replace os aux.public_temporary (public_path_of key_path) d)
                ∙ rename-Keeps q os aux.public_temporary (public_path_of key_path) b k' d)
              (λ _. Keeps-and_then q (drop_backups os aux) _ dropped-Keeps (λ _. synced-Keeps)))

    pub replace_pair-Keeps :
        (crate : KeyCrate) (original : Original crate) (updated : Updated crate)
        (passphrase new_comment : Text)
        → Keeps q (replace_pair os crate key_path aux original updated passphrase new_comment)
    unfolding replace_pair
    replace_pair-Keeps crate original updated passphrase new_comment =
        Keeps-and_then q (stage os crate aux updated) _
          (stage-Keeps os crate original passphrase new_comment aux updated q a b)
          (λ _.
            Keeps-and_then q (verify_staged os crate aux original passphrase new_comment) _
              (verify_staged-Keeps os crate original passphrase new_comment aux q)
              (λ _.
                Keeps-and_then q (back_up os key_path aux) _ (back_up-Keeps os key_path aux q c e)
                  (λ _. commit_pair-Keeps)))
