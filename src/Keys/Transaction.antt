-- ===== src/Keys/Transaction.antt =====
-- `change_key_comment` of leantty_ssh/leantty-ssh-core/src/keygen.rs: the two files are staged, read back, backed up
-- and replaced, and the private one is restored if the public one cannot be replaced.
use leantty.Prelude.{ℕ, ◌++◌, Option, if◌then◌else◌, Text, codes, Result, ok, err}
use leantty.Keys.Disk.{
  Disk, Failure, Io, ◌>>=◌, ◌>>◌, pure, labelled, label, caught, read, read_to_string, create_new,
  write_all, touch, rename, remove_file, copy,
}
use leantty.Keys.Names.{validate_key_comment}
use leantty.Keys.Crate.{KeyCrate}
use leantty.Keys.Passphrase.{sync_parent_directory}
use leantty.Keys.Comment.{
  AuxPaths, public_path_of, auxiliary_paths, Original, read_original, is_commented, Updated,
  updated_pair, staged_key, verified_pair,
}

module _ (os : ℕ → Option Failure) where
  unfoldable pub write_key_comment_file : Text → Text → Text → Io (Unit {0})
  write_key_comment_file path contents role = do
    label (codes "create temporary " ++ (role ++ codes " key failed: ")) (create_new os path)
    label (codes "write temporary " ++ (role ++ codes " key failed: ")) (write_all os path contents)
    label (codes "flush temporary " ++ (role ++ codes " key failed: ")) (touch os)
    label (codes "sync temporary " ++ (role ++ codes " key failed: ")) (touch os)

  unfoldable pub copy_key_comment_backup : Text → Text → Text → Io (Unit {0})
  copy_key_comment_backup source backup role = do
    label (codes "backup " ++ (role ++ codes " key failed: ")) (copy os source backup)
    label (codes "sync " ++ (role ++ codes " key backup failed: ")) (do touch os; touch os)

  abbrev pub replace : Text → Text → Io (Unit {0})
  replace temporary_path target_path =
      label (codes "replace key file failed: ") (rename os temporary_path target_path)

  abbrev pub restored : Text → Disk × Result (Unit {0}) Text → Disk × Result (Unit {0}) Text
  restored commit_error (d, ok u) = (d, err commit_error)
  restored commit_error (d, err rollback_error) =
      (d, err (commit_error ++ (codes "; " ++ rollback_error)))

  -- The private file is put back if the public one was not replaced.
  abbrev pub rolled_back :
      Text → Text → Disk × Result (Unit {0}) Text → Disk × Result (Unit {0}) Text
  rolled_back private_backup private_path (d, ok u) = (d, ok u)
  rolled_back private_backup private_path (d, err commit_error) =
      restored commit_error
        (label (codes "restore private key failed: ") (rename os private_backup private_path) d)

  unfoldable pub drop_backups : AuxPaths → Io (Unit {0})
  drop_backups aux = do
    ignored ← caught (remove_file os aux.private_backup)
    ignored ← caught (remove_file os aux.public_backup)
    pure (ok tt)

  unfoldable pub commit_pair : Text → AuxPaths → Io (Unit {0})
  commit_pair key_path aux = do
    replace aux.private_temporary key_path
    λ d.
        rolled_back aux.private_backup key_path
          (replace aux.public_temporary (public_path_of key_path) d)
    drop_backups aux
    sync_parent_directory os key_path

  unfoldable pub back_up : Text → AuxPaths → Io (Unit {0})
  back_up key_path aux = do
    copy_key_comment_backup key_path aux.private_backup (codes "private")
    copy_key_comment_backup (public_path_of key_path) aux.public_backup (codes "public")

  unfoldable pub remove_auxiliary : AuxPaths → Io (Unit {0})
  remove_auxiliary aux = do
    ignored ← caught (remove_file os aux.private_temporary)
    ignored ← caught (remove_file os aux.public_temporary)
    ignored ← caught (remove_file os aux.private_backup)
    ignored ← caught (remove_file os aux.public_backup)
    pure (ok tt)

  -- The auxiliary files are removed whatever the result is, which is then returned.
  abbrev pub tidied : AuxPaths → Text → Disk × Result (Unit {0}) Text → Disk × Result Text Text
  tidied aux old_comment (d, ok u) = ((remove_auxiliary aux d).0, ok old_comment)
  tidied aux old_comment (d, err e) = ((remove_auxiliary aux d).0, err e)

  module _ (crate : KeyCrate) where
    open crate use {parse_public}

    unfoldable pub stage : AuxPaths → Updated crate → Io (Unit {0})
    stage aux updated = do
      write_key_comment_file aux.private_temporary updated.updated_private (codes "private")
      write_key_comment_file aux.public_temporary updated.updated_public (codes "public")

    unfoldable pub verify_staged : AuxPaths → Original crate → Text → Text → Io (Unit {0})
    verify_staged aux original passphrase new_comment = do
      private_text ←
          label (codes "verify temporary private key failed: ")
            (read_to_string os aux.private_temporary)
      staged_private ← pure (staged_key crate original passphrase private_text)
      public_text ←
          label (codes "verify temporary public key failed: ")
            (read_to_string os aux.public_temporary)
      staged_public ←
          pure (labelled (codes "verify temporary public key failed: ") (parse_public public_text))
      pure (verified_pair crate original new_comment staged_private staged_public)

    unfoldable pub replace_pair :
        Text → AuxPaths → Original crate → Updated crate → Text → Text → Io (Unit {0})
    replace_pair key_path aux original updated passphrase new_comment = do
      stage aux updated
      verify_staged aux original passphrase new_comment
      back_up key_path aux
      commit_pair key_path aux

    unfoldable pub update_pair : ℕ → Text → Original crate → Text → Text → Io Text
    update_pair pid key_path original passphrase new_comment = do
      updated ← pure (updated_pair crate original passphrase new_comment)
      aux ← λ d. (d, auxiliary_paths pid key_path d)
      λ d.
          tidied aux original.old_comment
            (replace_pair key_path aux original updated passphrase new_comment d)

    -- Nothing is written where both files have the comment already.
    abbrev pub commented_or : ℕ → Text → Original crate → Text → Text → Io Text
    commented_or pid key_path original passphrase new_comment =
        if is_commented crate original new_comment
        then pure (ok original.old_comment)
        else update_pair pid key_path original passphrase new_comment

    unfoldable pub change_key_comment : ℕ → Text → Text → Text → Io Text
    change_key_comment pid key_path passphrase new_comment = do
      pure (validate_key_comment new_comment)
      original_private ← label (codes "read private key failed: ") (read os key_path)
      original_public ← label (codes "read public key failed: ") (read os (public_path_of key_path))
      original ← pure (read_original crate original_private original_public passphrase)
      commented_or pid key_path original passphrase new_comment
