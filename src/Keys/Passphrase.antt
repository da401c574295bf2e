-- ===== src/Keys/Passphrase.antt =====
-- `change_private_key_passphrase` of leantty_ssh/leantty-ssh-core/src/keygen.rs: a key is written anew to a
-- temporary file, read back, and renamed over the old one.
use leantty.Prelude.{
  ℕ, Bool, true, false, ◌&&◌, Option, none, some, if◌then◌else◌, is_empty, Text, codes, text_eq,
  Result, ok, err,
}
use leantty.Keys.Disk.{
  Disk, Failure, Io, ◌>>=◌, ◌>>◌, pure, labelled, label, caught, read_to_string, create_new,
  write_all, touch, rename, remove_file,
}
use leantty.Keys.Crate.{KeyCrate, unlock, reopen, read_private_key}
use leantty.Keys.Paths.{parent_of, create_passphrase_temporary_path}

abbrev pub no_parent : Text
no_parent = codes "private key path has no parent directory"

module _ (crate : KeyCrate) where
  open crate use {PrivateKey, encrypt, to_openssh, fingerprint, public_key, public_to_string}

  abbrev pub same_identity : PrivateKey → PrivateKey → Bool
  same_identity a b =
      text_eq (fingerprint a) (fingerprint b)
      && text_eq (public_to_string (public_key a)) (public_to_string (public_key b))

  abbrev pub stored_key : PrivateKey → Text → Result PrivateKey Text
  stored_key k new_passphrase =
      if is_empty new_passphrase
      then ok k
      else labelled (codes "key encryption failed: ") (encrypt k new_passphrase)

  -- The text that is to be written.
  unfoldable pub encoded_key : PrivateKey → Text → Io Text
  encoded_key k new_passphrase = do
    stored ← pure (stored_key k new_passphrase)
    pure (labelled (codes "private key encoding failed: ") (to_openssh stored))

abbrev pub guarded : Bool → Io (Unit {0})
guarded true = pure (ok tt)
guarded false = pure (err (codes "temporary private key changed key identity or comment"))

module _ (os : ℕ → Option Failure) where
  abbrev synced : Option Text → Io (Unit {0})
  synced none = pure (err no_parent)
  synced (some parent) = label (codes "sync private key directory failed: ") (do touch os; touch os)

  unfoldable pub sync_parent_directory : Text → Io (Unit {0})
  sync_parent_directory target_path = synced (parent_of target_path)

  -- The file is removed again if what was done with it failed.
  abbrev pub clean_up : Text → Disk × Result (Unit {0}) Text → Disk × Result (Unit {0}) Text
  clean_up temporary_path (d, ok u) = (d, ok u)
  clean_up temporary_path (d, err e) =
      let (d', removed) = remove_file os temporary_path d in (d', err e)

  unfoldable pub write_temporary : Text → Text → Io (Unit {0})
  write_temporary temporary_path encoded = do
    label (codes "create temporary private key failed: ") (create_new os temporary_path)
    label (codes "write temporary private key failed: ") (write_all os temporary_path encoded)
    label (codes "flush temporary private key failed: ") (touch os)
    label (codes "sync temporary private key failed: ") (touch os)

  unfoldable pub replace_key : Text → Text → Io (Unit {0})
  replace_key temporary_path target_path = do
    label (codes "replace private key failed: ") (rename os temporary_path target_path)
    synced ← caught (sync_parent_directory target_path)
    pure (ok tt)

  module _ (crate : KeyCrate) where
    open crate use {PrivateKey, parse_private}

    unfoldable pub verify_temporary : Text → PrivateKey → Text → Io (Unit {0})
    verify_temporary temporary_path original new_passphrase = do
      written ←
          label (codes "verify temporary private key failed: ") (read_to_string os temporary_path)
      key ← pure (labelled (codes "verify temporary private key failed: ") (parse_private written))
      verified ←
          pure (reopen crate key new_passphrase (codes "verify temporary private key failed: "))
      guarded (same_identity crate verified original)

    unfoldable pub write_and_replace : Text → Text → PrivateKey → Text → Text → Io (Unit {0})
    write_and_replace temporary_path target_path original new_passphrase encoded = do
      write_temporary temporary_path encoded
      verify_temporary temporary_path original new_passphrase
      replace_key temporary_path target_path

    abbrev pub old_key : Text → Text → Io PrivateKey
    old_key key_path old_passphrase = do
      parsed ← read_private_key crate os key_path
      pure (unlock crate parsed old_passphrase (codes "old passphrase is incorrect"))

    unfoldable pub change_private_key_passphrase : ℕ → Text → Text → Text → Io (Unit {0})
    change_private_key_passphrase pid key_path old_passphrase new_passphrase = do
      original ← old_key key_path old_passphrase
      encoded ← encoded_key crate original new_passphrase
      temporary_path ← create_passphrase_temporary_path pid key_path
      λ d.
          clean_up temporary_path
            (write_and_replace temporary_path key_path original new_passphrase encoded d)
