-- ===== src/Keys/PairStates.antt =====
-- The states that `change_key_comment` of leantty_ssh/leantty-ssh-core/src/keygen.rs can leave the two key files in.
use leantty.Prelude.{ℕ, Option, some, ◌≡◌, ◌≢◌, ◌++◌, Text, codes, err}
use leantty.Keys.Disk.{Contents, Disk, Failure}
use leantty.Keys.Passphrase.{sync_parent_directory}
use leantty.Keys.Comment.{AuxPaths, public_path_of}

-- What the two key files hold.
abbrev pub HasPair : Text → Disk → Contents → Contents → Type 0
HasPair key_path d private_file public_file =
    (d.files key_path ≡ some private_file) × (d.files (public_path_of key_path) ≡ some public_file)

-- Both files were replaced, and what failed is the last step.
abbrev pub IsUnsynced : (ℕ → Option Failure) → Text → Contents → Contents → Disk → Text → Type 0
IsUnsynced os key_path new_private new_public d e =
    HasPair key_path d new_private new_public
    × (at_end : Disk) × ((sync_parent_directory os key_path at_end).1 ≡ err e)

-- The private file was replaced alone, and the error says that it could not be restored.
abbrev pub IsTorn : Text → Contents → Contents → Disk → Text → Type 0
IsTorn key_path new_private old_public d e =
    HasPair key_path d new_private old_public
    × (commit_error : Text) × (message : Text) × (e
        ≡ commit_error ++ (codes "; " ++ (codes "restore private key failed: " ++ message)))

-- The auxiliary files are none of the key files, and no two of those that matter are the same.
pub record IsApart (key_path : Text) (aux : AuxPaths) : Type 0 where
  pub pair : key_path ≢ public_path_of key_path
  pub private_temporary_private : aux.private_temporary ≢ key_path
  pub private_temporary_public : aux.private_temporary ≢ public_path_of key_path
  pub public_temporary_private : aux.public_temporary ≢ key_path
  pub public_temporary_public : aux.public_temporary ≢ public_path_of key_path
  pub private_backup_private : aux.private_backup ≢ key_path
  pub private_backup_public : aux.private_backup ≢ public_path_of key_path
  pub public_backup_private : aux.public_backup ≢ key_path
  pub public_backup_public : aux.public_backup ≢ public_path_of key_path
  pub temporaries : aux.private_temporary ≢ aux.public_temporary
  pub backups : aux.public_backup ≢ aux.private_backup
  pub private_temporary_backup : aux.private_backup ≢ aux.private_temporary
  pub public_temporary_backup : aux.private_backup ≢ aux.public_temporary
  pub private_temporary_backup' : aux.public_backup ≢ aux.private_temporary
  pub public_temporary_backup' : aux.public_backup ≢ aux.public_temporary
