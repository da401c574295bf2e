-- ===== src/Keys/Pairs.antt =====
-- `export_key_pair` and `generate_key_pair` of leantty_ssh/leantty-ssh-core/src/keygen.rs: two files that did
-- not exist are made.
use leantty.Prelude.{
  ℕ, Bool, not, ◌||◌, ◌∷◌, ◌++◌, Option, if◌then◌else◌, is_empty, Text, codes, Result, ok, err,
  guard,
}
use leantty.Keys.Disk.{
  Disk, Failure, Io, ◌>>=◌, ◌>>◌, pure, labelled, label, caught, exists, create_new, write_all,
  touch, remove_file, copy,
}
use leantty.Keys.Crate.{KeyCrate}
use leantty.Keys.Paths.{join_path}
use leantty.Keys.Names.{validate_key_name, validate_export_file_name, contains, to_ascii_lowercase}

abbrev pub vacant : Text → Text → Text → Io (Unit {0})
vacant a b message d = (d, guard (not (exists d a || exists d b)) message)

module _ (os : ℕ → Option Failure) where
  -- What is done after a failure, before it is returned.
  abbrev pub on_failure :
      Io (Unit {0}) → Text → Disk × Result (Unit {0}) Text → Disk × Result (Unit {0}) Text
  on_failure undo message (d, ok u) = (d, ok u)
  on_failure undo message (d, err e) = let (d', ignored) = undo d in (d', err (message ++ e))

  abbrev pub remove_both : Text → Text → Io (Unit {0})
  remove_both a b = do
    ignored ← caught (remove_file os a)
    ignored ← caught (remove_file os b)
    pure (ok tt)

  unfoldable pub copy_pair : Text → Text → Text → Text → Io (Unit {0})
  copy_pair private_path public_path private_destination public_destination = do
    copy os private_path private_destination
    touch os
    touch os
    copy os public_path public_destination
    touch os
    touch os

  -- `File::open` of a source.
  abbrev pub open_source : Text → Text → Io (Unit {0})
  open_source p message d =
      label message
        (λ d. if exists d p then touch os d else (d, err (codes "No such file or directory"))) d

  -- Once the destinations are known to be free.
  unfoldable pub export_to : Text → Text → Text → Text → Io (Unit {0})
  export_to private_path public_path private_destination public_destination = do
    open_source private_path (codes "open private key failed: ")
    open_source public_path (codes "open public key failed: ")
    label (codes "create export failed: ") (create_new os private_destination)
    λ d.
        on_failure (caught (remove_file os private_destination) >> pure (ok tt))
          (codes "create public export failed: ") (create_new os public_destination d)
    λ d.
        on_failure (remove_both private_destination public_destination)
          (codes "write export failed: ")
          (copy_pair private_path public_path private_destination public_destination d)

  -- `is_dir` says whether the output directory is there.
  unfoldable pub export_key_pair : Bool → Text → Text → Text → Text → Io (Unit {0})
  export_key_pair is_dir private_path public_path output_dir file_name = do
    pure (validate_export_file_name file_name)
    pure (guard is_dir (codes "Downloads directory is unavailable"))
    vacant (join_path output_dir file_name) (join_path output_dir (file_name ++ codes ".pub"))
        (codes "destination already exists: " ++ file_name)
    export_to private_path public_path (join_path output_dir file_name)
        (join_path output_dir (file_name ++ codes ".pub"))

  unfoldable pub write_private : Text → Text → Io (Unit {0})
  write_private priv_path openssh_pem = do
    label (codes "create key failed: ") (create_new os priv_path)
    label (codes "write key failed: ") (write_all os priv_path openssh_pem)
    label (codes "chmod key failed: ") (touch os)

  unfoldable pub write_public : Text → Text → Io (Unit {0})
  write_public pub_path pub_text = do create_new os pub_path; write_all os pub_path pub_text

  unfoldable pub write_pair : Text → Text → Text → Text → Io (Unit {0})
  write_pair priv_path pub_path openssh_pem pub_text = do
    write_private priv_path openssh_pem
    λ d.
        on_failure (caught (remove_file os priv_path) >> pure (ok tt)) (codes "write pub failed: ")
          (write_public pub_path pub_text d)

-- The two paths, `{}/{}` and `{}/{}.pub`.
abbrev pub priv_path_of : Text → Text → Text
priv_path_of output_dir name = output_dir ++ (b'/' ∷ name)

abbrev pub pub_path_of : Text → Text → Text
pub_path_of output_dir name = output_dir ++ (b'/' ∷ (name ++ codes ".pub"))

pub record KeyGenResult : Type 0 where
  pub private_path : Text
  pub public_path : Text
  pub fingerprint : Text

abbrev is_rsa : Text → Bool
is_rsa algorithm = contains (to_ascii_lowercase algorithm) (codes "rsa")

-- The name that is asked for, or `id_` and the algorithm.
unfoldable pub chosen_name : Text → Text → Result Text Text
chosen_name algorithm file_name =
    if is_empty file_name
    then ok (codes "id_" ++ (if is_rsa algorithm then codes "rsa" else codes "ed25519"))
    else elim (validate_key_name file_name) [ ok u ↦ ok file_name | err e ↦ err e ]

module _ (crate : KeyCrate) where
  open crate use {
    PrivateKey, encrypt, to_openssh, fingerprint, set_comment, public_key, public_to_string, random,
  }

  abbrev commented : Text → PrivateKey → PrivateKey
  commented comment k = if is_empty comment then k else set_comment k comment

  abbrev pub new_key : Text → Text → Io PrivateKey
  new_key algorithm comment d = (
    d,
    elim (labelled (codes "key gen failed: ") (random (is_rsa algorithm))) [
      | ok k ↦ ok (commented comment k)
      | err e ↦ err e
    ],
  )

  abbrev pub stored_text : PrivateKey → Text → Result Text Text
  stored_text k passphrase =
      elim (if is_empty passphrase
        then ok k
        else labelled (codes "key encryption failed: ") (encrypt k passphrase)) [
          | ok stored ↦ labelled (codes "pem encode failed: ") (to_openssh stored)
          | err e ↦ err e
        ]

  unfoldable pub generate_key_pair :
      (ℕ → Option Failure) → Text → Text → Text → Text → Text → Io KeyGenResult
  generate_key_pair os algorithm output_dir file_name passphrase comment = do
    name ← pure (chosen_name algorithm file_name)
    keypair ← new_key algorithm comment
    openssh_pem ← pure (stored_text keypair passphrase)
    label (codes "mkdir failed: ") (touch os)
    vacant (priv_path_of output_dir name) (pub_path_of output_dir name)
        (codes "key already exists: " ++ name)
    write_pair os (priv_path_of output_dir name) (pub_path_of output_dir name) openssh_pem
        (public_to_string (public_key keypair))
    pure (
        ok (record {
          private_path = priv_path_of output_dir name;
          public_path = pub_path_of output_dir name;
          fingerprint = fingerprint keypair;
        }))
