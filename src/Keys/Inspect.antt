-- ===== src/Keys/Inspect.antt =====
-- The calls of leantty_ssh/leantty-ssh-core/src/keygen.rs that only look at a key, or change its mode.
use leantty.Prelude.{
  ℕ, Bool, ◌++◌, List, [], ◌∷◌, Option, none, some, if◌then◌else◌, is_empty, any, Text, codes,
  text_eq, arith, ok, ok_or, guard,
}
use leantty.Keys.Disk.{Failure, Io, ◌>>=◌, ◌>>◌, pure, labelled, label, read_to_string, touch}
use leantty.Keys.Frame.{Keeps}
use leantty.Keys.Crate.{KeyCrate, unlock, read_private_key}

abbrev supported_algorithms : List Text
supported_algorithms =
    codes "ssh-ed25519"
    ∷ codes "ssh-rsa"
    ∷ codes "ecdsa-sha2-nistp256"
    ∷ codes "ecdsa-sha2-nistp384"
    ∷ codes "ecdsa-sha2-nistp521"
    ∷ []

pub record KeyInspection : Type 0 where
  pub algorithm : Text
  pub public_key : Text
  pub fingerprint : Text
  pub encrypted : Bool

-- The crate's own reading of a key file is any function.
unfoldable load_private_key : {K : Type 0} → (Text → Option Text → Io K) → Text → Text → Io K
load_private_key load_secret_key key_path passphrase =
    label (codes "Cannot load key: ")
      (load_secret_key key_path (if is_empty passphrase then none else some passphrase))

module _ (os : ℕ → Option Failure) where
  unfoldable protect_private_key : Io (Unit {0})
  protect_private_key = label (codes "chmod private key failed: ") (touch os)

  module _ (crate : KeyCrate) where
    open crate use {
      PrivateKey, is_encrypted, fingerprint, comment, public_key, parse_public, public_to_string,
      algorithm_name, public_fingerprint,
    }

    abbrev inspection : PrivateKey → KeyInspection
    inspection key = record {
      algorithm = algorithm_name (public_key key);
      public_key = public_to_string (public_key key);
      fingerprint = fingerprint key;
      encrypted = is_encrypted key;
    }

    unfoldable inspect_private_key : Text → Io KeyInspection
    inspect_private_key key_path = do
      key ← read_private_key crate os key_path
      pure (
          guard (any (text_eq (algorithm_name (public_key key))) supported_algorithms)
            (codes "unsupported private key type: " ++ algorithm_name (public_key key)))
      pure (ok (inspection key))

    unfoldable read_key_comment : Text → Text → Io Text
    read_key_comment key_path passphrase = do
      parsed ← read_private_key crate os key_path
      key ← pure (unlock crate parsed passphrase (codes "passphrase is incorrect"))
      pure (ok_or (comment key) (codes "private key comment is not valid UTF-8"))

    unfoldable read_public_key_fingerprint : Text → Io Text
    read_public_key_fingerprint key_path = do
      content ← label (codes "read failed: ") (read_to_string os key_path)
      key ← pure (labelled (codes "parse public key failed: ") (parse_public content))
      pure (ok (public_fingerprint key))

    -- None of them changes a file.
    inspect_private_key-Keeps : (key_path q : Text) → Keeps q (inspect_private_key key_path)
    unfolding inspect_private_key read_to_string
    inspect_private_key-Keeps key_path q d = ground arith

    read_key_comment-Keeps :
        (key_path passphrase q : Text) → Keeps q (read_key_comment key_path passphrase)
    unfolding read_key_comment read_to_string
    read_key_comment-Keeps key_path passphrase q d = ground arith

    read_public_key_fingerprint-Keeps :
        (key_path q : Text) → Keeps q (read_public_key_fingerprint key_path)
    unfolding read_public_key_fingerprint read_to_string
    read_public_key_fingerprint-Keeps key_path q d = ground arith
