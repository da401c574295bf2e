-- ===== src/Keys/Crate.antt =====
-- What leantty_ssh/leantty-ssh-core/src/keygen.rs uses of the key crates, any functions, and how it unlocks
-- a key.
use leantty.Prelude.{ℕ, Bool, Option, if◌then◌else◌, is_empty, Text, codes, Result, ok, err}
use leantty.Keys.Disk.{Failure, Io, ◌>>=◌, pure, labelled, label, read_to_string}

pub record KeyCrate : Type 1 where
  pub PrivateKey : Type 0
  pub PublicKey : Type 0
  pub KeyData : Type 0
  pub parse_private : Text → Result PrivateKey Text  -- PrivateKey::from_openssh
  pub is_encrypted : PrivateKey → Bool
  pub decrypt : PrivateKey → Text → Result PrivateKey Text
  pub encrypt : PrivateKey → Text → Result PrivateKey Text
  pub to_openssh : PrivateKey → Result Text Text
  pub fingerprint : PrivateKey → Text
  pub comment : PrivateKey → Option Text
  pub set_comment : PrivateKey → Text → PrivateKey
  pub public_key : PrivateKey → PublicKey
  pub parse_public : Text → Result PublicKey Text  -- PublicKey::from_openssh
  pub public_to_string : PublicKey → Text
  pub public_comment : PublicKey → Option Text
  pub key_data : PublicKey → KeyData
  pub algorithm_name : PublicKey → Text
  pub public_fingerprint : PublicKey → Text
  pub same_key_data : KeyData → KeyData → Bool
  pub random : Bool → Result PrivateKey Text  -- of an RSA key, or of an Ed25519 key

module _ (crate : KeyCrate) where
  open crate use {PrivateKey, parse_private, is_encrypted, decrypt}

  abbrev or_else : Result PrivateKey Text → Text → Result PrivateKey Text
  or_else (ok k) wrong = ok k
  or_else (err e) wrong = err wrong

  -- A passphrase is wanted exactly for an encrypted key.
  abbrev pub unlock : PrivateKey → Text → Text → Result PrivateKey Text
  unlock k passphrase wrong =
      if is_encrypted k
      then or_else (decrypt k passphrase) wrong
      else if is_empty passphrase
      then ok k
      else err wrong

  -- A key that was written is read back: it is decrypted if it is encrypted.
  abbrev pub reopen : PrivateKey → Text → Text → Result PrivateKey Text
  reopen k passphrase context =
      if is_encrypted k then labelled context (decrypt k passphrase) else ok k

  abbrev pub read_private_key : (ℕ → Option Failure) → Text → Io PrivateKey
  read_private_key os key_path = do
    content ← label (codes "read private key failed: ") (read_to_string os key_path)
    pure (labelled (codes "parse private key failed: ") (parse_private content))
