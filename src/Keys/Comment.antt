-- ===== src/Keys/Comment.antt =====
-- `change_key_comment` of leantty_ssh/leantty-ssh-core/src/keygen.rs: what is made of the texts, before and after
-- anything is written.
use leantty.Prelude.{
  ℕ, Bool, not, ◌&&◌, ◌++◌, if◌then◌else◌, Text, codes, text_eq, Result, ok, ok_or, guard, ◌>>=◌,
  ◌>>◌,
}
use leantty.Keys.Disk.{Contents, Disk, labelled, text_of}
use leantty.Keys.Crate.{KeyCrate, unlock}
use leantty.Keys.Paths.{create_key_comment_aux_path}

-- The paths of the two key files, and of the files that a change makes beside them.
pub record AuxPaths : Type 0 where
  pub private_temporary : Text
  pub public_temporary : Text
  pub private_backup : Text
  pub public_backup : Text

abbrev pub public_path_of : Text → Text
public_path_of key_path = key_path ++ codes ".pub"

unfoldable pub auxiliary_paths : ℕ → Text → Disk → Result AuxPaths Text
auxiliary_paths pid key_path d = do
  a ← (create_key_comment_aux_path pid key_path (codes "private") (codes "tmp") d).1
  b ← (create_key_comment_aux_path pid (public_path_of key_path) (codes "public") (codes "tmp") d).1
  c ← (create_key_comment_aux_path pid key_path (codes "private") (codes "bak") d).1
  e ← (create_key_comment_aux_path pid (public_path_of key_path) (codes "public") (codes "bak") d).1
  ok (record { private_temporary = a; public_temporary = b; private_backup = c; public_backup = e })

module _ (crate : KeyCrate) where
  open crate use {
    PrivateKey, PublicKey, KeyData, parse_private, is_encrypted, decrypt, encrypt, to_openssh,
    fingerprint, comment, set_comment, public_key, parse_public, public_to_string, public_comment,
    key_data, same_key_data,
  }

  -- What is known once both files were read.
  pub record Original : Type 0 where
    pub was_encrypted : Bool
    pub private_key : PrivateKey
    pub old_comment : Text
    pub old_public_comment : Text

  unfoldable pub read_original : Contents → Contents → Text → Result Original Text
  read_original original_private original_public passphrase = do
    private_text ← labelled (codes "parse private key failed: ") (text_of original_private)
    public_text ← labelled (codes "parse public key failed: ") (text_of original_public)
    parsed_private ← labelled (codes "parse private key failed: ") (parse_private private_text)
    key ← unlock crate parsed_private passphrase (codes "passphrase is incorrect")
    parsed_public ← labelled (codes "parse public key failed: ") (parse_public public_text)
    guard (same_key_data (key_data parsed_public) (key_data (public_key key)))
        (codes "private and public key identities do not match")
    old ← ok_or (comment key) (codes "private key comment is not valid UTF-8")
    old_public ←
        ok_or (public_comment parsed_public) (codes "public key comment is not valid UTF-8")
    ok (record {
      was_encrypted = is_encrypted parsed_private;
      private_key = key;
      old_comment = old;
      old_public_comment = old_public;
    })

  abbrev pub is_commented : Original → Text → Bool
  is_commented original new_comment =
      text_eq original.old_comment new_comment && text_eq original.old_public_comment new_comment

  pub record Updated : Type 0 where
    pub updated_private : Text
    pub updated_public : Text

  abbrev commented_key : Original → Text → PrivateKey
  commented_key original new_comment = set_comment original.private_key new_comment

  unfoldable pub updated_pair : Original → Text → Text → Result Updated Text
  updated_pair original passphrase new_comment = do
    stored ←
        if original.was_encrypted
        then labelled (codes "key encryption failed: ")
            (encrypt (commented_key original new_comment) passphrase)
        else ok (commented_key original new_comment)
    encoded ← labelled (codes "private key encoding failed: ") (to_openssh stored)
    ok (record {
      updated_private = encoded;
      updated_public = public_to_string (public_key (commented_key original new_comment));
    })

  abbrev opened : Original → Text → PrivateKey → Result PrivateKey Text
  opened original passphrase parsed =
      if original.was_encrypted
      then labelled (codes "verify temporary private key failed: ") (decrypt parsed passphrase)
      else ok parsed

  -- A staged private key that was read back.
  unfoldable pub staged_key : Original → Text → Text → Result PrivateKey Text
  staged_key original passphrase staged_private_text = do
    parsed ←
        labelled (codes "verify temporary private key failed: ") (parse_private staged_private_text)
    guard (if original.was_encrypted then is_encrypted parsed else not (is_encrypted parsed))
        (codes "temporary private key changed encryption state")
    opened original passphrase parsed

  abbrev pub original_data : Original → KeyData
  original_data original = key_data (public_key original.private_key)

  abbrev pub same_keys : Original → PrivateKey → PublicKey → Bool
  same_keys original staged_private staged_public =
      text_eq (fingerprint staged_private) (fingerprint original.private_key)
      && (same_key_data (key_data (public_key staged_private)) (original_data original)
          && same_key_data (key_data staged_public) (original_data original))

  abbrev pub unverified : Text
  unverified = codes "temporary key pair failed identity or comment verification"

  unfoldable pub verified_pair : Original → Text → PrivateKey → PublicKey → Result (Unit {0}) Text
  verified_pair original new_comment staged_private staged_public = do
    guard (same_keys original staged_private staged_public) unverified
    private_comment ←
        ok_or (comment staged_private) (codes "temporary private key comment is not valid UTF-8")
    guard (text_eq private_comment new_comment) unverified
    staged_comment ←
        ok_or (public_comment staged_public)
          (codes "temporary public key comment is not valid UTF-8")
    guard (text_eq staged_comment new_comment) unverified
