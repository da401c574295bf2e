-- ===== src/Keys/CommentTests.antt =====
-- Runs of `change_key_comment` of leantty_ssh/leantty-ssh-core/src/keygen.rs, with a toy format: a key and its comment,
-- with a colon between them, in the private and in the public file.
use leantty.Prelude.{
  ℕ, ◌==◌, false, List, [], ◌∷◌, ◌++◌, Option, none, some, if◌then◌else◌, ◌≡◌, refl, Text, codes,
  text_eq, split, Result, ok, err,
}
use leantty.Prelude.Decimal.{to_string}
use leantty.Transfer.{rsplit_slash}
use leantty.Keys.Disk.{
  utf8, Disk, Failure, read, read_to_string, create_new, write_all, touch, rename, remove_file,
  copy,
}
use leantty.Keys.Crate.{KeyCrate}
use leantty.Keys.Paths.{
  parent_of, file_name_of, ends_in_slash, join_path, find_free, free_path,
  create_key_comment_aux_path,
}
use leantty.Keys.Names.{validate_key_comment}
use leantty.Keys.Passphrase.{sync_parent_directory}
use leantty.Keys.Comment.{auxiliary_paths, read_original, updated_pair, staged_key, verified_pair}
use leantty.Keys.Transaction.{
  write_key_comment_file, copy_key_comment_backup, drop_backups, commit_pair, back_up,
  remove_auxiliary, stage, verify_staged, replace_pair, update_pair, change_key_comment,
}

abbrev read_key : List Text → Result (Text × Text) Text
read_key (a ∷ b ∷ []) = ok (a, b)
read_key _ = err (codes "no key")

abbrev commented_keys : KeyCrate
commented_keys = record {
  PrivateKey = Text × Text;
  PublicKey = Text × Text;
  KeyData = Text;
  parse_private = λ t. read_key (split b':' t);
  is_encrypted = λ k. false;
  decrypt = λ k p. ok k;
  encrypt = λ k p. ok k;
  to_openssh = λ k. ok (k.0 ++ (b':' ∷ k.1));
  fingerprint = λ k. k.0;
  comment = λ k. some k.1;
  set_comment = λ k c. (k.0, c);
  public_key = λ k. k;
  parse_public = λ t. read_key (split b':' t);
  public_to_string = λ k. k.0 ++ (b':' ∷ k.1);
  public_comment = λ k. some k.1;
  key_data = λ k. k.0;
  algorithm_name = λ k. codes "ssh-ed25519";
  public_fingerprint = λ k. k.0;
  same_key_data = text_eq;
  random = λ rsa. err (codes "none");
}

-- The call with the number `n` fails.
abbrev fails_at : ℕ → ℕ → Option Failure
fails_at n m =
    if m == n then some (record { message = codes "full"; leaves = some (utf8 []) }) else none

abbrev pair_disk : Disk
pair_disk = record {
  files = λ p.
      if text_eq p (codes "k")
      then some (utf8 (codes "abc:old"))
      else if text_eq p (codes "k.pub")
      then some (utf8 (codes "abc:old"))
      else none;
  calls = 0;
}

comment_run :
    let r =
      change_key_comment (fails_at 99) commented_keys 9 (codes "k") [] (codes "new") pair_disk in
    (r.0.files (codes "k") ≡ some (utf8 (codes "abc:new")))
    × (r.0.files (codes "k.pub") ≡ some (utf8 (codes "abc:new")))
    × (r.1 ≡ ok (codes "old"))
unfolding change_key_comment validate_key_comment read read_original update_pair updated_pair
    auxiliary_paths create_key_comment_aux_path free_path parent_of file_name_of find_free join_path
    ends_in_slash rsplit_slash to_string replace_pair stage write_key_comment_file verify_staged
    staged_key verified_pair back_up copy_key_comment_backup commit_pair drop_backups
    sync_parent_directory remove_auxiliary read_to_string create_new write_all touch rename
    remove_file copy text_eq split
comment_run = (refl, refl, refl)

-- The public file cannot be replaced, and the private one is restored.
rolled_back_run :
    let r =
      change_key_comment (fails_at 19) commented_keys 9 (codes "k") [] (codes "new") pair_disk in
    (r.0.files (codes "k") ≡ some (utf8 (codes "abc:old")))
    × (r.1 ≡ err (codes "replace key file failed: full"))
unfolding change_key_comment validate_key_comment read read_original update_pair updated_pair
    auxiliary_paths create_key_comment_aux_path free_path parent_of file_name_of find_free join_path
    ends_in_slash rsplit_slash to_string replace_pair stage write_key_comment_file verify_staged
    staged_key verified_pair back_up copy_key_comment_backup commit_pair drop_backups
    sync_parent_directory remove_auxiliary read_to_string create_new write_all touch rename
    remove_file copy text_eq split
rolled_back_run = (refl, refl)
