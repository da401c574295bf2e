-- ===== src/Keys/Tests.antt =====
-- Runs of the key file operations of leantty_ssh/leantty-ssh-core/src/keygen.rs, with a toy format: a key and
-- its passphrase, with a colon between them.
use leantty.Prelude.{
  ℕ, ◌==◌, Bool, true, false, not, List, [], ◌∷◌, ◌++◌, Option, none, some, if◌then◌else◌, is_empty,
  ◌≡◌, refl, Text, codes, text_eq, split, starts_with, strip_suffix, Result, ok, err,
}
use leantty.Prelude.Decimal.{to_string}
use leantty.Transfer.{rsplit_slash}
use leantty.Keys.Disk.{
  utf8, Disk, Failure, read_to_string, create_new, write_all, touch, rename, remove_file, copy,
}
use leantty.Keys.Crate.{KeyCrate}
use leantty.Keys.Paths.{
  parent_of, file_name_of, ends_in_slash, join_path, find_free, free_path,
  create_passphrase_temporary_path,
}
use leantty.Keys.Names.{ends_with, contains, is_dots, validate_export_file_name}
use leantty.Keys.Passphrase.{
  sync_parent_directory, encoded_key, write_temporary, verify_temporary, replace_key,
  write_and_replace, change_private_key_passphrase,
}
use leantty.Keys.Changed.{IsChanged, SparesOthers, change_private_key_passphrase-IsChanged}
use leantty.Keys.Pairs.{
  copy_pair, export_to, export_key_pair, chosen_name, write_private, write_public, write_pair,
  generate_key_pair,
}
use leantty.Keys.Generated.{IsGenerated, generate_key_pair-IsGenerated}
use leantty.Keys.Exported.{IsExported, export_key_pair-IsExported}

abbrev read_pair : List Text → Result (Text × Text) Text
read_pair (a ∷ b ∷ []) = ok (a, b)
read_pair _ = err (codes "no key")

abbrev unlocked : Bool → Text → Result (Text × Text) Text
unlocked true a = ok (a, [])
unlocked false a = err (codes "no")

abbrev toy : KeyCrate
toy = record {
  PrivateKey = Text × Text;
  PublicKey = Text;
  KeyData = Text;
  parse_private = λ t. read_pair (split b':' t);
  is_encrypted = λ k. not (is_empty k.1);
  decrypt = λ k p. unlocked (text_eq k.1 p) k.0;
  encrypt = λ k p. ok (k.0, p);
  to_openssh = λ k. ok (k.0 ++ (b':' ∷ k.1));
  fingerprint = λ k. k.0;
  comment = λ k. some [];
  set_comment = λ k c. k;
  public_key = λ k. k.0;
  parse_public = λ t. ok t;
  public_to_string = λ k. k;
  public_comment = λ k. some [];
  key_data = λ k. k;
  algorithm_name = λ k. codes "ssh-ed25519";
  public_fingerprint = λ k. k;
  same_key_data = text_eq;
  random = λ rsa. ok (codes "fresh", []);
}

abbrev works : ℕ → Option Failure
works n = none

-- The call with the number `n` fails.
abbrev fails_at : ℕ → Text → ℕ → Option Failure
fails_at n reason m =
    if m == n then some (record { message = reason; leaves = some (utf8 []) }) else none

abbrev key_path : Text
key_path = codes "d/k"

abbrev disk : Disk
disk = record {
  files = λ p. if text_eq p key_path then some (utf8 (codes "abc:old")) else none;
  calls = 0;
}

change_run :
    (change_private_key_passphrase works toy 9 key_path (codes "old") (codes "new") disk).0.files
      key_path
    ≡ some (utf8 (codes "abc:new"))
unfolding change_private_key_passphrase create_passphrase_temporary_path free_path parent_of
    file_name_of find_free join_path ends_in_slash rsplit_slash to_string write_and_replace
    write_temporary verify_temporary replace_key sync_parent_directory encoded_key read_to_string
    create_new write_all touch rename remove_file text_eq split
change_run = refl

-- The rename fails, and the old key stays.
broken_run :
    (change_private_key_passphrase
        (fails_at 6 (codes "full"))
        toy
        9
        key_path
        (codes "old")
        (codes "new")
        disk).0.files
      key_path
    ≡ some (utf8 (codes "abc:old"))
unfolding change_private_key_passphrase create_passphrase_temporary_path free_path parent_of
    file_name_of find_free join_path ends_in_slash rsplit_slash to_string write_and_replace
    write_temporary verify_temporary replace_key sync_parent_directory encoded_key read_to_string
    create_new write_all touch rename remove_file text_eq split
broken_run = refl

generate_run :
    (generate_key_pair toy works (codes "ED25519") (codes "d") [] [] [] disk).0.files
      (codes "d/id_ed25519.pub")
    ≡ some (utf8 (codes "fresh"))
unfolding generate_key_pair chosen_name contains starts_with write_pair write_private write_public
    create_new write_all touch remove_file text_eq
generate_run = refl

export_run :
    (export_key_pair works true key_path key_path (codes "out") (codes "mine") disk).0.files
      (codes "out/mine")
    ≡ some (utf8 (codes "abc:old"))
unfolding export_key_pair export_to copy_pair validate_export_file_name is_dots ends_with
    strip_suffix join_path ends_in_slash create_new touch copy remove_file text_eq
export_run = refl

change_private_key_passphrase-IsChanged_example :
    let r =
      change_private_key_passphrase
        (fails_at 6 (codes "full"))
        toy
        9
        key_path
        (codes "old")
        (codes "new")
        disk in
    IsChanged (fails_at 6 (codes "full")) toy disk key_path (codes "old") (codes "new") r
    × SparesOthers (fails_at 6 (codes "full")) toy disk key_path (codes "old") (codes "new") r
change_private_key_passphrase-IsChanged_example =
    change_private_key_passphrase-IsChanged (fails_at 6 (codes "full")) toy 9 disk key_path
      (codes "old") (codes "new")

generate_key_pair-IsGenerated_example :
    IsGenerated toy
      (codes "ED25519")
      (codes "d")
      []
      []
      []
      disk
      (generate_key_pair toy works (codes "ED25519") (codes "d") [] [] [] disk)
generate_key_pair-IsGenerated_example =
    generate_key_pair-IsGenerated toy works (codes "ED25519") (codes "d") [] [] [] disk

export_key_pair-IsExported_example :
    IsExported works key_path key_path
      (codes "out")
      (codes "mine")
      disk
      (export_key_pair works true key_path key_path (codes "out") (codes "mine") disk)
export_key_pair-IsExported_example =
    export_key_pair-IsExported works true key_path key_path (codes "out") (codes "mine") disk
