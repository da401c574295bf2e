-- ===== src/Keys/Commented.antt =====
-- `change_key_comment` of leantty_ssh/leantty-ssh-core/src/keygen.rs as a whole.
use leantty.Prelude.{ℕ, true, Option, none, ◌≡◌, ◌≢◌, ◌⊎◌, Text, Result, ok, err}
use leantty.Keys.Disk.{Contents, utf8, Disk, Failure}
use leantty.Keys.Crate.{KeyCrate}
use leantty.Keys.Comment.{public_path_of, Original, read_original, is_commented}
use leantty.Keys.PairStates.{HasPair, IsUnsynced, IsTorn}
use leantty.Keys.Staged.{IsStaged}

module _ (os : ℕ → Option Failure) (crate : KeyCrate) (d : Disk)
    (key_path passphrase new_comment : Text) where
  -- No file that was there has changed, but for the two key files.
  abbrev pub SparesRest : Disk × Result Text Text → Type 0
  SparesRest r =
      (q : Text)
      → d.files q ≢ none
      → key_path ≢ q
      → public_path_of key_path ≢ q
      → r.0.files q ≡ d.files q

  module _ (old_private old_public : Contents) (original : Original crate) where
    -- What a change leaves once both files were read and belong together.
    abbrev pub IsUpdated : Disk × Result Text Text → Type 0
    IsUpdated (d', ok old_comment) =
        (old_comment ≡ original.old_comment)
        × ((is_commented crate original new_comment ≡ true)
              × HasPair key_path d' old_private old_public
            ⊎ ((private_text : Text) × (public_text : Text) × IsStaged os crate original passphrase
                  new_comment private_text public_text
                × HasPair key_path d' (utf8 private_text) (utf8 public_text)))
    IsUpdated (d', err e) =
        HasPair key_path d' old_private old_public
        ⊎ ((private_text : Text) × (public_text : Text) × IsStaged os crate original passphrase
              new_comment private_text public_text
            × (IsUnsynced os key_path (utf8 private_text) (utf8 public_text) d' e
                ⊎ IsTorn key_path (utf8 private_text) old_public d' e))

  -- Success: both files were read, belong together and were updated. Failure: the files are as they were, or
  -- they were read and the update failed.
  abbrev pub IsCommented : Disk × Result Text Text → Type 0
  IsCommented r =
      ((e : Text) × (r.1 ≡ err e) × ((q : Text) → r.0.files q ≡ d.files q))
      ⊎ ((old_private : Contents) × (old_public : Contents) × (original : Original crate) × HasPair
            key_path d old_private old_public
          × (read_original crate old_private old_public passphrase ≡ ok original)
          × IsUpdated old_private old_public original r)

  abbrev Goal : Disk × Result Text Text → Type 0
  Goal r = IsCommented r × SparesRest r
