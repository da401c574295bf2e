-- ===== src/Keys/Commit.antt =====
-- The end of `change_key_comment` of leantty_ssh/leantty-ssh-core/src/keygen.rs, once the staged files and the backups
-- are there.
use leantty.Prelude.{
  ℕ, Option, some, ◌≡◌, ◌≢◌, refl, sym, ap, ◌∙◌, ◌++◌, ◌⊎◌, inl, inr, arith, Text, codes,
  text_eq_iff, Result, ok, err,
}
use leantty.Keys.Disk.{
  Contents, Disk, Failure, and_then, labelled, label, rename, remove_file, touch,
}
use leantty.Keys.Frame.{and_then_rule, Keeps, remove_file-Keeps}
use leantty.Keys.Passphrase.{sync_parent_directory}
use leantty.Keys.Comment.{AuxPaths, public_path_of}
use leantty.Keys.Transaction.{replace, rolled_back, restored, drop_backups, commit_pair}
use leantty.Keys.PairStates.{HasPair, IsUnsynced, IsTorn, IsApart}

module _ (os : ℕ → Option Failure) (a b : Text) (d : Disk) where
  renamed_to :
      (c : Contents)
      → d.files a ≡ some c
      → (replace os a b d).1 ≡ ok tt
      → (replace os a b d).0.files b ≡ some c
  unfolding rename
  renamed_to c h k = ground (arith, text_eq_iff b b, text_eq_iff a b)

  renamed_other : (q : Text) → a ≢ q → b ≢ q → (replace os a b d).0.files q ≡ d.files q
  unfolding rename
  renamed_other q h k = ground (arith, text_eq_iff a q, text_eq_iff b q)

  not_renamed :
      (e : Text)
      → (replace os a b d).1 ≡ err e
      → (q : Text) → (replace os a b d).0.files q ≡ d.files q
  unfolding rename
  not_renamed e h q = ground arith

module _ (os : ℕ → Option Failure) (key_path : Text) (aux : AuxPaths)
    (old_private old_public new_private new_public : Contents) where
  abbrev public_path : Text
  public_path = public_path_of key_path

  abbrev pub IsSettled : Disk × Result (Unit {0}) Text → Type 0
  IsSettled (d, ok u) = HasPair key_path d new_private new_public
  IsSettled (d, err e) =
      HasPair key_path d old_private old_public
      ⊎ (IsUnsynced os key_path new_private new_public d e
          ⊎ IsTorn key_path new_private old_public d e)

  module _ (x : IsApart key_path aux) where
    drop_backups-Keeps :
        (q : Text) → aux.private_backup ≢ q → aux.public_backup ≢ q → Keeps q (drop_backups os aux)
    unfolding drop_backups
    drop_backups-Keeps q h k d =
        remove_file-Keeps q os aux.public_backup k (remove_file os aux.private_backup d).0
        ∙ remove_file-Keeps q os aux.private_backup h d

    sync-Keeps : (q : Text) → Keeps q (sync_parent_directory os key_path)
    unfolding sync_parent_directory touch
    sync-Keeps q d = ground arith

    synced :
        (d : Disk)
        → HasPair key_path d new_private new_public
        → IsSettled (sync_parent_directory os key_path d)
    synced d h = go (sync_parent_directory os key_path d) refl
      where
        go :
            (r : Disk × Result (Unit {0}) Text)
            → sync_parent_directory os key_path d ≡ r
            → IsSettled r
        go (d', ok u) e = (
          ground (arith, sync-Keeps key_path d, h.0),
          ground (arith, sync-Keeps public_path d, h.1),
        )
        go (d', err m) e = inr (
            inl (
              (
                ground (arith, sync-Keeps key_path d, h.0),
                ground (arith, sync-Keeps public_path d, h.1),
              ),
              d,
              ground arith,
            ))

    finished :
        (d : Disk)
        → HasPair key_path d new_private new_public
        → IsSettled (and_then (drop_backups os aux d) (λ _. sync_parent_directory os key_path))
    finished d h =
        unfold drop_backups in
        synced (drop_backups os aux d).0 (
          drop_backups-Keeps key_path x.private_backup_private x.public_backup_private d ∙ h.0,
          drop_backups-Keeps public_path x.private_backup_public x.public_backup_public d ∙ h.1,
        )

    -- The public file was not replaced: the private one is restored, or the error says that it is not.
    restored-IsSettled :
        (d : Disk) (commit_error : Text)
        → HasPair key_path d new_private old_public
        → d.files aux.private_backup ≡ some old_private
        → IsSettled (
            restored os commit_error (
              label
                (codes "restore private key failed: ")
                (rename os aux.private_backup key_path)
                d))
    unfolding rename
    restored-IsSettled d commit_error h saved = go (rename os aux.private_backup key_path d) refl
      where
        go :
            (r : Disk × Result (Unit {0}) Text)
            → rename os aux.private_backup key_path d ≡ r
            → IsSettled (
                restored os commit_error (r.0, labelled (codes "restore private key failed: ") r.1))
        go (d', ok u) e = inl (
          ap (λ r. r.0.files key_path) (sym e)
              ∙ renamed_to os aux.private_backup key_path d old_private saved
                  (ap (λ r. labelled (codes "replace key file failed: ") r.1) e),
          ap (λ r. r.0.files public_path) (sym e)
              ∙ renamed_other os aux.private_backup key_path d public_path x.private_backup_public
                  x.pair
              ∙ h.1,
        )
        go (d', err m) e =
            let same =
              not_renamed os aux.private_backup key_path d (codes "replace key file failed: " ++ m)
                (ap (λ r. labelled (codes "replace key file failed: ") r.1) e) in
            inr (
              inr (
                (
                  ap (λ r. r.0.files key_path) (sym e) ∙ same key_path ∙ h.0,
                  ap (λ r. r.0.files public_path) (sym e) ∙ same public_path ∙ h.1,
                ),
                commit_error,
                m,
                refl,
              ))

    -- Nothing follows a failure.
    error_stays :
        (r : Disk × Result (Unit {0}) Text) (commit_error : Text)
        → IsSettled (restored os commit_error r)
        → IsSettled (
            and_then
              (restored os commit_error r)
              (λ _ d. and_then (drop_backups os aux d) (λ _. sync_parent_directory os key_path)))
    error_stays (d, ok u) commit_error h = h
    error_stays (d, err m) commit_error h = h

    after_private :
        (d : Disk)
        → HasPair key_path d new_private old_public
        → d.files aux.public_temporary ≡ some new_public
        → d.files aux.private_backup ≡ some old_private
        → IsSettled (
            and_then
              (rolled_back os aux.private_backup key_path
                (replace os aux.public_temporary public_path d))
              (λ _ d. and_then (drop_backups os aux d) (λ _. sync_parent_directory os key_path)))
    after_private d h staged saved = go (replace os aux.public_temporary public_path d) refl
      where
        go :
            (r : Disk × Result (Unit {0}) Text)
            → replace os aux.public_temporary public_path d ≡ r
            → IsSettled (
                and_then (rolled_back os aux.private_backup key_path r) (λ _ d.
                  and_then (drop_backups os aux d) (λ _. sync_parent_directory os key_path)))
        go (d', ok u) e = finished d' (
          ap (λ r. r.0.files key_path) (sym e)
              ∙ renamed_other os aux.public_temporary public_path d key_path
                  x.public_temporary_private (λ s. x.pair (sym s))
              ∙ h.0,
          ap (λ r. r.0.files public_path) (sym e)
              ∙ renamed_to os aux.public_temporary public_path d new_public staged
                  (ap (λ r. r.1) e),
        )
        go (d', err m) e =
            let same = not_renamed os aux.public_temporary public_path d m (ap (λ r. r.1) e) in
            let there : (q : Text) → d'.files q ≡ d.files q =
              λ q. ap (λ r. r.0.files q) (sym e) ∙ same q in
            error_stays
              (label (codes "restore private key failed: ") (rename os aux.private_backup key_path)
                d')
              m
              (restored-IsSettled d' m (there key_path ∙ h.0, there public_path ∙ h.1)
                (there aux.private_backup ∙ saved))

    pub commit_pair-IsSettled :
        (d : Disk)
        → HasPair key_path d old_private old_public
        → d.files aux.private_temporary ≡ some new_private
        → d.files aux.public_temporary ≡ some new_public
        → d.files aux.private_backup ≡ some old_private
        → IsSettled (commit_pair os key_path aux d)
    unfolding commit_pair
    commit_pair-IsSettled d h staged staged' saved =
        let r : Disk × Result (Unit {0}) Text = replace os aux.private_temporary key_path d in
        and_then_rule IsSettled r
          (λ _ d.
            and_then
              (rolled_back os aux.private_backup key_path
                (replace os aux.public_temporary public_path d))
              (λ _ d. and_then (drop_backups os aux d) (λ _. sync_parent_directory os key_path)))
          (λ e k.
            let same = not_renamed os aux.private_temporary key_path d e k in
            inl (same key_path ∙ h.0, same public_path ∙ h.1))
          (λ u k.
            after_private r.0
              (
                renamed_to os aux.private_temporary key_path d new_private staged k,
                renamed_other os aux.private_temporary key_path d public_path
                      x.private_temporary_public x.pair
                    ∙ h.1,
              )
              (renamed_other os aux.private_temporary key_path d aux.public_temporary x.temporaries
                  (λ s. x.public_temporary_private (sym s))
                ∙ staged')
              (renamed_other os aux.private_temporary key_path d aux.private_backup
                  (λ s. x.private_temporary_backup (sym s)) (λ s. x.private_backup_private (sym s))
                ∙ saved))
