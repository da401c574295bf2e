-- ===== src/Keys/Apart.antt =====
-- The auxiliary paths of `change_key_comment` of leantty_ssh/leantty-ssh-core/src/keygen.rs are different from each
-- other and from the key files.
use leantty.Prelude.{
  ℕ, none, ◌∷◌, ◌++◌, ◌||◌, ◌≡◌, ◌≢◌, refl, sym, ap, ◌∙◌, arith, Text, codes, Result, ok, err,
  length, length-append, is_empty, Bool-cases, inl, inr, ◌>>=◌,
}
use mathlib.Core.List.{append_assoc}
use leantty.Keys.Disk.{Disk}
use leantty.Keys.Paths.{
  join_path, ends_in_slash, key_comment_name, create_key_comment_aux_path, free_path-ok,
}
use leantty.Keys.Comment.{AuxPaths, public_path_of, auxiliary_paths}
use leantty.Keys.PairStates.{IsApart}
use leantty.Keys.Marks.{
  path, role_mark, extension_mark, private_tmp, public_tmp, private_bak, public_bak,
}

-- A path that was chosen, as what stands before the role and the rest.
named :
    (pid : ℕ) (parent role extension file_name : Text) (n : ℕ)
    → (before : Text) × (join_path parent (key_comment_name pid role extension file_name n)
        ≡ path pid n before role extension)
named pid parent role extension file_name n =
    elim (Bool-cases (is_empty parent || ends_in_slash parent)) [
      | inl bare ↦ (
        parent ++ (b'.' ∷ (file_name ++ codes ".ltty-comment-")),
        unfold join_path in rw bare (simp append_assoc),
      )
      | inr other ↦ (
        parent ++ (b'/' ∷ b'.' ∷ (file_name ++ codes ".ltty-comment-")),
        unfold join_path in rw other (simp append_assoc),
      )
    ]

-- A free path beside a key file, named for a role and an extension.
abbrev IsChosen : ℕ → Disk → Text → Text → Text → Type 0
IsChosen pid d role extension p =
    (d.files p ≡ none) × (n : ℕ) × (before : Text) × (p ≡ path pid n before role extension)

module _ (pid : ℕ) (d : Disk) where
  create_key_comment_aux_path-IsChosen :
      (target role extension p : Text)
      → (create_key_comment_aux_path pid target role extension d).1 ≡ ok p
      → IsChosen pid d role extension p
  unfolding create_key_comment_aux_path
  create_key_comment_aux_path-IsChosen target role extension p h =
      let (parent, file_name, n, e, f, same, free) =
        free_path-ok d target (key_comment_name pid role extension)
          (codes "key path has no parent directory") (codes "key path has an invalid file name")
          (codes "cannot allocate key comment transaction path") p h in
      let (before, split) = named pid parent role extension file_name n in
      (free, n, before, same ∙ split)

  marked :
      (role extension p : Text) (r e : ℕ)
      → IsChosen pid d role extension p
      → ((n : ℕ) (before : Text)
          → (role_mark (path pid n before role extension) ≡ r)
            × (extension_mark (path pid n before role extension) ≡ e))
      → (role_mark p ≡ r) × (extension_mark p ≡ e)
  marked role extension p r e (free, n, before, same) m =
      (ap role_mark same ∙ (m n before).0, ap extension_mark same ∙ (m n before).1)

  bind-ok :
      {A B : Type 0} (r : Result A Text) (f : A → Result B Text) {b : B}
      → (r >>= f) ≡ ok b
      → (a : A) × (r ≡ ok a) × (f a ≡ ok b)
  bind-ok (ok a) f h = (a, refl, h)
  bind-ok (err e) f h = cc

  -- The four paths, with what is known of each.
  auxiliary_paths-IsChosen :
      (key_path : Text) (aux : AuxPaths)
      → auxiliary_paths pid key_path d ≡ ok aux
      → IsChosen pid d (codes "private") (codes "tmp") aux.private_temporary
        × IsChosen pid d (codes "public") (codes "tmp") aux.public_temporary
        × IsChosen pid d (codes "private") (codes "bak") aux.private_backup
        × IsChosen pid d (codes "public") (codes "bak") aux.public_backup
  unfolding auxiliary_paths
  auxiliary_paths-IsChosen key_path aux h =
      let (a, ea, ha) =
        bind-ok (create_key_comment_aux_path pid key_path (codes "private") (codes "tmp") d).1 _
          h in
      let (b, eb, hb) =
        bind-ok
          (create_key_comment_aux_path pid (public_path_of key_path) (codes "public") (codes "tmp")
            d).1
          _ ha in
      let (c, ec, hc) =
        bind-ok (create_key_comment_aux_path pid key_path (codes "private") (codes "bak") d).1 _
          hb in
      let (e, ee, he) =
        bind-ok
          (create_key_comment_aux_path pid (public_path_of key_path) (codes "public") (codes "bak")
            d).1
          _ hc in
      (
        create_key_comment_aux_path-IsChosen key_path (codes "private") (codes "tmp")
            aux.private_temporary (ea ∙ ap (field_of (λ x. x.private_temporary)) he),
        create_key_comment_aux_path-IsChosen (public_path_of key_path) (codes "public")
            (codes "tmp") aux.public_temporary (eb ∙ ap (field_of (λ x. x.public_temporary)) he),
        create_key_comment_aux_path-IsChosen key_path (codes "private") (codes "bak")
            aux.private_backup (ec ∙ ap (field_of (λ x. x.private_backup)) he),
        create_key_comment_aux_path-IsChosen (public_path_of key_path) (codes "public")
            (codes "bak") aux.public_backup (ee ∙ ap (field_of (λ x. x.public_backup)) he),
      )
    where
      field_of : (AuxPaths → Text) → Result AuxPaths Text → Result Text Text
      field_of f (ok x) = ok (f x)
      field_of f (err e) = err e

  -- There is no file at the four paths.
  pub auxiliary_paths-free :
      (key_path : Text) (aux : AuxPaths)
      → auxiliary_paths pid key_path d ≡ ok aux
      → (d.files aux.private_temporary ≡ none)
        × (d.files aux.public_temporary ≡ none)
        × (d.files aux.private_backup ≡ none)
        × (d.files aux.public_backup ≡ none)
  auxiliary_paths-free key_path aux h =
      let (a, b, c, e) = auxiliary_paths-IsChosen key_path aux h in (a.0, b.0, c.0, e.0)

  module _ (key_path : Text) (aux : AuxPaths) (chosen : auxiliary_paths pid key_path d ≡ ok aux)
      (there : d.files key_path ≢ none) (there' : d.files (public_path_of key_path) ≢ none) where
    free-ne' : (p q : Text) → d.files p ≡ none → d.files q ≢ none → p ≢ q
    free-ne' p q free was same = was (ap d.files (sym same) ∙ free)

    longer : key_path ≢ public_path_of key_path
    longer same = absurd (ground (arith, ap length same, length-append key_path (codes ".pub")))

    pub auxiliary_paths-IsApart : IsApart key_path aux
    auxiliary_paths-IsApart =
        let (a, b, c, e) = auxiliary_paths-IsChosen key_path aux chosen in
        let ma =
          marked (codes "private") (codes "tmp") aux.private_temporary b'e' b'p' a
            (private_tmp pid) in
        let mb =
          marked (codes "public") (codes "tmp") aux.public_temporary b'c' b'p' b (public_tmp pid) in
        let mc =
          marked (codes "private") (codes "bak") aux.private_backup b'e' b'k' c (private_bak pid) in
        let me =
          marked (codes "public") (codes "bak") aux.public_backup b'c' b'k' e (public_bak pid) in
        record {
          pair = longer;
          private_temporary_private = free-ne' aux.private_temporary key_path a.0 there;
          private_temporary_public =
              free-ne' aux.private_temporary (public_path_of key_path) a.0 there';
          public_temporary_private = free-ne' aux.public_temporary key_path b.0 there;
          public_temporary_public =
              free-ne' aux.public_temporary (public_path_of key_path) b.0 there';
          private_backup_private = free-ne' aux.private_backup key_path c.0 there;
          private_backup_public = free-ne' aux.private_backup (public_path_of key_path) c.0 there';
          public_backup_private = free-ne' aux.public_backup key_path e.0 there;
          public_backup_public = free-ne' aux.public_backup (public_path_of key_path) e.0 there';
          temporaries = λ same. absurd (omega (arith, ap role_mark same, ma.0, mb.0));
          backups = λ same. absurd (omega (arith, ap role_mark same, mc.0, me.0));
          private_temporary_backup =
              λ same. absurd (omega (arith, ap extension_mark same, ma.1, mc.1));
          public_temporary_backup =
              λ same. absurd (omega (arith, ap extension_mark same, mb.1, mc.1));
          private_temporary_backup' =
              λ same. absurd (omega (arith, ap extension_mark same, ma.1, me.1));
          public_temporary_backup' =
              λ same. absurd (omega (arith, ap extension_mark same, mb.1, me.1));
        }
