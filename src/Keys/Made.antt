-- ===== src/Keys/Made.antt =====
-- The files that `export_key_pair` and `generate_key_pair` of leantty_ssh/leantty-ssh-core/src/keygen.rs make.
use leantty.Prelude.{
  ℕ, ◌∷◌, ◌++◌, Option, some, ◌≡◌, ◌≢◌, refl, sym, ◌∙◌, ap, arith, length, length-append, Text,
  codes, text_eq_iff, Result, ok, err,
}
use leantty.Keys.Disk.{
  utf8, Disk, Failure, Io, and_then, pure, caught, create_new, write_all, touch, remove_file,
}
use leantty.Keys.Pairs.{
  on_failure, write_private, write_public, write_pair, priv_path_of, pub_path_of,
}
use leantty.Keys.Fresh.{on_failure-ok, write_public-Keeps}

longer : (a b : Text) (c : ℕ) → a ≢ a ++ (c ∷ b)
longer a b c e = absurd (omega (arith, ap length e, length-append a (c ∷ b)))

-- The path of the public key is another one.
pub paths-ne : (output_dir name : Text) → priv_path_of output_dir name ≢ pub_path_of output_dir name
paths-ne output_dir name e = absurd (
    omega (
      arith,
      ap length e,
      length-append output_dir (b'/' ∷ name),
      length-append output_dir (b'/' ∷ (name ++ codes ".pub")),
      length-append name (codes ".pub"),
    ))

module _ (os : ℕ → Option Failure) where
  write_private-ok :
      (a pem : Text) (d : Disk)
      → (write_private os a pem d).1 ≡ ok tt
      → (write_private os a pem d).0.files a ≡ some (utf8 pem)
  unfolding write_private create_new write_all touch
  write_private-ok a pem d h = ground (arith, text_eq_iff a a)

  write_public-ok :
      (b pub_text : Text) (d : Disk)
      → (write_public os b pub_text d).1 ≡ ok tt
      → (write_public os b pub_text d).0.files b ≡ some (utf8 pub_text)
  unfolding write_public create_new write_all
  write_public-ok b pub_text d h = ground (arith, text_eq_iff b b)

  pub write_pair-ok :
      (a b pem pub_text : Text) (d : Disk)
      → a ≢ b
      → (write_pair os a b pem pub_text d).1 ≡ ok tt
      → ((write_pair os a b pem pub_text d).0.files a ≡ some (utf8 pem))
        × ((write_pair os a b pem pub_text d).0.files b ≡ some (utf8 pub_text))
  unfolding write_pair
  write_pair-ok a b pem pub_text d apart h =
      let message : Text = codes "write pub failed: " in
      let undo : Io (Unit {0}) = λ d. and_then (caught (remove_file os a) d) (λ _. pure (ok tt)) in
      let r : Disk × Result (Unit {0}) Text = write_private os a pem d in go undo message r refl h
    where
      go :
          (undo : Io (Unit {0})) (message : Text) (r : Disk × Result (Unit {0}) Text)
          → r ≡ write_private os a pem d
          → (and_then r (λ _ d. on_failure os undo message (write_public os b pub_text d))).1
            ≡ ok tt
          → let r' =
              and_then r (λ _ d. on_failure os undo message (write_public os b pub_text d)) in
            (r'.0.files a ≡ some (utf8 pem)) × (r'.0.files b ≡ some (utf8 pub_text))
      go undo message (d', err e) same h = cc
      go undo message (d', ok u) same h =
          let p : Disk × Result (Unit {0}) Text = write_public os b pub_text d' in
          let (wrote, kept) = on_failure-ok os a undo message p h in
          let (wrote', kept') = on_failure-ok os b undo message p h in
          (
            kept
                ∙ write_public-Keeps os a b b (λ e. apart (sym e)) (λ e. apart (sym e)) pub_text d'
                ∙ ap (λ x. x.0.files a) same
                ∙ write_private-ok a pem d (ap (λ x. x.1) (sym same)),
            kept' ∙ write_public-ok b pub_text d' wrote',
          )
