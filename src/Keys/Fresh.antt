-- ===== src/Keys/Fresh.antt =====
-- What `export_key_pair` and `generate_key_pair` of leantty_ssh/leantty-ssh-core/src/keygen.rs do to the files
-- that are there and to those that they make.
use leantty.Prelude.{
  ℕ, Option, none, some, ◌≡◌, ◌≢◌, refl, ◌∙◌, ap, arith, Text, codes, text_eq_iff, Result, ok, err,
}
use leantty.Keys.Disk.{
  Contents, Disk, Failure, Io, and_then, pure, label, caught, create_new, write_all, touch,
  remove_file, copy,
}
use leantty.Keys.Frame.{
  Keeps, Keeps-and_then, create_new-Keeps, touch-Keeps, remove_file-Keeps, copy-Keeps,
}
use leantty.Keys.Pairs.{
  vacant, on_failure, remove_both, copy_pair, open_source, export_to, write_private, write_public,
  write_pair,
}

-- No file that was there has changed.
abbrev pub Spares : {A : Type 0} → Disk → Disk × Result A Text → Type 0
Spares d r = (q : Text) (c : Contents) → d.files q ≡ some c → r.0.files q ≡ some c

-- A test for two free paths that was passed.
pub vacant-free :
    (a b message : Text) (d : Disk)
    → (vacant a b message d).1 ≡ ok tt
    → (d.files a ≡ none) × (d.files b ≡ none)
vacant-free a b message d h = ground arith

pub free-ne : (d : Disk) (p q : Text) (c : Contents) → d.files p ≡ none → d.files q ≡ some c → p ≢ q
free-ne d p q c free was same = cc (ap d.files same)

module _ (os : ℕ → Option Failure) (q : Text) where
  on_failure-files :
      (undo : Io (Unit {0})) (message : Text) (r : Disk × Result (Unit {0}) Text)
      → Keeps q undo
      → (on_failure os undo message r).0.files q ≡ r.0.files q
  on_failure-files undo message (d, ok u) h = refl
  on_failure-files undo message (d, err e) h = h d

  pub on_failure-ok :
      (undo : Io (Unit {0})) (message : Text) (r : Disk × Result (Unit {0}) Text)
      → (on_failure os undo message r).1 ≡ ok tt
      → (r.1 ≡ ok tt) × ((on_failure os undo message r).0.files q ≡ r.0.files q)
  on_failure-ok undo message (d, ok u) h = (refl, refl)
  on_failure-ok undo message (d, err e) h = cc

  pub on_failure-Keeps :
      (undo m : Io (Unit {0})) (message : Text)
      → Keeps q undo
      → Keeps q m
      → Keeps q (λ d. on_failure os undo message (m d))
  on_failure-Keeps undo m message h k d = on_failure-files undo message (m d) h ∙ k d

  pub removed-Keeps :
      (p : Text) → p ≢ q → Keeps q (λ d. and_then (caught (remove_file os p) d) (λ _. pure (ok tt)))
  removed-Keeps p h d = remove_file-Keeps q os p h d

  module _ (a b : Text) (away : a ≢ q) (off : b ≢ q) where
    pub write_private-Keeps : (pem : Text) → Keeps q (write_private os a pem)
    unfolding write_private create_new write_all touch
    write_private-Keeps pem d = ground (arith, text_eq_iff a q)

    pub write_public-Keeps : (pub_text : Text) → Keeps q (write_public os b pub_text)
    unfolding write_public create_new write_all
    write_public-Keeps pub_text d = ground (arith, text_eq_iff b q)

    pub write_pair-Keeps : (pem pub_text : Text) → Keeps q (write_pair os a b pem pub_text)
    unfolding write_pair
    write_pair-Keeps pem pub_text =
        Keeps-and_then q (write_private os a pem) _ (write_private-Keeps pem) (λ u.
          on_failure-Keeps (λ d. and_then (caught (remove_file os a) d) (λ _. pure (ok tt)))
            (write_public os b pub_text) (codes "write pub failed: ") (removed-Keeps a away)
            (write_public-Keeps pub_text))

    remove_both-Keeps : Keeps q (remove_both os a b)
    remove_both-Keeps d =
        remove_file-Keeps q os b off (remove_file os a d).0 ∙ remove_file-Keeps q os a away d

    pub open_source-Keeps : (p message : Text) → Keeps q (open_source os p message)
    unfolding touch
    open_source-Keeps p message d = ground arith

    pub copy_pair-Keeps : (from from' : Text) → Keeps q (copy_pair os from from' a b)
    unfolding copy_pair
    copy_pair-Keeps from from' =
        Keeps-and_then q (copy os from a) _ (copy-Keeps q os from a away) (λ _.
          Keeps-and_then q (touch os) _ (touch-Keeps q os) (λ _.
            Keeps-and_then q (touch os) _ (touch-Keeps q os) (λ _.
              Keeps-and_then q (copy os from' b) _ (copy-Keeps q os from' b off)
                (λ _. Keeps-and_then q (touch os) _ (touch-Keeps q os) (λ _. touch-Keeps q os)))))

    pub export_to-Keeps : (from from' : Text) → Keeps q (export_to os from from' a b)
    unfolding export_to
    export_to-Keeps from from' =
        Keeps-and_then q (open_source os from (codes "open private key failed: ")) _
          (open_source-Keeps from (codes "open private key failed: "))
          (λ _.
            Keeps-and_then q (open_source os from' (codes "open public key failed: ")) _
              (open_source-Keeps from' (codes "open public key failed: "))
              (λ _.
                Keeps-and_then q (label (codes "create export failed: ") (create_new os a)) _
                  (create_new-Keeps q os a away)
                  (λ _.
                    Keeps-and_then q
                      (λ d.
                        on_failure os
                          (λ d. and_then (caught (remove_file os a) d) (λ _. pure (ok tt)))
                          (codes "create public export failed: ") (create_new os b d))
                      _
                      (on_failure-Keeps
                        (λ d. and_then (caught (remove_file os a) d) (λ _. pure (ok tt)))
                        (create_new os b) (codes "create public export failed: ")
                        (removed-Keeps a away) (create_new-Keeps q os b off))
                      (λ _.
                        on_failure-Keeps (remove_both os a b) (copy_pair os from from' a b)
                          (codes "write export failed: ") remove_both-Keeps
                          (copy_pair-Keeps from from')))))
