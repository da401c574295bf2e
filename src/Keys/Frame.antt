-- ===== src/Keys/Frame.antt =====
-- Which files a computation on the disk leaves alone.
use leantty.Prelude.{
  ℕ, Option, ◌≡◌, ◌≢◌, ◌∙◌, refl, some, arith, Text, text_eq_iff, Result, ok, err,
}
use leantty.Keys.Disk.{
  utf8, labelled, Contents, Disk, Failure, Io, and_then, put, read, read_to_string, create_new,
  write_all, touch, rename, remove_file, copy,
}

-- The file at `p` is the same afterwards.
abbrev pub Keeps : {A : Type 0} → Text → Io A → Type 0
Keeps p m = (d : Disk) → (m d).0.files p ≡ d.files p

pub put-other :
    (p q : Text) (c : Option Contents) (d : Disk) → p ≢ q → (put p c d).files q ≡ d.files q
put-other p q c d h = ground (arith, text_eq_iff p q)

pub put_self : (p : Text) (c : Option Contents) (d : Disk) → (put p c d).files p ≡ c
put_self p c d = ground (arith, text_eq_iff p p)

module _ (q : Text) where
  Keeps-result :
      {A B : Type 0} (f : A → Io B) (d : Disk) (r : Disk × Result A Text)
      → r.0.files q ≡ d.files q
      → ((a : A) → Keeps q (f a))
      → (and_then r f).0.files q ≡ d.files q
  Keeps-result f d (d', err e) h k = h
  Keeps-result f d (d', ok a) h k = k a d' ∙ h

  pub Keeps-and_then :
      {A B : Type 0} (m : Io A) (f : A → Io B)
      → Keeps q m
      → ((a : A) → Keeps q (f a))
      → Keeps q (λ d. and_then (m d) f)
  Keeps-and_then m f h k d = Keeps-result f d (m d) (h d) k

  module _ (os : ℕ → Option Failure) where
    pub read-Keeps : (p : Text) → Keeps q (read os p)
    unfolding read
    read-Keeps p d = ground arith

    pub read_to_string-Keeps : (p : Text) → Keeps q (read_to_string os p)
    unfolding read_to_string
    read_to_string-Keeps p d = ground arith

    pub touch-Keeps : Keeps q (touch os)
    unfolding touch
    touch-Keeps d = ground arith

    pub create_new-Keeps : (p : Text) → p ≢ q → Keeps q (create_new os p)
    unfolding create_new
    create_new-Keeps p h d = ground (arith, text_eq_iff p q)

    pub write_all-Keeps : (p t : Text) → p ≢ q → Keeps q (write_all os p t)
    unfolding write_all
    write_all-Keeps p t h d = ground (arith, text_eq_iff p q)

    pub rename-Keeps : (a b : Text) → a ≢ q → b ≢ q → Keeps q (rename os a b)
    unfolding rename
    rename-Keeps a b h k d = ground (arith, text_eq_iff a q, text_eq_iff b q)

    pub remove_file-Keeps : (p : Text) → p ≢ q → Keeps q (remove_file os p)
    unfolding remove_file
    remove_file-Keeps p h d = ground (arith, text_eq_iff p q)

    pub copy-Keeps : (a b : Text) → b ≢ q → Keeps q (copy os a b)
    unfolding copy
    copy-Keeps a b h d = ground (arith, text_eq_iff b q)

-- What follows a computation, by its answer.
pub and_then_rule :
    {A B : Type 0} (P : Disk × Result B Text → Type 0) (r : Disk × Result A Text) (f : A → Io B)
    → ((e : Text) → r.1 ≡ err e → P (r.0, err e))
    → ((a : A) → r.1 ≡ ok a → P (f a r.0))
    → P (and_then r f)
and_then_rule P (d, err e) f h k = h e refl
and_then_rule P (d, ok a) f h k = k a refl

-- The parts of a chain that succeeded.
pub and_then-ok :
    {A B : Type 0} (r : Disk × Result A Text) (f : A → Io B) {b : B}
    → (and_then r f).1 ≡ ok b
    → (a : A) × (r.1 ≡ ok a) × ((f a r.0).1 ≡ ok b)
and_then-ok (d, err e) f h = cc
and_then-ok (d, ok a) f h = (a, refl, h)

pub labelled-ok :
    {A : Type 0} (text : Text) (r : Result A Text) {a : A} → labelled text r ≡ ok a → r ≡ ok a
labelled-ok text (ok b) h = h
labelled-ok text (err e) h = cc

pub read_to_string-ok :
    (os : ℕ → Option Failure) (p : Text) (d : Disk) {t : Text}
    → (read_to_string os p d).1 ≡ ok t
    → d.files p ≡ some (utf8 t)
unfolding read_to_string
read_to_string-ok os p d h = ground arith

-- The same, with the disk at the end.
pub and_then_steps :
    {A B : Type 0} (r : Disk × Result A Text) (f : A → Io B) {b : B}
    → (and_then r f).1 ≡ ok b
    → (a : A) × (r.1 ≡ ok a) × ((f a r.0).1 ≡ ok b) × ((and_then r f).0 ≡ (f a r.0).0)
and_then_steps (d, err e) f h = cc
and_then_steps (d, ok a) f h = (a, refl, h, refl)
