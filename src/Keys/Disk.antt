-- ===== src/Keys/Disk.antt =====
-- The file system as leantty_ssh/leantty-ssh-core/src/keygen.rs uses it: `std::fs` on paths that nobody
-- else changes meanwhile. A call that reports failures may fail, as `os` says for its number, and has then
-- done nothing; but a failed write or copy may leave any contents behind. `Path::exists` reports none, and
-- is taken to see every file that is there: no `stat` fails, and no symbolic link dangles.
use leantty.Prelude.{
  ℕ, ◌+◌, Bool, true, false, List, [], ◌++◌, Option, none, some, if◌then◌else◌, Text, codes,
  text_eq, Result, ok, err,
}

-- A file's bytes, as a text where they are UTF-8.
pub data Contents : Type 0 where
  utf8 : Text → Contents
  not_utf8 : List ℕ → Contents

pub record Disk : Type 0 where
  pub files : Text → Option Contents
  pub calls : ℕ

pub record Failure : Type 0 where
  pub message : Text
  pub leaves : Option Contents

-- What a failure leaves at a path.
abbrev pub left : Text → Failure → Disk → Disk
left p f d = elim f.leaves [
  | none ↦ d
  | some c ↦ record d { files = λ q. if text_eq p q then some c else d.files q }
]

-- A fallible computation on the disk; `?` is the bind of a `do` block.
abbrev pub Io : Type 0 → Type 0
Io A = Disk → Disk × Result A Text

abbrev pub and_then : {A B : Type 0} → Disk × Result A Text → (A → Io B) → Disk × Result B Text
and_then (d, err e) f = (d, err e)
and_then (d, ok a) f = f a d

infixl 5 ◌>>=◌ ◌>>◌
abbrev pub ◌>>=◌ : {A B : Type 0} → Io A → (A → Io B) → Io B
◌>>=◌ m f d = and_then (m d) f

abbrev pub ◌>>◌ : {A B : Type 0} → Io A → Io B → Io B
◌>>◌ m k d = and_then (m d) (λ _. k)

abbrev pub pure : {A : Type 0} → Result A Text → Io A
pure r d = (d, r)

-- `map_err` with a text in front of the error.
abbrev pub labelled : {A : Type 0} → Text → Result A Text → Result A Text
labelled label (ok a) = ok a
labelled label (err e) = err (label ++ e)

abbrev pub label : {A : Type 0} → Text → Io A → Io A
label text m d = let (d', r) = m d in (d', labelled text r)

-- An answer that is looked at later, or never: nothing is returned early.
abbrev pub caught : {A : Type 0} → Io A → Io (Result A Text)
caught m d = let (d', r) = m d in (d', ok r)

abbrev pub put : Text → Option Contents → Disk → Disk
put p c d = record d { files = λ q. if text_eq p q then c else d.files q }

abbrev missing : Text
missing = codes "No such file or directory"

abbrev pub exists : Disk → Text → Bool
exists d p = elim (d.files p) [ none ↦ false | some c ↦ true ]

abbrev as_text : Contents → Result Text Text
as_text (utf8 t) = ok t
as_text (not_utf8 b) = err (codes "stream did not contain valid UTF-8")

abbrev pub text_of : Contents → Result Text Text
text_of (utf8 t) = ok t
text_of (not_utf8 b) = err (codes "invalid utf-8")

module _ (os : ℕ → Option Failure) where
  -- One call of the operating system: what it does, or what its failure leaves.
  abbrev pub system_call : {A : Type 0} → (Failure → Disk → Disk) → Io A → Io A
  system_call fail act d =
      let d' = record d { calls = d.calls + 1 } in
      elim (os d.calls) [ some f ↦ (fail f d', err f.message) | none ↦ act d' ]

  unfoldable pub read : Text → Io Contents
  read p =
      system_call (λ f d. d)
        (λ d. elim (d.files p) [ some c ↦ (d, ok c) | none ↦ (d, err missing) ])

  unfoldable pub read_to_string : Text → Io Text
  read_to_string p =
      system_call (λ f d. d)
        (λ d. elim (d.files p) [ some c ↦ (d, as_text c) | none ↦ (d, err missing) ])

  -- `OpenOptions::create_new`.
  unfoldable pub create_new : Text → Io (Unit {0})
  create_new p =
      system_call (λ f d. d)
        (λ d. elim (d.files p) [
          | some c ↦ (d, err (codes "File exists"))
          | none ↦ (put p (some (utf8 [])) d, ok tt)
        ])

  -- `write_all` to a file that was just created.
  unfoldable pub write_all : Text → Text → Io (Unit {0})
  write_all p t = system_call (λ f d. left p f d) (λ d. (put p (some (utf8 t)) d, ok tt))

  -- `flush`, `sync_all`, `set_permissions`, `create_dir_all`: no contents change.
  unfoldable pub touch : Io (Unit {0})
  touch = system_call (λ f d. d) (λ d. (d, ok tt))

  unfoldable pub rename : Text → Text → Io (Unit {0})
  rename from to =
      system_call (λ f d. d)
        (λ d. elim (d.files from) [
          | some c ↦ (put to (some c) (put from none d), ok tt)
          | none ↦ (d, err missing)
        ])

  unfoldable pub remove_file : Text → Io (Unit {0})
  remove_file p =
      system_call (λ f d. d)
        (λ d. elim (d.files p) [ some c ↦ (put p none d, ok tt) | none ↦ (d, err missing) ])

  -- `fs::copy`, and `io::copy` into a file that was just created.
  unfoldable pub copy : Text → Text → Io (Unit {0})
  copy from to =
      system_call (λ f d. left to f d)
        (λ d. elim (d.files from) [ some c ↦ (put to (some c) d, ok tt) | none ↦ (d, err missing) ])
