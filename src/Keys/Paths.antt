-- ===== src/Keys/Paths.antt =====
-- The paths of temporary files in leantty_ssh/leantty-ssh-core/src/keygen.rs. A path that ends in a slash
-- or in `.` names a directory, which no caller has been able to read before.
use leantty.Prelude.{
  ℕ, zero, suc, ◌+◌, Bool, false, ◌||◌, ◌==◌, [], ◌∷◌, ◌++◌, Option, none, some, if◌then◌else◌,
  is_empty, ◌≡◌, refl, ap, inl, inr, arith, Bool-cases, Text, codes, text_eq, Result, ok, err,
  ok_or,
}
use leantty.Prelude.Decimal.{to_string}
use leantty.Transfer.{rsplit_slash}
use leantty.Prelude.{◌>>=◌}
use leantty.Keys.Disk.{Disk, Io, exists}

-- `Path::parent`.
unfoldable pub parent_of : Text → Option Text
parent_of p = elim (rsplit_slash p) [
  | none ↦ if is_empty p then none else some []
  | some (before, base) ↦
      if is_empty before then if is_empty base then none else some (codes "/") else some before
]

abbrev base_of : Text → Text
base_of p = elim (rsplit_slash p) [ none ↦ p | some (before, base) ↦ base ]

-- `Path::file_name`.
unfoldable pub file_name_of : Text → Option Text
file_name_of p =
    let name = base_of p in
    if is_empty name || text_eq name (codes ".") || text_eq name (codes "..")
    then none
    else some name

unfoldable pub ends_in_slash : Text → Bool
ends_in_slash [] = false
ends_in_slash (c ∷ []) = c == b'/'
ends_in_slash (c ∷ d ∷ cs) = ends_in_slash (d ∷ cs)

-- `Path::join` with a file name.
unfoldable pub join_path : Text → Text → Text
join_path dir name = if is_empty dir || ends_in_slash dir then dir ++ name else dir ++ (b'/' ∷ name)

-- The first of the numbered paths, from a number on, where there is no file. `Path::exists` is taken to see
-- every file that is there, although it also answers false where a `stat` fails.
unfoldable pub find_free : Disk → (ℕ → Text) → ℕ → ℕ → Option Text
find_free d candidate zero attempt = none
find_free d candidate (suc more) attempt =
    let rest = find_free d candidate more (attempt + 1) in
    if exists d (candidate attempt) then rest else some (candidate attempt)

pub find_free-some :
    (d : Disk) (candidate : ℕ → Text) (more attempt : ℕ) (p : Text)
    → find_free d candidate more attempt ≡ some p
    → (n : ℕ) × (p ≡ candidate n) × (d.files p ≡ none)
unfolding find_free
find_free-some d candidate zero attempt p h = absurd (ground arith)
find_free-some d candidate (suc more) attempt p h =
    elim (Bool-cases (exists d (candidate attempt))) [
      | inl there ↦ find_free-some d candidate more (attempt + 1) p (rw there at h)
      | inr free ↦ (attempt, ground arith, ground arith)
    ]

-- A numbered path beside the target, where there is no file; the three messages are those of the code.
unfoldable pub free_path : Disk → Text → (Text → ℕ → Text) → Text → Text → Text → Result Text Text
free_path d target_path name no_parent bad_name full =
    ok_or (parent_of target_path) no_parent >>= λ parent.
    ok_or (file_name_of target_path) bad_name >>= λ file_name.
    ok_or (find_free d (λ n. join_path parent (name file_name n)) 100 0) full

ok_or-ok :
    {A : Type 0} (o : Option A) (e : Text) {a : A}
    → ◌≡◌ {A = Result A Text} (ok_or o e) (ok a)
    → o ≡ some a
ok_or-ok none e h = cc
ok_or-ok {A} (some b) e h = ap value h
  where
    value : Result A Text → Option A
    value (ok x) = some x
    value (err m) = none

pub free_path-ok :
    (d : Disk) (target_path : Text) (name : Text → ℕ → Text) (no_parent bad_name full p : Text)
    → free_path d target_path name no_parent bad_name full ≡ ok p
    → (parent : Text) × (file_name : Text) × (n : ℕ) × (parent_of target_path ≡ some parent)
      × (file_name_of target_path ≡ some file_name)
      × (p ≡ join_path parent (name file_name n))
      × (d.files p ≡ none)
unfolding free_path
free_path-ok d target_path name no_parent bad_name full p h =
    go (parent_of target_path) (file_name_of target_path) refl refl h
  where
    go :
        (a b : Option Text)
        → parent_of target_path ≡ a
        → file_name_of target_path ≡ b
        → (ok_or a no_parent >>= λ parent. ok_or b bad_name >>= λ file_name.
            ok_or (find_free d (λ n. join_path parent (name file_name n)) 100 0) full)
          ≡ ok p
        → (parent : Text) × (file_name : Text) × (n : ℕ) × (parent_of target_path ≡ some parent)
          × (file_name_of target_path ≡ some file_name)
          × (p ≡ join_path parent (name file_name n))
          × (d.files p ≡ none)
    go none b e f h = cc
    go (some parent) none e f h = cc
    go (some parent) (some file_name) e f h =
        let candidate : ℕ → Text = λ n. join_path parent (name file_name n) in
        let (n, same, free) =
          find_free-some d candidate 100 0 p (ok_or-ok (find_free d candidate 100 0) full h) in
        (parent, file_name, n, e, f, same, free)

abbrev pub key_comment_name : ℕ → Text → Text → Text → ℕ → Text
key_comment_name pid role extension file_name attempt =
    b'.'
    ∷ (file_name
        ++ (codes ".ltty-comment-"
            ++ (role
                ++ (b'-' ∷ (to_string pid ++ (b'-' ∷ (to_string attempt ++ (b'.' ∷ extension))))))))

unfoldable pub create_key_comment_aux_path : ℕ → Text → Text → Text → Io Text
create_key_comment_aux_path pid target_path role extension d = (
  d,
  free_path d target_path (key_comment_name pid role extension)
      (codes "key path has no parent directory") (codes "key path has an invalid file name")
      (codes "cannot allocate key comment transaction path"),
)

abbrev pub passphrase_name : ℕ → Text → ℕ → Text
passphrase_name pid file_name attempt =
    b'.'
    ∷ (file_name
        ++ (codes ".ltty-passphrase-"
            ++ (to_string pid ++ (b'-' ∷ (to_string attempt ++ codes ".tmp")))))

unfoldable pub create_passphrase_temporary_path : ℕ → Text → Io Text
create_passphrase_temporary_path pid target_path d = (
  d,
  free_path d target_path (passphrase_name pid) (codes "private key path has no parent directory")
      (codes "private key path has an invalid file name")
      (codes "cannot allocate temporary private key path"),
)
