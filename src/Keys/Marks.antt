-- ===== src/Keys/Marks.antt =====
-- What tells the names of the auxiliary files of `change_key_comment` of leantty_ssh/leantty-ssh-core/src/keygen.rs
-- apart: the last character and those in front of the last two dashes.
use leantty.Prelude.{
  ℕ, [], ◌∷◌, ◌++◌, ◌==◌, ◌≤◌, ◌≡◌, refl, ap, ◌∙◌, arith, All, Text, codes, if◌then◌else◌,
}
use leantty.Prelude.Decimal.{to_string, to_string-digits}

-- The last character of a path, and the ones in front of the last two dashes.
pub record Marks : Type 0 where
  pub last : ℕ
  pub late : ℕ
  pub early : ℕ

abbrev pub step : ℕ → Marks → Marks
step c m =
    if c == b'-'
    then record { last = c; late = m.last; early = m.late }
    else record { last = c; late = m.late; early = m.early }

abbrev pub marks : Text → Marks → Marks
marks [] m = m
marks (c ∷ s) m = marks s (step c m)

marks-append : (s t : Text) (m : Marks) → marks (s ++ t) m ≡ marks t (marks s m)
marks-append [] t m = refl
marks-append (c ∷ s) t m = marks-append s t (step c m)

digits-marks :
    (s : Text) (m : Marks)
    → All (λ c. (b'0' ≤ c) × (c ≤ b'9')) s
    → ((marks s m).late ≡ m.late) × ((marks s m).early ≡ m.early)
digits-marks [] m h = (refl, refl)
digits-marks (c ∷ s) m h =
    let plain : step c m ≡ record { last = c; late = m.late; early = m.early } = ground arith in
    let (a, b) = digits-marks s (step c m) h.1 in
    (a ∙ ap (λ m. m.late) plain, b ∙ ap (λ m. m.early) plain)

abbrev pub start : Marks
start = record { last = 0; late = 0; early = 0 }

-- What stands behind the role in the name of an auxiliary file.
abbrev pub tail : ℕ → ℕ → Text → Text
tail pid attempt extension =
    b'-' ∷ (to_string pid ++ (b'-' ∷ (to_string attempt ++ (b'.' ∷ extension))))

module _ (pid attempt : ℕ) (extension : Text) (m : Marks) where
  -- The number of the process behind one dash, and the attempt behind another.
  abbrev at_pid : Marks
  at_pid = marks (to_string pid) (step b'-' m)

  abbrev at_attempt : Marks
  at_attempt = marks (to_string attempt) (step b'-' at_pid)

  marks-tail : marks (tail pid attempt extension) m ≡ marks (b'.' ∷ extension) at_attempt
  marks-tail =
      marks-append (to_string pid) (b'-' ∷ (to_string attempt ++ (b'.' ∷ extension))) (step b'-' m)
      ∙ marks-append (to_string attempt) (b'.' ∷ extension) (step b'-' at_pid)

  early-at_attempt : at_attempt.early ≡ m.last
  early-at_attempt =
      (digits-marks (to_string attempt) (step b'-' at_pid) (to_string-digits attempt)).1
      ∙ (digits-marks (to_string pid) (step b'-' m) (to_string-digits pid)).0

-- The two marks of a path: of its role and of its extension.
abbrev pub role_mark : Text → ℕ
role_mark p = (marks p start).early

abbrev pub extension_mark : Text → ℕ
extension_mark p = (marks p start).last

module _ (pid attempt : ℕ) (before role extension : Text) where
  abbrev pub path : Text
  path = before ++ (role ++ tail pid attempt extension)

  abbrev at_role : Marks
  at_role = marks role (marks before start)

  marks-path :
      marks path start ≡ marks (b'.' ∷ extension) (at_attempt pid attempt extension at_role)
  marks-path =
      marks-append before (role ++ tail pid attempt extension) start
      ∙ marks-append role (tail pid attempt extension) (marks before start)
      ∙ marks-tail pid attempt extension at_role

  early-at_role : (at_attempt pid attempt extension at_role).early ≡ at_role.last
  early-at_role = early-at_attempt pid attempt extension at_role

module _ (pid attempt : ℕ) (before : Text) where
  pub private_tmp :
      (role_mark (path pid attempt before (codes "private") (codes "tmp")) ≡ b'e')
      × (extension_mark (path pid attempt before (codes "private") (codes "tmp")) ≡ b'p')
  private_tmp =
      let e = marks-path pid attempt before (codes "private") (codes "tmp") in
      (
        ap (λ m. m.early) e ∙ early-at_role pid attempt before (codes "private") (codes "tmp"),
        ap (λ m. m.last) e,
      )

  pub public_tmp :
      (role_mark (path pid attempt before (codes "public") (codes "tmp")) ≡ b'c')
      × (extension_mark (path pid attempt before (codes "public") (codes "tmp")) ≡ b'p')
  public_tmp =
      let e = marks-path pid attempt before (codes "public") (codes "tmp") in
      (
        ap (λ m. m.early) e ∙ early-at_role pid attempt before (codes "public") (codes "tmp"),
        ap (λ m. m.last) e,
      )

  pub private_bak :
      (role_mark (path pid attempt before (codes "private") (codes "bak")) ≡ b'e')
      × (extension_mark (path pid attempt before (codes "private") (codes "bak")) ≡ b'k')
  private_bak =
      let e = marks-path pid attempt before (codes "private") (codes "bak") in
      (
        ap (λ m. m.early) e ∙ early-at_role pid attempt before (codes "private") (codes "bak"),
        ap (λ m. m.last) e,
      )

  pub public_bak :
      (role_mark (path pid attempt before (codes "public") (codes "bak")) ≡ b'c')
      × (extension_mark (path pid attempt before (codes "public") (codes "bak")) ≡ b'k')
  public_bak =
      let e = marks-path pid attempt before (codes "public") (codes "bak") in
      (
        ap (λ m. m.early) e ∙ early-at_role pid attempt before (codes "public") (codes "bak"),
        ap (λ m. m.last) e,
      )
