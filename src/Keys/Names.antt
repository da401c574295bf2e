-- ===== src/Keys/Names.antt =====
-- The names that leantty_ssh/leantty-ssh-core/src/keygen.rs accepts for a key, for an export and for a
-- comment. Lower case is that of ASCII: no other letter becomes one of these in lower case.
use leantty.Prelude.{
  ℕ, ◌+◌, ◌≤◌, Bool, true, false, not, ◌&&◌, ◌||◌, ltb, leb, ◌==◌, List, [], ◌∷◌, ◌++◌, map, none,
  some, if◌then◌else◌, is_empty, any, all, ◌≡◌, ◌≢◌, refl, ◌⊎◌, arith, All, Text, codes, text_eq,
  text_eq_iff, starts_with, strip_suffix, is_control, is_ascii_alphanumeric, str_len, Result, ok,
}
use leantty.Prelude.{◌>>◌, guard}

abbrev pub ascii_lower : ℕ → ℕ
ascii_lower c = if leb b'A' c && leb c b'Z' then c + 32 else c

abbrev pub to_ascii_lowercase : Text → Text
to_ascii_lowercase s = map ascii_lower s

unfoldable pub ends_with : Text → Text → Bool
ends_with s suffix = elim (strip_suffix suffix s) [ none ↦ false | some rest ↦ true ]

unfoldable pub contains : Text → Text → Bool
contains [] piece = is_empty piece
contains (c ∷ s) piece = starts_with (c ∷ s) piece || contains s piece

abbrev pub is_name_char : ℕ → Bool
is_name_char c = is_ascii_alphanumeric c || (c == b'.' || (c == b'_' || c == b'-'))

unfoldable pub is_dots : Text → Bool
is_dots name = is_empty name || (text_eq name (codes ".") || text_eq name (codes ".."))

abbrev pub reserved_names : List Text
reserved_names =
    codes "config"
    ∷ codes "known_hosts"
    ∷ codes "authorized_keys"
    ∷ codes "rc"
    ∷ codes "environment"
    ∷ codes "moduli"
    ∷ []

unfoldable pub is_reserved : Text → Bool
is_reserved lower =
    any (λ reserved. text_eq lower reserved || starts_with lower (reserved ++ codes "."))
      reserved_names

unfoldable pub validate_key_name : Text → Result (Unit {0}) Text
validate_key_name file_name = do
  guard (not (is_dots file_name)) (codes "invalid key name")
  guard (not (ends_with file_name (codes ".pub") || not (all is_name_char file_name)))
      (codes "invalid key name")
  guard (not (is_reserved (to_ascii_lowercase file_name)))
      (codes "key name conflicts with SSH control file")

unfoldable pub validate_export_file_name : Text → Result (Unit {0}) Text
validate_export_file_name file_name = do
  guard (not (is_dots file_name)) (codes "invalid export file name")
  guard
      (not (
        ends_with (to_ascii_lowercase file_name) (codes ".pub")
        || not (all is_name_char file_name)))
      (codes "invalid export file name")

abbrev pub max_key_comment_bytes : ℕ
max_key_comment_bytes = 1023

unfoldable pub validate_key_comment : Text → Result (Unit {0}) Text
validate_key_comment comment = do
  guard (not (ltb max_key_comment_bytes (str_len comment)))
      (codes "key comment exceeds 1023 UTF-8 bytes")
  guard (not (any is_control comment)) (codes "key comment contains control characters")

-- A name in a directory: not empty, no `.` or `..`, and of letters, digits, `.`, `_` and `-`.
abbrev pub IsNameChar : ℕ → Type 0
IsNameChar c =
    (b'0' ≤ c) × (c ≤ b'9')
    ⊎ (b'A' ≤ c) × (c ≤ b'Z')
    ⊎ (b'a' ≤ c) × (c ≤ b'z')
    ⊎ (c ≡ b'.')
    ⊎ (c ≡ b'_')
    ⊎ (c ≡ b'-')

pub record IsFileName (name : Text) : Type 0 where
  pub not_empty : name ≢ []
  pub not_here : name ≢ codes "."
  pub not_up : name ≢ codes ".."
  pub chars : All IsNameChar name

all-IsNameChar : (s : Text) → all is_name_char s ≡ true → All IsNameChar s
all-IsNameChar [] h = tt
all-IsNameChar (c ∷ s) h = (ground arith, all-IsNameChar s (ground arith))

is_dots-false :
    (name : Text) → is_dots name ≡ false → all is_name_char name ≡ true → IsFileName name
unfolding is_dots
is_dots-false name h k = record {
  not_empty = λ e. ground arith;
  not_here = λ e. ground (arith, text_eq_iff name (codes "."));
  not_up = λ e. ground (arith, text_eq_iff name (codes ".."));
  chars = all-IsNameChar name k;
}

guards-ok :
    (a b : Bool) (e f : Text) (r : Result (Unit {0}) Text)
    → (guard (not a) e >> (guard (not b) f >> r)) ≡ ok tt
    → (a ≡ false) × (b ≡ false) × (r ≡ ok tt)
guards-ok false false e f r h = (refl, refl, h)
guards-ok false true e f r h = cc
guards-ok true b e f r h = cc

plain_name : (ends chars : Bool) → ends || not chars ≡ false → (ends ≡ false) × (chars ≡ true)
plain_name ends chars h = ground arith

guard-ok : (a : Bool) (e : Text) → guard (not a) e ≡ ok tt → a ≡ false
guard-ok false e h = refl
guard-ok true e h = cc

pub validate_key_name-IsFileName :
    (name : Text)
    → validate_key_name name ≡ ok tt
    → IsFileName name
      × (ends_with name (codes ".pub") ≡ false)
      × (is_reserved (to_ascii_lowercase name) ≡ false)
unfolding validate_key_name
validate_key_name-IsFileName name h =
    let invalid : Text = codes "invalid key name" in
    let conflict : Text = codes "key name conflicts with SSH control file" in
    let reserved : Bool = is_reserved (to_ascii_lowercase name) in
    let (dots, badly, rest) =
      guards-ok (is_dots name) (ends_with name (codes ".pub") || not (all is_name_char name))
        invalid invalid (guard (not reserved) conflict) h in
    let (plain, chars) = plain_name (ends_with name (codes ".pub")) (all is_name_char name) badly in
    (is_dots-false name dots chars, plain, guard-ok reserved conflict rest)

abbrev done : Result (Unit {0}) Text
done = ok tt

unlast :
    (a b : Bool) (e : Text)
    → (guard (not a) e >> guard (not b) e) ≡ done
    → (guard (not a) e >> (guard (not b) e >> done)) ≡ done
unlast false false e h = h
unlast false true e h = h
unlast true b e h = h

pub validate_export_file_name-IsFileName :
    (name : Text)
    → validate_export_file_name name ≡ ok tt
    → IsFileName name × (ends_with (to_ascii_lowercase name) (codes ".pub") ≡ false)
unfolding validate_export_file_name
validate_export_file_name-IsFileName name h =
    let invalid : Text = codes "invalid export file name" in
    let suffixed : Bool = ends_with (to_ascii_lowercase name) (codes ".pub") in
    let badly : Bool = suffixed || not (all is_name_char name) in
    let (dots, wrong, rest) =
      guards-ok (is_dots name) badly invalid invalid (ok tt)
        (unlast (is_dots name) badly invalid h) in
    let (plain, chars) = plain_name suffixed (all is_name_char name) wrong in
    (is_dots-false name dots chars, plain)
