-- ===== src/KnownHosts/Lines.antt =====
-- Lines and their endings, as known_hosts.rs cuts a file into them.
use leantty.Prelude.{
  ℕ, false, List, [], ◌∷◌, ◌++◌, ◌≡◌, ◌≢◌, refl, ap, ◌∙◌, ◌⊎◌, inl, inr, some, arith, ◌==◌,
  Bool-cases, All, length, length-append, Text, text_eq, text_eq_iff, text_eq_refl, cons_head,
  ==_iff, split_inclusive, strip_suffix, concat,
}

abbrev pub NoNewline : Text → Type 0
NoNewline = All (λ c. c ≢ b'\n')

pub split_inclusive-newline :
    (b rest : Text)
    → NoNewline b
    → split_inclusive b'\n' (b ++ b'\n' ∷ rest) ≡ (b ++ b'\n' ∷ []) ∷ split_inclusive b'\n' rest
unfolding split_inclusive
split_inclusive-newline [] rest h = refl
split_inclusive-newline (c ∷ b) rest h = ground (arith, split_inclusive-newline b rest h.1)

pub split_inclusive-last :
    (c : ℕ) (b : Text) → NoNewline (c ∷ b) → split_inclusive b'\n' (c ∷ b) ≡ (c ∷ b) ∷ []
unfolding split_inclusive
split_inclusive-last c [] h = ground arith
split_inclusive-last c (d ∷ b) h = ground (arith, split_inclusive-last d b h.1)

-- The last line may lack its newline, no other line does, and no line is empty.
abbrev pub IsLines : List Text → Type 0
IsLines [] = Unit
IsLines (l ∷ ls) =
    ((b : Text) × (l ≡ b ++ b'\n' ∷ []) × NoNewline b) × IsLines ls
    ⊎ (l ≢ []) × NoNewline l × (ls ≡ [])

IsLines-cons_line :
    (b : Text) (ls : List Text) → NoNewline b → IsLines ls → IsLines ((b ++ b'\n' ∷ []) ∷ ls)
IsLines-cons_line b ls h t = inl ((b, refl, h), t)

concat-cons_head : (c : ℕ) (ls : List Text) → concat (cons_head c ls) ≡ c ∷ concat ls
concat-cons_head c [] = refl
concat-cons_head c (l ∷ ls) = refl

IsLines-cons_head : (c : ℕ) (ls : List Text) → c ≢ b'\n' → IsLines ls → IsLines (cons_head c ls)
IsLines-cons_head c [] h t = inr (λ e. cc, (h, tt), refl)
IsLines-cons_head c (l ∷ ls) h (inl ((b, e, n), t)) = inl ((c ∷ b, ap (◌∷◌ c) e, (h, n)), t)
IsLines-cons_head c (l ∷ ls) h (inr (ne, n, e)) = inr (λ e'. cc, (h, n), e)

-- Cutting at newlines loses nothing.
pub concat-split_inclusive : (s : Text) → concat (split_inclusive b'\n' s) ≡ s
unfolding split_inclusive
concat-split_inclusive [] = refl
concat-split_inclusive (c ∷ s) = elim (Bool-cases (c == b'\n')) [
  | inl end ↦ rw end (ap (◌∷◌ c) (concat-split_inclusive s))
  | inr more ↦
      rw more (concat-cons_head c (split_inclusive b'\n' s) ∙ ap (◌∷◌ c) (concat-split_inclusive s))
]

pub split_inclusive-IsLines : (s : Text) → IsLines (split_inclusive b'\n' s)
unfolding split_inclusive
split_inclusive-IsLines [] = tt
split_inclusive-IsLines (c ∷ s) = elim (Bool-cases (c == b'\n')) [
  | inl end ↦
      rw (end, (==_iff c b'\n').0 end)
        (IsLines-cons_line [] (split_inclusive b'\n' s) tt (split_inclusive-IsLines s))
  | inr more ↦
      rw more
        (IsLines-cons_head c (split_inclusive b'\n' s) (ground arith) (split_inclusive-IsLines s))
]

longer-text_eq : (c : ℕ) (b suffix : Text) → text_eq (c ∷ (b ++ suffix)) suffix ≡ false
longer-text_eq c b suffix = elim (Bool-cases (text_eq (c ∷ (b ++ suffix)) suffix)) [
  | inl same ↦ absurd (
      omega (
        arith,
        ap length ((text_eq_iff (c ∷ (b ++ suffix)) suffix).0 same),
        length-append {0} b suffix,
      ))
  | inr other ↦ other
]

pub strip_suffix-append :
    (suffix b : Text) → suffix ≢ [] → strip_suffix suffix (b ++ suffix) ≡ some b
unfolding strip_suffix
strip_suffix-append [] [] h = absurd (h refl)
strip_suffix-append (x ∷ xs) [] h = ground (arith, text_eq_refl (x ∷ xs))
strip_suffix-append suffix (c ∷ b) h =
    ground (arith, longer-text_eq c b suffix, strip_suffix-append suffix b h)

pub strip_suffix-eq_some : (suffix s b : Text) → strip_suffix suffix s ≡ some b → s ≡ b ++ suffix
unfolding strip_suffix
strip_suffix-eq_some suffix [] b h = ground (arith, text_eq_iff [] suffix)
strip_suffix-eq_some suffix (c ∷ s) [] h = ground (arith, text_eq_iff (c ∷ s) suffix)
strip_suffix-eq_some suffix (c ∷ s) (d ∷ b) h =
    ground (arith, text_eq_iff (c ∷ s) suffix, strip_suffix-eq_some suffix s b)
