-- ===== src/KnownHosts/Patterns.antt =====
-- The comma-separated patterns of a host field: `split`, `join` and what is kept of them.
use mathlib.Core.Path.{subst}
use leantty.Prelude.{
  ℕ, Bool, true, false, not, List, [], ◌∷◌, ◌++◌, ◌≡◌, ◌≢◌, refl, sym, ap, ◌∙◌, inl, inr, arith,
  ◌==◌, Bool-cases, All, All-append, any, keep, Text, split, cons_head, join,
}

module _ {ℓ} {A : Type ℓ} where
  pub keep_yes : (p : A → Bool) (x : A) (xs : List A) → p x ≡ true → keep p (x ∷ xs) ≡ x ∷ keep p xs
  keep_yes p x xs h = ground arith

  keep_no : (p : A → Bool) (x : A) (xs : List A) → p x ≡ false → keep p (x ∷ xs) ≡ keep p xs
  keep_no p x xs h = ground arith

  pub All-keep {κ} : (P : A → Type κ) (p : A → Bool) (xs : List A) → All P xs → All P (keep p xs)
  All-keep P p [] h = tt
  All-keep P p (x ∷ xs) h = elim (Bool-cases (p x)) [
    | inl y ↦ subst (All P) (sym (keep_yes p x xs y)) (h.0, All-keep P p xs h.1)
    | inr n ↦ subst (All P) (sym (keep_no p x xs n)) (All-keep P p xs h.1)
  ]

  pub any-keep-not : (p : A → Bool) (xs : List A) → any p (keep (λ x. not (p x)) xs) ≡ false
  any-keep-not p [] = refl
  any-keep-not p (x ∷ xs) = ground (arith, any-keep-not p xs)

module _ (P : ℕ → Type 0) where
  All-cons_head : (c : ℕ) (ps : List Text) → P c → All (All P) ps → All (All P) (cons_head c ps)
  All-cons_head c [] h t = ((h, tt), tt)
  All-cons_head c (p ∷ ps) h t = ((h, t.0), t.1)

  pub split-All : (sep : ℕ) (s : Text) → All P s → All (All P) (split sep s)
  unfolding split
  split-All sep [] h = (tt, tt)
  split-All sep (c ∷ s) h = elim (Bool-cases (c == sep)) [
    | inl y ↦ rw y (tt, split-All sep s h.1)
    | inr n ↦ rw n (All-cons_head c (split sep s) h.0 (split-All sep s h.1))
  ]

  pub join-All : (sep : ℕ) (ps : List Text) → P sep → All (All P) ps → All P (join sep ps)
  unfolding join
  join-All sep [] h t = tt
  join-All sep (p ∷ []) h t = t.0
  join-All sep (p ∷ q ∷ ps) h t =
      All-append P p (sep ∷ join sep (q ∷ ps)) t.0 (h, join-All sep (q ∷ ps) h t.1)

abbrev pub Avoids : ℕ → Text → Type 0
Avoids sep = All (λ c. c ≢ sep)

Avoids-cons_head :
    (sep c : ℕ) (ps : List Text) → c ≢ sep → All (Avoids sep) ps → All (Avoids sep) (cons_head c ps)
Avoids-cons_head sep c [] h t = ((h, tt), tt)
Avoids-cons_head sep c (p ∷ ps) h t = ((h, t.0), t.1)

pub split-Avoids : (sep : ℕ) (s : Text) → All (Avoids sep) (split sep s)
unfolding split
split-Avoids sep [] = (tt, tt)
split-Avoids sep (c ∷ s) = elim (Bool-cases (c == sep)) [
  | inl y ↦ rw y (tt, split-Avoids sep s)
  | inr n ↦ rw n (Avoids-cons_head sep c (split sep s) (ground arith) (split-Avoids sep s))
]

pub split-piece : (sep : ℕ) (p : Text) → Avoids sep p → split sep p ≡ p ∷ []
unfolding split
split-piece sep [] h = refl
split-piece sep (c ∷ p) h = ground (arith, split-piece sep p h.1)

split-append : (sep : ℕ) (p s : Text) → Avoids sep p → split sep (p ++ sep ∷ s) ≡ p ∷ split sep s
unfolding split
split-append sep [] s h = ground arith
split-append sep (c ∷ p) s h = ground (arith, split-append sep p s h.1)

-- Splitting what was joined gives the pieces back.
pub split-join :
    (sep : ℕ) (p : Text) (ps : List Text)
    → All (Avoids sep) (p ∷ ps)
    → split sep (join sep (p ∷ ps)) ≡ p ∷ ps
unfolding join
split-join sep p [] h = split-piece sep p h.0
split-join sep p (q ∷ ps) h =
    split-append sep p (join sep (q ∷ ps)) h.0 ∙ ap (◌∷◌ p) (split-join sep q ps h.1)
