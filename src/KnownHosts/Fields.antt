-- ===== src/KnownHosts/Fields.antt =====
-- The host field of a line of known_hosts: what `host_field_bounds` finds, against a description of
-- the line as a lead, a field and a rest.
use leantty.Prelude.{
  ℕ, ◌+◌, Bool, true, false, not, List, [], ◌∷◌, ◌++◌, ◌≡◌, refl, ap, ◌∙◌, inl, inr, none, some,
  arith, Bool-cases, All, Text, take, drop, length, get_elem?,
}
use leantty.KnownHosts.{
  is_ascii_whitespace, skip_while, skip_ascii_whitespace, skip_ascii_non_whitespace,
}

abbrev pub IsBlank : ℕ → Type 0
IsBlank c = is_ascii_whitespace c ≡ true

abbrev pub IsSolid : ℕ → Type 0
IsSolid c = not (is_ascii_whitespace c) ≡ true

-- A text that does not begin with a character of the kind.
abbrev pub Stops : (ℕ → Bool) → Text → Type 0
Stops p [] = Unit
Stops p (c ∷ cs) = p c ≡ false

pub record Span (p : ℕ → Bool) (s : Text) : Type 0 where
  pub front : Text
  pub back : Text
  pub all_front : All (λ c. p c ≡ true) front
  pub stops : Stops p back
  pub splits : s ≡ front ++ back

pub span : (p : ℕ → Bool) (s : Text) → Span p s
span p [] = record { front = []; back = []; all_front = tt; stops = tt; splits = refl }
span p (c ∷ s) = elim (Bool-cases (p c)) [
  | inl more ↦
      let r = span p s in
      record {
        front = c ∷ r.front;
        back = r.back;
        all_front = (more, r.all_front);
        stops = r.stops;
        splits = ap (◌∷◌ c) r.splits;
      }
  | inr stop ↦ record { front = []; back = c ∷ s; all_front = tt; stops = stop; splits = refl }
]

skip_while-append :
    (p : ℕ → Bool) (a b : Text) (offset : ℕ)
    → All (λ c. p c ≡ true) a
    → Stops p b
    → skip_while p (a ++ b) offset ≡ offset + length a
unfolding skip_while
skip_while-append p [] [] offset h s = omega arith
skip_while-append p [] (c ∷ b) offset h s = rw s (omega arith)
skip_while-append p (c ∷ a) b offset h s =
    rw h.0 (skip_while-append p a b (offset + 1) h.1 s ∙ omega arith)

module _ {ℓ} {A : Type ℓ} where
  pub drop-append : (a b : List A) → drop (length a) (a ++ b) ≡ b
  drop-append [] b = refl
  drop-append (x ∷ a) b = drop-append a b

  pub take-append : (a b : List A) → take (length a) (a ++ b) ≡ a
  take-append [] b = refl
  take-append (x ∷ a) b = ap (◌∷◌ x) (take-append a b)

  pub get_elem?-append :
      (a : List A) (x : A) (b : List A) → get_elem? (a ++ x ∷ b) (length a) ≡ some x
  get_elem?-append [] x b = refl
  get_elem?-append (y ∷ a) x b = get_elem?-append a x b

  pub get_elem?-length : (a : List A) → get_elem? a (length a) ≡ none
  get_elem?-length [] = refl
  get_elem?-length (y ∷ a) = get_elem?-length a

-- A run of blanks from `length a` on.
pub skip_blank :
    (a w b : Text)
    → All IsBlank w
    → Stops is_ascii_whitespace b
    → skip_ascii_whitespace (a ++ (w ++ b)) (length a) ≡ length a + length w
skip_blank a w b h s =
    rw (drop-append a (w ++ b)) (skip_while-append is_ascii_whitespace w b (length a) h s)

pub skip_solid :
    (a t b : Text)
    → All IsSolid t
    → Stops (λ c. not (is_ascii_whitespace c)) b
    → skip_ascii_non_whitespace (a ++ (t ++ b)) (length a) ≡ length a + length t
skip_solid a t b h s =
    rw (drop-append a (t ++ b))
      (skip_while-append (λ c. not (is_ascii_whitespace c)) t b (length a) h s)
