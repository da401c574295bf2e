-- ===== src/KnownHosts/Endings.antt =====
-- `split_line_ending` of known_hosts.rs: a line is a body and one of three endings.
use mathlib.Core.List.{append_assoc, append-nil}
use leantty.Prelude.{
  ℕ, Bool, true, false, [], ◌∷◌, ◌++◌, ◌≡◌, ◌≢◌, refl, sym, ap, ◌∙◌, ◌⊎◌, inl, inr, none, arith,
  ◌==◌, Bool-cases, Option-cases, Text, All-append, strip_suffix, split_inclusive,
}
use leantty.KnownHosts.{split_line_ending}
use leantty.KnownHosts.Lines.{
  NoNewline, split_inclusive-newline, strip_suffix-append, strip_suffix-eq_some,
}

abbrev pub ends_cr : Text → Bool
ends_cr [] = false
ends_cr (c ∷ []) = c == b'\r'
ends_cr (c ∷ d ∷ cs) = ends_cr (d ∷ cs)

abbrev pub crlf : Text
crlf = b'\r' ∷ b'\n' ∷ []

abbrev pub lf : Text
lf = b'\n' ∷ []

pub ends_cr-append : (a : Text) (c : ℕ) (b : Text) → ends_cr (a ++ c ∷ b) ≡ ends_cr (c ∷ b)
ends_cr-append [] c b = refl
ends_cr-append (x ∷ []) c b = refl
ends_cr-append (x ∷ y ∷ a) c b = ends_cr-append (y ∷ a) c b

ends_cr_view : (b : Text) → ends_cr b ≡ true → (b' : Text) × (b ≡ b' ++ b'\r' ∷ [])
ends_cr_view [] h = absurd (cc)
ends_cr_view (c ∷ []) h = ([], ground arith)
ends_cr_view (c ∷ d ∷ b) h = let (b', e) = ends_cr_view (d ∷ b) h in (c ∷ b', ap (◌∷◌ c) e)

-- The last newline of two equal texts.
append-lf-injective : (a b : Text) → a ++ lf ≡ b ++ lf → a ≡ b
append-lf-injective [] [] e = refl
append-lf-injective [] (y ∷ []) e = absurd (cc)
append-lf-injective [] (y ∷ z ∷ b) e = absurd (cc)
append-lf-injective (x ∷ []) [] e = absurd (cc)
append-lf-injective (x ∷ w ∷ a) [] e = absurd (cc)
append-lf-injective (x ∷ a) (y ∷ b) e = ground (arith, append-lf-injective a b)

not_NoNewline-lf : (b : Text) → ¬ NoNewline (b ++ lf)
not_NoNewline-lf [] h = h.0 refl
not_NoNewline-lf (c ∷ b) h = not_NoNewline-lf b h.1

abbrev pub IsEnding : Text → Text → Type 0
IsEnding b e = (e ≡ crlf) ⊎ (e ≡ lf) × (ends_cr b ≡ false) ⊎ (e ≡ [])

no_strip-crlf : (b : Text) → ends_cr b ≡ false → strip_suffix crlf (b ++ lf) ≡ none
no_strip-crlf b h = elim (Option-cases (strip_suffix crlf (b ++ lf))) [
  | inl none' ↦ none'
  | inr (b', e) ↦
      let same =
        append-lf-injective b (b' ++ b'\r' ∷ [])
          (strip_suffix-eq_some crlf (b ++ lf) b' e ∙ sym (append_assoc b' (b'\r' ∷ []) lf)) in
      absurd (ground (arith, ap ends_cr same, ends_cr-append b' b'\r' []))
]

no_strip-NoNewline :
    (suffix b c : Text) → suffix ≡ c ++ lf → NoNewline b → strip_suffix suffix b ≡ none
no_strip-NoNewline suffix b c s h = elim (Option-cases (strip_suffix suffix b)) [
  | inl none' ↦ none'
  | inr (b', e) ↦ absurd (
      not_NoNewline-lf (b' ++ c)
        (rw (strip_suffix-eq_some suffix b b' e, s, ← append_assoc b' c lf) at h))
]

pub split_line_ending-append :
    (b e : Text) → NoNewline b → IsEnding b e → split_line_ending (b ++ e) ≡ (b, e)
unfolding split_line_ending
split_line_ending-append b e n (inl w) = rw w (ground (arith, strip_suffix-append crlf b (λ x. cc)))
split_line_ending-append b e n (inr (inl (w, c))) =
    rw w (ground (arith, no_strip-crlf b c, strip_suffix-append lf b (λ x. cc)))
split_line_ending-append b e n (inr (inr w)) =
    rw (w, append-nil)
      (ground
        (arith, no_strip-NoNewline crlf b (b'\r' ∷ []) refl n, no_strip-NoNewline lf b [] refl n))

-- A line as its body and ending.
pub record LineView (l : Text) : Type 0 where
  pub body : Text
  pub ending : Text
  pub no_newline : NoNewline body
  pub is_ending : IsEnding body ending
  pub splits : l ≡ body ++ ending

NoNewline-left : (a b : Text) → NoNewline (a ++ b) → NoNewline a
NoNewline-left [] b h = tt
NoNewline-left (c ∷ a) b h = (h.0, NoNewline-left a b h.1)

pub complete-LineView : (b : Text) → NoNewline b → LineView (b ++ lf)
complete-LineView b n = elim (Bool-cases (ends_cr b)) [
  | inl cr ↦
      let (b', e) = ends_cr_view b cr in
      record {
        body = b';
        ending = crlf;
        no_newline = NoNewline-left b' (b'\r' ∷ []) (rw e at n);
        is_ending = inl refl;
        splits = rw e (append_assoc b' (b'\r' ∷ []) lf);
      }
  | inr plain ↦ record {
    body = b;
    ending = lf;
    no_newline = n;
    is_ending = inr (inl (refl, plain));
    splits = refl;
  }
]

abbrev pub last-LineView : (l : Text) → NoNewline l → LineView l
last-LineView l n = record {
  body = l;
  ending = [];
  no_newline = n;
  is_ending = inr (inr refl);
  splits = sym (append-nil l);
}

pub split_line_ending-LineView :
    {l : Text} (v : LineView l) → split_line_ending l ≡ (v.body, v.ending)
split_line_ending-LineView v =
    rw v.splits (split_line_ending-append v.body v.ending v.no_newline v.is_ending)

-- A line that ends in a newline has an ending, and a line with an ending is cut off whole.
pub ending-ne_nil : {l : Text} (v : LineView l) (b : Text) → l ≡ b ++ lf → v.ending ≢ []
ending-ne_nil v b e h = not_NoNewline-lf b (
    rw (sym (append-nil v.body) ∙ ap (λ t. v.body ++ t) (sym h) ∙ sym v.splits ∙ e) at v.no_newline)

complete-body :
    {l : Text} (v : LineView l) → v.ending ≢ [] → (b : Text) × NoNewline b × (l ≡ b ++ lf)
complete-body v h = elim v.is_ending [
  | inl w ↦ (
    v.body ++ b'\r' ∷ [],
    All-append _ v.body (b'\r' ∷ []) v.no_newline (λ e. ground arith, tt),
    v.splits ∙ ap (λ t. v.body ++ t) w ∙ sym (append_assoc v.body (b'\r' ∷ []) lf),
  )
  | inr (inl (w, _)) ↦ (v.body, v.no_newline, v.splits ∙ ap (λ t. v.body ++ t) w)
  | inr (inr w) ↦ absurd (h w)
]

pub split_inclusive-LineView :
    {l : Text} (v : LineView l) (rest : Text)
    → v.ending ≢ []
    → split_inclusive b'\n' (l ++ rest) ≡ l ∷ split_inclusive b'\n' rest
split_inclusive-LineView v rest h =
    let (b, n, e) = complete-body v h in
    rw (e, append_assoc b lf rest) (split_inclusive-newline b rest n)
