-- ===== src/KnownHosts/HostView.antt =====
-- `host_field_bounds` of known_hosts.rs finds exactly the host fields that `HostView` describes.
use mathlib.Core.Path.{subst₂}
use mathlib.Core.List.{append_assoc, append-nil}
use leantty.Prelude.{
  ℕ, ◌+◌, ◌-◌, Bool, not, [], ◌∷◌, ◌++◌, ◌≡◌, ◌≢◌, refl, sym, ap, ◌∙◌, ◌⊎◌, inl, inr, none, some,
  arith, ◌==◌, Bool-cases, ==_iff, All, Text, length, length-append, get_elem?, starts_with,
  if◌then◌else◌,
}
use leantty.KnownHosts.{
  is_ascii_whitespace, skip_ascii_whitespace, skip_ascii_non_whitespace, slice, marked_bounds,
  host_field_bounds,
}
use leantty.KnownHosts.Fields.{
  IsBlank, IsSolid, Stops, span, drop-append, take-append, get_elem?-append, get_elem?-length,
  skip_blank, skip_solid,
}

abbrev is_solid : ℕ → Bool
is_solid c = not (is_ascii_whitespace c)

-- A first field that is neither a comment nor a marker.
abbrev pub IsPlainHead : Text → Type 0
IsPlainHead [] = ⊥
IsPlainHead (c ∷ cs) = (c ≢ b'#') × (c ≢ b'@')

-- Blanks, a marker such as `@revoked`, and blanks.
pub record IsMarked (lead : Text) : Type 0 where
  pub before : Text
  pub marker : Text
  pub after : Text
  pub before_blank : All IsBlank before
  pub marker_solid : All IsSolid marker
  pub after_blank : All IsBlank after
  pub after_ne_nil : after ≢ []
  pub splits : lead ≡ before ++ ((b'@' ∷ marker) ++ after)

pub record HostView (line : Text) : Type 0 where
  pub lead : Text
  pub field : Text
  pub rest : Text
  pub splits : line ≡ lead ++ (field ++ rest)
  pub field_ne_nil : field ≢ []
  pub field_solid : All IsSolid field
  pub rest_stops : Stops is_solid rest
  pub lead_form : All IsBlank lead × IsPlainHead field ⊎ IsMarked lead

blank-Stops : (a b : Text) → All IsSolid a → a ≢ [] → Stops is_ascii_whitespace (a ++ b)
blank-Stops [] b h n = absurd (n refl)
blank-Stops (c ∷ a) b h n = ground arith

solid-Stops : (a b : Text) → All IsBlank a → a ≢ [] → Stops is_solid (a ++ b)
solid-Stops [] b h n = absurd (n refl)
solid-Stops (c ∷ a) b h n = ground arith

pub slice-append : (a t b : Text) → slice (a ++ (t ++ b)) (length a) (length a + length t) ≡ t
slice-append a t b =
    let width : length a + length t - length a ≡ length t = omega arith in
    rw (width, drop-append a (t ++ b)) (take-append t b)

starts_with-one : (c : ℕ) (t : Text) (x : ℕ) → starts_with (c ∷ t) (x ∷ []) ≡ (c == x)
unfolding starts_with
starts_with-one c [] x = ground arith
starts_with-one c (d ∷ t) x = ground arith

plain_bounds :
    (a : Text) (c : ℕ) (t b : Text)
    → All IsBlank a
    → All IsSolid (c ∷ t)
    → Stops is_solid b
    → host_field_bounds (a ++ ((c ∷ t) ++ b)) ≡ (
        if c == b'#'
        then none
        else if c == b'@'
        then marked_bounds (a ++ ((c ∷ t) ++ b)) (length a + length (c ∷ t))
        else some (length a, length a + length (c ∷ t)))
unfolding host_field_bounds
plain_bounds a c t b ha ht hb =
    let line : Text = a ++ ((c ∷ t) ++ b) in
    let offset : skip_ascii_whitespace line 0 ≡ length a =
      skip_blank [] a ((c ∷ t) ++ b) ha (blank-Stops (c ∷ t) b ht (λ e. cc)) ∙ omega arith in
    let first_end : skip_ascii_non_whitespace line (length a) ≡ length a + length (c ∷ t) =
      skip_solid a (c ∷ t) b ht hb in
    rw (
      offset,
      first_end,
      get_elem?-append a c (t ++ b),
      slice-append a (c ∷ t) b,
      starts_with-one c t b'@',
    )

marked_bounds-append :
    (a v f b : Text)
    → All IsBlank v
    → All IsSolid f
    → f ≢ []
    → Stops is_solid b
    → marked_bounds (a ++ (v ++ (f ++ b))) (length a)
      ≡ some (length a + length v, length a + length v + length f)
unfolding marked_bounds
marked_bounds-append a v [] b hv hf n hb = absurd (n refl)
marked_bounds-append a v (c ∷ f) b hv hf n hb =
    let line : Text = a ++ (v ++ ((c ∷ f) ++ b)) in
    let again : (a ++ v) ++ ((c ∷ f) ++ b) ≡ line = append_assoc a v ((c ∷ f) ++ b) in
    let offset : skip_ascii_whitespace line (length a) ≡ length a + length v =
      skip_blank a v ((c ∷ f) ++ b) hv (blank-Stops (c ∷ f) b hf n) in
    let width : length (a ++ v) ≡ length a + length v = length-append a v in
    let host_end : skip_ascii_non_whitespace line (length a + length v)
        ≡ length a + length v + length (c ∷ f) =
      subst₂ (λ l n. skip_ascii_non_whitespace l n ≡ n + length (c ∷ f)) again width
        (skip_solid (a ++ v) (c ∷ f) b hf hb) in
    let there : get_elem? line (length a + length v) ≡ some c =
      subst₂ (λ l n. get_elem? l n ≡ some c) again width (get_elem?-append (a ++ v) c (f ++ b)) in
    rw (offset, there, host_end)

marked-bounds :
    (b : Text) (m : IsMarked b) (f r : Text)
    → All IsSolid f
    → f ≢ []
    → Stops is_solid r
    → host_field_bounds (b ++ (f ++ r)) ≡ some (length b, length b + length f)
marked-bounds b m f r hf n hr =
    let lead : Text = m.before ++ (b'@' ∷ m.marker) in
    let tail : Text = m.after ++ (f ++ r) in
    let regroup : b ++ (f ++ r) ≡ m.before ++ ((b'@' ∷ m.marker) ++ tail) =
      ap (λ x. x ++ (f ++ r)) m.splits ∙ simp append_assoc in
    let regroup' : lead ++ tail ≡ m.before ++ ((b'@' ∷ m.marker) ++ tail) =
      append_assoc m.before (b'@' ∷ m.marker) tail in
    let first : length lead ≡ length m.before + length (b'@' ∷ m.marker) =
      length-append m.before (b'@' ∷ m.marker) in
    let whole : length b ≡ length lead + length m.after =
      ap length m.splits
      ∙ ap length (sym (append_assoc m.before (b'@' ∷ m.marker) m.after))
      ∙ length-append lead m.after in
    let marked : marked_bounds (m.before ++ ((b'@' ∷ m.marker) ++ tail))
          (length m.before + length (b'@' ∷ m.marker))
        ≡ some (length lead + length m.after, length lead + length m.after + length f) =
      subst₂
        (λ l n.
          marked_bounds l n
          ≡ some (length lead + length m.after, length lead + length m.after + length f))
        regroup' first (marked_bounds-append lead m.after f r m.after_blank hf n hr) in
    rw (regroup, whole)
      (plain_bounds m.before b'@' m.marker tail m.before_blank (refl, m.marker_solid)
          (solid-Stops m.after (f ++ r) m.after_blank m.after_ne_nil)
        ∙ marked)

plain-HostView_bounds :
    (a f r : Text)
    → All IsBlank a
    → IsPlainHead f
    → All IsSolid f
    → Stops is_solid r
    → host_field_bounds (a ++ (f ++ r)) ≡ some (length a, length a + length f)
plain-HostView_bounds a [] r ha p hf hr = elim p [ ]
plain-HostView_bounds a (c ∷ f) r ha p hf hr =
    plain_bounds a c f r ha hf hr ∙ ground (arith, p.0, p.1)

pub host_field_bounds-HostView :
    {line : Text} (v : HostView line)
    → host_field_bounds line ≡ some (length v.lead, length v.lead + length v.field)
host_field_bounds-HostView v = rw v.splits (elim v.lead_form [
  | inl (blank, plain) ↦
      plain-HostView_bounds v.lead v.field v.rest blank plain v.field_solid v.rest_stops
  | inr m ↦ marked-bounds v.lead m v.field v.rest v.field_solid v.field_ne_nil v.rest_stops
])

blank-bounds : (w : Text) → All IsBlank w → host_field_bounds w ≡ none
unfolding host_field_bounds
blank-bounds w h =
    let offset : skip_ascii_whitespace w 0 ≡ length w =
      rw (append-nil) at (skip_blank [] w [] h tt) ∙ omega arith in
    rw (offset, get_elem?-length w)

end_bounds : (a v : Text) → All IsBlank v → marked_bounds (a ++ v) (length a) ≡ none
unfolding marked_bounds
end_bounds a v h =
    let offset : skip_ascii_whitespace (a ++ v) (length a) ≡ length (a ++ v) =
      rw (append-nil) at (skip_blank a v [] h tt) ∙ sym (length-append a v) in
    rw (offset, get_elem?-length (a ++ v))

All-blank-Stops : (v : Text) → All IsBlank v → Stops is_solid v
All-blank-Stops [] h = tt
All-blank-Stops (c ∷ v) h = ground arith

marker-bounds :
    (w t v : Text)
    → All IsBlank w
    → All IsSolid t
    → All IsBlank v
    → host_field_bounds (w ++ ((b'@' ∷ t) ++ v)) ≡ none
marker-bounds w t v hw ht hv =
    plain_bounds w b'@' t v hw (refl, ht) (All-blank-Stops v hv)
    ∙ subst₂ (λ l n. marked_bounds l n ≡ none) (append_assoc w (b'@' ∷ t) v)
        (length-append w (b'@' ∷ t)) (end_bounds (w ++ (b'@' ∷ t)) v hv)

abbrev pub Found : Text → Type 0
Found l = (host_field_bounds l ≡ none) ⊎ HostView l

-- What stands behind a marker: nothing, or a host field.
behind_marker :
    (w t v s : Text)
    → All IsBlank w
    → All IsSolid t
    → All IsBlank v
    → Stops is_ascii_whitespace s
    → Stops is_solid (v ++ s)
    → Found (w ++ ((b'@' ∷ t) ++ (v ++ s)))
behind_marker w t v [] hw ht hv hs h = inl (rw (append-nil v) (marker-bounds w t v hw ht hv))
behind_marker w t [] (d ∷ s) hw ht hv hs h = absurd (ground arith)
behind_marker w t (x ∷ v) (d ∷ s) hw ht hv hs h =
    let sp = span is_solid s in
    inr (record {
      lead = w ++ ((b'@' ∷ t) ++ (x ∷ v));
      field = d ∷ sp.front;
      rest = sp.back;
      splits = rw (← sp.splits) (simp append_assoc);
      field_ne_nil = λ e. cc;
      field_solid = (ground arith, sp.all_front);
      rest_stops = sp.stops;
      lead_form = inr (record {
        before = w;
        marker = t;
        after = x ∷ v;
        before_blank = hw;
        marker_solid = ht;
        after_blank = hv;
        after_ne_nil = λ e. cc;
        splits = refl;
      });
    })

after_marker :
    (w t r : Text)
    → All IsBlank w
    → All IsSolid t
    → Stops is_solid r
    → Found (w ++ ((b'@' ∷ t) ++ r))
after_marker w t r hw ht hr =
    let sp = span is_ascii_whitespace r in
    rw sp.splits
      (behind_marker w t sp.front sp.back hw ht sp.all_front sp.stops (rw sp.splits at hr))

plain_field :
    (w : Text) (c : ℕ) (f q : Text)
    → All IsBlank w
    → All IsSolid (c ∷ f)
    → Stops is_solid q
    → Found (w ++ ((c ∷ f) ++ q))
plain_field w c f q hw hf hq = elim (Bool-cases (c == b'#')) [
  | inl comment ↦ inl (plain_bounds w c f q hw hf hq ∙ rw comment)
  | inr written ↦ elim (Bool-cases (c == b'@')) [
    | inl marker ↦ rw ((==_iff c b'@').0 marker) (after_marker w f q hw hf.1 hq)
    | inr plain ↦ inr (record {
      lead = w;
      field = c ∷ f;
      rest = q;
      splits = refl;
      field_ne_nil = λ e. cc;
      field_solid = hf;
      rest_stops = hq;
      lead_form = inl (hw, (ground arith, ground arith));
    })
  ]
]

at_first : (w s : Text) → All IsBlank w → Stops is_ascii_whitespace s → Found (w ++ s)
at_first w [] hw hs = inl (rw append-nil (blank-bounds w hw))
at_first w (c ∷ s) hw hs =
    let sp = span is_solid s in
    rw sp.splits (plain_field w c sp.front sp.back hw (ground arith, sp.all_front) sp.stops)

-- A line has no host field, or is a lead, a field and a rest.
pub host_field_bounds-cases : (line : Text) → Found line
host_field_bounds-cases line =
    let sp = span is_ascii_whitespace line in
    rw sp.splits (at_first sp.front sp.back sp.all_front sp.stops)
