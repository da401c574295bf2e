-- ===== src/KnownHosts/Replace.antt =====
-- A line of known_hosts with another field in the place of its host field.
use mathlib.Core.List.{append-nil, append_assoc}
use leantty.Prelude.{
  ℕ, ◌+◌, false, List, [], ◌∷◌, ◌++◌, ◌≡◌, ◌≢◌, refl, sym, ◌∙◌, inl, inr, Option, none, some, arith,
  All, length, length-append, Text, split, join, take, drop,
}
use leantty.KnownHosts.{split_line_ending, host_field_bounds, slice}
use leantty.KnownHosts.Lines.{NoNewline}
use leantty.KnownHosts.Endings.{ends_cr, ends_cr-append}
use leantty.KnownHosts.Fields.{IsSolid, take-append, drop-append}
use leantty.KnownHosts.HostView.{slice-append, HostView, IsPlainHead, host_field_bounds-HostView}

-- The patterns that sshd(8) describes: none is empty or begins like a marker or a comment.
abbrev pub ArePlain : Text → Type 0
ArePlain field = All IsPlainHead (split b',' field)

abbrev pub PlainAt : Text → Option (ℕ × ℕ) → Type 0
PlainAt line none = Unit
PlainAt line (some (start, end)) = ArePlain (slice line start end)

abbrev pub IsPlainLine : Text → Type 0
IsPlainLine l = PlainAt (split_line_ending l).0 (host_field_bounds (split_line_ending l).0)

module _ {line : Text} (v : HostView line) where
  pub take-HostView : take (length v.lead) line ≡ v.lead
  take-HostView = rw v.splits (take-append v.lead (v.field ++ v.rest))

  pub slice-HostView : slice line (length v.lead) (length v.lead + length v.field) ≡ v.field
  slice-HostView = rw v.splits (slice-append v.lead v.field v.rest)

  pub drop-HostView : drop (length v.lead + length v.field) line ≡ v.rest
  drop-HostView =
      let width : length v.lead + length v.field ≡ length (v.lead ++ v.field) =
        sym (length-append v.lead v.field) in
      rw (v.splits, width, ← append_assoc) (drop-append (v.lead ++ v.field) v.rest)

  pub plain-HostView : PlainAt line (host_field_bounds line) → ArePlain v.field
  plain-HostView h = rw (host_field_bounds-HostView v, slice-HostView) at h

-- The last character of a solid text is no carriage return.
ends_cr-IsSolid : (t : Text) → All IsSolid t → ends_cr t ≡ false
ends_cr-IsSolid [] h = refl
ends_cr-IsSolid (c ∷ []) h = ground arith
ends_cr-IsSolid (c ∷ d ∷ t) h = ends_cr-IsSolid (d ∷ t) h.1

ends_cr-ne_nil : (a t : Text) → t ≢ [] → ends_cr (a ++ t) ≡ ends_cr t
ends_cr-ne_nil a [] h = absurd (h refl)
ends_cr-ne_nil a (c ∷ t) h = ends_cr-append a c t

pub NoNewline-right : (a b : Text) → NoNewline (a ++ b) → NoNewline b
NoNewline-right [] b h = h
NoNewline-right (c ∷ a) b h = NoNewline-right a b h.1

pub NoNewline-left : (a b : Text) → NoNewline (a ++ b) → NoNewline a
NoNewline-left [] b h = tt
NoNewline-left (c ∷ a) b h = (h.0, NoNewline-left a b h.1)

pub NoNewline-IsSolid : (t : Text) → All IsSolid t → NoNewline t
NoNewline-IsSolid [] h = tt
NoNewline-IsSolid (c ∷ t) h = (ground arith, NoNewline-IsSolid t h.1)

pub IsPlainHead-join :
    (p : Text) (ps : List Text) → IsPlainHead p → IsPlainHead (join b',' (p ∷ ps))
unfolding join
IsPlainHead-join [] ps h = elim h [ ]
IsPlainHead-join (c ∷ p) [] h = h
IsPlainHead-join (c ∷ p) (q ∷ ps) h = h

pub IsPlainHead-ne_nil : (p : Text) → IsPlainHead p → p ≢ []
IsPlainHead-ne_nil [] h = elim h [ ]
IsPlainHead-ne_nil (c ∷ p) h = λ e. cc

-- Another field in the place of a line's host field.
abbrev pub with_field :
    {line : Text} (v : HostView line) (f : Text)
    → IsPlainHead f
    → All IsSolid f
    → HostView (v.lead ++ (f ++ v.rest))
with_field v f h s = record {
  lead = v.lead;
  field = f;
  rest = v.rest;
  splits = refl;
  field_ne_nil = IsPlainHead-ne_nil f h;
  field_solid = s;
  rest_stops = v.rest_stops;
  lead_form = elim v.lead_form [ inl (blank, _) ↦ inl (blank, h) | inr m ↦ inr m ];
}

-- A text ends in a carriage return with another solid field only if it did before.
pub ends_cr-with_field :
    {line : Text} (v : HostView line) (f : Text)
    → IsPlainHead f
    → All IsSolid f
    → ends_cr line ≡ false
    → ends_cr (v.lead ++ (f ++ v.rest)) ≡ false
ends_cr-with_field v f h s e = go v.rest (rw v.splits at e)
  where
    go :
        (r : Text)
        → ends_cr (v.lead ++ (v.field ++ r)) ≡ false
        → ends_cr (v.lead ++ (f ++ r)) ≡ false
    go [] e = rw append-nil (ends_cr-ne_nil v.lead f (IsPlainHead-ne_nil f h) ∙ ends_cr-IsSolid f s)
    go (d ∷ r) e =
        rw (← append_assoc) (ends_cr-append (v.lead ++ f) d r)
        ∙ sym (ends_cr-append (v.lead ++ v.field) d r)
        ∙ rw append_assoc e
