-- ===== src/KnownHosts/Cleared.antt =====
-- What an edit of known_hosts.rs leaves of one line is passed over by a search for the same target.
use mathlib.Core.List.{append-nil, append_assoc}
use mathlib.Core.Path.{subst}
use leantty.Prelude.{
  false, not, List, [], ◌∷◌, ◌++◌, map, ◌≡◌, refl, sym, ap, ◌∙◌, ◌⊎◌, inl, inr, none, Bool-cases,
  All, All-append, any, keep, is_empty, if◌then◌else◌, Text, split, join, concat,
}
use leantty.KnownHosts.{
  KnownHostsRemoval, LineEdit, unchanged, removed_line, replaced, Crypto, pattern_matches,
  edit_bounds, matches_bounds, remove_target_from_line, line_matches_target, split_line_ending,
  apply_edit, remove_lines, host_field_bounds,
}
use leantty.KnownHosts.Lines.{NoNewline}
use leantty.KnownHosts.Endings.{LineView, IsEnding, ends_cr, split_line_ending-LineView}
use leantty.KnownHosts.Fields.{IsSolid}
use leantty.KnownHosts.HostView.{
  HostView, IsPlainHead, host_field_bounds-HostView, host_field_bounds-cases,
}
use leantty.KnownHosts.Patterns.{
  All-keep, any-keep-not, split-All, join-All, Avoids, split-Avoids, split-join,
}
use leantty.KnownHosts.Search.{edit_field, edit_field-match, edit_field-no_match, edit_bounds_lem}
use leantty.KnownHosts.Replace.{
  ArePlain, IsPlainLine, PlainAt, take-HostView, slice-HostView, drop-HostView, plain-HostView,
  with_field, ends_cr-with_field, IsPlainHead-join, NoNewline-left, NoNewline-right,
  NoNewline-IsSolid,
}

module _ (x : Crypto) (target : Text) where
  -- On a line whose fields are known, both operations work on the host field.
  line_matches-HostView :
      {line : Text} (v : HostView line)
      → line_matches_target x line target ≡ any (pattern_matches x target) (split b',' v.field)
  unfolding line_matches_target matches_bounds
  line_matches-HostView v = rw (host_field_bounds-HostView v, slice-HostView v)

  remove_target-HostView :
      {line : Text} (v : HostView line)
      → remove_target_from_line x line target ≡ edit_field x target v.lead v.field v.rest
  unfolding remove_target_from_line
  remove_target-HostView {line} v =
      rw (host_field_bounds-HostView v) (
        edit_bounds_lem x target line _ _ ∙ rw (take-HostView v, slice-HostView v, drop-HostView v))

  no_match-none :
      (line : Text) → host_field_bounds line ≡ none → line_matches_target x line target ≡ false
  unfolding line_matches_target matches_bounds
  no_match-none line h = rw h

  unchanged-none :
      (line : Text)
      → host_field_bounds line ≡ none
      → remove_target_from_line x line target ≡ unchanged
  unfolding remove_target_from_line edit_bounds
  unchanged-none line h = rw h

  -- What an edit of a line's body leaves: nothing, or a body that no longer matches and that can
  -- stand before the same ending.
  abbrev Cleared : Text → LineEdit → Type 0
  Cleared body unchanged = line_matches_target x body target ≡ false
  Cleared body removed_line = Unit
  Cleared body (replaced t) =
      (line_matches_target x t target ≡ false)
      × NoNewline t
      × (ends_cr body ≡ false → ends_cr t ≡ false)

  -- The host field with the patterns that are kept.
  retained-Cleared :
      {line : Text} (v : HostView line) (ps : List Text)
      → NoNewline line
      → All IsPlainHead ps
      → All (All IsSolid) ps
      → All (Avoids b',') ps
      → any (pattern_matches x target) ps ≡ false
      → Cleared line
          (if is_empty ps then removed_line else replaced (v.lead ++ (join b',' ps ++ v.rest)))
  retained-Cleared v [] n h s a m = tt
  retained-Cleared v (p ∷ ps) n h s a m =
      let f : Text = join b',' (p ∷ ps) in
      let plain : IsPlainHead f = IsPlainHead-join p ps h.0 in
      let solid : All IsSolid f = join-All IsSolid b',' (p ∷ ps) refl s in
      (
        line_matches-HostView (with_field v f plain solid) ∙ rw (split-join b',' p ps a) m,
        All-append _ v.lead (f ++ v.rest) (NoNewline-left v.lead _ (rw v.splits at n)) (
            All-append _ f v.rest (NoNewline-IsSolid f solid)
              (NoNewline-right v.field v.rest (NoNewline-right v.lead _ (rw v.splits at n)))),
        ends_cr-with_field v f plain solid,
      )

  field-Cleared :
      {line : Text} (v : HostView line)
      → NoNewline line
      → ArePlain v.field
      → Cleared line (edit_field x target v.lead v.field v.rest)
  field-Cleared {line} v n h =
      elim (Bool-cases (any (pattern_matches x target) (split b',' v.field))) [
        | inl y ↦ subst (Cleared line) (sym (edit_field-match x target v.lead v.field v.rest y)) (
            retained-Cleared v (keep (λ p. not (pattern_matches x target p)) (split b',' v.field)) n
              (All-keep IsPlainHead _ (split b',' v.field) h)
              (All-keep (All IsSolid) _ (split b',' v.field)
                (split-All IsSolid b',' v.field v.field_solid))
              (All-keep (Avoids b',') _ (split b',' v.field) (split-Avoids b',' v.field))
              (any-keep-not (pattern_matches x target) (split b',' v.field)))
        | inr none' ↦
            subst (Cleared line) (sym (edit_field-no_match x target v.lead v.field v.rest none'))
              (line_matches-HostView v ∙ none')
      ]

  -- Every plain line is cleared by its edit.
  body-Cleared :
      (body : Text)
      → NoNewline body
      → PlainAt body (host_field_bounds body)
      → Cleared body (remove_target_from_line x body target)
  body-Cleared body n p = elim (host_field_bounds-cases body) [
    | inl none' ↦ subst (Cleared body) (sym (unchanged-none body none')) (no_match-none body none')
    | inr v ↦
        subst (Cleared body) (sym (remove_target-HostView v))
          (field-Cleared v n (plain-HostView v p))
  ]

  -- What the removal writes for a line.
  abbrev pub edited_as : Text → Text × Text → Text
  edited_as l (line, ending) =
      (apply_edit x l ending (remove_target_from_line x line target)
        (record { content = []; removed = 0 })).content

  pub edited : Text → Text
  edited l = edited_as l (split_line_ending l)

  content-apply_edit :
      (l ending : Text) (e : LineEdit) (r : KnownHostsRemoval)
      → (apply_edit x l ending e r).content
        ≡ r.content ++ (apply_edit x l ending e (record { content = []; removed = 0 })).content
  unfolding apply_edit
  content-apply_edit l ending unchanged r = refl
  content-apply_edit l ending removed_line r = sym (append-nil r.content)
  content-apply_edit l ending (replaced t) r = refl

  pub content-remove_lines :
      (ls : List Text) (r : KnownHostsRemoval)
      → (remove_lines x target ls r).content ≡ r.content ++ concat (map edited ls)
  unfolding remove_lines edited
  content-remove_lines [] r = sym (append-nil r.content)
  content-remove_lines (l ∷ ls) r =
      let (line, ending) = split_line_ending l in
      content-remove_lines ls _
      ∙ rw (content-apply_edit l ending (remove_target_from_line x line target) r)
          (append_assoc r.content _ _)

  -- A line that the search passes over.
  abbrev pub Passed : Text → Type 0
  Passed l = line_matches_target x (split_line_ending l).0 target ≡ false

  IsEnding-replaced :
      (body t e : Text)
      → IsEnding body e
      → (ends_cr body ≡ false → ends_cr t ≡ false)
      → IsEnding t e
  IsEnding-replaced body t e (inl w) h = inl w
  IsEnding-replaced body t e (inr (inl (w, c))) h = inr (inl (w, h c))
  IsEnding-replaced body t e (inr (inr w)) h = inr (inr w)

  Passed-LineView :
      {l : Text} (v : LineView l) → line_matches_target x v.body target ≡ false → Passed l
  Passed-LineView v h = rw (split_line_ending-LineView v) h

  abbrev pub ClearedLine : Text → Text → Type 0
  ClearedLine ending m = (m ≡ []) ⊎ ((w : LineView m) × (w.ending ≡ ending) × Passed m)

  apply_edit-Cleared :
      {l : Text} (v : LineView l) (e : LineEdit)
      → Cleared v.body e
      → ClearedLine v.ending
          (apply_edit x l v.ending e (record { content = []; removed = 0 })).content
  unfolding apply_edit
  apply_edit-Cleared v unchanged c = inr (v, refl, Passed-LineView v c)
  apply_edit-Cleared v removed_line c = inl refl
  apply_edit-Cleared v (replaced t) c =
      let w : LineView (t ++ v.ending) = record {
        body = t;
        ending = v.ending;
        no_newline = c.1;
        is_ending = IsEnding-replaced v.body t v.ending v.is_ending c.2;
        splits = refl;
      } in
      inr (w, refl, Passed-LineView w c.0)

  edited-LineView :
      {l : Text} (v : LineView l)
      → edited l
        ≡ (apply_edit x l v.ending
            (remove_target_from_line x v.body target)
            (record { content = []; removed = 0 })).content
  unfolding edited
  edited-LineView {l} v = ap (edited_as l) (split_line_ending-LineView v)

  -- The edit of a whole line.
  pub edited-ClearedLine :
      {l : Text} (v : LineView l) → IsPlainLine l → ClearedLine v.ending (edited l)
  edited-ClearedLine v p = subst (ClearedLine v.ending) (sym (edited-LineView v)) (
      apply_edit-Cleared v (remove_target_from_line x v.body target)
        (body-Cleared v.body v.no_newline (rw (split_line_ending-LineView v) at p)))
