-- ===== src/KnownHosts/Search.antt =====
-- The two operations of known_hosts.rs agree: `find_known_host_entries` counts the lines that
-- `remove_known_host_entries` edits.
use mathlib.Core.List.{append-nil, append_assoc}
use leantty.Prelude.{
  ℕ, ◌+◌, Bool, true, false, not, ◌||◌, List, [], ◌∷◌, ◌++◌, ◌≡◌, refl, ap, ◌∙◌, inl, inr, Option,
  none, some, arith, Bool-cases, any, keep, is_empty, if◌then◌else◌, Text, split, split_inclusive,
  join, u32, Result, ok, err, take, drop,
}
use leantty.KnownHosts.Patterns.{keep_yes}
use leantty.KnownHosts.{
  KnownHostsRemoval, KnownHostsQuery, LineEdit, unchanged, removed_line, replaced, Crypto,
  pattern_matches, scan_patterns, edit_bounds, matches_bounds, remove_target_from_line,
  line_matches_target, split_line_ending, apply_edit, remove_lines, find_lines, host_field_bounds,
  slice, remove_known_host_entries, find_known_host_entries, format_known_hosts_target,
}

-- `Result::map`.
abbrev pub map_ok {ℓ κ μ} :
    {A : Type ℓ} {B : Type κ} {E : Type μ} → (A → B) → Result A E → Result B E
map_ok f (ok a) = ok (f a)
map_ok f (err e) = err e

module _ (x : Crypto) (target : Text) where
  pub scan_patterns_lem :
      (ps : List Text) (matched : Bool) (retained : List Text)
      → scan_patterns x target ps matched retained ≡ (
        matched || any (pattern_matches x target) ps,
        retained ++ keep (λ p. not (pattern_matches x target p)) ps,
      )
  unfolding scan_patterns
  scan_patterns_lem [] true retained = ground (arith, append-nil retained)
  scan_patterns_lem [] false retained = ground (arith, append-nil retained)
  scan_patterns_lem (p ∷ ps) matched retained = elim (Bool-cases (pattern_matches x target p)) [
    | inl y ↦ rw y (scan_patterns_lem ps true retained ∙ ground arith)
    | inr n ↦ rw n (
        scan_patterns_lem ps matched (retained ++ p ∷ [])
        ∙ rw (
          keep_yes (λ p. not (pattern_matches x target p)) p ps (rw n),
          append_assoc retained (p ∷ []) (keep (λ p. not (pattern_matches x target p)) ps),
        ))
  ]

  -- What becomes of a host field.
  abbrev pub edit_field : Text → Text → Text → LineEdit
  edit_field lead field rest =
      let retained = keep (λ p. not (pattern_matches x target p)) (split b',' field) in
      if not (any (pattern_matches x target) (split b',' field))
      then unchanged
      else if is_empty retained
      then removed_line
      else replaced (lead ++ (join b',' retained ++ rest))

  pub edit_field-match :
      (lead field rest : Text)
      → any (pattern_matches x target) (split b',' field) ≡ true
      → edit_field lead field rest ≡ (
          let retained = keep (λ p. not (pattern_matches x target p)) (split b',' field) in
          if is_empty retained
          then removed_line
          else replaced (lead ++ (join b',' retained ++ rest)))
  edit_field-match lead field rest h = rw h

  pub edit_field-no_match :
      (lead field rest : Text)
      → any (pattern_matches x target) (split b',' field) ≡ false
      → edit_field lead field rest ≡ unchanged
  edit_field-no_match lead field rest h = rw h

  pub edit_bounds_lem :
      (line : Text) (start end : ℕ)
      → edit_bounds x line target (some (start, end))
        ≡ edit_field (take start line) (slice line start end) (drop end line)
  unfolding edit_bounds
  edit_bounds_lem line start end =
      rw (scan_patterns_lem (split b',' (slice line start end)) false [])

  abbrev edits : LineEdit → Bool
  edits unchanged = false
  edits removed_line = true
  edits (replaced t) = true

  edits-edit_field :
      (lead field rest : Text)
      → edits (edit_field lead field rest) ≡ any (pattern_matches x target) (split b',' field)
  edits-edit_field lead field rest = ground arith

  -- A line is edited exactly if it matches.
  pub edits-matches :
      (line : Text)
      → edits (remove_target_from_line x line target) ≡ line_matches_target x line target
  unfolding remove_target_from_line line_matches_target
  edits-matches line = go (host_field_bounds line)
    where
      go :
          (b : Option (ℕ × ℕ))
          → edits (edit_bounds x line target b) ≡ matches_bounds x line target b
      go none = unfold edit_bounds matches_bounds in refl
      go (some (start, end)) =
          ap edits (edit_bounds_lem line start end)
          ∙ edits-edit_field (take start line) (slice line start end) (drop end line)
          ∙ unfold matches_bounds in refl

  removed-apply_edit :
      (l ending : Text) (e : LineEdit) (r : KnownHostsRemoval)
      → (apply_edit x l ending e r).removed ≡ (if edits e then u32 (r.removed + 1) else r.removed)
  unfolding apply_edit
  removed-apply_edit l ending unchanged r = refl
  removed-apply_edit l ending removed_line r = refl
  removed-apply_edit l ending (replaced t) r = refl

  removed-remove_lines :
      (ls : List Text) (index : ℕ) (r : KnownHostsRemoval) (q : KnownHostsQuery)
      → r.removed ≡ q.found
      → (remove_lines x target ls r).removed ≡ (find_lines x target ls index q).found
  unfolding remove_lines find_lines
  removed-remove_lines [] index r q h = h
  removed-remove_lines (l ∷ ls) index r q h =
      let (line, ending) = split_line_ending l in
      removed-remove_lines ls (index + 1) _ _ (
        ground (
          arith,
          removed-apply_edit l ending (remove_target_from_line x line target) r,
          edits-matches line,
        ))

-- For the same file, host and port both operations succeed or fail together, with the same message,
-- and the search finds as many lines as the removal edits.
pub removed-eq-found :
    (x : Crypto) (content host : Text) (port : ℕ)
    → map_ok (λ r. r.removed) (remove_known_host_entries x content host port)
      ≡ map_ok (λ q. q.found) (find_known_host_entries x content host port)
unfolding remove_known_host_entries find_known_host_entries
removed-eq-found x content host port = ground (
  arith,
  removed-remove_lines x (format_known_hosts_target host port) (split_inclusive b'\n' content) 0
      (record { content = []; removed = 0 }) (record { output = []; found = 0 }) refl,
)
