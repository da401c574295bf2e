-- ===== src/HostKey/Line.antt =====
-- The line that the prompt of leantty_ssh/src/lib.rs offers for the file of known hosts, read by
-- leantty_ssh/leantty-ssh-core/src/known_hosts.rs.
use leantty.Prelude.{
  any, false, is_control, ℕ, true, [], ◌∷◌, ◌++◌, ◌≡◌, ◌≢◌, refl, arith, All, All-append, Text,
  split, length, starts_with, text_eq_iff, ◌==◌, Bool-cases, inl, inr, ◌∙◌, ap, ◌≤◌, some, ◌+◌,
}
use leantty.Prelude.Decimal.{to_string, to_string-digits}
use leantty.KnownHosts.{
  Crypto, format_known_hosts_target, removed_line, host_field_bounds, pattern_matches, slice,
  line_matches_target, matches_bounds, remove_target_from_line,
}
use leantty.KnownHosts.Fields.{IsSolid}
use leantty.KnownHosts.HostView.{IsPlainHead, HostView, slice-append, host_field_bounds-HostView}
use leantty.KnownHosts.Patterns.{Avoids, split-piece}
use leantty.KnownHosts.Search.{edit_bounds_lem}
use leantty.HostKey.{prompted_line}

-- A character of a host name: no blank and no comma.
abbrev pub IsHostChar : ℕ → Type 0
IsHostChar c = IsSolid c × (c ≢ b',')

-- A host field of one plain pattern.
abbrev pub IsPattern : Text → Type 0
IsPattern [] = ⊥
IsPattern (c ∷ cs) = (c ≢ b'#') × (c ≢ b'@') × (c ≢ b'|') × All IsHostChar (c ∷ cs)

digits-IsHostChar : (s : Text) → All (λ c. (b'0' ≤ c) × (c ≤ b'9')) s → All IsHostChar s
digits-IsHostChar [] h = tt
digits-IsHostChar (c ∷ s) h = ((ground arith, λ e. omega arith), digits-IsHostChar s h.1)

-- A host name that stands for itself in a known_hosts file, and that a search accepts.
abbrev pub IsPlainHost : Text → Type 0
IsPlainHost host = IsPattern host × (any is_control host ≡ false)

pub target-IsPattern :
    (host : Text) (port : ℕ) → IsPattern host → IsPattern (format_known_hosts_target host port)
unfolding format_known_hosts_target
target-IsPattern [] port h = absurd h
target-IsPattern (c ∷ cs) port h = elim (Bool-cases (port == 22)) [
  | inl usual ↦ rw usual h
  | inr special ↦ rw special (
    ground arith,
    ground arith,
    ground arith,
    (
      (refl, ground arith),
      All-append IsHostChar (c ∷ cs) (b']' ∷ b':' ∷ to_string port) h.3 (
        (refl, ground arith),
        ((refl, ground arith), digits-IsHostChar (to_string port) (to_string-digits port)),
      ),
    ),
  )
]

host-IsSolid : (s : Text) → All IsHostChar s → All IsSolid s
host-IsSolid [] h = tt
host-IsSolid (c ∷ s) h = (h.0.0, host-IsSolid s h.1)

host-Avoids : (s : Text) → All IsHostChar s → Avoids b',' s
host-Avoids [] h = tt
host-Avoids (c ∷ s) h = (h.0.1, host-Avoids s h.1)

module _ (t public_key : Text) (h : IsPattern t) where
  pub pattern_chars : (t : Text) → IsPattern t → All IsHostChar t
  pattern_chars [] h = absurd h
  pattern_chars (c ∷ cs) h = h.3

  pub pattern_head : (t : Text) → IsPattern t → IsPlainHead t × (t ≢ [])
  pattern_head [] h = absurd h
  pattern_head (c ∷ cs) h = ((h.0, h.1), λ e. cc)

  -- The line is the pattern, a blank and the key.
  abbrev line_view : HostView (t ++ (b' ' ∷ public_key))
  line_view = record {
    lead = [];
    field = t;
    rest = b' ' ∷ public_key;
    splits = refl;
    field_ne_nil = (pattern_head t h).1;
    field_solid = host-IsSolid t (pattern_chars t h);
    rest_stops = refl;
    lead_form = inl (tt, (pattern_head t h).0);
  }

  whole_slice : slice (t ++ (b' ' ∷ public_key)) 0 (length t) ≡ t
  whole_slice =
      let e : 0 + length t ≡ length t = omega arith in
      rw e at (slice-append [] t (b' ' ∷ public_key))

  bounds : host_field_bounds (t ++ (b' ' ∷ public_key)) ≡ some (0, length t)
  bounds =
      let e : 0 + length t ≡ length t = omega arith in
      host_field_bounds-HostView line_view ∙ ap (λ n. some (0, n)) e

  one_pattern : split b',' t ≡ t ∷ []
  one_pattern = split-piece b',' t (host-Avoids t (pattern_chars t h))

  module _ (x : Crypto) where
    pattern_self : (t : Text) → IsPattern t → pattern_matches x t t ≡ true
    unfolding pattern_matches starts_with
    pattern_self [] h = absurd h
    pattern_self (c ∷ cs) h = ground (arith, h.2, text_eq_iff (c ∷ cs) (c ∷ cs))

    pattern-matches : line_matches_target x (t ++ (b' ' ∷ public_key)) t ≡ true
    unfolding line_matches_target matches_bounds
    pattern-matches = rw (bounds, whole_slice, one_pattern) (ground (arith, pattern_self t h))

    pattern-removed : remove_target_from_line x (t ++ (b' ' ∷ public_key)) t ≡ removed_line
    unfolding remove_target_from_line
    pattern-removed =
        rw
          (
            bounds,
            edit_bounds_lem x t (t ++ (b' ' ∷ public_key)) 0 (length t),
            whole_slice,
            one_pattern,
          )
          (ground (arith, pattern_self t h))

-- A search for the host and port of a prompt matches its line, and a removal takes the line away whole.
pub prompted_line_lem :
    (x : Crypto) (host : Text) (port : ℕ) (public_key : Text)
    → IsPattern host
    → (line_matches_target x
          (prompted_line host port public_key)
          (format_known_hosts_target host port)
        ≡ true)
      × (remove_target_from_line x
            (prompted_line host port public_key)
            (format_known_hosts_target host port)
          ≡ removed_line)
unfolding prompted_line format_known_hosts_target
prompted_line_lem x host port public_key h =
    let t : Text = format_known_hosts_target host port in
    let plain : IsPattern t = target-IsPattern host port h in
    (pattern-matches t public_key plain x, pattern-removed t public_key plain x)
