-- ===== src/HostKey/Added.antt =====
-- A file of known hosts to which the line of a prompt of leantty_ssh/src/lib.rs was added, searched and edited by
-- leantty_ssh/leantty-ssh-core/src/known_hosts.rs.
use leantty.Prelude.{
  ℕ, ◌+◌, true, false, List, [], ◌∷◌, ◌++◌, ◌≡◌, ◌≢◌, refl, sym, ap, ◌∙◌, inl, inr, arith, ◌==◌,
  Bool-cases, All, Text, codes, ok, length, cons_head, split_inclusive, u32, All-append,
}
use leantty.Prelude.Decimal.{to_string}
use leantty.KnownHosts.{
  Crypto, KnownHostsRemoval, KnownHostsQuery, format_known_hosts_target, validate_host,
  split_line_ending, apply_edit, remove_lines, find_lines, found_entry, remove_known_host_entries,
  find_known_host_entries,
}
use leantty.KnownHosts.Fields.{IsSolid}
use leantty.KnownHosts.Lines.{NoNewline, split_inclusive-newline}
use leantty.KnownHosts.Endings.{ends_cr, ends_cr-append, split_line_ending-append}
use leantty.HostKey.{prompted_line}
use leantty.HostKey.Line.{
  IsPattern, IsHostChar, IsPlainHost, target-IsPattern, pattern_chars, prompted_line_lem,
}

-- Nothing, or lines that all end.
abbrev pub IsComplete : Text → Type 0
IsComplete [] = Unit
IsComplete (c ∷ []) = c ≡ b'\n'
IsComplete (c ∷ d ∷ cs) = IsComplete (d ∷ cs)

cons_head-append :
    (c d : ℕ) (cs : Text) (t : List Text)
    → cons_head c (split_inclusive b'\n' (d ∷ cs) ++ t)
      ≡ cons_head c (split_inclusive b'\n' (d ∷ cs)) ++ t
unfolding split_inclusive
cons_head-append c d cs t = elim (Bool-cases (d == b'\n')) [
  | inl end ↦ rw end refl
  | inr more ↦ rw more (go (split_inclusive b'\n' cs))
]
  where
    go : (ls : List Text) → cons_head c (cons_head d ls ++ t) ≡ cons_head c (cons_head d ls) ++ t
    go [] = refl
    go (l ∷ ls) = refl

split_inclusive-end :
    (c : ℕ) (s : Text)
    → (c == b'\n') ≡ true
    → split_inclusive b'\n' (c ∷ s) ≡ (c ∷ []) ∷ split_inclusive b'\n' s
unfolding split_inclusive
split_inclusive-end c s h = rw h refl

split_inclusive-more :
    (c : ℕ) (s : Text)
    → (c == b'\n') ≡ false
    → split_inclusive b'\n' (c ∷ s) ≡ cons_head c (split_inclusive b'\n' s)
unfolding split_inclusive
split_inclusive-more c s h = rw h refl

-- Complete lines in front of a text are cut on their own.
split_inclusive-append :
    (a b : Text)
    → IsComplete a
    → split_inclusive b'\n' (a ++ b) ≡ split_inclusive b'\n' a ++ split_inclusive b'\n' b
split_inclusive-append [] b h = unfold split_inclusive in refl
split_inclusive-append (c ∷ []) b h = unfold split_inclusive in rw h refl
split_inclusive-append (c ∷ d ∷ cs) b h =
    let later = split_inclusive-append (d ∷ cs) b h in
    elim (Bool-cases (c == b'\n')) [
      | inl end ↦
          split_inclusive-end c (d ∷ (cs ++ b)) end
          ∙ ap (λ ls. (c ∷ []) ∷ ls) later
          ∙ ap (λ ls. ls ++ split_inclusive b'\n' b) (sym (split_inclusive-end c (d ∷ cs) end))
      | inr more ↦
          split_inclusive-more c (d ∷ (cs ++ b)) more
          ∙ ap (λ ls. cons_head c ls) later
          ∙ cons_head-append c d cs (split_inclusive b'\n' b)
          ∙ ap (λ ls. ls ++ split_inclusive b'\n' b) (sym (split_inclusive-more c (d ∷ cs) more))
    ]

module _ (x : Crypto) (target : Text) where
  find_lines-append :
      (ls ms : List Text) (index : ℕ) (q : KnownHostsQuery)
      → find_lines x target (ls ++ ms) index q
        ≡ find_lines x target ms (index + length ls) (find_lines x target ls index q)
  unfolding find_lines
  find_lines-append [] ms index q = ap (λ n. find_lines x target ms n q) (omega arith)
  find_lines-append (l ∷ ls) ms index q =
      find_lines-append ls ms (index + 1) _
      ∙ ap (λ n. find_lines x target ms n (find_lines x target (l ∷ ls) index q)) (omega arith)

  remove_lines-append :
      (ls ms : List Text) (r : KnownHostsRemoval)
      → remove_lines x target (ls ++ ms) r ≡ remove_lines x target ms (remove_lines x target ls r)
  unfolding remove_lines
  remove_lines-append [] ms r = refl
  remove_lines-append (l ∷ ls) ms r = remove_lines-append ls ms _

-- A printed key is one line: it has no line ending.
abbrev pub IsOneLine : Text → Type 0
IsOneLine = All (λ c. (c ≢ b'\n') × (c ≢ b'\r'))

one_line-NoNewline : (s : Text) → IsOneLine s → NoNewline s
one_line-NoNewline [] h = tt
one_line-NoNewline (c ∷ s) h = (h.0.0, one_line-NoNewline s h.1)

ends_cr-one_line : (s : Text) → IsOneLine s → ends_cr s ≡ false
ends_cr-one_line [] h = refl
ends_cr-one_line (c ∷ []) h = ground (arith, h.0.1)
ends_cr-one_line (c ∷ d ∷ s) h = ends_cr-one_line (d ∷ s) h.1

host-NoNewline : (s : Text) → All IsHostChar s → NoNewline s
host-NoNewline [] h = tt
host-NoNewline (c ∷ s) h = (solid_ne c h.0.0, host-NoNewline s h.1)
  where
    solid_ne : (c : ℕ) → IsSolid c → c ≢ b'\n'
    solid_ne c solid e = ground (arith, solid)

module _ (host : Text) (port : ℕ) (public_key : Text) (plain : IsPattern host)
    (one : IsOneLine public_key) where
  abbrev line : Text
  line = prompted_line host port public_key

  abbrev target : Text
  target = format_known_hosts_target host port

  line-NoNewline : NoNewline line
  unfolding prompted_line format_known_hosts_target
  line-NoNewline =
      All-append (λ c. c ≢ b'\n') (format_known_hosts_target host port) (b' ' ∷ public_key)
        (host-NoNewline (format_known_hosts_target host port) (
          pattern_chars (format_known_hosts_target host port) public_key
            (target-IsPattern host port plain) (format_known_hosts_target host port)
            (target-IsPattern host port plain)))
        (λ e. omega arith, one_line-NoNewline public_key one)

  line-ends_cr : ends_cr line ≡ false
  unfolding prompted_line format_known_hosts_target
  line-ends_cr =
      ends_cr-append (format_known_hosts_target host port) b' ' public_key
      ∙ ends_cr-one_line (b' ' ∷ public_key) ((λ e. omega arith, λ e. omega arith), one)

  added : split_inclusive b'\n' (line ++ b'\n' ∷ []) ≡ (line ++ b'\n' ∷ []) ∷ []
  added = split_inclusive-newline line [] line-NoNewline ∙ unfold split_inclusive in refl

  cut : split_line_ending (line ++ b'\n' ∷ []) ≡ (line, b'\n' ∷ [])
  cut = split_line_ending-append line (b'\n' ∷ []) line-NoNewline (inr (inl (refl, line-ends_cr)))

  module _ (x : Crypto) where
    find_lines-line :
        (index : ℕ) (q : KnownHostsQuery)
        → find_lines x target ((line ++ b'\n' ∷ []) ∷ []) index q ≡ record {
          output =
              q.output
              ++ (codes "# Host "
                  ++ (target
                      ++ (codes " found: line "
                          ++ (to_string (index + 1) ++ (b'\n' ∷ (line ++ b'\n' ∷ []))))));
          found = u32 (q.found + 1);
        }
    unfolding find_lines found_entry
    find_lines-line index q = rw (cut, (prompted_line_lem x host port public_key plain).0) refl

    remove_lines-line :
        (r : KnownHostsRemoval)
        → remove_lines x target ((line ++ b'\n' ∷ []) ∷ []) r
          ≡ record { content = r.content; removed = u32 (r.removed + 1) }
    unfolding remove_lines apply_edit
    remove_lines-line r = rw (cut, (prompted_line_lem x host port public_key plain).1) refl

validate_host-plain : (host : Text) → IsPlainHost host → validate_host host ≡ ok tt
unfolding validate_host
validate_host-plain [] h = absurd h.0
validate_host-plain (c ∷ cs) h = rw h.1 refl

-- When the line of a prompt is added, with a newline, to a file of known hosts whose lines all end, a search
-- of the file for the host and port of the prompt finds what it found before and then that line, under its
-- number, and a removal leaves what it left before and counts one line more. The host is a name without
-- blanks, commas and control characters that does not begin with `#`, `@` or `|`, and the printed key has no
-- line ending in it.
pub prompted_line-found :
    (x : Crypto) (content host : Text) (port : ℕ) (public_key : Text)
    → IsComplete content
    → IsPlainHost host
    → IsOneLine public_key
    → let line = prompted_line host port public_key in
      let file = content ++ (line ++ b'\n' ∷ []) in
      ((q : KnownHostsQuery) × (find_known_host_entries x content host port ≡ ok q)
        × (find_known_host_entries x file host port
            ≡ ok (record {
              output =
                  q.output
                  ++ (codes "# Host "
                      ++ (format_known_hosts_target host port
                          ++ (codes " found: line "
                              ++ (to_string (length (split_inclusive b'\n' content) + 1)
                                  ++ (b'\n' ∷ (line ++ b'\n' ∷ []))))));
              found = u32 (q.found + 1);
            })))
      × ((r : KnownHostsRemoval) × (remove_known_host_entries x content host port ≡ ok r)
          × (remove_known_host_entries x file host port
              ≡ ok (record { content = r.content; removed = u32 (r.removed + 1) })))
unfolding find_known_host_entries remove_known_host_entries
prompted_line-found x content host port public_key complete plain one =
    let t = format_known_hosts_target host port in
    let l = prompted_line host port public_key ++ b'\n' ∷ [] in
    let lines = split_inclusive b'\n' content in
    let q = find_lines x t lines 0 (record { output = []; found = 0 }) in
    let r = remove_lines x t lines (record { content = []; removed = 0 }) in
    let whole : split_inclusive b'\n' (content ++ l) ≡ lines ++ l ∷ [] =
      split_inclusive-append content l complete
      ∙ ap (λ ms. lines ++ ms) (added host port public_key plain.0 one) in
    let numbered : 0 + length lines ≡ length lines = omega arith in
    rw (validate_host-plain host plain, whole)
      (
        (
          q,
          refl,
          ap (λ q. ok q)
              (find_lines-append x t lines (l ∷ []) 0 (record { output = []; found = 0 })
                ∙ ap (λ n. find_lines x t (l ∷ []) n q) numbered
                ∙ find_lines-line host port public_key plain.0 one x (length lines) q),
        ),
        (
          r,
          refl,
          ap (λ r. ok r)
              (remove_lines-append x t lines (l ∷ []) (record { content = []; removed = 0 })
                ∙ remove_lines-line host port public_key plain.0 one x r),
        ),
      )
