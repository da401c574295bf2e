-- ===== src/KnownHosts/Removal.antt =====
-- A search after a removal of known_hosts.rs finds nothing.
use mathlib.Core.List.{append-nil}
use mathlib.Core.Path.{subst}
use leantty.Prelude.{
  ℕ, ◌+◌, List, [], ◌∷◌, ◌++◌, map, ◌≡◌, ◌≢◌, refl, sym, ap, ◌∙◌, inl, inr, All, Text,
  split_inclusive, concat, Result, ok, err, ◌>>◌,
}
use leantty.KnownHosts.{
  KnownHostsRemoval, KnownHostsQuery, Crypto, remove_lines, find_lines, remove_known_host_entries,
  find_known_host_entries, validate_host, format_known_hosts_target,
}
use leantty.KnownHosts.Lines.{NoNewline, IsLines, split_inclusive-last, split_inclusive-IsLines}
use leantty.KnownHosts.Endings.{
  LineView, complete-LineView, last-LineView, split_inclusive-LineView, ending-ne_nil,
}
use leantty.KnownHosts.Replace.{IsPlainLine}
use leantty.KnownHosts.Cleared.{
  edited, content-remove_lines, Passed, ClearedLine, edited-ClearedLine,
}

module _ (x : Crypto) (target : Text) where
  find_lines-Passed :
      (ls : List Text) (index : ℕ) (q : KnownHostsQuery)
      → All (Passed x target) ls
      → find_lines x target ls index q ≡ q
  unfolding find_lines
  find_lines-Passed [] index q h = refl
  find_lines-Passed (l ∷ ls) index q h = rw h.0 (find_lines-Passed ls (index + 1) q h.1)

  one_line-Passed :
      (m : Text) → NoNewline m → Passed x target m → All (Passed x target) (split_inclusive b'\n' m)
  unfolding split_inclusive
  one_line-Passed [] n p = tt
  one_line-Passed (c ∷ m) n p = rw (split_inclusive-last c m n) (p, tt)

  last-Passed :
      (m : Text) → ClearedLine x target [] m → All (Passed x target) (split_inclusive b'\n' m)
  unfolding split_inclusive
  last-Passed m (inl e) = rw e tt
  last-Passed m (inr (w, e, p)) =
      one_line-Passed m
        (subst NoNewline (sym (w.splits ∙ ap (λ t. w.body ++ t) e ∙ append-nil w.body))
          w.no_newline)
        p

  cons-Passed :
      (m rest : Text) {ending : Text}
      → ending ≢ []
      → ClearedLine x target ending m
      → All (Passed x target) (split_inclusive b'\n' rest)
      → All (Passed x target) (split_inclusive b'\n' (m ++ rest))
  cons-Passed m rest h (inl e) ih = rw e ih
  cons-Passed m rest h (inr (w, e, p)) ih =
      rw (split_inclusive-LineView w rest (λ z. h (sym e ∙ z))) (p, ih)

  -- The lines of what the removal wrote are all passed over.
  written_lines :
      (ls : List Text)
      → IsLines ls
      → All IsPlainLine ls
      → All (Passed x target) (split_inclusive b'\n' (concat (map (edited x target) ls)))
  unfolding split_inclusive
  written_lines [] h p = tt
  written_lines (l ∷ ls) (inl ((b, e, n), t)) p =
      let v : LineView l = subst LineView (sym e) (complete-LineView b n) in
      cons-Passed (edited x target l) (concat (map (edited x target) ls)) (ending-ne_nil v b e)
        (edited-ClearedLine x target v p.0) (written_lines ls t p.1)
  written_lines (l ∷ ls) (inr (ne, n, e)) p =
      rw (e, append-nil)
        (last-Passed (edited x target l) (edited-ClearedLine x target (last-LineView l n) p.0))

find-remove_lines :
    (x : Crypto) (target content : Text)
    → All IsPlainLine (split_inclusive b'\n' content)
    → let r =
        remove_lines x target
          (split_inclusive b'\n' content)
          (record { content = []; removed = 0 }) in
      find_lines x target (split_inclusive b'\n' r.content) 0 (record { output = []; found = 0 })
      ≡ record { output = []; found = 0 }
find-remove_lines x target content plain =
    rw (content-remove_lines x target (split_inclusive b'\n' content) _) (
      find_lines-Passed x target _ 0 _ (
        written_lines x target (split_inclusive b'\n' content) (split_inclusive-IsLines content)
          plain))

-- After the entries of a host were removed from a file whose host patterns are plain (none is empty
-- or begins with `@` or `#`), a search of the written file for the same host and port succeeds and
-- finds nothing.
pub find-remove :
    (x : Crypto) (content host : Text) (port : ℕ) {r : KnownHostsRemoval}
    → All IsPlainLine (split_inclusive b'\n' content)
    → remove_known_host_entries x content host port ≡ ok r
    → find_known_host_entries x r.content host port ≡ ok (record { output = []; found = 0 })
unfolding remove_known_host_entries find_known_host_entries
find-remove x content host port {r} plain h = go (validate_host host) h
  where
    target : Text
    target = format_known_hosts_target host port

    go :
        (checked : Result (Unit {0}) Text)
        → (checked
            >> ok (
                remove_lines x target
                  (split_inclusive b'\n' content)
                  (record { content = []; removed = 0 })))
          ≡ ok r
        → (checked
            >> ok (
                find_lines x target
                  (split_inclusive b'\n' r.content)
                  0
                  (record { output = []; found = 0 })))
          ≡ ok (record { output = []; found = 0 })
    go (ok u) h =
        let same : remove_lines x target (split_inclusive b'\n' content)
              (record { content = []; removed = 0 })
            ≡ r =
          cc in
        subst
          (λ s.
            ◌≡◌ {A = Result KnownHostsQuery Text}
              (ok (
                find_lines x target (split_inclusive b'\n' s.content) 0
                  (record { output = []; found = 0 })))
              (ok (record { output = []; found = 0 })))
          same (ap ok (find-remove_lines x target content plain))
    go (err e) h = cc
