-- ===== src/KnownHosts/Tests.antt =====
-- Removals from and searches in small known_hosts files, with crates that take a hashed pattern's salt
-- for the text it was made from.
use leantty.Prelude.{
  ℕ, [], some, ◌≡◌, ◌≢◌, refl, Text, codes, text_eq, split, split_inclusive, join, starts_with,
  strip_suffix, leb, true, All, ok, arith,
}
use leantty.KnownHosts.{
  Crypto, KnownHostsRemoval, format_known_hosts_target, validate_host, skip_while, marked_bounds,
  host_field_bounds, split_line_ending, pattern_matches, scan_patterns, edit_bounds,
  remove_target_from_line, apply_edit, remove_lines, remove_known_host_entries,
  find_known_host_entries,
}
use leantty.KnownHosts.Replace.{IsPlainLine}
use leantty.KnownHosts.Search.{map_ok, removed-eq-found}
use leantty.KnownHosts.Removal.{find-remove}

abbrev plain_crypto : Crypto
plain_crypto = record {
  decode_base64 = λ t. some t;
  hmac_sha1 = λ key. some (λ text tag. text_eq text tag);
}

abbrev two_hosts : Text
two_hosts = codes "a.org,b.org ssh-rsa K1\nb.org ssh-ed25519 K2\n"

abbrev without_b : KnownHostsRemoval
without_b = record { content = codes "a.org ssh-rsa K1\n"; removed = 2 }

remove_b : remove_known_host_entries plain_crypto two_hosts (codes "b.org") 22 ≡ ok without_b
unfolding remove_known_host_entries validate_host format_known_hosts_target remove_lines
    split_inclusive split_line_ending strip_suffix remove_target_from_line host_field_bounds
    marked_bounds skip_while starts_with edit_bounds scan_patterns pattern_matches text_eq split
    join apply_edit
remove_b = refl

plain_letter : (c : ℕ) → (leb b'a' c ≡ true) → (c ≢ b'#') × (c ≢ b'@')
plain_letter c h = (ground arith, ground arith)

two_hosts-IsPlainLine : All IsPlainLine (split_inclusive b'\n' two_hosts)
unfolding split_inclusive split_line_ending strip_suffix host_field_bounds marked_bounds skip_while
    starts_with split text_eq
two_hosts-IsPlainLine =
    let a = plain_letter b'a' refl in
    let b = plain_letter b'b' refl in ((a, (b, tt)), ((b, tt), tt))

find-remove_example :
    find_known_host_entries plain_crypto without_b.content (codes "b.org") 22
    ≡ ok (record { output = []; found = 0 })
find-remove_example =
    find-remove plain_crypto two_hosts (codes "b.org") 22 {r = without_b} two_hosts-IsPlainLine
      remove_b

removed-eq-found_example :
    map_ok (λ r. r.removed) (remove_known_host_entries plain_crypto two_hosts (codes "b.org") 22)
    ≡ map_ok (λ q. q.found) (find_known_host_entries plain_crypto two_hosts (codes "b.org") 22)
removed-eq-found_example = removed-eq-found plain_crypto two_hosts (codes "b.org") 22

-- An empty pattern in front of the removed one is kept as nothing, and what stood behind the host
-- field becomes the host field.
empty_pattern_left :
    remove_known_host_entries plain_crypto (codes "x.org, x.org key\n") (codes "x.org") 22
    ≡ ok (record { content = codes " x.org key\n"; removed = 1 })
unfolding remove_known_host_entries validate_host format_known_hosts_target remove_lines
    split_inclusive split_line_ending strip_suffix remove_target_from_line host_field_bounds
    marked_bounds skip_while starts_with edit_bounds scan_patterns pattern_matches text_eq split
    join apply_edit
empty_pattern_left = refl
