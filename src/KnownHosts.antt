-- ===== src/KnownHosts.antt =====
-- Editing and searching a known_hosts file, leantty_ssh/leantty-ssh-core/src/known_hosts.rs. Text is
-- its list of characters, and offsets count characters where the source counts bytes: the slices are
-- the same, since the source cuts only next to ASCII characters.
pub mod Lines
pub mod Endings
pub mod Fields
pub mod HostView
pub mod Patterns
pub mod Search
pub mod Replace
pub mod Cleared
pub mod Removal
mod Tests
use leantty.Prelude.{
  ℕ, suc, ◌+◌, ◌-◌, Bool, true, false, not, ◌&&◌, ◌||◌, List, [], ◌∷◌, ◌++◌, Option, none, some,
  ltb, ◌==◌, if◌then◌else◌, any, keep, is_empty, take, drop, length, get_elem?, Text, codes,
  text_eq, starts_with, split, split_inclusive, strip_suffix, join, is_control, u32, Result, ok,
  err, guard, ◌>>=◌, ◌>>◌,
}
use leantty.Prelude.Decimal.{to_string}

pub record KnownHostsRemoval : Type 0 where
  pub content : Text
  pub removed : ℕ  -- u32

pub record KnownHostsQuery : Type 0 where
  pub output : Text
  pub found : ℕ  -- u32

unfoldable pub format_known_hosts_target : Text → ℕ → Text
format_known_hosts_target host port =
    if port == 22 then host else b'[' ∷ (host ++ (b']' ∷ b':' ∷ to_string port))

unfoldable pub validate_host : Text → Result (Unit {0}) Text
validate_host host =
    if is_empty host || any is_control host then err (codes "invalid known_hosts host") else ok tt

pub data LineEdit : Type 0 where
  unchanged removed_line : LineEdit
  replaced : Text → LineEdit

-- `u8::is_ascii_whitespace`.
abbrev pub is_ascii_whitespace : ℕ → Bool
is_ascii_whitespace c = c == b' ' || c == b'\t' || c == b'\n' || c == 0x0c || c == b'\r'

-- The two `while` loops on an offset, over the bytes from the offset on.
unfoldable pub skip_while : (ℕ → Bool) → Text → ℕ → ℕ
skip_while p [] offset = offset
skip_while p (c ∷ cs) offset =
    let next = skip_while p cs (offset + 1) in if p c then next else offset

abbrev pub skip_ascii_whitespace : Text → ℕ → ℕ
skip_ascii_whitespace bytes offset = skip_while is_ascii_whitespace (drop offset bytes) offset

abbrev pub skip_ascii_non_whitespace : Text → ℕ → ℕ
skip_ascii_non_whitespace bytes offset =
    skip_while (λ c. not (is_ascii_whitespace c)) (drop offset bytes) offset

-- `line[start..end]`
abbrev pub slice : Text → ℕ → ℕ → Text
slice line start end = take (end - start) (drop start line)

-- `offset >= bytes.len()`, or a test of `bytes[offset]`.
abbrev pub ends_or : (ℕ → Bool) → Option ℕ → Bool
ends_or p none = true
ends_or p (some c) = p c

-- The host field behind a marker such as `@revoked`.
unfoldable pub marked_bounds : Text → ℕ → Option (ℕ × ℕ)
marked_bounds line first_end =
    let offset = skip_ascii_whitespace line first_end in
    if ends_or (λ c. false) (get_elem? line offset)
    then none
    else some (offset, skip_ascii_non_whitespace line offset)

unfoldable pub host_field_bounds : Text → Option (ℕ × ℕ)
host_field_bounds line =
    let offset = skip_ascii_whitespace line 0 in
    let first_end = skip_ascii_non_whitespace line offset in
    if ends_or (λ c. c == b'#') (get_elem? line offset)
    then none
    else if starts_with (slice line offset first_end) (b'@' ∷ [])
    then marked_bounds line first_end
    else some (offset, first_end)

unfoldable pub split_line_ending : Text → Text × Text
split_line_ending line = elim (strip_suffix (codes "\r\n") line) [
  | some body ↦ (body, codes "\r\n")
  | none ↦ elim (strip_suffix (codes "\n") line) [
    | some body ↦ (body, codes "\n")
    | none ↦ (line, [])
  ]
]

-- The crates that a hashed pattern is read with: `BASE64.decode`, and HMAC-SHA1 with a key, which
-- refuses a key or else verifies a tag of a text.
pub record Crypto : Type 0 where
  pub decode_base64 : Text → Option (List ℕ)
  pub hmac_sha1 : List ℕ → Option (Text → List ℕ → Bool)

module _ (x : Crypto) where
  -- What follows `|1|`: the salt, the expected tag, and nothing else.
  verify_hashed : Text → Option (List ℕ) → Option (List ℕ) → List Text → Bool
  verify_hashed target none expected rest = false
  verify_hashed target (some salt) none rest = false
  verify_hashed target (some salt) (some expected) (r ∷ rest) = false
  verify_hashed target (some salt) (some expected) [] = elim (x.hmac_sha1 salt) [
    | none ↦ false
    | some verify ↦ verify target expected
  ]

  hashed_matches : Text → List Text → Bool
  unfolding verify_hashed
  hashed_matches target [] = false
  hashed_matches target (salt ∷ []) = false
  hashed_matches target (salt ∷ expected ∷ rest) =
      verify_hashed target (x.decode_base64 salt) (x.decode_base64 expected) rest

  unfoldable pub pattern_matches : Text → Text → Bool
  unfolding hashed_matches
  pattern_matches target pattern =
      if not (starts_with pattern (codes "|1|"))
      then text_eq target pattern
      else hashed_matches target (drop 2 (split b'|' pattern))

  -- The loop over the patterns of a host field, with `matched` and `retained`.
  unfoldable pub scan_patterns : Text → List Text → Bool → List Text → Bool × List Text
  scan_patterns target [] matched retained = (matched, retained)
  scan_patterns target (p ∷ ps) matched retained =
      let matches = pattern_matches target p in
      scan_patterns target ps (if matches then true else matched)
        (if matches then retained else retained ++ p ∷ [])

  unfoldable pub edit_bounds : Text → Text → Option (ℕ × ℕ) → LineEdit
  edit_bounds line target none = unchanged
  edit_bounds line target (some (start, end)) =
      let (matched, retained) = scan_patterns target (split b',' (slice line start end)) false [] in
      if not matched
      then unchanged
      else if is_empty retained
      then removed_line
      else replaced (take start line ++ (join b',' retained ++ drop end line))

  unfoldable pub remove_target_from_line : Text → Text → LineEdit
  remove_target_from_line line target = edit_bounds line target (host_field_bounds line)

  unfoldable pub matches_bounds : Text → Text → Option (ℕ × ℕ) → Bool
  matches_bounds line target none = false
  matches_bounds line target (some (start, end)) =
      any (pattern_matches target) (split b',' (slice line start end))

  unfoldable pub line_matches_target : Text → Text → Bool
  line_matches_target line target = matches_bounds line target (host_field_bounds line)

  -- One round of the loop of `remove_known_host_entries`.
  unfoldable pub apply_edit : Text → Text → LineEdit → KnownHostsRemoval → KnownHostsRemoval
  apply_edit complete_line ending unchanged r = record {
    content = r.content ++ complete_line;
    removed = r.removed;
  }
  apply_edit complete_line ending removed_line r = record {
    content = r.content;
    removed = u32 (r.removed + 1);
  }
  apply_edit complete_line ending (replaced replacement) r = record {
    content = r.content ++ (replacement ++ ending);
    removed = u32 (r.removed + 1);
  }

  unfoldable pub remove_lines : Text → List Text → KnownHostsRemoval → KnownHostsRemoval
  remove_lines target [] r = r
  remove_lines target (complete_line ∷ lines) r =
      let (line, ending) = split_line_ending complete_line in
      remove_lines target lines
        (apply_edit complete_line ending (remove_target_from_line line target) r)

  unfoldable pub remove_known_host_entries : Text → Text → ℕ → Result KnownHostsRemoval Text
  remove_known_host_entries content host port = do
    validate_host host
    let target = format_known_hosts_target host port
    ok (remove_lines target (split_inclusive b'\n' content) (record { content = []; removed = 0 }))

  -- What the search prints for one line.
  unfoldable pub found_entry : Text → ℕ → Text → Text
  found_entry target index line =
      codes "# Host "
      ++ (target
          ++ (codes " found: line " ++ (to_string (index + 1) ++ (b'\n' ∷ (line ++ b'\n' ∷ [])))))

  unfoldable pub find_lines : Text → List Text → ℕ → KnownHostsQuery → KnownHostsQuery
  find_lines target [] index q = q
  find_lines target (complete_line ∷ lines) index q =
      let line = (split_line_ending complete_line).0 in
      find_lines target lines (index + 1) (
        if not (line_matches_target line target) then q else record {
          output = q.output ++ found_entry target index line;
          found = u32 (q.found + 1);
        })

  unfoldable pub find_known_host_entries : Text → Text → ℕ → Result KnownHostsQuery Text
  find_known_host_entries content host port = do
    validate_host host
    let target = format_known_hosts_target host port
    ok (find_lines target (split_inclusive b'\n' content) 0 (record { output = []; found = 0 }))
