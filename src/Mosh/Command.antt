-- ===== src/Mosh/Command.antt =====
-- The command line of `mosh_bootstrap_command` in leantty_ssh/src/lib.rs holds one quoted script.
use mathlib.Core.List.{append_assoc}
use leantty.Prelude.{
  ℕ, ◌≤◌, Bool, true, not, List, [], ◌∷◌, ◌++◌, ◌≡◌, ◌≢◌, refl, inl, inr, arith, ◌==◌, Option, none,
  some, Bool-cases, All, All-append, all, Text, codes, split, cons_head, ok,
}
use leantty.Prelude.Decimal.{to_string, to_string-digits}
use leantty.Mosh.{
  is_path_byte, MoshUdpPortRange, argument, mosh_default_server, mosh_server_arguments, port_option,
  unwrap_or, mosh_server_path, mosh_bootstrap_command,
}
use leantty.Mosh.ServerPath.{IsSegment, mosh_server_path_lem}

abbrev pub IsUnquoted : Text → Type 0
IsUnquoted = All (λ c. c ≢ b'\'')

abbrev is_unquoted : ℕ → Bool
is_unquoted c = not (c == b'\'')

all-IsUnquoted : (s : Text) → all is_unquoted s ≡ true → IsUnquoted s
all-IsUnquoted [] h = tt
all-IsUnquoted (c ∷ s) h = ground (arith, all-IsUnquoted s)

segment-IsUnquoted : (s : Text) → All (λ c. is_path_byte c ≡ true) s → IsUnquoted s
segment-IsUnquoted [] h = tt
segment-IsUnquoted (c ∷ s) h = (ground (arith, h.0), segment-IsUnquoted s h.1)

cons_head-IsUnquoted :
    (c : ℕ) (ps : List Text) (s : Text)
    → (All IsUnquoted ps → IsUnquoted s)
    → All IsUnquoted (cons_head c ps)
    → IsUnquoted (c ∷ s)
cons_head-IsUnquoted c [] s f h = (h.0.0, f tt)
cons_head-IsUnquoted c (p ∷ ps) s f h = (h.0.0, f (h.0.1, h.1))

-- A text is free of quotes if its pieces are.
split-IsUnquoted : (s : Text) → All IsUnquoted (split b'/' s) → IsUnquoted s
unfolding split
split-IsUnquoted [] h = tt
split-IsUnquoted (c ∷ s) h = elim (Bool-cases (c == b'/')) [
  | inl sep ↦ (ground arith, split-IsUnquoted s (rw sep at h).1)
  | inr other ↦ cons_head-IsUnquoted c (split b'/' s) s (split-IsUnquoted s) (rw other at h)
]

segments-IsUnquoted : (ps : List Text) → All IsSegment ps → All IsUnquoted ps
segments-IsUnquoted [] h = tt
segments-IsUnquoted (p ∷ ps) h = (segment-IsUnquoted p h.0.3, segments-IsUnquoted ps h.1)

executable-IsUnquoted :
    (value : Text) (server_path : Option Text)
    → mosh_server_path value ≡ ok server_path
    → IsUnquoted (unwrap_or server_path mosh_default_server)
executable-IsUnquoted value none h = all-IsUnquoted mosh_default_server refl
executable-IsUnquoted value (some p) h =
    let (_, _, (rest, e, segments)) = mosh_server_path_lem value p h in
    rw e (ground arith, split-IsUnquoted rest (segments-IsUnquoted (split b'/' rest) segments))

to_string-IsUnquoted : (s : Text) → All (λ c. (b'0' ≤ c) × (c ≤ b'9')) s → IsUnquoted s
to_string-IsUnquoted [] h = tt
to_string-IsUnquoted (c ∷ s) h = (λ e. omega arith, to_string-IsUnquoted s h.1)

port_option-IsUnquoted : (range : Option MoshUdpPortRange) → IsUnquoted (port_option range)
unfolding argument
port_option-IsUnquoted none = tt
port_option-IsUnquoted (some r) =
    let start = to_string-IsUnquoted (to_string r.start) (to_string-digits r.start) in
    let end = to_string-IsUnquoted (to_string r.end) (to_string-digits r.end) in
    All-append _ (codes " -p ") (argument r) (all-IsUnquoted (codes " -p ") refl)
      (elim (Bool-cases (r.start == r.end)) [
        | inl same ↦ rw same start
        | inr wide ↦ rw wide (
            All-append _ (to_string r.start) (b':' ∷ to_string r.end) start (λ e. omega arith, end))
      ])

-- What stands before the quote of the script, and the script up to the server's name.
abbrev pub shell : Text
shell = codes "sh -c "

abbrev script_start : Text
script_start =
    codes
      "[ -n \"$SSH_CONNECTION\" ] && printf \"\\nMOSH SSH_CONNECTION %s\\n\" \"$SSH_CONNECTION\"; exec "

-- With an accepted server path, and any port range, the command is `sh -c ` and one script in single
-- quotes, and the script holds no single quote: no setting can end it or add to the command.
pub mosh_bootstrap_command-IsUnquoted :
    (value : Text) (server_path : Option Text) (range : Option MoshUdpPortRange)
    → mosh_server_path value ≡ ok server_path
    → (script : Text) × (mosh_bootstrap_command server_path range
        ≡ shell ++ (b'\'' ∷ (script ++ b'\'' ∷ [])))
      × IsUnquoted script
unfolding mosh_bootstrap_command
mosh_bootstrap_command-IsUnquoted value server_path range h =
    let executable = unwrap_or server_path mosh_default_server in
    let tail = mosh_server_arguments ++ port_option range in
    (
      script_start ++ (executable ++ tail),
      simp append_assoc,
      All-append _ script_start (executable ++ tail) (all-IsUnquoted script_start refl) (
          All-append _ executable tail (executable-IsUnquoted value server_path h) (
            All-append _ mosh_server_arguments (port_option range)
              (all-IsUnquoted mosh_server_arguments refl) (port_option-IsUnquoted range))),
    )
