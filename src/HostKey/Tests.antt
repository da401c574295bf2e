-- ===== src/HostKey/Tests.antt =====
-- Calls of `check_server_key` for a host with no recorded key, for one with another key, and the line
-- that is offered, with crates whose keys are texts.
use leantty.Prelude.{
  ◌+◌, true, false, [], ◌∷◌, ◌++◌, u32, split_inclusive, none, some, ◌≡◌, refl, Text, codes,
  text_eq, ok, err, if◌then◌else◌, arith,
}
use leantty.Registry.{target, jump, HostKeyDecision}
use leantty.KnownHosts.{
  Crypto, KnownHostsRemoval, KnownHostsQuery, format_known_hosts_target, remove_known_host_entries,
  find_known_host_entries,
}
use leantty.Waits.{wait_for_host_key_decision}
use leantty.HostKey.{
  HostKeyCrate, ClientHandler, key_changed, plain_key, certificate, prompted_line, ask_user,
  settle_key, check_server_key,
}
use leantty.HostKey.Trust.{IsTrusted, IsTold, check_server_key-IsTrusted, check_server_key-IsTold}
use leantty.HostKey.Added.{IsOneLine, prompted_line-found}
use leantty.Prelude.Decimal.{to_string}

-- The key `K2` is recorded for the host `b`.
abbrev text_keys : HostKeyCrate
text_keys = record {
  PublicKey = Text;
  algorithm = λ k. codes "ssh-ed25519";
  fingerprint = λ k. k;
  to_openssh = λ k. ok k;
  check_known_hosts_path = λ host port k path.
      if text_eq host (codes "b")
      then if text_eq k (codes "K2") then ok true else err (key_changed 4)
      else ok false;
  known_host_keys_path = λ host port path. ok ((4, codes "K2") ∷ []);
}

abbrev handler_of : Text → ClientHandler
handler_of host = record {
  session_id = 7;
  generation = 3;
  layer = target;
  host = host;
  port = 2222;
  known_hosts_path = codes "/k";
  transport_callback = true;
  verbose = true;
}

abbrev decision : HostKeyDecision
decision = record { layer = target; accepted = true }

accepted_key :
    (check_server_key text_keys
      (handler_of (codes "a"))
      (plain_key (codes "K1"))
      (some (record decision { layer = jump; accepted = false }) ∷ some decision ∷ [])).1
    ≡ some true
unfolding check_server_key settle_key ask_user wait_for_host_key_decision text_eq
accepted_key = refl

undecided_key :
    (check_server_key text_keys (handler_of (codes "a")) (plain_key (codes "K1")) []).1 ≡ none
unfolding check_server_key settle_key ask_user wait_for_host_key_decision text_eq
undecided_key = refl

refused_certificate :
    (check_server_key text_keys (handler_of (codes "a")) certificate (some decision ∷ [])).1
    ≡ some false
unfolding check_server_key
refused_certificate = refl

check_server_key-IsTrusted_example :
    IsTrusted text_keys
      (handler_of (codes "a"))
      (some (record decision { layer = jump; accepted = false }) ∷ some decision ∷ [])
      (plain_key (codes "K1"))
      (check_server_key text_keys
        (handler_of (codes "a"))
        (plain_key (codes "K1"))
        (some (record decision { layer = jump; accepted = false }) ∷ some decision ∷ [])).0
check_server_key-IsTrusted_example =
    check_server_key-IsTrusted text_keys (handler_of (codes "a"))
      (some (record decision { layer = jump; accepted = false }) ∷ some decision ∷ [])
      (plain_key (codes "K1")) accepted_key

other_key :
    text_keys.check_known_hosts_path (codes "b") 2222 (codes "K1") (codes "/k")
    ≡ err (key_changed 4)
unfolding text_eq
other_key = refl

check_server_key-IsTold_example :
    IsTold text_keys
      (handler_of (codes "b"))
      (codes "K1")
      (text_keys.check_known_hosts_path (codes "b") 2222 (codes "K1") (codes "/k"))
      (check_server_key text_keys (handler_of (codes "b")) (plain_key (codes "K1")) []).0
check_server_key-IsTold_example =
    check_server_key-IsTold text_keys (handler_of (codes "b")) [] (codes "K1")
      (λ same. unfold text_eq in ground arith)

abbrev no_crypto : Crypto
no_crypto = record { decode_base64 = λ t. none; hmac_sha1 = λ key. none }

abbrev recorded_before : Text
recorded_before = codes "b k\n"

abbrev added_line : Text
added_line = prompted_line (codes "a") 2222 (codes "k K1")

abbrev no_breaks : IsOneLine (codes "k K1")
no_breaks = (
  (λ e. omega arith, λ e. omega arith),
  (
    (λ e. omega arith, λ e. omega arith),
    ((λ e. omega arith, λ e. omega arith), ((λ e. omega arith, λ e. omega arith), tt)),
  ),
)

prompted_line-found_example :
    ((q : KnownHostsQuery) × (find_known_host_entries no_crypto recorded_before (codes "a") 2222
        ≡ ok q)
      × (find_known_host_entries no_crypto
            (recorded_before ++ (added_line ++ b'\n' ∷ []))
            (codes "a")
            2222
          ≡ ok (record {
            output =
                q.output
                ++ (codes "# Host "
                    ++ (format_known_hosts_target (codes "a") 2222
                        ++ (codes " found: line "
                            ++ (to_string 2 ++ (b'\n' ∷ (added_line ++ b'\n' ∷ []))))));
            found = u32 (q.found + 1);
          })))
    × ((r : KnownHostsRemoval) × (remove_known_host_entries no_crypto recorded_before
            (codes "a")
            2222
          ≡ ok r)
        × (remove_known_host_entries no_crypto
              (recorded_before ++ (added_line ++ b'\n' ∷ []))
              (codes "a")
              2222
            ≡ ok (record { content = r.content; removed = u32 (r.removed + 1) })))
unfolding split_inclusive
prompted_line-found_example =
    prompted_line-found no_crypto recorded_before (codes "a") 2222 (codes "k K1") refl
      ((ground arith, ground arith, ground arith, ((refl, ground arith), tt)), refl) no_breaks
