-- ===== src/Login/Tests.antt =====
-- A server that takes the password after the key was refused.
use leantty.Prelude.{◌≢◌, true, false, [], ◌∷◌, some, ◌≡◌, refl, codes, ok, err}
use leantty.Auth.{new, select_next_method, begin_stage, choose_method, contains, submit_password}
use leantty.Registry.{password}
use leantty.Waits.{exchange_done, command, wait_for_auth_exchange}
use leantty.Login.{
  method_public_key, method_password, method_other, auth_method_kinds, authenticated,
  AuthenticationOutcome, success, failure, interactive_success, Peers, completed, ask_user,
  password_step, perform_action, authentication_loop, start_authentication, run_authentication,
}
use leantty.Login.Refusal.{Refuses, run_authentication_refused}
use leantty.Login.Ends.{run_authentication-Ended}

abbrev password_server : Peers
password_server = record {
  authenticate_none =
      exchange_done (ok (failure (method_public_key ∷ method_other ∷ method_password ∷ []) false));
  authenticate_private_key = λ n value. exchange_done (ok (failure (method_password ∷ []) false));
  authenticate_password = λ n value. exchange_done (ok success);
  interactive_start = λ n. exchange_done (err (codes "disabled"));
  interactive_respond = λ n k responses. exchange_done (ok interactive_success);
  delivered = λ n k. true;
  answer = λ n k. command (password (codes "secret"));
}

password_server_authenticates :
    run_authentication password_server 9 28 (codes "/data/id_ed25519") false ≡ some authenticated
unfolding run_authentication start_authentication authentication_loop perform_action password_step
    ask_user completed wait_for_auth_exchange auth_method_kinds new select_next_method begin_stage
    choose_method contains submit_password
password_server_authenticates = refl

run_authentication-Ended_example :
    (outcome : AuthenticationOutcome) × (run_authentication password_server 9 28
        (codes "/data/id_ed25519")
        false
      ≡ some outcome)
run_authentication-Ended_example =
    run_authentication-Ended password_server (codes "/data/id_ed25519") false

-- A server that refuses every method, and goes on offering them.
abbrev closed_server : Peers
closed_server = record {
  authenticate_none = exchange_done (ok (failure (method_password ∷ []) false));
  authenticate_private_key = λ n value. exchange_done (ok (failure (method_password ∷ []) true));
  authenticate_password = λ n value. exchange_done (ok (failure (method_password ∷ []) true));
  interactive_start = λ n. exchange_done (err (codes "disabled"));
  interactive_respond = λ n k responses. exchange_done (err (codes "disabled"));
  delivered = λ n k. true;
  answer = λ n k. command (password (codes "secret"));
}

abbrev closed_server_refuses : Refuses closed_server
closed_server_refuses = record {
  at_first = tt;
  keys = λ n value. tt;
  passwords = λ n value. tt;
  starts = λ n. tt;
  responses = λ n k rs. tt;
}

run_authentication_refused_example :
    run_authentication closed_server 9 28 (codes "/data/id_ed25519") false ≢ some authenticated
run_authentication_refused_example =
    run_authentication_refused closed_server 9 28 (codes "/data/id_ed25519") false
      closed_server_refuses
