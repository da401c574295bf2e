-- ===== src/Registry/Validation.antt =====
-- What the tests of `ssh_connect` in leantty_ssh/src/lib.rs let through.
use leantty.Prelude.{
  ℕ, ◌≤◌, Bool, true, false, ◌≡◌, ◌⊎◌, ◌↔◌, Text, codes, text_eq_iff, arith, Result, ok, err, ◌>>◌,
}
use leantty.Registry.Connect.{
  is_blank, is_bad_port, refused, validate_keepalive, SshConnectParams, validate_jump,
  validate_ssh_connect,
}

pub record IsJump (p : SshConnectParams) : Type 0 where
  pub jump_port_pos : 1 ≤ p.jump_port
  pub jump_port_fits : p.jump_port ≤ 65535
  pub jump_user_given : is_blank p.jump_user ≡ false
  pub jump_timeout_pos : 1 ≤ p.jump_connect_timeout_ms
  pub jump_interval_fits : p.jump_server_alive_interval_seconds ≤ 3600
  pub jump_count_pos : 1 ≤ p.jump_server_alive_count_max
  pub jump_count_fits : p.jump_server_alive_count_max ≤ 100
  pub differs : ¬ ((p.host ≡ p.jump_host) × (p.port ≡ p.jump_port))

pub record IsConnectable (p : SshConnectParams) : Type 0 where
  pub host_given : is_blank p.host ≡ false
  pub port_pos : 1 ≤ p.port
  pub port_fits : p.port ≤ 65535
  pub user_given : is_blank p.user ≡ false
  pub jump_fits : (is_blank p.jump_host ≡ true) ⊎ IsJump p
  pub path_given : is_blank p.known_hosts_path ≡ false
  pub timeout_pos : 1 ≤ p.connect_timeout_ms
  pub interval_fits : p.server_alive_interval_seconds ≤ 3600
  pub count_pos : 1 ≤ p.server_alive_count_max
  pub count_fits : p.server_alive_count_max ≤ 100
  pub generation_pos : 1 ≤ p.generation

refused_iff : (bad : Bool) (message : Text) → (refused bad message ≡ ok tt) ↔ (bad ≡ false)
refused_iff true message = ground arith
refused_iff false message = ground arith

-- `m?` and what follows it.
then_iff : (m k : Result (Unit {0}) Text) → ((m >> k) ≡ ok tt) ↔ ((m ≡ ok tt) × (k ≡ ok tt))
then_iff (ok u) k = ground arith
then_iff (err e) k = ground arith

validate_keepalive_iff :
    (interval count : ℕ) (layer : Text)
    → (validate_keepalive interval count layer ≡ ok tt)
      ↔ ((interval ≤ 3600) × (1 ≤ count) × (count ≤ 100))
unfolding validate_keepalive
validate_keepalive_iff interval count layer = ground arith

bad_port_iff : (port : ℕ) → (is_bad_port port ≡ false) ↔ ((1 ≤ port) × (port ≤ 65535))
bad_port_iff port = ground arith

validate_jump_iff : (p : SshConnectParams) → (validate_jump p ≡ ok tt) ↔ IsJump p
unfolding validate_jump
validate_jump_iff p = ground (
  arith,
  validate_keepalive_iff p.jump_server_alive_interval_seconds p.jump_server_alive_count_max
      (codes "jump"),
  text_eq_iff p.host p.jump_host,
)

-- The arguments of `ssh_connect` pass its tests exactly if they are connectable: host, user and path are
-- given, ports and keepalive settings are in range, timeouts and the generation are not 0, and a jump
-- host, where one is given, has valid settings and is not the target itself.
pub validate_ssh_connect_lem :
    (p : SshConnectParams) → (validate_ssh_connect p ≡ ok tt) ↔ IsConnectable p
unfolding validate_ssh_connect
validate_ssh_connect_lem p = ground (
  arith,
  validate_jump_iff p,
  validate_keepalive_iff p.server_alive_interval_seconds p.server_alive_count_max (codes "target"),
)
