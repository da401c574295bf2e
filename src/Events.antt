-- ===== src/Events.antt =====
-- The records that the callbacks of leantty_ssh/src/lib.rs carry to the user interface, and the
-- functions that fill them in. An `i32` is its bit pattern, so -1 is 4294967295; the names of the
-- constructors of `FileTransferEvent` and `AuthEvent` stand in modules of their own.
pub mod Addressed
pub mod Transfers
pub mod Auths
mod Tests
use leantty.Prelude.{ℕ, List, [], Text, codes}
use leantty.Prelude.Decimal.{to_string}
use leantty.Registry.{ConnectionLayer, target, as_str}

pub record TransportEvent : Type 0 where
  pub kind : Text
  pub payload : List ℕ
  pub result : Text
  pub exit_code : ℕ  -- i32
  pub code : Text
  pub detail : Text
  pub layer : Text
  pub stage : Text
  pub status : Text
  pub reason : Text

pub record ControlEvent : Type 0 where
  pub kind : Text
  pub session_id : Text
  pub generation : ℕ  -- u32
  pub layer : Text
  pub stage : Text
  pub code : Text
  pub detail : Text
  pub fingerprint : Text
  pub known_host_line : Text
  pub algorithm : Text
  pub old_fingerprint : Text
  pub new_fingerprint : Text
  pub host : Text
  pub port : ℕ  -- u32
  pub metrics : Text
  pub diagnostic_status : Text
  pub diagnostic_reason : Text

pub record ChangedHostKeyControl : Type 0 where
  pub algorithm : Text
  pub old_fingerprint : Text
  pub new_fingerprint : Text
  pub host : Text
  pub port : ℕ  -- u16

unfoldable pub base : Text → ℕ → ℕ → ControlEvent
base kind session_id generation = record {
  kind = kind;
  session_id = to_string session_id;
  generation = generation;
  layer = [];
  stage = [];
  code = [];
  detail = [];
  fingerprint = [];
  known_host_line = [];
  algorithm = [];
  old_fingerprint = [];
  new_fingerprint = [];
  host = [];
  port = 0;
  metrics = [];
  diagnostic_status = [];
  diagnostic_reason = [];
}

unfoldable pub connected : ℕ → ℕ → ControlEvent
unfolding base
connected session_id generation = base (codes "connected") session_id generation

unfoldable pub error : ℕ → ℕ → ConnectionLayer → Text → Text → Text → ControlEvent
unfolding base as_str
error session_id generation layer stage code detail =
    record (base (codes "error") session_id generation) {
      layer = as_str layer;
      stage = stage;
      code = code;
      detail = detail;
    }

unfoldable pub warning : ℕ → ℕ → ConnectionLayer → Text → Text → Text → ControlEvent
unfolding error
warning session_id generation layer stage code detail =
    record (error session_id generation layer stage code detail) { kind = codes "warning" }

unfoldable pub host_key_prompt : ℕ → ℕ → ConnectionLayer → Text → Text → ControlEvent
unfolding base as_str
host_key_prompt session_id generation layer fingerprint known_host_line =
    record (base (codes "host_key_prompt") session_id generation) {
      layer = as_str layer;
      stage = codes "host_key";
      fingerprint = fingerprint;
      known_host_line = known_host_line;
    }

unfoldable pub host_key_changed : ℕ → ℕ → ConnectionLayer → ChangedHostKeyControl → ControlEvent
unfolding base as_str
host_key_changed session_id generation layer changed =
    record (base (codes "host_key_changed") session_id generation) {
      layer = as_str layer;
      stage = codes "host_key";
      algorithm = changed.algorithm;
      old_fingerprint = changed.old_fingerprint;
      new_fingerprint = changed.new_fingerprint;
      host = changed.host;
      port = changed.port;
    }

unfoldable pub output_metrics : ℕ → ℕ → Text → ControlEvent
unfolding base as_str
output_metrics session_id generation metrics =
    record (base (codes "output_metrics") session_id generation) {
      layer = as_str target;
      stage = codes "output";
      metrics = metrics;
    }

-- -1 as an `i32`.
abbrev pub minus_one : ℕ
minus_one = 4294967295

unfoldable pub transport_data : List ℕ → TransportEvent
transport_data bytes = record {
  kind = codes "data";
  payload = bytes;
  result = [];
  exit_code = minus_one;
  code = [];
  detail = [];
  layer = [];
  stage = [];
  status = [];
  reason = [];
}

unfoldable pub transport_close : ℕ → Text → Text → Text → TransportEvent
transport_close exit_code layer code detail = record {
  kind = codes "close";
  payload = [];
  result = [];
  exit_code = exit_code;
  code = code;
  detail = detail;
  layer = layer;
  stage = [];
  status = [];
  reason = [];
}

unfoldable pub diagnostic : ConnectionLayer → Text → Text → TransportEvent
unfolding as_str
diagnostic layer stage status = record {
  kind = codes "diagnostic";
  payload = [];
  result = [];
  exit_code = minus_one;
  code = [];
  detail = [];
  layer = as_str layer;
  stage = stage;
  status = status;
  reason = [];
}

unfoldable pub mosh_reachability : Text → Text → TransportEvent
unfolding diagnostic
mosh_reachability status reason = record (diagnostic target (codes "mosh_udp") status) {
  kind = codes "reachability";
  reason = reason;
}
