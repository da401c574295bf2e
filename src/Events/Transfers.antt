-- ===== src/Events/Transfers.antt =====
-- `FileTransferEvent` of leantty_ssh/src/lib.rs.
use leantty.Prelude.{ℕ, [], Text, codes}
use leantty.Prelude.Decimal.{to_string}
use leantty.Auth.{sanitize_server_text}

pub record FileTransferEvent : Type 0 where
  pub kind : Text
  pub transfer_id : Text
  pub pane_id : Text
  pub generation : ℕ  -- u32
  pub transferred_bytes : Text
  pub total_bytes : Text
  pub code : Text
  pub detail : Text

unfoldable pub stage : ℕ → Text → ℕ → Text → FileTransferEvent
stage transfer_id pane_id generation kind = record {
  kind = kind;
  transfer_id = to_string transfer_id;
  pane_id = pane_id;
  generation = generation;
  transferred_bytes = codes "0";
  total_bytes = codes "0";
  code = [];
  detail = [];
}

abbrev counted : FileTransferEvent → ℕ → ℕ → FileTransferEvent
counted event bytes total_bytes = record event {
  transferred_bytes = to_string bytes;
  total_bytes = to_string total_bytes;
}

unfoldable pub progress : ℕ → Text → ℕ → ℕ → ℕ → FileTransferEvent
unfolding stage
progress transfer_id pane_id generation bytes total_bytes =
    counted (stage transfer_id pane_id generation (codes "progress")) bytes total_bytes

unfoldable pub finalizing : ℕ → Text → ℕ → ℕ → ℕ → FileTransferEvent
unfolding stage
finalizing transfer_id pane_id generation bytes total_bytes =
    counted (stage transfer_id pane_id generation (codes "finalizing")) bytes total_bytes

unfoldable pub completed : ℕ → Text → ℕ → ℕ → ℕ → FileTransferEvent
unfolding stage
completed transfer_id pane_id generation bytes total_bytes =
    counted (stage transfer_id pane_id generation (codes "completed")) bytes total_bytes

unfoldable pub failed : ℕ → Text → ℕ → Text → Text → FileTransferEvent
unfolding stage
failed transfer_id pane_id generation code detail =
    record (stage transfer_id pane_id generation (codes "failed")) {
      code = code;
      detail = sanitize_server_text detail;
    }
