-- ===== src/Session/Metrics.antt =====
-- `OutputDeliveryMetrics` of leantty_ssh/src/lib.rs, and the answers of a callback.
use leantty.Prelude.{ℕ, ◌+◌, Bool, true, false, ◌++◌, Text, codes}
use leantty.Prelude.Decimal.{to_string}
use leantty.Transfer.{u64}

-- `napi::Status`, as far as the code looks at it.
pub data Status : Type 0 where
  status_ok queue_full other_status : Status

-- The fields are `u64`.
pub record OutputDeliveryMetrics : Type 0 where
  pub received_bytes : ℕ
  pub napi_queued_bytes : ℕ
  pub callback_retries : ℕ
  pub final_delivery_failures : ℕ
  pub final_delivery_failed_bytes : ℕ
  pub output_batches : ℕ

abbrev pub no_metrics : OutputDeliveryMetrics
no_metrics = record {
  received_bytes = 0;
  napi_queued_bytes = 0;
  callback_retries = 0;
  final_delivery_failures = 0;
  final_delivery_failed_bytes = 0;
  output_batches = 0;
}

abbrev retried : OutputDeliveryMetrics → OutputDeliveryMetrics × Bool
retried m = (record m { callback_retries = u64 (m.callback_retries + 1) }, false)

-- The result says whether the callback queued the output.
abbrev pub record_callback_attempt :
    OutputDeliveryMetrics → Status → ℕ → OutputDeliveryMetrics × Bool
record_callback_attempt m status_ok output_len = (
  record m {
    napi_queued_bytes = u64 (m.napi_queued_bytes + output_len);
    output_batches = u64 (m.output_batches + 1);
  },
  true,
)
record_callback_attempt m queue_full output_len = retried m
record_callback_attempt m other_status output_len = retried m

abbrev pub record_final_delivery_failure : OutputDeliveryMetrics → ℕ → OutputDeliveryMetrics
record_final_delivery_failure m output_len = record m {
  final_delivery_failures = u64 (m.final_delivery_failures + 1);
  final_delivery_failed_bytes = u64 (m.final_delivery_failed_bytes + output_len);
}

abbrev shown : Bool → Text
shown true = codes "true"
shown false = codes "false"

unfoldable pub summary : OutputDeliveryMetrics → Bool → Bool → Text
summary m output_paused final_snapshot =
    codes "received="
    ++ (to_string m.received_bytes
        ++ (codes ",napiQueued="
            ++ (to_string m.napi_queued_bytes
                ++ (codes ",callbackRetries="
                    ++ (to_string m.callback_retries
                        ++ (codes ",finalDeliveryFailures="
                            ++ (to_string m.final_delivery_failures
                                ++ (codes ",finalDeliveryFailedBytes="
                                    ++ (to_string m.final_delivery_failed_bytes
                                        ++ (codes ",batches="
                                            ++ (to_string m.output_batches
                                                ++ (codes ",paused="
                                                    ++ (shown output_paused
                                                        ++ (codes ",final="
                                                            ++ shown final_snapshot))))))))))))))
