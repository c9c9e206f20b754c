-- ===== src/ChannelWorker/Delivering.antt =====
-- What a channel worker does with a delivery: deliver of packages/channels/worker.mjs, and
-- adapterErrorCode of packages/channels/adapters/utilities.mjs. What an adapter answers or throws is an
-- argument.
use bai_rui_cloud_agent_plat.Prelude.{
  Bool, Option, String, if◌then◌else◌, lookup, min, none, or_else, some, ℕ,
}
use bai_rui_cloud_agent_plat.IngressWorker.Messages.{replace_unsafe, slice, or_default}
use bai_rui_cloud_agent_plat.ChannelWorker.{Adapter, Worker}
use bai_rui_cloud_agent_plat.ChannelWorker.Routes.{Delivery, DeliveryReceipt, non_empty}
use mathlib.Core.Option

unfoldable pub adapter_error_code : Option String → String → String
unfolding replace_unsafe slice
adapter_error_code code fallback =
    or_default (slice 200 (replace_unsafe "._:/-" (or_else code fallback))) fallback

-- `retry_after_ms` as `Number` reads it.
pub record Result : Type 0 where
  pub status : String
  pub channel_message_id : Option String
  pub error_code : Option String
  pub retry_after_ms : Option ℕ

-- A result, or whether `retryable` is false of what was thrown, and its code.
pub data Vendor : Type 0 where
  delivered_as : Result → Vendor
  refused : Bool → Option String → Vendor

abbrev pub not_running : Result
not_running = record {
  status = "failed";
  channel_message_id = none;
  error_code = some "channel_adapter_not_running";
  retry_after_ms = none;
}

abbrev pub result_of : Vendor → Result
result_of (delivered_as r) = r
result_of (refused final code) = record {
  status = if final then "failed" else "retryable";
  channel_message_id = none;
  error_code = some (adapter_error_code code "channel_delivery_failed");
  retry_after_ms = some 5000;
}

unfoldable pub attempt_delivery : (Adapter → Delivery → Vendor) → Worker → Delivery → Result
attempt_delivery vendor w d = elim (lookup d.binding_id w.adapters) [
  | none ↦ not_running
  | some a ↦ result_of (vendor a d)
]

-- `Math.max(0, Math.min(n, 86_400_000))`
abbrev pub bound_retry : Option ℕ → Option ℕ
bound_retry n = Option.map (λ m. min m 86400000) n

abbrev pub code_sent : Option String → Option String
code_sent e = Option.map (λ c. adapter_error_code (some c) "channel_adapter_failed") (non_empty e)

-- The receipt that deliver sends.
unfoldable pub deliver : (Adapter → Delivery → Vendor) → Worker → ℕ → Delivery → DeliveryReceipt
unfolding attempt_delivery adapter_error_code
deliver vendor w observed d =
    let r = attempt_delivery vendor w d in
    record {
      owner_scope = d.owner_scope;
      outbound_id = d.outbound_id;
      binding_id = d.binding_id;
      lease_token = d.lease_token;
      status = r.status;
      attempt = d.attempt;
      channel_message_id = non_empty r.channel_message_id;
      error_code = code_sent r.error_code;
      retry_after_ms = bound_retry r.retry_after_ms;
      observed_at = observed;
    }
