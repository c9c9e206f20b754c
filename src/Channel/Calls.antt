-- ===== src/Channel/Calls.antt =====
-- Any sequence of calls of the channel part of the repository, each with the instant and the fresh
-- identifiers that it runs with.
use bai_rui_cloud_agent_plat.Prelude.{ℕ, String, List, [], ◌∷◌}
use bai_rui_cloud_agent_plat.Channel.Store.{Store}
use bai_rui_cloud_agent_plat.Channel.Ingress.{
  IngressInput, accept_channel_ingress, ConversationInput, ensure_channel_conversation,
}
use bai_rui_cloud_agent_plat.Channel.Jobs.{
  LeaseInput, lease_channel_ingress, CompleteInput, complete_channel_ingress, FailInput,
  fail_channel_ingress,
}
use bai_rui_cloud_agent_plat.Channel.Delivery.{
  DeliveryLeaseInput, lease_channel_deliveries, ReceiptInput, record_channel_delivery_receipt,
}
use bai_rui_cloud_agent_plat.Channel.Bindings.{
  BindingInput, upsert_agent_channel_binding, delete_agent_channel_binding, HealthInput,
  save_channel_health_report,
}

pub data Call : Type 0 where
  accept : ℕ → String → IngressInput → Call
  ensure : ℕ → String → String → ConversationInput → Call
  lease : ℕ → String → LeaseInput → Call
  complete : ℕ → String → CompleteInput → Call
  fail : ℕ → String → FailInput → Call
  lease_out : ℕ → String → DeliveryLeaseInput → Call
  receipt : ℕ → String → String → ReceiptInput → Call
  upsert : ℕ → String → BindingInput → Call
  delete : String → String → String → String → Call
  health : ℕ → String → HealthInput → Call

-- The store after one call.
unfoldable pub apply : Call → Store → Store
apply (accept now fresh i) s = (accept_channel_ingress now fresh i s).0
apply (ensure now fresh fresh_runtime i) s =
    (ensure_channel_conversation now fresh fresh_runtime i s).0
apply (lease now fresh l) s = (lease_channel_ingress now fresh l s).0
apply (complete now fresh c) s = (complete_channel_ingress now fresh c s).0
apply (fail now fresh f) s = (fail_channel_ingress now fresh f s).0
apply (lease_out now fresh l) s = (lease_channel_deliveries now fresh l s).0
apply (receipt now fresh fresh_letter r) s =
    (record_channel_delivery_receipt now fresh fresh_letter r s).0
apply (upsert now fresh i) s = (upsert_agent_channel_binding now fresh i s).0
apply (delete org user agent channel) s = (delete_agent_channel_binding org user agent channel s).0
apply (health now fresh h) s = (save_channel_health_report now fresh h s).0

unfoldable pub run : List Call → Store → Store
unfolding apply
run [] s = s
run (c ∷ cs) s = run cs (apply c s)

unfoldable pub empty : Store
empty = record {
  bindings = [];
  conversations = [];
  inbox = [];
  outbox = [];
  receipts = [];
  health = [];
  dead_letters = [];
}
