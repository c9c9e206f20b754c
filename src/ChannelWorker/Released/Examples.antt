-- ===== src/ChannelWorker/Released/Examples.antt =====
-- A delivery that an adapter refuses (packages/channels/worker.mjs and
-- apps/web/routes/internal-channels.mjs).
use bai_rui_cloud_agent_plat.Prelude.{[], any, false, find?, none, refl, some, true, ◌∷◌, ◌≡◌}
use bai_rui_cloud_agent_plat.ChannelWorker.Delivering.{refused, deliver, Vendor, attempt_delivery}
use bai_rui_cloud_agent_plat.Channel.Store.{Binding, OutboxItem, Store, is_out_leased, OutboxState}
use bai_rui_cloud_agent_plat.ChannelWorker.Routes.{
  Machine, DeliveryScope, Delivery, DeliveryReceipt, public_delivery, receive, received,
}
use bai_rui_cloud_agent_plat.ChannelWorker.{Adapter, Worker}
use bai_rui_cloud_agent_plat.Channel.Calls.{empty}
use bai_rui_cloud_agent_plat.Json.{Value}
use bai_rui_cloud_agent_plat.Channel.Bindings.{get_channel_binding_by_id}
use bai_rui_cloud_agent_plat.Control.Samples.{a_runtime}
use bai_rui_cloud_agent_plat.ChannelWorker.Released.{has_outbound_id, receive-released}
use bai_rui_cloud_agent_plat.Channel.Delivery.{same_attempt}

abbrev a_binding : Binding
a_binding = record {
  id = "b1";
  organization_id = "org";
  user_id = "u1";
  agent_id = "a1";
  channel = "qq";
  display_name = "QQ";
  status = "active";
  credential_envelope = none;
  credential_hint = none;
  metadata = Value.null;
  connection_generation = 1;
  capabilities = [];
  adapter_version = none;
  last_error_code = none;
  last_seen_at = none;
  last_health_at = none;
  last_inbound_at = none;
  last_outbound_at = none;
  created_at = 0;
  updated_at = 0;
}

abbrev an_item : OutboxItem
an_item = record {
  id = "o1";
  organization_id = "org";
  user_id = "u1";
  agent_id = "a1";
  binding_id = "b1";
  inbox_id = "i1";
  channel = "qq";
  channel_account_id = "b1";
  conversation = record {
    channel_conversation_id = "c1";
    runtime_conversation_id = some "channel:1";
    rest = Value.null;
  };
  content = Value.null;
  attachments = Value.null;
  reply_to_message_id = none;
  trace = Value.null;
  state = OutboxState.leased;
  attempts = 1;
  max_attempts = 5;
  available_at = 100;
  worker_id = some "w1";
  lease_token = some "l1:o1";
  lease_expires_at = some 60000;
  channel_message_id = none;
  last_error_code = none;
  delivered_at = none;
  created_at = 100;
  updated_at = 200;
}

abbrev a_store : Store
a_store = record empty { bindings = a_binding ∷ []; outbox = an_item ∷ [] }

abbrev a_machine : Machine
a_machine = record {
  machine_id = "w1";
  credential = record {
    id = "k1";
    worker_id = "w1";
    organization_id = some "org";
    allowed_channels = "feishu" ∷ "qq" ∷ [];
    key_hash = "h";
    key_hint = "hint";
    status = "active";
    created_by = none;
    expires_at = none;
    revoked_at = none;
    created_at = 0;
  };
}

abbrev a_scope : DeliveryScope
a_scope = record {
  organization_id = "org";
  user_id = "u1";
  agent_id = "a1";
  workspace_id = "ws_5e1f";
  conversation_id = some "channel:1";
}

abbrev a_delivery : Delivery
a_delivery = record {
  owner_scope = a_scope;
  outbound_id = "o1";
  binding_id = "b1";
  channel = "qq";
  channel_account_id = "b1";
  channel_conversation_id = "c1";
  content = Value.null;
  attachments = Value.arr bai_rui_cloud_agent_plat.Json.Items.nil;
  reply_to_message_id = none;
  attempt = 1;
  lease_token = "l1:o1";
  available_at = 100;
  trace = Value.null;
}

abbrev an_adapter : Adapter
an_adapter = record {
  id = "b1";
  channel = "qq";
  worker_id = "w1";
  owner_scope = record {
    organization_id = some "org";
    user_id = some "u1";
    agent_id = some "a1";
    workspace_id = none;
  };
}

abbrev a_worker : Worker
a_worker = record {
  worker_id = "w1";
  adapters = ("b1", an_adapter) ∷ [];
  generations = ("b1", 1) ∷ [];
  refreshing = false;
  inventory_ready = true;
  stopped = false;
}

-- The vendor limits the rate.
abbrev a_vendor : Adapter → Delivery → Vendor
a_vendor a d = refused false (some "rate limited")

abbrev some_receipt : DeliveryReceipt
some_receipt = record {
  owner_scope = a_scope;
  outbound_id = "o1";
  binding_id = "b1";
  lease_token = "l1:o1";
  status = "retryable";
  attempt = 1;
  channel_message_id = none;
  error_code = some "rate_limited";
  retry_after_ms = some 5000;
  observed_at = 300;
}

sent_test : deliver a_vendor a_worker 300 a_delivery ≡ some_receipt
unfolding deliver
sent_test = refl

receive-released_example :
    let r =
      receive
        (λ r. true)
        (λ t. "5e1f")
        (a_runtime ∷ [])
        a_machine
        310
        "f"
        "g"
        (deliver a_vendor a_worker 300 a_delivery)
        a_store in
    ((x : OutboxItem) × (find? (has_outbound_id "o1") r.0.outbox ≡ some x)
      × (is_out_leased x.state ≡ false))
    × (any (same_attempt "o1" 1) r.0.receipts ≡ true)
    × (r.1 ≡ received "o1" (attempt_delivery a_vendor a_worker a_delivery).status 300)
unfolding public_delivery get_channel_binding_by_id empty
receive-released_example =
    receive-released (λ r. true) (λ t. "5e1f") (a_runtime ∷ []) a_machine a_vendor a_worker 310 300
      "f" "g" "l1:o1" an_item a_delivery a_binding a_store refl refl refl refl refl refl refl refl
      refl refl
