-- ===== src/Channel/Examples.antt =====
-- A channel's life on concrete values: tests of the calls, and the theorems at these values.
use bai_rui_cloud_agent_plat.Prelude.{
  String, Option, none, some, List, [], ◌∷◌, ◌≡◌, refl, map, false, All, contains, arith,
}
use bai_rui_cloud_agent_plat.Json.{Value}
use bai_rui_cloud_agent_plat.Channel.Store.{
  Binding, InboxItem, InboxState, OutboxItem, OutboxState, Store, Receipt,
}
use bai_rui_cloud_agent_plat.Channel.Ingress.{
  IngressInput, duplicate, accepted, new_inbox, touch_inbound, accept_channel_ingress,
  ConversationInput,
}
use bai_rui_cloud_agent_plat.Channel.Jobs.{
  LeaseInput, leased_jobs, lease_channel_ingress, lease_span, CompleteInput, OutboundInput,
  FailInput,
}
use bai_rui_cloud_agent_plat.Channel.Delivery.{
  DeliveryLeaseInput, leased_deliveries, lease_channel_deliveries, ReceiptInput, recorded,
  record_channel_delivery_receipt,
}
use bai_rui_cloud_agent_plat.Channel.Bindings.{BindingInput, binding_value}
use bai_rui_cloud_agent_plat.Channel.Calls.{
  Call, accept, ensure, lease, complete, fail, lease_out, receipt, upsert, apply, run, empty,
}
use bai_rui_cloud_agent_plat.Channel.Validity.{IsValid}
use bai_rui_cloud_agent_plat.Channel.Validity.Runs.{run-IsValid}
use bai_rui_cloud_agent_plat.Channel.History.Runs.{StoreLater, run-StoreLater}
use bai_rui_cloud_agent_plat.Channel.Leases.{jobs_exclusive, deliveries_exclusive}
use bai_rui_cloud_agent_plat.Channel.Idempotence.{accept_twice}

abbrev pub bind : BindingInput
bind = record {
  id = some "b1";
  organization_id = "o1";
  user_id = "u1";
  agent_id = "a1";
  channel = "qq";
  display_name = "QQ";
  status = some "connected";
  credential_envelope = some Value.null;
  credential_hint = none;
  metadata = none;
  last_error_code = none;
}

abbrev pub message : IngressInput
message = record {
  id = some "i1";
  binding_id = "b1";
  agent_id = "a1";
  channel = "qq";
  channel_account_id = "acc";
  external_message_id = "m1";
  sender = Value.null;
  conversation = record {
    channel_conversation_id = "c1";
    runtime_conversation_id = none;
    rest = Value.null;
  };
  content = Value.null;
  attachments = none;
  reply_to_message_id = none;
  trace = Value.null;
  max_attempts = some 2;
  received_at = 90;
}

abbrev talk : ConversationInput
talk = record {
  id = some "k1";
  organization_id = "o1";
  user_id = "u1";
  agent_id = "a1";
  binding_id = "b1";
  channel = "qq";
  channel_conversation_id = "c1";
  conversation_kind = "direct";
  runtime_conversation_id = some "r1";
  last_message_at = none;
}

abbrev pub job_lease : String → LeaseInput
job_lease id = record { lease_id = some id; limit = none; lease_seconds = some 60 }

abbrev reply : OutboundInput
reply = record {
  id = some "q1";
  conversation = none;
  content = Value.null;
  attachments = none;
  reply_to_message_id = none;
  trace = none;
  max_attempts = some 3;
}

abbrev delivery_lease : String → DeliveryLeaseInput
delivery_lease id = record {
  lease_id = some id;
  worker_id = "w1";
  agent_id = none;
  organization_id = some "o1";
  channels = "feishu" ∷ "qq" ∷ [];
  binding_ids = [];
  limit = some 5;
  lease_seconds = none;
}

abbrev sent : ReceiptInput
sent = record {
  receipt_id = some "p1";
  outbound_id = "q1";
  binding_id = "b1";
  agent_id = "a1";
  worker_id = some "w1";
  lease_token = "y1:q1";
  attempt = 1;
  status = "delivered";
  channel_message_id = some "x9";
  error_code = none;
  retry_after_ms = none;
  observed_at = 400;
}

abbrev bound : Store
bound = run (upsert 50 "f" bind ∷ []) empty

abbrev waiting : Store
waiting = run (upsert 50 "f" bind ∷ accept 100 "f" message ∷ []) empty

-- Leased, failed once, leased again, answered and delivered.
abbrev to_answer : List Call
to_answer =
    upsert 50 "f" bind
    ∷ accept 100 "f" message
    ∷ ensure 110 "f" "g" talk
    ∷ lease 120 "f" (job_lease "l1")
    ∷ fail 130 "f"
        (record { id = "i1"; lease_token = "l1:i1"; error_code = "busy"; available_at = some 140 })
    ∷ lease 150 "f" (job_lease "l2")
    ∷ complete 160 "f" (record { id = "i1"; lease_token = "l2:i1"; outbound = some reply })
    ∷ []

abbrev to_deliver : List Call
to_deliver = lease_out 200 "f" (delivery_lease "y1") ∷ receipt 410 "f" "g" sent ∷ []

abbrev answered : Store
answered = run to_answer empty

all_calls : Unit {0}
unfolding run apply empty accept_channel_ingress lease_channel_ingress lease_channel_deliveries
    record_channel_delivery_receipt
    bai_rui_cloud_agent_plat.Channel.Ingress.ensure_channel_conversation
    bai_rui_cloud_agent_plat.Channel.Jobs.complete_channel_ingress
    bai_rui_cloud_agent_plat.Channel.Jobs.fail_channel_ingress
    bai_rui_cloud_agent_plat.Channel.Bindings.upsert_agent_channel_binding
all_calls = tt

answered_test :
    (map (λ i. i.state) answered.inbox ≡ InboxState.completed ∷ [])
    × (map (λ i. i.attempts) answered.inbox ≡ 2 ∷ [])
    × (map (λ o. o.state) answered.outbox ≡ OutboxState.pending ∷ [])
unfolding all_calls
answered_test = (refl, refl, refl)

delivered_test :
    (map (λ o. o.state) (run to_deliver answered).outbox ≡ OutboxState.delivered ∷ [])
    × (map (λ b. b.last_outbound_at) (run to_deliver answered).bindings ≡ some 400 ∷ [])
unfolding all_calls
delivered_test = (refl, refl)

run-IsValid_example : IsValid (run to_answer empty)
run-IsValid_example = run-IsValid to_answer

run-StoreLater_example : StoreLater answered (run to_deliver answered)
run-StoreLater_example = run-StoreLater to_deliver answered

jobs_exclusive_example :
    All
      (λ r. contains r.0 (map (λ q. q.0) (leased_jobs 120 (job_lease "l1") waiting)) ≡ false)
      (leased_jobs 60120
        (job_lease "l2")
        (lease_channel_ingress 120 "f" (job_lease "l1") waiting).0)
jobs_exclusive_example =
    jobs_exclusive 120 60120 "f" (job_lease "l1") (job_lease "l2") waiting (omega arith)

deliveries_exclusive_example :
    All
      (λ r.
        contains r.0 (map (λ q. q.0) (leased_deliveries 200 (delivery_lease "y1") answered))
        ≡ false)
      (leased_deliveries 300
        (delivery_lease "y2")
        (lease_channel_deliveries 200 "f" (delivery_lease "y1") answered).0)
deliveries_exclusive_example =
    deliveries_exclusive 200 300 "f" (delivery_lease "y1") (delivery_lease "y2") answered
      (omega arith)

abbrev the_binding : Binding
the_binding = unfold binding_value in touch_inbound 100 90 (binding_value 50 "f" bind none)

abbrev the_item : InboxItem
the_item = new_inbox 100 "f" message (binding_value 50 "f" bind none)

first_accept : (accept_channel_ingress 100 "f" message bound).1 ≡ accepted the_binding the_item
unfolding all_calls
first_accept = refl

accept_twice_example :
    accept_channel_ingress 700 "h" message (accept_channel_ingress 100 "f" message bound).0
    ≡ ((accept_channel_ingress 100 "f" message bound).0, duplicate the_binding the_item)
accept_twice_example = accept_twice 100 700 "f" "h" message bound first_accept

abbrev out_leased : Store
out_leased = run (lease_out 200 "f" (delivery_lease "y1") ∷ []) answered

abbrev the_receipt : Receipt
the_receipt = record {
  id = "p1";
  outbound_id = "q1";
  binding_id = "b1";
  worker_id = some "w1";
  attempt = 1;
  status = "delivered";
  channel_message_id = some "x9";
  error_code = none;
  observed_at = 400;
}

first_receipt :
    (o : Option OutboxItem) × ((record_channel_delivery_receipt 410 "f" "g" sent out_leased).1
      ≡ recorded the_receipt o)
unfolding all_calls
first_receipt = (_, refl)
