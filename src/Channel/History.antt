-- ===== src/Channel/History.antt =====
-- What the channel store keeps over time: the messages it has accepted and the replies it owes.
pub mod Runs
use bai_rui_cloud_agent_plat.Prelude.{
  ℕ, ◌+◌, ◌≤◌, String, Option, none, some, List, [], ◌∷◌, ◌++◌, ◌≡◌, refl, Bool, true, false, arith,
  Evolves, Evolves-refl, Evolves-append, Evolves-update_first, Evolves-update_at, Evolves-trans,
  Option-cases, Bool-cases, inl, inr, find?, select-Picks, or_else, not, ◌||◌, ◌===◌,
}
use bai_rui_cloud_agent_plat.Channel.Store.{InboxItem, InboxState, OutboxItem, OutboxState, Store}
use bai_rui_cloud_agent_plat.Channel.Ingress.{
  IngressInput, same_message, is_target, accept_for, accept_channel_ingress, same_conversation,
  ensure_channel_conversation,
}
use bai_rui_cloud_agent_plat.Channel.Jobs.{
  LeaseInput, can_lease, lease_item, lease_limit, lease_span, lease_channel_ingress, leased_jobs,
  holds_lease, complete_item, OutboundInput, reply_outbox, complete_channel_ingress, FailInput,
  fail_item, fail_channel_ingress,
}
use bai_rui_cloud_agent_plat.Channel.Delivery.{
  DeliveryLeaseInput, can_deliver, lease_outbox_item, lease_channel_deliveries, leased_deliveries,
  ReceiptInput, same_attempt, is_receipt_target, settle_outbound, settle_receipt, other_worker,
  record_channel_delivery_receipt,
}
use bai_rui_cloud_agent_plat.Channel.Bindings.{
  same_channel, upsert_agent_channel_binding, owned_channel, delete_agent_channel_binding,
  is_health_target, save_channel_health_report,
}
use bai_rui_cloud_agent_plat.Channel.Calls.{
  Call, accept, ensure, lease, complete, fail, lease_out, receipt, upsert, delete, health, apply,
  run,
}

abbrev pub has_ended : InboxState → Bool
has_ended InboxState.completed = true
has_ended InboxState.dead = true
has_ended _ = false

abbrev pub has_settled : OutboxState → Bool
has_settled OutboxState.delivered = true
has_settled OutboxState.dead = true
has_settled OutboxState.failed = true
has_settled _ = false

-- `y` is `x` at a later time: only the fields of the queue may differ, attempts never fall, and an
-- item that is completed or dead is left alone.
pub record InboxLater (x y : InboxItem) : Type 0 where
  pub content_kept : y ≡ record x {
    state = y.state;
    attempts = y.attempts;
    available_at = y.available_at;
    lease_token = y.lease_token;
    lease_expires_at = y.lease_expires_at;
    last_error_code = y.last_error_code;
    completed_at = y.completed_at;
    updated_at = y.updated_at;
  }
  pub attempts_grow : x.attempts ≤ y.attempts
  pub ended_kept : has_ended x.state ≡ true → y ≡ x

pub record OutboxLater (x y : OutboxItem) : Type 0 where
  pub content_kept : y ≡ record x {
    state = y.state;
    attempts = y.attempts;
    available_at = y.available_at;
    worker_id = y.worker_id;
    lease_token = y.lease_token;
    lease_expires_at = y.lease_expires_at;
    channel_message_id = y.channel_message_id;
    last_error_code = y.last_error_code;
    delivered_at = y.delivered_at;
    updated_at = y.updated_at;
  }
  pub attempts_grow : x.attempts ≤ y.attempts
  pub settled_kept : has_settled x.state ≡ true → y ≡ x

pub InboxLater-refl : (x : InboxItem) → InboxLater x x
InboxLater-refl x = record {
  content_kept = refl;
  attempts_grow = omega arith;
  ended_kept = λ e. refl;
}

pub InboxLater-trans : (x y z : InboxItem) → InboxLater x y → InboxLater y z → InboxLater x z
InboxLater-trans x y z h k = record {
  content_kept = ground (arith, h.content_kept, k.content_kept);
  attempts_grow = omega (arith, h.attempts_grow, k.attempts_grow);
  ended_kept = λ e. ground (arith, h.ended_kept e, k.ended_kept);
}

pub OutboxLater-refl : (x : OutboxItem) → OutboxLater x x
OutboxLater-refl x = record {
  content_kept = refl;
  attempts_grow = omega arith;
  settled_kept = λ e. refl;
}

pub OutboxLater-trans : (x y z : OutboxItem) → OutboxLater x y → OutboxLater y z → OutboxLater x z
OutboxLater-trans x y z h k = record {
  content_kept = ground (arith, h.content_kept, k.content_kept);
  attempts_grow = omega (arith, h.attempts_grow, k.attempts_grow);
  settled_kept = λ e. ground (arith, h.settled_kept e, k.settled_kept);
}

pub lease_item-InboxLater :
    (now : ℕ) (id : String) (span : ℕ) (i : InboxItem)
    → can_lease now i ≡ true
    → InboxLater i (lease_item now id span i)
unfolding can_lease lease_item
lease_item-InboxLater now id span i e = record {
  content_kept = refl;
  attempts_grow = omega arith;
  ended_kept = λ h. ground arith;
}

pub complete_item-InboxLater :
    (now : ℕ) (id token : String) (i : InboxItem)
    → holds_lease id token i ≡ true
    → InboxLater i (complete_item now i)
unfolding complete_item
complete_item-InboxLater now id token i e = record {
  content_kept = refl;
  attempts_grow = omega arith;
  ended_kept = λ h. ground arith;
}

pub fail_item-InboxLater :
    (now : ℕ) (f : FailInput) (i : InboxItem)
    → holds_lease f.id f.lease_token i ≡ true
    → InboxLater i (fail_item now f i)
unfolding fail_item
fail_item-InboxLater now f i e = record {
  content_kept = refl;
  attempts_grow = omega arith;
  ended_kept = λ h. ground arith;
}

pub lease_outbox_item-OutboxLater :
    (now : ℕ) (id worker : String) (span : ℕ) (l : DeliveryLeaseInput) (o : OutboxItem)
    → can_deliver now l o ≡ true
    → OutboxLater o (lease_outbox_item now id worker span o)
unfolding can_deliver lease_outbox_item
lease_outbox_item-OutboxLater now id worker span l o e = record {
  content_kept = refl;
  attempts_grow = omega arith;
  settled_kept = λ h. ground arith;
}

pub settle_outbound-OutboxLater :
    (now : ℕ) (r : ReceiptInput) (o : OutboxItem)
    → is_receipt_target r o ≡ true
    → OutboxLater o (settle_outbound now r o)
unfolding settle_outbound
settle_outbound-OutboxLater now r o e = record {
  content_kept = refl;
  attempts_grow = omega arith;
  settled_kept = λ h. ground arith;
}
