-- ===== src/Channel/Validity/Items.antt =====
-- Each write to an inbox or outbox item, and what holds of the item.
use bai_rui_cloud_agent_plat.Prelude.{ℕ, String, ◌≡◌, true, arith}
use bai_rui_cloud_agent_plat.Channel.Store.{Binding, Conversation, InboxItem, OutboxItem}
use bai_rui_cloud_agent_plat.Channel.Ingress.{IngressInput, new_inbox}
use bai_rui_cloud_agent_plat.Channel.Jobs.{
  can_lease, lease_item, holds_lease, complete_item, FailInput, fail_item, OutboundInput,
  new_outbound,
}
use bai_rui_cloud_agent_plat.Channel.Delivery.{
  DeliveryLeaseInput, can_deliver, lease_outbox_item, ReceiptInput, is_receipt_target,
  settle_outbound,
}
use bai_rui_cloud_agent_plat.Channel.Validity.{InboxOk, OutboxOk}

pub new_inbox-InboxOk :
    (now : ℕ) (fresh : String) (i : IngressInput) (b : Binding) → InboxOk (new_inbox now fresh i b)
unfolding new_inbox
new_inbox-InboxOk now fresh i b = ground arith

pub lease_item-InboxOk :
    (now : ℕ) (id : String) (span : ℕ) (i : InboxItem)
    → can_lease now i ≡ true
    → InboxOk i
    → InboxOk (lease_item now id span i)
unfolding can_lease lease_item
lease_item-InboxOk now id span i e h = ground arith

pub complete_item-InboxOk : (now : ℕ) (i : InboxItem) → InboxOk i → InboxOk (complete_item now i)
unfolding complete_item
complete_item-InboxOk now i h = ground arith

pub fail_item-InboxOk :
    (now : ℕ) (f : FailInput) (i : InboxItem)
    → holds_lease f.id f.lease_token i ≡ true
    → InboxOk i
    → InboxOk (fail_item now f i)
unfolding fail_item
fail_item-InboxOk now f i e h = ground arith

pub new_outbound-OutboxOk :
    (now : ℕ) (fresh : String) (o : OutboundInput) (c : Conversation) (i : InboxItem)
    → OutboxOk (new_outbound now fresh o c i)
unfolding new_outbound
new_outbound-OutboxOk now fresh o c i = ground arith

pub lease_outbox_item-OutboxOk :
    (now : ℕ) (id worker : String) (span : ℕ) (l : DeliveryLeaseInput) (o : OutboxItem)
    → can_deliver now l o ≡ true
    → OutboxOk o
    → OutboxOk (lease_outbox_item now id worker span o)
unfolding can_deliver lease_outbox_item
lease_outbox_item-OutboxOk now id worker span l o e h = ground arith

pub settle_outbound-OutboxOk :
    (now : ℕ) (r : ReceiptInput) (o : OutboxItem)
    → is_receipt_target r o ≡ true
    → OutboxOk o
    → OutboxOk (settle_outbound now r o)
unfolding settle_outbound
settle_outbound-OutboxOk now r o e h = ground arith
