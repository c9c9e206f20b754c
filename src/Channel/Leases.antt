-- ===== src/Channel/Leases.antt =====
-- Leases of inbox jobs and of deliveries, one call after another.
use bai_rui_cloud_agent_plat.Prelude.{
  ℕ, ◌+◌, ◌*◌, ◌≤◌, String, map, ◌≡◌, false, arith, All, contains, or_else, select-update_at_apart,
}
use bai_rui_cloud_agent_plat.Channel.Store.{InboxItem, OutboxItem, Store}
use bai_rui_cloud_agent_plat.Channel.Jobs.{
  LeaseInput, can_lease, lease_item, lease_span, lease_limit, leased_jobs, lease_channel_ingress,
}
use bai_rui_cloud_agent_plat.Channel.Delivery.{
  DeliveryLeaseInput, can_deliver, lease_outbox_item, leased_deliveries, lease_channel_deliveries,
}

lease_item_held :
    (now later : ℕ) (id : String) (span : ℕ) (i : InboxItem)
    → later ≤ now + span * 1000
    → can_lease later (lease_item now id span i) ≡ false
unfolding can_lease lease_item
lease_item_held now later id span i h = ground arith

-- While the leases that a call of leaseChannelIngress gives run, a later call, by whatever worker
-- and with whatever limit, chooses none of the inbox places that the first call chose.
pub jobs_exclusive :
    (now later : ℕ) (fresh : String) (first second : LeaseInput) (s : Store)
    → later ≤ now + lease_span first.lease_seconds * 1000
    → All
        (λ r. contains r.0 (map (λ q. q.0) (leased_jobs now first s)) ≡ false)
        (leased_jobs later second (lease_channel_ingress now fresh first s).0)
unfolding leased_jobs lease_channel_ingress
jobs_exclusive now later fresh first second s h =
    select-update_at_apart (can_lease later) (λ i. i.received_at) (lease_limit second.limit) _ _
      s.inbox
      (λ i.
        lease_item_held now later (or_else first.lease_id fresh) (lease_span first.lease_seconds) i
          h)

lease_outbox_item_held :
    (now later : ℕ) (id worker : String) (span : ℕ) (l : DeliveryLeaseInput) (o : OutboxItem)
    → later ≤ now + span * 1000
    → can_deliver later l (lease_outbox_item now id worker span o) ≡ false
unfolding can_deliver lease_outbox_item
lease_outbox_item_held now later id worker span l o h = ground arith

-- While the leases that a call of leaseChannelDeliveries gives run, a later call, by whatever
-- worker and with whatever filters, chooses none of the outbox places that the first call chose.
pub deliveries_exclusive :
    (now later : ℕ) (fresh : String) (first second : DeliveryLeaseInput) (s : Store)
    → later ≤ now + lease_span first.lease_seconds * 1000
    → All
        (λ r. contains r.0 (map (λ q. q.0) (leased_deliveries now first s)) ≡ false)
        (leased_deliveries later second (lease_channel_deliveries now fresh first s).0)
unfolding leased_deliveries lease_channel_deliveries
deliveries_exclusive now later fresh first second s h =
    select-update_at_apart (can_deliver later second) (λ o. o.available_at)
      (lease_limit second.limit) _ _ s.outbox
      (λ o.
        lease_outbox_item_held now later (or_else first.lease_id fresh) first.worker_id
          (lease_span first.lease_seconds) second o h)
