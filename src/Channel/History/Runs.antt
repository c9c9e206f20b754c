-- ===== src/Channel/History/Runs.antt =====
-- Sequences of calls, and what becomes of the items that the channel store has accepted.
use bai_rui_cloud_agent_plat.Prelude.{
  ℕ, String, Option, none, some, List, [], ◌∷◌, ◌++◌, ◌≡◌, refl, arith, Evolves, Evolves-refl,
  Evolves-append, Evolves-update_first, Evolves-update_at, Evolves-trans, Option-cases, Bool-cases,
  inl, inr, find?, select-Picks, not, ◌||◌, ◌===◌,
}
use bai_rui_cloud_agent_plat.Channel.Store.{InboxItem, OutboxItem, Store}
use bai_rui_cloud_agent_plat.Channel.Ingress.{
  IngressInput, same_message, is_target, accept_for, accept_channel_ingress, same_conversation,
  ensure_channel_conversation,
}
use bai_rui_cloud_agent_plat.Channel.Jobs.{
  LeaseInput, can_lease, lease_limit, lease_channel_ingress, holds_lease, OutboundInput,
  new_outbound, reply_outbox, CompleteInput, complete_channel_ingress, FailInput,
  fail_channel_ingress,
}
use bai_rui_cloud_agent_plat.Channel.Delivery.{
  DeliveryLeaseInput, can_deliver, lease_channel_deliveries, ReceiptInput, same_attempt,
  is_receipt_target, settle_receipt, other_worker, record_channel_delivery_receipt,
}
use bai_rui_cloud_agent_plat.Channel.Bindings.{
  upsert_agent_channel_binding, delete_agent_channel_binding, save_channel_health_report,
}
use bai_rui_cloud_agent_plat.Channel.Calls.{
  Call, accept, ensure, lease, complete, fail, lease_out, receipt, upsert, delete, health, apply,
  run,
}
use bai_rui_cloud_agent_plat.Channel.History.{
  InboxLater, OutboxLater, InboxLater-refl, InboxLater-trans, OutboxLater-refl, OutboxLater-trans,
  lease_item-InboxLater, complete_item-InboxLater, fail_item-InboxLater,
  lease_outbox_item-OutboxLater, settle_outbound-OutboxLater,
}

-- The store after some calls, against the store before.
pub record StoreLater (s t : Store) : Type 0 where
  pub inbox_kept : Evolves InboxLater s.inbox t.inbox
  pub outbox_kept : Evolves OutboxLater s.outbox t.outbox

StoreLater-refl : (s : Store) → StoreLater s s
StoreLater-refl s = record {
  inbox_kept = Evolves-refl InboxLater InboxLater-refl s.inbox;
  outbox_kept = Evolves-refl OutboxLater OutboxLater-refl s.outbox;
}

StoreLater-trans : (s t u : Store) → StoreLater s t → StoreLater t u → StoreLater s u
StoreLater-trans s t u h k = record {
  inbox_kept =
      Evolves-trans InboxLater InboxLater-trans s.inbox t.inbox u.inbox h.inbox_kept k.inbox_kept;
  outbox_kept =
      Evolves-trans OutboxLater OutboxLater-trans s.outbox t.outbox u.outbox h.outbox_kept
        k.outbox_kept;
}

-- A call that touches only one of the two lists.
inbox_only :
    (s t : Store) → Evolves InboxLater s.inbox t.inbox → t.outbox ≡ s.outbox → StoreLater s t
inbox_only s t h e = record {
  inbox_kept = h;
  outbox_kept = rw e (Evolves-refl OutboxLater OutboxLater-refl s.outbox);
}

outbox_only :
    (s t : Store) → Evolves OutboxLater s.outbox t.outbox → t.inbox ≡ s.inbox → StoreLater s t
outbox_only s t h e = record {
  inbox_kept = rw e (Evolves-refl InboxLater InboxLater-refl s.inbox);
  outbox_kept = h;
}

neither : (s t : Store) → t.inbox ≡ s.inbox → t.outbox ≡ s.outbox → StoreLater s t
neither s t e f = outbox_only s t (rw f (Evolves-refl OutboxLater OutboxLater-refl s.outbox)) e

accept-StoreLater :
    (now : ℕ) (fresh : String) (i : IngressInput) (s : Store)
    → StoreLater s (accept_channel_ingress now fresh i s).0
unfolding accept_channel_ingress
accept-StoreLater now fresh i s = elim (Option-cases (find? (is_target i) s.bindings)) [
  | inl e ↦ rw (e, accept_channel_ingress) (StoreLater-refl s)
  | inr (b, e) ↦ elim (Bool-cases (b.status === "disabled" || b.status === "unconfigured")) [
    | inl off ↦ rw (e, accept_channel_ingress) (rw off (StoreLater-refl s))
    | inr on ↦ elim (Option-cases (find? (same_message b.id i.external_message_id) s.inbox)) [
      | inr (item, f) ↦
          rw (e, accept_channel_ingress) (rw on (rw (f, accept_for) (StoreLater-refl s)))
      | inl f ↦
          rw (e, accept_channel_ingress)
            (rw on (
              rw (f, accept_for)
                (inbox_only s _ (Evolves-append InboxLater InboxLater-refl s.inbox _) refl)))
    ]
  ]
]

lease-StoreLater :
    (now : ℕ) (fresh : String) (l : LeaseInput) (s : Store)
    → StoreLater s (lease_channel_ingress now fresh l s).0
unfolding lease_channel_ingress
lease-StoreLater now fresh l s =
    inbox_only s _
      (Evolves-update_at InboxLater InboxLater-refl (can_lease now) _ _ 0 s.inbox
        (λ i e. lease_item-InboxLater now _ _ i e)
        (select-Picks (can_lease now) (λ i. i.received_at) (lease_limit l.limit) s.inbox))
      refl

reply_outbox-Evolves :
    (now : ℕ) (fresh : String) (o : Option OutboundInput) (i : InboxItem) (s : Store)
    {q : List OutboxItem} {sent : Option OutboxItem}
    → reply_outbox now fresh o i s ≡ some (q, sent)
    → Evolves OutboxLater s.outbox q
unfolding reply_outbox
reply_outbox-Evolves now fresh none i s {q} e =
    let same : s.outbox ≡ q = ground arith in
    rw (← same) (Evolves-refl OutboxLater OutboxLater-refl s.outbox)
reply_outbox-Evolves now fresh (some o) i s {q} e =
    elim (Option-cases (find? (λ q. q.inbox_id === i.id) s.outbox)) [
      | inr (known, f) ↦
          let same : s.outbox ≡ q = ground arith in
          rw (← same) (Evolves-refl OutboxLater OutboxLater-refl s.outbox)
      | inl f ↦
          elim (Option-cases (
            find? (same_conversation i.binding_id i.conversation.channel_conversation_id)
              s.conversations)) [
                | inl g ↦ absurd (ground arith)
                | inr (c, g) ↦
                    let same : s.outbox ++ new_outbound now fresh o c i ∷ [] ≡ q = ground arith in
                    rw (← same) (Evolves-append OutboxLater OutboxLater-refl s.outbox _)
              ]
    ]

complete-StoreLater :
    (now : ℕ) (fresh : String) (c : CompleteInput) (s : Store)
    → StoreLater s (complete_channel_ingress now fresh c s).0
unfolding complete_channel_ingress
complete-StoreLater now fresh c s =
    elim (Option-cases (find? (holds_lease c.id c.lease_token) s.inbox)) [
      | inl e ↦ rw (e, complete_channel_ingress) (StoreLater-refl s)
      | inr (i, e) ↦ elim (Option-cases (reply_outbox now fresh c.outbound i s)) [
        | inl f ↦ rw (e, f, complete_channel_ingress) (StoreLater-refl s)
        | inr ((q, sent), f) ↦
            rw (e, f, complete_channel_ingress)
              (record {
                inbox_kept =
                    Evolves-update_first InboxLater InboxLater-refl _ _ s.inbox
                      (λ x t. complete_item-InboxLater now c.id c.lease_token x t);
                outbox_kept = reply_outbox-Evolves now fresh c.outbound i s f;
              })
      ]
    ]

fail-StoreLater :
    (now : ℕ) (fresh : String) (f : FailInput) (s : Store)
    → StoreLater s (fail_channel_ingress now fresh f s).0
unfolding fail_channel_ingress
fail-StoreLater now fresh f s =
    elim (Option-cases (find? (holds_lease f.id f.lease_token) s.inbox)) [
      | inl e ↦ rw (e, fail_channel_ingress) (StoreLater-refl s)
      | inr (i, e) ↦
          rw (e, fail_channel_ingress)
            (inbox_only s _
              (Evolves-update_first InboxLater InboxLater-refl _ _ s.inbox
                (λ x t. fail_item-InboxLater now f x t))
              refl)
    ]

lease_out-StoreLater :
    (now : ℕ) (fresh : String) (l : DeliveryLeaseInput) (s : Store)
    → StoreLater s (lease_channel_deliveries now fresh l s).0
unfolding lease_channel_deliveries
lease_out-StoreLater now fresh l s =
    outbox_only s _
      (Evolves-update_at OutboxLater OutboxLater-refl (can_deliver now l) _ _ 0 s.outbox
        (λ o e. lease_outbox_item-OutboxLater now _ _ _ l o e)
        (select-Picks (can_deliver now l) (λ o. o.available_at) (lease_limit l.limit) s.outbox))
      refl

settle_receipt-StoreLater :
    (now : ℕ) (fresh fresh_letter : String) (r : ReceiptInput) (s : Store)
    → StoreLater s (settle_receipt now fresh fresh_letter r s).0
unfolding settle_receipt
settle_receipt-StoreLater now fresh fresh_letter r s =
    elim (Option-cases (find? (is_receipt_target r) s.outbox)) [
      | inl e ↦ rw (e, settle_receipt) (StoreLater-refl s)
      | inr (o, e) ↦
          rw (e, settle_receipt)
            (outbox_only s _
              (Evolves-update_first OutboxLater OutboxLater-refl _ _ s.outbox
                (λ x t. settle_outbound-OutboxLater now r x t))
              refl)
    ]

receipt-StoreLater :
    (now : ℕ) (fresh fresh_letter : String) (r : ReceiptInput) (s : Store)
    → StoreLater s (record_channel_delivery_receipt now fresh fresh_letter r s).0
unfolding record_channel_delivery_receipt
receipt-StoreLater now fresh fresh_letter r s =
    elim (Option-cases (find? (same_attempt r.outbound_id r.attempt) s.receipts)) [
      | inl e ↦
          rw (e, record_channel_delivery_receipt)
            (settle_receipt-StoreLater now fresh fresh_letter r s)
      | inr (p, e) ↦
          elim (Bool-cases (other_worker r.worker_id p.worker_id || not (p.status === r.status))) [
            | inl t ↦ rw (e, record_channel_delivery_receipt) (rw t (StoreLater-refl s))
            | inr n ↦ rw (e, record_channel_delivery_receipt) (rw n (StoreLater-refl s))
          ]
    ]

apply-StoreLater : (c : Call) (s : Store) → StoreLater s (apply c s)
unfolding apply ensure_channel_conversation upsert_agent_channel_binding
    delete_agent_channel_binding save_channel_health_report
apply-StoreLater (accept now fresh i) s = accept-StoreLater now fresh i s
apply-StoreLater (ensure now fresh fresh_runtime i) s = neither s _ (ground arith) (ground arith)
apply-StoreLater (lease now fresh l) s = lease-StoreLater now fresh l s
apply-StoreLater (complete now fresh c) s = complete-StoreLater now fresh c s
apply-StoreLater (fail now fresh f) s = fail-StoreLater now fresh f s
apply-StoreLater (lease_out now fresh l) s = lease_out-StoreLater now fresh l s
apply-StoreLater (receipt now fresh fresh_letter r) s =
    receipt-StoreLater now fresh fresh_letter r s
apply-StoreLater (upsert now fresh i) s = neither s _ (ground arith) (ground arith)
apply-StoreLater (delete org user agent channel) s = neither s _ (ground arith) (ground arith)
apply-StoreLater (health now fresh h) s = neither s _ (ground arith) (ground arith)

-- Whatever channel calls follow, from any store: each inbox and outbox item stays at its place with
-- its owner, content and bounds, its attempts never fall, and an item that is completed, dead,
-- delivered or failed is not changed again.
pub run-StoreLater : (cs : List Call) (s : Store) → StoreLater s (run cs s)
unfolding run
run-StoreLater [] s = StoreLater-refl s
run-StoreLater (c ∷ cs) s =
    StoreLater-trans s (apply c s) (run cs (apply c s)) (apply-StoreLater c s)
      (run-StoreLater cs (apply c s))
