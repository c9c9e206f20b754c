-- ===== src/Channel/Validity/Outbound.antt =====
-- The outbox calls, and the validity of the store.
use bai_rui_cloud_agent_plat.Prelude.{
  ℕ, String, none, List, map, ◌≡◌, ◌≢◌, refl, ap, inl, inr, true, false, ◌||◌, ◌===◌, arith, eq_iff,
  eq_refl, All-imp, Distinct, any, any-append, any-false_All, find?, find?-All, push_found-Distinct,
  push-Distinct, update_first-All, update_found-All, map-update_first, update_at-All, map-update_at,
  select-Picks, Option-cases, Bool-cases, or_else, not, ==_iff,
}
use bai_rui_cloud_agent_plat.Channel.Store.{
  InboxItem, OutboxItem, DeadLetter, Direction, Receipt, Store,
}
use bai_rui_cloud_agent_plat.Channel.Jobs.{lease_span, lease_limit}
use bai_rui_cloud_agent_plat.Channel.Delivery.{
  DeliveryLeaseInput, can_deliver, lease_outbox_item, lease_channel_deliveries, ReceiptInput,
  same_attempt, is_receipt_target, next_state, settle_outbound, new_receipt, is_outbound_letter,
  is_lost, outbound_letters, new_outbound_letter, settle_receipt, other_worker,
  record_channel_delivery_receipt,
}
use bai_rui_cloud_agent_plat.Channel.Validity.{
  OutboxOk, attempt_key, letter_key, HasInboundLetter, HasOutboundLetter, IsValid,
}
use bai_rui_cloud_agent_plat.Channel.Validity.Items.{
  lease_outbox_item-OutboxOk, settle_outbound-OutboxOk,
}
use bai_rui_cloud_agent_plat.Channel.Validity.Settling.{letter_kept, letter_out_kept}

lease_outbox_item_key :
    (now : ℕ) (id worker : String) (span : ℕ) (o : OutboxItem)
    → (lease_outbox_item now id worker span o).inbox_id ≡ o.inbox_id
unfolding lease_outbox_item
lease_outbox_item_key now id worker span o = refl

lease_outbox_item-HasOutboundLetter :
    (ds : List DeadLetter) (now : ℕ) (id worker : String) (span : ℕ) (o : OutboxItem)
    → HasOutboundLetter ds (lease_outbox_item now id worker span o)
unfolding lease_outbox_item
lease_outbox_item-HasOutboundLetter ds now id worker span o e = cc

pub lease_channel_deliveries-IsValid :
    (now : ℕ) (fresh : String) (l : DeliveryLeaseInput) (s : Store)
    → IsValid s
    → IsValid (lease_channel_deliveries now fresh l s).0
unfolding lease_channel_deliveries
lease_channel_deliveries-IsValid now fresh l s v =
    let id = or_else l.lease_id fresh in
    let span = lease_span l.lease_seconds in
    let lease = lease_outbox_item now id l.worker_id span in
    let picks =
      select-Picks (can_deliver now l) (λ o. o.available_at) (lease_limit l.limit) s.outbox in
    record {
      inbox_ok = v.inbox_ok;
      outbox_ok =
          update_at-All OutboxOk (can_deliver now l) _ lease 0 s.outbox
            (λ o e h. lease_outbox_item-OutboxOk now id l.worker_id span l o e h) picks v.outbox_ok;
      messages_distinct = v.messages_distinct;
      replies_distinct =
          rw
            (map-update_at (λ (o : OutboxItem). o.inbox_id) _ lease
              (lease_outbox_item_key now id l.worker_id span) 0 s.outbox)
            v.replies_distinct;
      attempts_distinct = v.attempts_distinct;
      letters_distinct = v.letters_distinct;
      conversations_distinct = v.conversations_distinct;
      inbound_letters = v.inbound_letters;
      outbound_letters =
          update_at-All (HasOutboundLetter s.dead_letters) (can_deliver now l) _ lease 0 s.outbox
            (λ o e h. lease_outbox_item-HasOutboundLetter s.dead_letters now id l.worker_id span o)
            picks v.outbound_letters;
    }

-- What validity asks of the dead letters once a receipt for item `o` is settled.
record LettersValid (s : Store) (r : ReceiptInput) (o : OutboxItem) (ds : List DeadLetter)
    : Type 0 where
  distinct : Distinct (map letter_key ds)
  in_kept : (x : InboxItem) → HasInboundLetter s.dead_letters x → HasInboundLetter ds x
  kept : (x : OutboxItem) → HasOutboundLetter s.dead_letters x → HasOutboundLetter ds x
  added : is_lost (next_state r.status o) ≡ true → any (is_outbound_letter o.id) ds ≡ true

outbound_letter_apart :
    (o : OutboxItem) (d x : DeadLetter)
    → d.direction ≡ Direction.outbound
    → d.source_id ≡ o.id
    → is_outbound_letter o.id x ≡ false
    → letter_key x ≢ letter_key d
outbound_letter_apart o d x p q e k =
    ground (arith, ap (λ r. r.0) k, ap (λ r. r.1) k, eq_iff x.source_id o.id)

outbound_letters-LettersValid :
    (now : ℕ) (fresh : String) (r : ReceiptInput) (o : OutboxItem) (s : Store)
    → IsValid s
    → LettersValid s r o (outbound_letters now fresh r o s.dead_letters)
unfolding outbound_letters
outbound_letters-LettersValid now fresh r o s v =
    elim (Bool-cases (is_lost (next_state r.status o))) [
      | inr n ↦ rw n (record {
        distinct = v.letters_distinct;
        in_kept = λ x h. h;
        kept = λ x h. h;
        added = λ e. cc;
      })
      | inl t ↦ elim (Bool-cases (any (is_outbound_letter o.id) s.dead_letters)) [
        | inl known ↦
            rw (t, known)
              (record {
                distinct = v.letters_distinct;
                in_kept = λ x h. h;
                kept = λ x h. h;
                added = λ e. known;
              })
        | inr unknown ↦
            rw (t, unknown)
              (record {
                distinct =
                    push-Distinct letter_key (is_outbound_letter o.id) _ s.dead_letters
                      (λ x. outbound_letter_apart o (new_outbound_letter now fresh r o) x refl refl)
                      (any-false_All (is_outbound_letter o.id) s.dead_letters unknown)
                      v.letters_distinct;
                in_kept = letter_kept _ s.dead_letters;
                kept = letter_out_kept _ s.dead_letters;
                added = λ e. rw any-append (rw (unknown, eq_refl o.id));
              })
      ]
    ]

settle_outbound_key :
    (now : ℕ) (r : ReceiptInput) (o : OutboxItem) → (settle_outbound now r o).inbox_id ≡ o.inbox_id
unfolding settle_outbound
settle_outbound_key now r o = refl

settle_outbound-HasOutboundLetter :
    (now : ℕ) (r : ReceiptInput) (o : OutboxItem) (ds : List DeadLetter)
    → (is_lost (next_state r.status o) ≡ true → any (is_outbound_letter o.id) ds ≡ true)
    → HasOutboundLetter ds (settle_outbound now r o)
unfolding settle_outbound
settle_outbound-HasOutboundLetter now r o ds added e = added e

-- The receipt is stored under the attempt that no receipt was found for.
new_receipt_apart :
    (fresh : String) (r : ReceiptInput) (o : OutboxItem) (x : Receipt)
    → is_receipt_target r o ≡ true
    → same_attempt r.outbound_id r.attempt x ≡ false
    → attempt_key x ≢ attempt_key (new_receipt fresh r o)
unfolding new_receipt
new_receipt_apart fresh r o x t e k = ground (
  arith,
  ap (λ p. p.0) k,
  ap (λ p. p.1) k,
  eq_iff x.outbound_id r.outbound_id,
  eq_iff o.id r.outbound_id,
  ==_iff x.attempt r.attempt,
)

settle_receipt-IsValid :
    (now : ℕ) (fresh fresh_letter : String) (r : ReceiptInput) (s : Store)
    → find? (same_attempt r.outbound_id r.attempt) s.receipts ≡ none
    → IsValid s
    → IsValid (settle_receipt now fresh fresh_letter r s).0
unfolding settle_receipt
settle_receipt-IsValid now fresh fresh_letter r s unseen v =
    elim (Option-cases (find? (is_receipt_target r) s.outbox)) [
      | inl e ↦ rw (e, settle_receipt) v
      | inr (o, e) ↦
          let ds = outbound_letters now fresh_letter r o s.dead_letters in
          let w = outbound_letters-LettersValid now fresh_letter r o s v in
          let target = (find?-All OutboxOk (is_receipt_target r) s.outbox e v.outbox_ok).1 in
          rw (e, settle_receipt)
            (record {
              inbox_ok = v.inbox_ok;
              outbox_ok =
                  update_first-All OutboxOk (is_receipt_target r) (settle_outbound now r) s.outbox
                    (λ x t h. settle_outbound-OutboxOk now r x t h) v.outbox_ok;
              messages_distinct = v.messages_distinct;
              replies_distinct =
                  rw
                    (map-update_first (λ (o : OutboxItem). o.inbox_id) (is_receipt_target r)
                      (settle_outbound now r) (settle_outbound_key now r) s.outbox)
                    v.replies_distinct;
              attempts_distinct =
                  push_found-Distinct attempt_key (same_attempt r.outbound_id r.attempt) _
                    s.receipts (λ x. new_receipt_apart fresh r o x target) unseen
                    v.attempts_distinct;
              letters_distinct = w.distinct;
              conversations_distinct = v.conversations_distinct;
              inbound_letters = All-imp _ _ s.inbox w.in_kept v.inbound_letters;
              outbound_letters =
                  update_found-All (HasOutboundLetter ds) (is_receipt_target r)
                    (settle_outbound now r) s.outbox e
                    (settle_outbound-HasOutboundLetter now r o ds w.added)
                    (All-imp _ _ s.outbox w.kept v.outbound_letters);
            })
    ]

pub record_channel_delivery_receipt-IsValid :
    (now : ℕ) (fresh fresh_letter : String) (r : ReceiptInput) (s : Store)
    → IsValid s
    → IsValid (record_channel_delivery_receipt now fresh fresh_letter r s).0
unfolding record_channel_delivery_receipt
record_channel_delivery_receipt-IsValid now fresh fresh_letter r s v =
    elim (Option-cases (find? (same_attempt r.outbound_id r.attempt) s.receipts)) [
      | inl e ↦
          rw (e, record_channel_delivery_receipt)
            (settle_receipt-IsValid now fresh fresh_letter r s e v)
      | inr (p, e) ↦
          elim (Bool-cases (other_worker r.worker_id p.worker_id || not (p.status === r.status))) [
            | inl t ↦ rw (e, record_channel_delivery_receipt) (rw t v)
            | inr n ↦ rw (e, record_channel_delivery_receipt) (rw n v)
          ]
    ]
