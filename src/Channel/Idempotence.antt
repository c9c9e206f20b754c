-- ===== src/Channel/Idempotence.antt =====
-- Repeating a call: a message that is accepted again and a receipt that is sent again.
use bai_rui_cloud_agent_plat.Prelude.{
  ℕ, String, Option, none, some, [], ◌∷◌, ◌++◌, ◌≡◌, refl, sym, true, false, ◌||◌, not, ◌===◌,
  arith, eq_iff, eq_refl, ==_iff, find?, find?-append_none, find?-update_first, find?-test,
  update_first, Option-cases, Bool-cases, inl, inr,
}
use bai_rui_cloud_agent_plat.Channel.Store.{Binding, InboxItem, OutboxItem, Receipt, Store}
use bai_rui_cloud_agent_plat.Channel.Ingress.{
  IngressInput, duplicate, accepted, is_target, same_message, new_inbox, touch_inbound, accept_for,
  accept_channel_ingress,
}
use bai_rui_cloud_agent_plat.Channel.Delivery.{
  ReceiptInput, recorded, same_attempt, other_worker, is_receipt_target, new_receipt,
  settle_receipt, record_channel_delivery_receipt,
}

-- An accepted message: what the call saw and what it left.
record Accepted (now : ℕ) (fresh : String) (i : IngressInput) (s : Store) (b : Binding)
    (item : InboxItem) : Type 0 where
  old : Binding
  found : find? (is_target i) s.bindings ≡ some old
  enabled : (old.status === "disabled" || old.status === "unconfigured") ≡ false
  unseen : find? (same_message old.id i.external_message_id) s.inbox ≡ none
  binding_is : b ≡ touch_inbound now i.received_at old
  item_is : item ≡ new_inbox now fresh i old

accepted_inversion :
    (now : ℕ) (fresh : String) (i : IngressInput) (s : Store) {b : Binding} {item : InboxItem}
    → (accept_channel_ingress now fresh i s).1 ≡ accepted b item
    → Accepted now fresh i s b item
unfolding accept_channel_ingress
accepted_inversion now fresh i s e = elim (Option-cases (find? (is_target i) s.bindings)) [
  | inl f ↦ absurd (ground arith)
  | inr (old, f) ↦ elim (Bool-cases (old.status === "disabled" || old.status === "unconfigured")) [
    | inl off ↦ absurd (ground arith)
    | inr on ↦ elim (Option-cases (find? (same_message old.id i.external_message_id) s.inbox)) [
      | inr (item, g) ↦ absurd (ground arith)
      | inl g ↦ record {
        old = old;
        found = f;
        enabled = on;
        unseen = g;
        binding_is = ground arith;
        item_is = ground arith;
      }
    ]
  ]
]

new_inbox_found :
    (now : ℕ) (fresh : String) (i : IngressInput) (b : Binding)
    → same_message b.id i.external_message_id (new_inbox now fresh i b) ≡ true
unfolding new_inbox
new_inbox_found now fresh i b = ground (arith, eq_refl b.id, eq_refl i.external_message_id)

-- The store that an accepted message leaves.
abbrev accepted_store : ℕ → String → IngressInput → Binding → Store → Store
accepted_store now fresh i old s = record s {
  inbox = s.inbox ++ new_inbox now fresh i old ∷ [];
  bindings = update_first (is_target i) (touch_inbound now i.received_at) s.bindings;
}

accepted_lem :
    (now : ℕ) (fresh : String) (i : IngressInput) (s : Store) {b : Binding} {item : InboxItem}
    (a : Accepted now fresh i s b item)
    → (accept_channel_ingress now fresh i s).0 ≡ accepted_store now fresh i a.old s
unfolding accept_channel_ingress
accepted_lem now fresh i s a =
    rw (a.found, accept_channel_ingress) (rw a.enabled (rw (a.unseen, accept_for) refl))

accepted_seen :
    (now : ℕ) (fresh : String) (i : IngressInput) (b : Binding) (s : Store)
    → find? (same_message b.id i.external_message_id) s.inbox ≡ none
    → find? (same_message b.id i.external_message_id) (s.inbox ++ new_inbox now fresh i b ∷ [])
      ≡ some (new_inbox now fresh i b)
accepted_seen now fresh i b s e =
    rw (find?-append_none (same_message b.id i.external_message_id) s.inbox _ e)
      (rw (new_inbox_found now fresh i b))

Accepted-again :
    (now later : ℕ) (fresh again : String) (i : IngressInput) (s : Store) {b : Binding}
    {item : InboxItem} (a : Accepted now fresh i s b item)
    → accept_channel_ingress later again i (accepted_store now fresh i a.old s)
      ≡ (accepted_store now fresh i a.old s, duplicate b item)
unfolding accept_channel_ingress
Accepted-again now later fresh again i s a =
    let found =
      find?-update_first (is_target i) (touch_inbound now i.received_at) s.bindings (λ y. refl)
        a.found in
    let seen = accepted_seen now fresh i a.old s a.unseen in
    rw (found, accept_channel_ingress)
      (rw a.enabled (rw (seen, accept_for) (rw (a.binding_is, a.item_is) refl)))

-- A message that was accepted is answered as a duplicate when it is sent again, at any time: the
-- store does not change, and the answer names the same binding and the same inbox item.
pub accept_twice :
    (now later : ℕ) (fresh again : String) (i : IngressInput) (s : Store) {b : Binding}
    {item : InboxItem}
    → (accept_channel_ingress now fresh i s).1 ≡ accepted b item
    → accept_channel_ingress later again i (accept_channel_ingress now fresh i s).0
      ≡ ((accept_channel_ingress now fresh i s).0, duplicate b item)
unfolding accept_channel_ingress
accept_twice now later fresh again i s {b} {item} e =
    let a = accepted_inversion now fresh i s e in
    rw (accepted_lem now fresh i s a) (Accepted-again now later fresh again i s a)

-- A recorded receipt of an attempt that had none: what the call saw and what it left.
record Settled (fresh : String) (r : ReceiptInput) (s t : Store) (rc : Receipt) : Type 0 where
  outbound : OutboxItem
  leased : is_receipt_target r outbound ≡ true
  receipt_is : rc ≡ new_receipt fresh r outbound
  receipts_are : t.receipts ≡ s.receipts ++ rc ∷ []

settle_receipt_inversion :
    (now : ℕ) (fresh fresh_letter : String) (r : ReceiptInput) (s : Store) {rc : Receipt}
    {o : Option OutboxItem}
    → (settle_receipt now fresh fresh_letter r s).1 ≡ recorded rc o
    → Settled fresh r s (settle_receipt now fresh fresh_letter r s).0 rc
unfolding settle_receipt
settle_receipt_inversion now fresh fresh_letter r s {rc} e =
    elim (Option-cases (find? (is_receipt_target r) s.outbox)) [
      | inl f ↦ absurd (ground arith)
      | inr (x, f) ↦
          let same : new_receipt fresh r x ≡ rc = ground arith in
          record {
            outbound = x;
            leased = find?-test (is_receipt_target r) s.outbox f;
            receipt_is = sym same;
            receipts_are = rw (f, settle_receipt) (rw same refl);
          }
    ]

-- The receipt answers a later call for the same attempt.
new_receipt_found :
    (fresh : String) (r : ReceiptInput) (o : OutboxItem)
    → is_receipt_target r o ≡ true
    → (same_attempt r.outbound_id r.attempt (new_receipt fresh r o) ≡ true)
      × (other_worker r.worker_id (new_receipt fresh r o).worker_id ≡ false)
      × ((new_receipt fresh r o).status ≡ r.status)
unfolding new_receipt
new_receipt_found fresh r o e =
    (ground (arith, eq_iff o.id r.outbound_id, ==_iff r.attempt r.attempt), ground arith, refl)

Settled-found :
    (fresh : String) (r : ReceiptInput) (s t : Store) {rc : Receipt}
    → find? (same_attempt r.outbound_id r.attempt) s.receipts ≡ none
    → Settled fresh r s t rc
    → find? (same_attempt r.outbound_id r.attempt) t.receipts ≡ some rc
Settled-found fresh r s t {rc} unseen h = rw h.receipts_are (
    rw (find?-append_none (same_attempt r.outbound_id r.attempt) s.receipts (rc ∷ []) unseen)
      (rw h.receipt_is (rw ((new_receipt_found fresh r h.outbound h.leased).0))))

record_again :
    (later : ℕ) (again again_letter : String) (r : ReceiptInput) (t : Store) {rc : Receipt}
    → find? (same_attempt r.outbound_id r.attempt) t.receipts ≡ some rc
    → other_worker r.worker_id rc.worker_id ≡ false
    → rc.status ≡ r.status
    → record_channel_delivery_receipt later again again_letter r t
      ≡ (t, recorded rc (find? (λ o. o.id === r.outbound_id) t.outbox))
unfolding record_channel_delivery_receipt
record_again later again again_letter r t e w st =
    rw (e, record_channel_delivery_receipt) (rw (w, (eq_iff _ _).1 st))

-- What a recorded receipt is, whether it was new or known.
record Recorded (r : ReceiptInput) (t : Store) (rc : Receipt) : Type 0 where
  stored : find? (same_attempt r.outbound_id r.attempt) t.receipts ≡ some rc
  own : other_worker r.worker_id rc.worker_id ≡ false
  same_status : rc.status ≡ r.status

Settled-Recorded :
    (fresh : String) (r : ReceiptInput) (s t : Store) {rc : Receipt}
    → find? (same_attempt r.outbound_id r.attempt) s.receipts ≡ none
    → Settled fresh r s t rc
    → Recorded r t rc
Settled-Recorded fresh r s t unseen h =
    let (found, own, same) = new_receipt_found fresh r h.outbound h.leased in
    record {
      stored = Settled-found fresh r s t unseen h;
      own = rw h.receipt_is own;
      same_status = rw h.receipt_is same;
    }

recorded_inversion :
    (now : ℕ) (fresh fresh_letter : String) (r : ReceiptInput) (s : Store) {rc : Receipt}
    {o : Option OutboxItem}
    → (record_channel_delivery_receipt now fresh fresh_letter r s).1 ≡ recorded rc o
    → Recorded r (record_channel_delivery_receipt now fresh fresh_letter r s).0 rc
unfolding record_channel_delivery_receipt
recorded_inversion now fresh fresh_letter r s {rc} {o} e =
    elim (Option-cases (find? (same_attempt r.outbound_id r.attempt) s.receipts)) [
      | inl f ↦
          let e' : (settle_receipt now fresh fresh_letter r s).1 ≡ recorded rc o =
            rw (f, record_channel_delivery_receipt) at e in
          rw (f, record_channel_delivery_receipt)
            (Settled-Recorded fresh r s _ f
              (settle_receipt_inversion now fresh fresh_letter r s e'))
      | inr (p, f) ↦
          elim (Bool-cases (other_worker r.worker_id p.worker_id || not (p.status === r.status))) [
            | inl t ↦ absurd (ground arith)
            | inr n ↦
                let same : p ≡ rc = ground arith in
                rw (f, record_channel_delivery_receipt)
                  (rw n (
                    rw (← same) (record {
                      stored = f;
                      own = ground arith;
                      same_status = ground (arith, eq_iff p.status r.status);
                    })))
          ]
    ]

-- A receipt that was recorded is answered with the recorded one when it is sent again, at any time,
-- and the store does not change.
pub receipt_twice :
    (now later : ℕ) (fresh fresh_letter again again_letter : String) (r : ReceiptInput) (s : Store)
    {rc : Receipt} {o : Option OutboxItem}
    → (record_channel_delivery_receipt now fresh fresh_letter r s).1 ≡ recorded rc o
    → let t = (record_channel_delivery_receipt now fresh fresh_letter r s).0 in
      record_channel_delivery_receipt later again again_letter r t
      ≡ (t, recorded rc (find? (λ o. o.id === r.outbound_id) t.outbox))
receipt_twice now later fresh fresh_letter again again_letter r s e =
    let h = recorded_inversion now fresh fresh_letter r s e in
    record_again later again again_letter r _ h.stored h.own h.same_status
