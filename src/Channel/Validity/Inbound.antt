-- ===== src/Channel/Validity/Inbound.antt =====
-- The inbox calls, and the validity of the store.
use bai_rui_cloud_agent_plat.Prelude.{
  ℕ, String, List, map, ◌≡◌, ◌≢◌, refl, ap, inl, inr, false, ◌||◌, ◌===◌, arith, eq_iff, All-append,
  Distinct, find?, push_found-Distinct, map-update_first, update_at-All, map-update_at,
  select-Picks, Option-cases, Bool-cases, or_else,
}
use bai_rui_cloud_agent_plat.Channel.Store.{InboxItem, Conversation, DeadLetter, Store, Binding}
use bai_rui_cloud_agent_plat.Channel.Ingress.{
  IngressInput, same_message, is_target, new_inbox, accept_for, accept_channel_ingress,
  ConversationInput, same_conversation, touch_conversation, new_conversation,
  ensure_channel_conversation,
}
use bai_rui_cloud_agent_plat.Channel.Jobs.{
  LeaseInput, can_lease, lease_item, lease_limit, lease_span, lease_channel_ingress,
}
use bai_rui_cloud_agent_plat.Channel.Validity.{
  InboxOk, message_key, conversation_key, HasInboundLetter, IsValid,
}
use bai_rui_cloud_agent_plat.Channel.Validity.Items.{new_inbox-InboxOk, lease_item-InboxOk}

new_inbox_apart :
    (now : ℕ) (fresh : String) (i : IngressInput) (b : Binding) (x : InboxItem)
    → same_message b.id i.external_message_id x ≡ false
    → message_key x ≢ message_key (new_inbox now fresh i b)
unfolding new_inbox
new_inbox_apart now fresh i b x e k = ground (
  arith,
  ap (λ p. p.0) k,
  ap (λ p. p.1) k,
  eq_iff x.binding_id b.id,
  eq_iff x.external_message_id i.external_message_id,
)

new_inbox-HasInboundLetter :
    (ds : List DeadLetter) (now : ℕ) (fresh : String) (i : IngressInput) (b : Binding)
    → HasInboundLetter ds (new_inbox now fresh i b)
unfolding new_inbox
new_inbox-HasInboundLetter ds now fresh i b e = cc

-- Only the conversations change.
with_conversations :
    (s : Store)
    → IsValid s
    → (cs : List Conversation) → Distinct (map conversation_key cs)
    → IsValid (record s { conversations = cs })
with_conversations s v cs d = record {
  inbox_ok = v.inbox_ok;
  outbox_ok = v.outbox_ok;
  messages_distinct = v.messages_distinct;
  replies_distinct = v.replies_distinct;
  attempts_distinct = v.attempts_distinct;
  letters_distinct = v.letters_distinct;
  conversations_distinct = d;
  inbound_letters = v.inbound_letters;
  outbound_letters = v.outbound_letters;
}

lease_item_key :
    (now : ℕ) (id : String) (span : ℕ) (i : InboxItem)
    → message_key (lease_item now id span i) ≡ message_key i
unfolding lease_item
lease_item_key now id span i = refl

lease_item-HasInboundLetter :
    (ds : List DeadLetter) (now : ℕ) (id : String) (span : ℕ) (i : InboxItem)
    → HasInboundLetter ds (lease_item now id span i)
unfolding lease_item
lease_item-HasInboundLetter ds now id span i e = cc

accept_for-IsValid :
    (now : ℕ) (fresh : String) (i : IngressInput) (b : Binding) (s : Store)
    → IsValid s
    → IsValid (accept_for now fresh i b s).0
unfolding accept_for
accept_for-IsValid now fresh i b s v =
    elim (Bool-cases (b.status === "disabled" || b.status === "unconfigured")) [
      | inl off ↦ rw off v
      | inr on ↦
          rw on (elim (Option-cases (find? (same_message b.id i.external_message_id) s.inbox)) [
            | inr (item, e) ↦ rw (e, accept_for) v
            | inl e ↦
                rw (e, accept_for)
                  (record {
                    inbox_ok =
                        All-append InboxOk s.inbox _ v.inbox_ok
                          (new_inbox-InboxOk now fresh i b, tt);
                    outbox_ok = v.outbox_ok;
                    messages_distinct =
                        push_found-Distinct message_key _ _ s.inbox (new_inbox_apart now fresh i b)
                          e v.messages_distinct;
                    replies_distinct = v.replies_distinct;
                    attempts_distinct = v.attempts_distinct;
                    letters_distinct = v.letters_distinct;
                    conversations_distinct = v.conversations_distinct;
                    inbound_letters =
                        All-append (HasInboundLetter s.dead_letters) s.inbox _ v.inbound_letters
                          (new_inbox-HasInboundLetter s.dead_letters now fresh i b, tt);
                    outbound_letters = v.outbound_letters;
                  })
          ])
    ]

pub accept_channel_ingress-IsValid :
    (now : ℕ) (fresh : String) (i : IngressInput) (s : Store)
    → IsValid s
    → IsValid (accept_channel_ingress now fresh i s).0
unfolding accept_channel_ingress
accept_channel_ingress-IsValid now fresh i s v =
    elim (Option-cases (find? (is_target i) s.bindings)) [
      | inl e ↦ rw (e, accept_channel_ingress) v
      | inr (b, e) ↦ rw (e, accept_channel_ingress) (accept_for-IsValid now fresh i b s v)
    ]

touch_conversation_key :
    (now : ℕ) (i : ConversationInput) (c : Conversation)
    → conversation_key (touch_conversation now i c) ≡ conversation_key c
touch_conversation_key now i c = refl

conversation_apart :
    (binding id : String) (c d : Conversation)
    → d.binding_id ≡ binding
    → d.channel_conversation_id ≡ id
    → same_conversation binding id c ≡ false
    → conversation_key c ≢ conversation_key d
conversation_apart binding id c d p q e k = ground (
  arith,
  ap (λ r. r.0) k,
  ap (λ r. r.1) k,
  eq_iff c.binding_id binding,
  eq_iff c.channel_conversation_id id,
)

pub ensure_channel_conversation-IsValid :
    (now : ℕ) (fresh fresh_runtime : String) (i : ConversationInput) (s : Store)
    → IsValid s
    → IsValid (ensure_channel_conversation now fresh fresh_runtime i s).0
unfolding ensure_channel_conversation
ensure_channel_conversation-IsValid now fresh fresh_runtime i s v =
    elim (Option-cases
      (find? (same_conversation i.binding_id i.channel_conversation_id) s.conversations)) [
        | inl e ↦
            rw (e, ensure_channel_conversation)
              (with_conversations s v _ (
                push_found-Distinct conversation_key _ _ s.conversations
                  (λ c.
                    conversation_apart i.binding_id i.channel_conversation_id c
                      (new_conversation now fresh fresh_runtime i) refl refl)
                  e v.conversations_distinct))
        | inr (c, e) ↦
            rw (e, ensure_channel_conversation)
              (with_conversations s v _ (
                rw
                  (map-update_first conversation_key
                    (same_conversation i.binding_id i.channel_conversation_id)
                    (touch_conversation now i) (touch_conversation_key now i) s.conversations)
                  v.conversations_distinct))
      ]

pub lease_channel_ingress-IsValid :
    (now : ℕ) (fresh : String) (l : LeaseInput) (s : Store)
    → IsValid s
    → IsValid (lease_channel_ingress now fresh l s).0
unfolding lease_channel_ingress
lease_channel_ingress-IsValid now fresh l s v =
    let lease = lease_item now (or_else l.lease_id fresh) (lease_span l.lease_seconds) in
    let picks = select-Picks (can_lease now) (λ i. i.received_at) (lease_limit l.limit) s.inbox in
    record {
      inbox_ok =
          update_at-All InboxOk (can_lease now) _ lease 0 s.inbox
            (λ i e h. lease_item-InboxOk now _ _ i e h) picks v.inbox_ok;
      outbox_ok = v.outbox_ok;
      messages_distinct =
          rw
            (map-update_at message_key _ lease
              (lease_item_key now (or_else l.lease_id fresh) (lease_span l.lease_seconds)) 0
              s.inbox)
            v.messages_distinct;
      replies_distinct = v.replies_distinct;
      attempts_distinct = v.attempts_distinct;
      letters_distinct = v.letters_distinct;
      conversations_distinct = v.conversations_distinct;
      inbound_letters =
          update_at-All (HasInboundLetter s.dead_letters) (can_lease now) _ lease 0 s.inbox
            (λ i e h.
              lease_item-HasInboundLetter s.dead_letters now (or_else l.lease_id fresh)
                (lease_span l.lease_seconds) i)
            picks v.inbound_letters;
      outbound_letters = v.outbound_letters;
    }
