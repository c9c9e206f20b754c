-- ===== src/Channel/Validity/Settling.antt =====
-- Completing and failing an inbox item, and the validity of the store.
use bai_rui_cloud_agent_plat.Prelude.{
  ℕ, String, Option, none, some, List, [], ◌∷◌, ◌++◌, map, ◌≡◌, ◌≢◌, refl, ap, inl, inr, true,
  false, ◌===◌, arith, eq_iff, eq_refl, All, All-append, All-imp, Distinct, any, any-append,
  any-false_All, find?, push_found-Distinct, push-Distinct, update_first-All, update_found-All,
  map-update_first, Option-cases, Bool-cases, leb,
}
use bai_rui_cloud_agent_plat.Channel.Store.{
  InboxItem, OutboxItem, Conversation, DeadLetter, Direction, Store,
}
use bai_rui_cloud_agent_plat.Channel.Ingress.{same_conversation}
use bai_rui_cloud_agent_plat.Channel.Jobs.{
  OutboundInput, new_outbound, reply_outbox, CompleteInput, holds_lease, complete_item,
  complete_channel_ingress, FailInput, fail_item, is_inbound_letter, new_inbound_letter,
  inbound_letters, fail_channel_ingress,
}
use bai_rui_cloud_agent_plat.Channel.Validity.{
  InboxOk, OutboxOk, message_key, letter_key, HasInboundLetter, HasOutboundLetter, IsValid,
}
use bai_rui_cloud_agent_plat.Channel.Validity.Items.{
  complete_item-InboxOk, fail_item-InboxOk, new_outbound-OutboxOk,
}

-- What validity asks of the outbox, beside the dead letters.
pub record OutboxValid (ds : List DeadLetter) (q : List OutboxItem) : Type 0 where
  pub items_ok : All OutboxOk q
  pub distinct : Distinct (map (λ (o : OutboxItem). o.inbox_id) q)
  pub letters : All (HasOutboundLetter ds) q

outbox_valid : (s : Store) → IsValid s → OutboxValid s.dead_letters s.outbox
outbox_valid s v = record {
  items_ok = v.outbox_ok;
  distinct = v.replies_distinct;
  letters = v.outbound_letters;
}

new_outbound_apart :
    (now : ℕ) (fresh : String) (o : OutboundInput) (c : Conversation) (i : InboxItem)
    (q : OutboxItem)
    → (q.inbox_id === i.id) ≡ false
    → q.inbox_id ≢ (new_outbound now fresh o c i).inbox_id
unfolding new_outbound
new_outbound_apart now fresh o c i q e k = ground (arith, eq_iff q.inbox_id i.id)

new_outbound-HasOutboundLetter :
    (ds : List DeadLetter) (now : ℕ) (fresh : String) (o : OutboundInput) (c : Conversation)
    (i : InboxItem)
    → HasOutboundLetter ds (new_outbound now fresh o c i)
unfolding new_outbound
new_outbound-HasOutboundLetter ds now fresh o c i e = cc

reply_outbox-OutboxValid :
    (now : ℕ) (fresh : String) (o : Option OutboundInput) (i : InboxItem) (s : Store)
    {q : List OutboxItem} {sent : Option OutboxItem}
    → OutboxValid s.dead_letters s.outbox
    → reply_outbox now fresh o i s ≡ some (q, sent)
    → OutboxValid s.dead_letters q
unfolding reply_outbox
reply_outbox-OutboxValid now fresh none i s {q} v e =
    let same : s.outbox ≡ q = ground arith in rw (← same) v
reply_outbox-OutboxValid now fresh (some o) i s {q} v e =
    elim (Option-cases (find? (λ q. q.inbox_id === i.id) s.outbox)) [
      | inr (known, f) ↦ let same : s.outbox ≡ q = ground arith in rw (← same) v
      | inl f ↦
          elim (Option-cases (
            find? (same_conversation i.binding_id i.conversation.channel_conversation_id)
              s.conversations)) [
                | inl g ↦ absurd (ground arith)
                | inr (c, g) ↦
                    let same : s.outbox ++ new_outbound now fresh o c i ∷ [] ≡ q = ground arith in
                    rw (← same) (record {
                      items_ok =
                          All-append OutboxOk s.outbox _ v.items_ok
                            (new_outbound-OutboxOk now fresh o c i, tt);
                      distinct =
                          push_found-Distinct (λ (o : OutboxItem). o.inbox_id) _ _ s.outbox
                            (new_outbound_apart now fresh o c i) f v.distinct;
                      letters =
                          All-append (HasOutboundLetter s.dead_letters) s.outbox _ v.letters
                            (new_outbound-HasOutboundLetter s.dead_letters now fresh o c i, tt);
                    })
              ]
    ]

complete_item_key : (now : ℕ) (i : InboxItem) → message_key (complete_item now i) ≡ message_key i
unfolding complete_item
complete_item_key now i = refl

complete_item-HasInboundLetter :
    (ds : List DeadLetter) (now : ℕ) (i : InboxItem) → HasInboundLetter ds (complete_item now i)
unfolding complete_item
complete_item-HasInboundLetter ds now i e = cc

pub complete_channel_ingress-IsValid :
    (now : ℕ) (fresh : String) (c : CompleteInput) (s : Store)
    → IsValid s
    → IsValid (complete_channel_ingress now fresh c s).0
unfolding complete_channel_ingress
complete_channel_ingress-IsValid now fresh c s v =
    elim (Option-cases (find? (holds_lease c.id c.lease_token) s.inbox)) [
      | inl e ↦ rw (e, complete_channel_ingress) v
      | inr (i, e) ↦ elim (Option-cases (reply_outbox now fresh c.outbound i s)) [
        | inl f ↦ rw (e, f, complete_channel_ingress) v
        | inr ((q, sent), f) ↦
            let w = reply_outbox-OutboxValid now fresh c.outbound i s (outbox_valid s v) f in
            rw (e, f, complete_channel_ingress)
              (record {
                inbox_ok =
                    update_first-All InboxOk (holds_lease c.id c.lease_token) (complete_item now)
                      s.inbox (λ x t h. complete_item-InboxOk now x h) v.inbox_ok;
                outbox_ok = w.items_ok;
                messages_distinct =
                    rw
                      (map-update_first message_key (holds_lease c.id c.lease_token)
                        (complete_item now) (complete_item_key now) s.inbox)
                      v.messages_distinct;
                replies_distinct = w.distinct;
                attempts_distinct = v.attempts_distinct;
                letters_distinct = v.letters_distinct;
                conversations_distinct = v.conversations_distinct;
                inbound_letters =
                    update_first-All (HasInboundLetter s.dead_letters)
                      (holds_lease c.id c.lease_token) (complete_item now) s.inbox
                      (λ x t h. complete_item-HasInboundLetter s.dead_letters now x)
                      v.inbound_letters;
                outbound_letters = w.letters;
              })
      ]
    ]

pub letter_kept :
    (d : DeadLetter) (ds : List DeadLetter) (x : InboxItem)
    → HasInboundLetter ds x
    → HasInboundLetter (ds ++ d ∷ []) x
letter_kept d ds x h e = rw any-append (rw (h e))

pub letter_out_kept :
    (d : DeadLetter) (ds : List DeadLetter) (x : OutboxItem)
    → HasOutboundLetter ds x
    → HasOutboundLetter (ds ++ d ∷ []) x
letter_out_kept d ds x h e = rw any-append (rw (h e))

-- What validity asks of the dead letters once item `i` has failed.
record LettersValid (s : Store) (i : InboxItem) (ds : List DeadLetter) : Type 0 where
  distinct : Distinct (map letter_key ds)
  kept : (x : InboxItem) → HasInboundLetter s.dead_letters x → HasInboundLetter ds x
  out_kept : (x : OutboxItem) → HasOutboundLetter s.dead_letters x → HasOutboundLetter ds x
  added : leb i.max_attempts i.attempts ≡ true → any (is_inbound_letter i.id) ds ≡ true

inbound_letter_apart :
    (i : InboxItem) (d x : DeadLetter)
    → d.direction ≡ Direction.inbound
    → d.source_id ≡ i.id
    → is_inbound_letter i.id x ≡ false
    → letter_key x ≢ letter_key d
inbound_letter_apart i d x p q e k =
    ground (arith, ap (λ r. r.0) k, ap (λ r. r.1) k, eq_iff x.source_id i.id)

inbound_letters-LettersValid :
    (now : ℕ) (fresh code : String) (i : InboxItem) (s : Store)
    → IsValid s
    → LettersValid s i (inbound_letters now fresh code i s.dead_letters)
unfolding inbound_letters
inbound_letters-LettersValid now fresh code i s v =
    elim (Bool-cases (leb i.max_attempts i.attempts)) [
      | inr n ↦ rw n (record {
        distinct = v.letters_distinct;
        kept = λ x h. h;
        out_kept = λ x h. h;
        added = λ e. cc;
      })
      | inl t ↦ elim (Bool-cases (any (is_inbound_letter i.id) s.dead_letters)) [
        | inl known ↦
            rw (t, known)
              (record {
                distinct = v.letters_distinct;
                kept = λ x h. h;
                out_kept = λ x h. h;
                added = λ e. known;
              })
        | inr unknown ↦
            rw (t, unknown)
              (record {
                distinct =
                    push-Distinct letter_key (is_inbound_letter i.id) _ s.dead_letters
                      (λ x.
                        inbound_letter_apart i (new_inbound_letter now fresh code i) x refl refl)
                      (any-false_All (is_inbound_letter i.id) s.dead_letters unknown)
                      v.letters_distinct;
                kept = letter_kept _ s.dead_letters;
                out_kept = letter_out_kept _ s.dead_letters;
                added = λ e. rw any-append (rw (unknown, eq_refl i.id));
              })
      ]
    ]

fail_item_key :
    (now : ℕ) (f : FailInput) (i : InboxItem) → message_key (fail_item now f i) ≡ message_key i
unfolding fail_item
fail_item_key now f i = refl

fail_item-HasInboundLetter :
    (now : ℕ) (f : FailInput) (i : InboxItem) (ds : List DeadLetter)
    → (leb i.max_attempts i.attempts ≡ true → any (is_inbound_letter i.id) ds ≡ true)
    → HasInboundLetter ds (fail_item now f i)
unfolding fail_item
fail_item-HasInboundLetter now f i ds added e = added (ground arith)

pub fail_channel_ingress-IsValid :
    (now : ℕ) (fresh : String) (f : FailInput) (s : Store)
    → IsValid s
    → IsValid (fail_channel_ingress now fresh f s).0
unfolding fail_channel_ingress
fail_channel_ingress-IsValid now fresh f s v =
    elim (Option-cases (find? (holds_lease f.id f.lease_token) s.inbox)) [
      | inl e ↦ rw (e, fail_channel_ingress) v
      | inr (i, e) ↦
          let ds = inbound_letters now fresh f.error_code i s.dead_letters in
          let w = inbound_letters-LettersValid now fresh f.error_code i s v in
          rw (e, fail_channel_ingress)
            (record {
              inbox_ok =
                  update_first-All InboxOk (holds_lease f.id f.lease_token) (fail_item now f)
                    s.inbox (λ x t h. fail_item-InboxOk now f x t h) v.inbox_ok;
              outbox_ok = v.outbox_ok;
              messages_distinct =
                  rw
                    (map-update_first message_key (holds_lease f.id f.lease_token) (fail_item now f)
                      (fail_item_key now f) s.inbox)
                    v.messages_distinct;
              replies_distinct = v.replies_distinct;
              attempts_distinct = v.attempts_distinct;
              letters_distinct = w.distinct;
              conversations_distinct = v.conversations_distinct;
              inbound_letters =
                  update_found-All (HasInboundLetter ds) (holds_lease f.id f.lease_token)
                    (fail_item now f) s.inbox e (fail_item-HasInboundLetter now f i ds w.added)
                    (All-imp _ _ s.inbox w.kept v.inbound_letters);
              outbound_letters = All-imp _ _ s.outbox w.out_kept v.outbound_letters;
            })
    ]
