-- ===== src/Channel/Validity.antt =====
-- What holds of the channel store between two calls.
pub mod Items
pub mod Inbound
pub mod Settling
pub mod Outbound
pub mod Runs
use bai_rui_cloud_agent_plat.Prelude.{
  ℕ, ◌≤◌, ◌<◌, String, Option, none, some, List, ◌≡◌, Bool, true, false, All, Distinct, map, any,
  is_some, leb,
}
use bai_rui_cloud_agent_plat.Channel.Store.{
  Binding, InboxItem, InboxState, is_leased, OutboxItem, OutboxState, is_out_leased, Conversation,
  DeadLetter, Direction, is_inbound, Receipt, Store,
}
use bai_rui_cloud_agent_plat.Channel.Jobs.{is_inbound_letter}
use bai_rui_cloud_agent_plat.Channel.Delivery.{is_outbound_letter, is_lost, is_delivered}

abbrev pub is_completed : InboxState → Bool
is_completed InboxState.completed = true
is_completed _ = false

-- A lease token is kept exactly while the item is leased, attempts stay within their bound, and
-- only an item that has used all its attempts is given up.
pub record InboxOk (i : InboxItem) : Type 0 where
  pub bounded : i.attempts ≤ i.max_attempts
  pub token_held : is_some i.lease_token ≡ is_leased i.state
  pub expiry_held : is_some i.lease_expires_at ≡ is_leased i.state
  pub completion : is_some i.completed_at ≡ is_completed i.state
  pub dead_exhausted : i.state ≡ InboxState.dead → i.attempts ≡ i.max_attempts
  pub retry_left : i.state ≡ InboxState.retry → i.attempts < i.max_attempts

pub record OutboxOk (o : OutboxItem) : Type 0 where
  pub bounded : o.attempts ≤ o.max_attempts
  pub token_held : is_some o.lease_token ≡ is_out_leased o.state
  pub expiry_held : is_some o.lease_expires_at ≡ is_out_leased o.state
  pub worker_held : is_some o.worker_id ≡ is_out_leased o.state
  pub delivery : is_some o.delivered_at ≡ is_delivered o.state
  pub dead_exhausted : o.state ≡ OutboxState.dead → o.attempts ≡ o.max_attempts
  pub retry_left : o.state ≡ OutboxState.retry → o.attempts < o.max_attempts

abbrev pub message_key : InboxItem → String × String
message_key i = (i.binding_id, i.external_message_id)

abbrev pub attempt_key : Receipt → String × ℕ
attempt_key r = (r.outbound_id, r.attempt)

abbrev pub letter_key : DeadLetter → Bool × String
letter_key d = (is_inbound d.direction, d.source_id)

abbrev pub conversation_key : Conversation → String × String
conversation_key c = (c.binding_id, c.channel_conversation_id)

-- A given up item has a dead letter.
abbrev pub HasInboundLetter : List DeadLetter → InboxItem → Type 0
HasInboundLetter ds i = i.state ≡ InboxState.dead → any (is_inbound_letter i.id) ds ≡ true

abbrev pub HasOutboundLetter : List DeadLetter → OutboxItem → Type 0
HasOutboundLetter ds o = is_lost o.state ≡ true → any (is_outbound_letter o.id) ds ≡ true

pub record IsValid (s : Store) : Type 0 where
  pub inbox_ok : All InboxOk s.inbox
  pub outbox_ok : All OutboxOk s.outbox
  pub messages_distinct : Distinct (map message_key s.inbox)
  pub replies_distinct : Distinct (map (λ (o : OutboxItem). o.inbox_id) s.outbox)
  pub attempts_distinct : Distinct (map attempt_key s.receipts)
  pub letters_distinct : Distinct (map letter_key s.dead_letters)
  pub conversations_distinct : Distinct (map conversation_key s.conversations)
  pub inbound_letters : All (HasInboundLetter s.dead_letters) s.inbox
  pub outbound_letters : All (HasOutboundLetter s.dead_letters) s.outbox
