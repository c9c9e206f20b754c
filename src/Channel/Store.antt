-- ===== src/Channel/Store.antt =====
-- The records that packages/db/memory-repository.mjs keeps for channels, with its field names.
-- Texts that are only compared are `String`, instants are milliseconds, `null` is `none`, and
-- what is stored and never read (contents, traces, envelopes) is a `Value`.
use bai_rui_cloud_agent_plat.Prelude.{ℕ, String, Option, List, Bool, true, false}
use bai_rui_cloud_agent_plat.Json.{Value}

pub record Binding : Type 0 where
  pub id : String
  pub organization_id : String
  pub user_id : String
  pub agent_id : String
  pub channel : String
  pub display_name : String
  pub status : String
  pub credential_envelope : Option Value
  pub credential_hint : Option String
  pub metadata : Value
  pub connection_generation : ℕ
  pub capabilities : List String
  pub adapter_version : Option String
  pub last_error_code : Option String
  pub last_seen_at : Option ℕ
  pub last_health_at : Option ℕ
  pub last_inbound_at : Option ℕ
  pub last_outbound_at : Option ℕ
  pub created_at : ℕ
  pub updated_at : ℕ

-- `conversation` of an inbox or outbox item: the fields that the repository reads or writes, and
-- the rest.
pub record ConversationRef : Type 0 where
  pub channel_conversation_id : String
  pub runtime_conversation_id : Option String
  pub rest : Value

pub data InboxState : Type 0 where
  pending leased retry completed dead : InboxState

abbrev pub is_leased : InboxState → Bool
is_leased leased = true
is_leased _ = false

-- `["pending", "retry"].includes(state)`
abbrev pub is_waiting : InboxState → Bool
is_waiting pending = true
is_waiting retry = true
is_waiting _ = false

pub record InboxItem : Type 0 where
  pub id : String
  pub organization_id : String
  pub user_id : String
  pub agent_id : String
  pub binding_id : String
  pub channel : String
  pub channel_account_id : String
  pub external_message_id : String
  pub sender : Value
  pub conversation : ConversationRef
  pub content : Value
  pub attachments : Value
  pub reply_to_message_id : Option String
  pub trace : Value
  pub state : InboxState
  pub attempts : ℕ
  pub max_attempts : ℕ
  pub available_at : ℕ
  pub lease_token : Option String
  pub lease_expires_at : Option ℕ
  pub last_error_code : Option String
  pub received_at : ℕ
  pub completed_at : Option ℕ
  pub created_at : ℕ
  pub updated_at : ℕ

pub data OutboxState : Type 0 where
  pending leased retry delivered dead failed : OutboxState

abbrev pub is_out_leased : OutboxState → Bool
is_out_leased leased = true
is_out_leased _ = false

abbrev pub is_out_waiting : OutboxState → Bool
is_out_waiting pending = true
is_out_waiting retry = true
is_out_waiting _ = false

pub record OutboxItem : Type 0 where
  pub id : String
  pub organization_id : String
  pub user_id : String
  pub agent_id : String
  pub binding_id : String
  pub inbox_id : String
  pub channel : String
  pub channel_account_id : String
  pub conversation : ConversationRef
  pub content : Value
  pub attachments : Value
  pub reply_to_message_id : Option String
  pub trace : Value
  pub state : OutboxState
  pub attempts : ℕ
  pub max_attempts : ℕ
  pub available_at : ℕ
  pub worker_id : Option String
  pub lease_token : Option String
  pub lease_expires_at : Option ℕ
  pub channel_message_id : Option String
  pub last_error_code : Option String
  pub delivered_at : Option ℕ
  pub created_at : ℕ
  pub updated_at : ℕ

pub record Conversation : Type 0 where
  pub id : String
  pub organization_id : String
  pub user_id : String
  pub agent_id : String
  pub binding_id : String
  pub channel : String
  pub channel_conversation_id : String
  pub conversation_kind : String
  pub runtime_conversation_id : String
  pub last_message_at : ℕ
  pub created_at : ℕ
  pub updated_at : ℕ

pub record Receipt : Type 0 where
  pub id : String
  pub outbound_id : String
  pub binding_id : String
  pub worker_id : Option String
  pub attempt : ℕ
  pub status : String
  pub channel_message_id : Option String
  pub error_code : Option String
  pub observed_at : ℕ

pub data Direction : Type 0 where
  inbound outbound : Direction

abbrev pub is_inbound : Direction → Bool
is_inbound inbound = true
is_inbound outbound = false

pub record DeadLetter : Type 0 where
  pub id : String
  pub organization_id : String
  pub agent_id : String
  pub binding_id : String
  pub direction : Direction
  pub source_id : String
  pub attempts : ℕ
  pub error_code : String
  pub dead_at : ℕ

pub record Health : Type 0 where
  pub id : String
  pub organization_id : String
  pub agent_id : String
  pub binding_id : String
  pub channel : String
  pub worker_id : String
  pub sequence : ℕ
  pub status : String
  pub capabilities : List String
  pub adapter_version : Option String
  pub latency_ms : Option ℕ
  pub last_inbound_at : Option ℕ
  pub last_outbound_at : Option ℕ
  pub error_code : Option String
  pub observed_at : ℕ
  pub created_at : ℕ

pub record Store : Type 0 where
  pub bindings : List Binding
  pub conversations : List Conversation
  pub inbox : List InboxItem
  pub outbox : List OutboxItem
  pub receipts : List Receipt
  pub health : List Health
  pub dead_letters : List DeadLetter

-- `Number(x) || d` for a count that the caller may leave out.
abbrev pub number_or : Option ℕ → ℕ → ℕ
number_or Option.none d = d
number_or (Option.some ℕ.zero) d = d
number_or (Option.some (ℕ.suc n)) d = ℕ.suc n
