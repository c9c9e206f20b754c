-- ===== src/Channel/Ingress.antt =====
-- Accepting channel messages: acceptChannelIngress and ensureChannelConversation of
-- packages/db/memory-repository.mjs. `now` stands for the clock and `fresh` for what `randomUUID`
-- returns.

use bai_rui_cloud_agent_plat.Prelude.{
  ℕ, String, Option, none, some, List, [], ◌∷◌, ◌++◌, Bool, false, ◌&&◌, ◌||◌, ltb, ◌===◌,
  if◌then◌else◌, or_else, find?, any, update_first,
}
use bai_rui_cloud_agent_plat.Json.{Value}
use bai_rui_cloud_agent_plat.Channel.Store.{
  Binding, ConversationRef, InboxItem, InboxState, Conversation, Store,
}

-- `xs.includes(s)`
abbrev pub includes : List String → String → Bool
includes xs s = any (λ x. x === s) xs

-- `Date.parse(x) < now`, which no missing instant passes.
abbrev pub is_before : Option ℕ → ℕ → Bool
is_before none now = false
is_before (some t) now = ltb t now

pub record IngressInput : Type 0 where
  pub id : Option String
  pub binding_id : String
  pub agent_id : String
  pub channel : String
  pub channel_account_id : String
  pub external_message_id : String
  pub sender : Value
  pub conversation : ConversationRef
  pub content : Value
  pub attachments : Option Value
  pub reply_to_message_id : Option String
  pub trace : Value
  pub max_attempts : Option ℕ
  pub received_at : ℕ

pub data AcceptResult : Type 0 where
  refused : AcceptResult
  duplicate accepted : Binding → InboxItem → AcceptResult

abbrev pub is_target : IngressInput → Binding → Bool
is_target i b = b.id === i.binding_id && b.agent_id === i.agent_id && b.channel === i.channel

abbrev pub same_message : String → String → InboxItem → Bool
same_message binding external item =
    item.binding_id === binding && item.external_message_id === external

unfoldable pub new_inbox : ℕ → String → IngressInput → Binding → InboxItem
new_inbox now fresh i b = record {
  id = or_else i.id fresh;
  organization_id = b.organization_id;
  user_id = b.user_id;
  agent_id = b.agent_id;
  binding_id = b.id;
  channel = b.channel;
  channel_account_id = i.channel_account_id;
  external_message_id = i.external_message_id;
  sender = i.sender;
  conversation = i.conversation;
  content = i.content;
  attachments = or_else i.attachments (Value.arr bai_rui_cloud_agent_plat.Json.Items.nil);
  reply_to_message_id = i.reply_to_message_id;
  trace = i.trace;
  state = InboxState.pending;
  attempts = 0;
  max_attempts = or_else i.max_attempts 8;
  available_at = now;
  lease_token = none;
  lease_expires_at = none;
  last_error_code = none;
  received_at = i.received_at;
  completed_at = none;
  created_at = now;
  updated_at = now;
}

abbrev pub touch_inbound : ℕ → ℕ → Binding → Binding
touch_inbound now at b = record b {
  last_inbound_at = some at;
  last_seen_at = some at;
  updated_at = now;
}

-- What acceptChannelIngress does once it has the binding.
unfoldable pub accept_for : ℕ → String → IngressInput → Binding → Store → Store × AcceptResult
accept_for now fresh i b s =
    if b.status === "disabled" || b.status === "unconfigured"
    then (s, refused)
    else elim (find? (same_message b.id i.external_message_id) s.inbox) [
      | some item ↦ (s, duplicate b item)
      | none ↦ (
        record s {
          inbox = s.inbox ++ new_inbox now fresh i b ∷ [];
          bindings = update_first (is_target i) (touch_inbound now i.received_at) s.bindings;
        },
        accepted (touch_inbound now i.received_at b) (new_inbox now fresh i b),
      )
    ]

unfoldable pub accept_channel_ingress : ℕ → String → IngressInput → Store → Store × AcceptResult
unfolding accept_for new_inbox
accept_channel_ingress now fresh i s = elim (find? (is_target i) s.bindings) [
  | none ↦ (s, refused)
  | some b ↦ accept_for now fresh i b s
]

pub record ConversationInput : Type 0 where
  pub id : Option String
  pub organization_id : String
  pub user_id : String
  pub agent_id : String
  pub binding_id : String
  pub channel : String
  pub channel_conversation_id : String
  pub conversation_kind : String
  pub runtime_conversation_id : Option String
  pub last_message_at : Option ℕ

abbrev pub same_conversation : String → String → Conversation → Bool
same_conversation binding id c = c.binding_id === binding && c.channel_conversation_id === id

abbrev pub touch_conversation : ℕ → ConversationInput → Conversation → Conversation
touch_conversation now i c = record c {
  conversation_kind = i.conversation_kind;
  last_message_at = or_else i.last_message_at now;
  updated_at = now;
}

unfoldable pub new_conversation : ℕ → String → String → ConversationInput → Conversation
new_conversation now fresh fresh_runtime i = record {
  id = or_else i.id fresh;
  organization_id = i.organization_id;
  user_id = i.user_id;
  agent_id = i.agent_id;
  binding_id = i.binding_id;
  channel = i.channel;
  channel_conversation_id = i.channel_conversation_id;
  conversation_kind = i.conversation_kind;
  runtime_conversation_id = or_else i.runtime_conversation_id fresh_runtime;
  last_message_at = or_else i.last_message_at now;
  created_at = now;
  updated_at = now;
}

-- `fresh` and `fresh_runtime` are the two identifiers that the call may draw.
unfoldable pub ensure_channel_conversation :
    ℕ → String → String → ConversationInput → Store → Store × Conversation
unfolding new_conversation
ensure_channel_conversation now fresh fresh_runtime i s =
    elim (find? (same_conversation i.binding_id i.channel_conversation_id) s.conversations) [
      | some c ↦ (
        record s {
          conversations =
              update_first (same_conversation i.binding_id i.channel_conversation_id)
                (touch_conversation now i) s.conversations;
        },
        touch_conversation now i c,
      )
      | none ↦
          let c = new_conversation now fresh fresh_runtime i in
          (record s { conversations = s.conversations ++ c ∷ [] }, c)
    ]
