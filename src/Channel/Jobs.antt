-- ===== src/Channel/Jobs.antt =====
-- The inbox as a queue of jobs: leaseChannelIngress, completeChannelIngress and failChannelIngress
-- of packages/db/memory-repository.mjs.
use Prim.Native.String
use bai_rui_cloud_agent_plat.Prelude.{
  ℕ, ◌+◌, ◌*◌, String, Option, none, some, List, [], ◌∷◌, ◌++◌, map, Bool, ◌&&◌, ◌||◌, not, max,
  min, ltb, leb, ◌===◌, is_text, if◌then◌else◌, or_else, find?, any, update_first, update_at,
  select,
}
use bai_rui_cloud_agent_plat.Json.{Value}
use bai_rui_cloud_agent_plat.Channel.Store.{
  ConversationRef, InboxItem, InboxState, is_leased, is_waiting, OutboxItem, OutboxState,
  Conversation, DeadLetter, Direction, is_inbound, Store, number_or,
}
use bai_rui_cloud_agent_plat.Channel.Ingress.{is_before, same_conversation}

pub record LeaseInput : Type 0 where
  pub lease_id : Option String
  pub limit : Option ℕ
  pub lease_seconds : Option ℕ

-- `Math.max(5, Math.min(Number(leaseSeconds) || 60, 300))`
abbrev pub lease_span : Option ℕ → ℕ
lease_span n = max 5 (min (number_or n 60) 300)

-- `Math.max(1, Math.min(Number(limit) || 10, 100))`
abbrev pub lease_limit : Option ℕ → ℕ
lease_limit n = max 1 (min (number_or n 10) 100)

unfoldable pub can_lease : ℕ → InboxItem → Bool
can_lease now i =
    ltb i.attempts i.max_attempts
    && (is_waiting i.state && leb i.available_at now
        || is_leased i.state && is_before i.lease_expires_at now)

unfoldable pub lease_item : ℕ → String → ℕ → InboxItem → InboxItem
lease_item now lease_id span i = record i {
  state = InboxState.leased;
  attempts = i.attempts + 1;
  lease_token = some (String.◌++◌ lease_id (String.◌++◌ ":" i.id));
  lease_expires_at = some (now + span * 1000);
  updated_at = now;
}

-- The objects that the call leases, by their place in the inbox.
unfoldable pub leased_jobs : ℕ → LeaseInput → Store → List (ℕ × InboxItem)
unfolding can_lease select
leased_jobs now l s = select (can_lease now) (λ i. i.received_at) (lease_limit l.limit) s.inbox

unfoldable pub lease_channel_ingress : ℕ → String → LeaseInput → Store → Store × List InboxItem
unfolding lease_item leased_jobs
lease_channel_ingress now fresh l s =
    let jobs = leased_jobs now l s in
    let lease = lease_item now (or_else l.lease_id fresh) (lease_span l.lease_seconds) in
    (
      record s { inbox = update_at (map (λ r. r.0) jobs) lease 0 s.inbox },
      map (λ r. lease r.1) jobs,
    )

pub record OutboundInput : Type 0 where
  pub id : Option String
  pub conversation : Option ConversationRef
  pub content : Value
  pub attachments : Option Value
  pub reply_to_message_id : Option String
  pub trace : Option Value
  pub max_attempts : Option ℕ

pub record CompleteInput : Type 0 where
  pub id : String
  pub lease_token : String
  pub outbound : Option OutboundInput

pub data CompleteResult : Type 0 where
  lease_lost scope_unavailable : CompleteResult
  completed : InboxItem → Option OutboxItem → CompleteResult

-- The inbox item that holds the caller's lease.
abbrev pub holds_lease : String → String → InboxItem → Bool
holds_lease id token i = i.id === id && is_leased i.state && is_text i.lease_token token

unfoldable pub complete_item : ℕ → InboxItem → InboxItem
complete_item now i = record i {
  state = InboxState.completed;
  lease_token = none;
  lease_expires_at = none;
  last_error_code = none;
  completed_at = some now;
  updated_at = now;
}

unfoldable pub new_outbound : ℕ → String → OutboundInput → Conversation → InboxItem → OutboxItem
new_outbound now fresh o c i = record {
  id = or_else o.id fresh;
  organization_id = i.organization_id;
  user_id = i.user_id;
  agent_id = i.agent_id;
  binding_id = i.binding_id;
  inbox_id = i.id;
  channel = i.channel;
  channel_account_id = i.channel_account_id;
  conversation = record (or_else o.conversation i.conversation) {
    runtime_conversation_id = some c.runtime_conversation_id;
  };
  content = o.content;
  attachments = or_else o.attachments (Value.arr bai_rui_cloud_agent_plat.Json.Items.nil);
  reply_to_message_id = some (or_else o.reply_to_message_id i.external_message_id);
  trace = or_else o.trace i.trace;
  state = OutboxState.pending;
  attempts = 0;
  max_attempts = or_else o.max_attempts 8;
  available_at = now;
  worker_id = none;
  lease_token = none;
  lease_expires_at = none;
  channel_message_id = none;
  last_error_code = none;
  delivered_at = none;
  created_at = now;
  updated_at = now;
}

-- What completeChannelIngress answers an outbound message with: the outbox that it leaves, or
-- none where the conversation is unknown.
unfoldable pub reply_outbox :
    ℕ
    → String
    → Option OutboundInput
    → InboxItem
    → Store
    → Option (List OutboxItem × Option OutboxItem)
unfolding new_outbound
reply_outbox now fresh none i s = some (s.outbox, find? (λ o. o.inbox_id === i.id) s.outbox)
reply_outbox now fresh (some o) i s = elim (find? (λ q. q.inbox_id === i.id) s.outbox) [
  | some known ↦ some (s.outbox, some known)
  | none ↦
      elim (find? (same_conversation i.binding_id i.conversation.channel_conversation_id)
        s.conversations) [
          | none ↦ none
          | some c ↦
              some
                (s.outbox ++ new_outbound now fresh o c i ∷ [], some (new_outbound now fresh o c i))
        ]
]

unfoldable pub complete_channel_ingress :
    ℕ → String → CompleteInput → Store → Store × CompleteResult
unfolding complete_item reply_outbox
complete_channel_ingress now fresh c s = elim (find? (holds_lease c.id c.lease_token) s.inbox) [
  | none ↦ (s, lease_lost)
  | some i ↦ elim (reply_outbox now fresh c.outbound i s) [
    | none ↦ (s, scope_unavailable)
    | some (outbox, sent) ↦ (
      record s {
        outbox = outbox;
        inbox = update_first (holds_lease c.id c.lease_token) (complete_item now) s.inbox;
      },
      completed (complete_item now i) sent,
    )
  ]
]

pub record FailInput : Type 0 where
  pub id : String
  pub lease_token : String
  pub error_code : String
  pub available_at : Option ℕ

unfoldable pub fail_item : ℕ → FailInput → InboxItem → InboxItem
fail_item now f i = record i {
  state = if leb i.max_attempts i.attempts then InboxState.dead else InboxState.retry;
  available_at = or_else f.available_at now;
  lease_token = none;
  lease_expires_at = none;
  last_error_code = some f.error_code;
  updated_at = now;
}

abbrev pub is_inbound_letter : String → DeadLetter → Bool
is_inbound_letter id d = is_inbound d.direction && d.source_id === id

unfoldable pub new_inbound_letter : ℕ → String → String → InboxItem → DeadLetter
new_inbound_letter now fresh code i = record {
  id = fresh;
  organization_id = i.organization_id;
  agent_id = i.agent_id;
  binding_id = i.binding_id;
  direction = Direction.inbound;
  source_id = i.id;
  attempts = i.attempts;
  error_code = code;
  dead_at = now;
}

unfoldable pub inbound_letters : ℕ → String → String → InboxItem → List DeadLetter → List DeadLetter
unfolding new_inbound_letter
inbound_letters now fresh code i ds =
    if leb i.max_attempts i.attempts && not (any (is_inbound_letter i.id) ds)
    then ds ++ new_inbound_letter now fresh code i ∷ []
    else ds

unfoldable pub fail_channel_ingress : ℕ → String → FailInput → Store → Store × Option InboxItem
unfolding fail_item inbound_letters
fail_channel_ingress now fresh f s = elim (find? (holds_lease f.id f.lease_token) s.inbox) [
  | none ↦ (s, none)
  | some i ↦ (
    record s {
      inbox = update_first (holds_lease f.id f.lease_token) (fail_item now f) s.inbox;
      dead_letters = inbound_letters now fresh f.error_code i s.dead_letters;
    },
    some (fail_item now f i),
  )
]
