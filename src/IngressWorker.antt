-- ===== src/IngressWorker.antt =====
-- The worker that answers channel messages: packages/channels/ingress-worker.mjs, over the inbox of
-- packages/db/memory-repository.mjs. The Runtime client is an argument. What other callers do to the
-- repository while a job waits for the Runtime is a list of calls, of other jobs of the batch too.
pub mod Messages
pub mod Settings
mod Examples
pub mod Released
use Prim.Native.String
use Prim.Native.Char.{code}
use mathlib.Core.Option
use bai_rui_cloud_agent_plat.Json.{Value, Text, codes, obj, field, end, str}
use bai_rui_cloud_agent_plat.Fleet.Store.{Agent}
use bai_rui_cloud_agent_plat.Channel.Store.{InboxItem, OutboxItem, Conversation, Store}
use bai_rui_cloud_agent_plat.Channel.Ingress.{ConversationInput, ensure_channel_conversation}
use bai_rui_cloud_agent_plat.Channel.Jobs.{
  OutboundInput, complete_channel_ingress, completed, lease_lost, scope_unavailable,
  fail_channel_ingress, lease_channel_ingress,
}
use bai_rui_cloud_agent_plat.Channel.Calls.{Call, run}
use bai_rui_cloud_agent_plat.Prelude.{
  Bool, List, Option, String, [], false, if◌then◌else◌, map, none, or_else, some, true, ℕ, ◌&&◌,
  ◌+◌, ◌===◌, ◌∷◌, find?,
}
use bai_rui_cloud_agent_plat.IngressWorker.Settings.{Worker, retry_delay}
use bai_rui_cloud_agent_plat.IngressWorker.Messages.{property, trimmed, error_code, message_text}

pub record Invocation : Type 0 where
  pub organization_id : String
  pub user_id : String
  pub role : String
  pub agent : Agent
  pub conversation_id : String
  pub content : Text
  pub channel : String
  pub binding_id : String
  pub channel_account_id : String
  pub external_sender_id : Value
  pub external_message_id : String
  pub conversation_kind : String

-- The `content` of the Runtime's answer, or the code of what it throws.
pub data Reply : Type 0 where
  answered : Value → Reply
  threw : Option String → Reply

-- The Runtime, and the string that a conversation has for its kind.
pub record Host : Type 0 where
  pub invoke : Invocation → Reply
  pub kind_of : Value → String

abbrev pub owns_job : InboxItem → Agent → Bool
owns_job j a = a.organization_id === j.organization_id && a.owner_user_id === j.user_id

abbrev pub conversation_input : Host → InboxItem → ConversationInput
conversation_input h j = record {
  id = none;
  organization_id = j.organization_id;
  user_id = j.user_id;
  agent_id = j.agent_id;
  binding_id = j.binding_id;
  channel = j.channel;
  channel_conversation_id = j.conversation.channel_conversation_id;
  conversation_kind = h.kind_of j.conversation.rest;
  runtime_conversation_id = none;
  last_message_at = some j.received_at;
}

unfoldable pub invocation : Host → InboxItem → Agent → Conversation → Text → Invocation
unfolding property
invocation h j a c text = record {
  organization_id = j.organization_id;
  user_id = j.user_id;
  role = "user";
  agent = a;
  conversation_id = c.runtime_conversation_id;
  content = text;
  channel = j.channel;
  binding_id = j.binding_id;
  channel_account_id = j.channel_account_id;
  external_sender_id = property (codes "channel_user_id") j.sender;
  external_message_id = j.external_message_id;
  conversation_kind = h.kind_of j.conversation.rest;
}

-- `typeof content === "string" ? content.trim() : ""`, and an empty reply is none.
abbrev pub reply_of : Value → Option Text
reply_of content = trimmed content

unfoldable pub outbound_of : InboxItem → Conversation → Text → OutboundInput
outbound_of j c reply = record {
  id = none;
  conversation =
      some (record j.conversation { runtime_conversation_id = some c.runtime_conversation_id });
  content = obj (field (codes "kind") (str (codes "text")) (field (codes "text") (str reply) end));
  attachments = none;
  reply_to_message_id = some j.external_message_id;
  trace = some j.trace;
  max_attempts = none;
}

-- The clock when the job's call of the repository is made, the identifiers that it draws, and the
-- calls that others make while the job waits for the Runtime.
pub record Course : Type 0 where
  pub ensured_at : ℕ
  pub settled_at : ℕ
  pub fresh : ℕ → String
  pub meanwhile : List Call

pub data Outcome : Type 0 where
  answer : InboxItem → Option OutboxItem → Outcome
  no_answer : Outcome

-- A leased job is the repository's own object: what is read of it is what the inbox holds by then.
unfoldable pub job_now : String → List InboxItem → Option InboxItem
job_now id inbox = find? (λ i. i.id === id) inbox

-- `job.leaseToken`. No lease has the empty token, nor `null`.
unfoldable pub token_now : String → List InboxItem → String
unfolding job_now
token_now id inbox = elim (job_now id inbox) [ none ↦ "" | some i ↦ or_else i.lease_token "" ]

unfoldable pub attempts_now : InboxItem → List InboxItem → ℕ
unfolding job_now
attempts_now j inbox = elim (job_now j.id inbox) [ none ↦ j.attempts | some i ↦ i.attempts ]

-- The `catch`.
unfoldable pub give_back : Worker → Course → InboxItem → Option String → Store → Store × Outcome
unfolding error_code retry_delay attempts_now token_now
give_back w c j code s = (
  (fail_channel_ingress c.settled_at (c.fresh 3)
      (record {
        id = j.id;
        lease_token = token_now j.id s.inbox;
        error_code = error_code code;
        available_at = some (c.settled_at + retry_delay w (attempts_now j s.inbox));
      })
      s).0,
  no_answer,
)

unfoldable pub settle : Worker → Course → InboxItem → Option OutboundInput → Store → Store × Outcome
unfolding give_back token_now
settle w c j outbound s =
    let r =
      complete_channel_ingress c.settled_at (c.fresh 2)
        (record { id = j.id; lease_token = token_now j.id s.inbox; outbound = outbound }) s in
    elim r.1 [
      | completed i sent ↦ (r.0, answer i sent)
      | lease_lost ↦ give_back w c j (some "channel_ingress_lease_lost") r.0
      | scope_unavailable ↦ give_back w c j (some "channel_conversation_scope_unavailable") r.0
    ]

-- The job once its conversation is known.
unfoldable pub converse :
    Worker → Host → Course → InboxItem → Agent → Conversation → Store → Store × Outcome
unfolding settle give_back outbound_of invocation message_text
converse w h c j a conversation s = elim (message_text j.content) [
  | none ↦ give_back w c j (some "unsupported_channel_content") s
  | some text ↦ elim (h.invoke (invocation h j a conversation text)) [
    | threw code ↦ give_back w c j code (run c.meanwhile s)
    | answered content ↦
        settle w c j (Option.map (outbound_of j conversation) (reply_of content))
          (run c.meanwhile s)
  ]
]

unfoldable pub process : Worker → Host → Course → Option Agent → InboxItem → Store → Store × Outcome
unfolding converse give_back
process w h c agent j s = elim agent [
  | none ↦ give_back w c j (some "channel_agent_not_found") s
  | some a ↦ elim (owns_job j a) [
    | false ↦ give_back w c j (some "channel_agent_not_found") s
    | true ↦
        let r =
          ensure_channel_conversation c.ensured_at (c.fresh 0) (c.fresh 1) (conversation_input h j)
            s in
        converse w h c j a r.1 r.0
  ]
]

-- The jobs of a batch, each with its course.
unfoldable pub process_each :
    Worker
    → Host
    → (String → Option Agent)
    → List (InboxItem × Course)
    → Store
    → Store × List Outcome
unfolding process
process_each w h agents [] s = (s, [])
process_each w h agents ((j, c) ∷ js) s =
    let r = process w h c (agents j.agent_id) j s in
    let rest = process_each w h agents js r.0 in (rest.0, r.1 ∷ rest.1)

abbrev pub with_courses : (ℕ → Course) → ℕ → List InboxItem → List (InboxItem × Course)
with_courses course n [] = []
with_courses course n (j ∷ js) = (j, course n) ∷ with_courses course (n + 1) js

unfoldable pub run_once :
    Worker
    → Host
    → (String → Option Agent)
    → ℕ
    → String
    → (ℕ → Course)
    → Store
    → Store × List Outcome
unfolding process_each lease_channel_ingress
run_once w h agents now fresh course s =
    if w.running
    then (s, [])
    else let r =
        lease_channel_ingress now fresh
          (record {
            lease_id = none;
            limit = some w.batch_size;
            lease_seconds = some w.lease_seconds;
          })
          s in
      process_each w h agents (with_courses course 0 r.1) r.0

unfoldable pub start : Worker → Worker
start w = record w { timer = true }

unfoldable pub stop : Worker → Worker
stop w = record w { timer = false }
