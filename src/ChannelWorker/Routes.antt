-- ===== src/ChannelWorker/Routes.antt =====
-- How a delivery leaves the platform and how its receipt comes back: workspaceIdFromRef of
-- packages/server-protocol/runtime-client.mjs, and ownerScope, publicDelivery and the receipts' part of
-- apps/web/routes/internal-channels.mjs. SHA-256 and the contracts' check are arguments. What the route
-- does not read of a receipt, its version and its trace, is left out.
use Prim.Native.String
use bai_rui_cloud_agent_plat.Json.{Text, Value, codes}
use bai_rui_cloud_agent_plat.Prelude.{
  Bool, List, Option, String, [], find?, if◌then◌else◌, none, not, or_else, same_option, some, true,
  ℕ, ◌&&◌, ◌===◌, ◌||◌, ◌∷◌,
}
use bai_rui_cloud_agent_plat.Notes.{trim}
use bai_rui_cloud_agent_plat.Channel.Store.{OutboxItem, Binding, Store}
use bai_rui_cloud_agent_plat.Fleet.Store.{AgentRuntime}
use bai_rui_cloud_agent_plat.Credentials.{WorkerCredential}
use bai_rui_cloud_agent_plat.Channel.Delivery.{
  ReceiptResult, not_leased, receipt_conflict, recorded, record_channel_delivery_receipt,
  ReceiptInput,
}
use bai_rui_cloud_agent_plat.Channel.Bindings.{get_channel_binding_by_id}
use bai_rui_cloud_agent_plat.IngressWorker.Messages.{slice}
use bai_rui_cloud_agent_plat.Channel.Ingress.{includes}

pub record DeliveryScope : Type 0 where
  pub organization_id : String
  pub user_id : String
  pub agent_id : String
  pub workspace_id : String
  pub conversation_id : Option String

-- ownerScope throws, or answers null or a scope.
pub data Scoped : Type 0 where
  scope_thrown unscoped : Scoped
  scoped : DeliveryScope → Scoped

-- `none` where the reference is blank, and the code throws.
unfoldable pub workspace_id_from_ref : (Text → String) → String → Option String
unfolding trim slice
workspace_id_from_ref sha256 ref = elim (trim (codes ref)) [
  | [] ↦ none
  | c ∷ cs ↦ some (String.◌++◌ "ws_" (slice 48 (sha256 (c ∷ cs))))
]

abbrev pub serves_owner : OutboxItem → AgentRuntime → Bool
serves_owner o r = r.organization_id === o.organization_id && r.owner_user_id === o.user_id

abbrev pub scope_in : OutboxItem → String → Option String → Scoped
scope_in o conversation none = scope_thrown
scope_in o conversation (some workspace) = scoped (record {
  organization_id = o.organization_id;
  user_id = o.user_id;
  agent_id = o.agent_id;
  workspace_id = workspace;
  conversation_id = some conversation;
})

-- For a conversation that is given.
unfoldable pub owner_scope : (Text → String) → List AgentRuntime → OutboxItem → String → Scoped
unfolding workspace_id_from_ref
owner_scope sha256 runtimes o conversation =
    elim (find? (λ r. r.agent_id === o.agent_id) runtimes) [
      | none ↦ unscoped
      | some r ↦
          if serves_owner o r
          then scope_in o conversation (workspace_id_from_ref sha256 r.workspace_ref)
          else unscoped
    ]

abbrev pub non_empty : Option String → Option String
non_empty none = none
non_empty (some t) = if t === "" then none else some t

-- The scope of an item's conversation, where it has one; an empty name is none.
unfoldable pub delivery_scope : (Text → String) → List AgentRuntime → OutboxItem → Scoped
unfolding owner_scope
delivery_scope sha256 runtimes o = elim (non_empty o.conversation.runtime_conversation_id) [
  | none ↦ unscoped
  | some c ↦ owner_scope sha256 runtimes o c
]

abbrev pub same_delivery_scope : DeliveryScope → DeliveryScope → Bool
same_delivery_scope l r =
    l.organization_id === r.organization_id
    && l.user_id === r.user_id
    && l.agent_id === r.agent_id
    && l.workspace_id === r.workspace_id
    && same_option l.conversation_id r.conversation_id

-- `item.attachments ?? []`
abbrev pub sent_attachments : Value → Value
sent_attachments Value.null = Value.arr bai_rui_cloud_agent_plat.Json.Items.nil
sent_attachments Value.undefined = Value.arr bai_rui_cloud_agent_plat.Json.Items.nil
sent_attachments v = v

-- What a worker gets of a delivery, less the kind of its conversation. A leased item has a token.
pub record Delivery : Type 0 where
  pub owner_scope : DeliveryScope
  pub outbound_id : String
  pub binding_id : String
  pub channel : String
  pub channel_account_id : String
  pub channel_conversation_id : String
  pub content : Value
  pub attachments : Value
  pub reply_to_message_id : Option String
  pub attempt : ℕ
  pub lease_token : String
  pub available_at : ℕ
  pub trace : Value

-- `none` where the code throws.
unfoldable pub public_delivery : (Text → String) → List AgentRuntime → OutboxItem → Option Delivery
unfolding delivery_scope
public_delivery sha256 runtimes o = elim (delivery_scope sha256 runtimes o) [
  | scope_thrown ↦ none
  | unscoped ↦ none
  | scoped d ↦ some (record {
    owner_scope = d;
    outbound_id = o.id;
    binding_id = o.binding_id;
    channel = o.channel;
    channel_account_id = o.channel_account_id;
    channel_conversation_id = o.conversation.channel_conversation_id;
    content = o.content;
    attachments = sent_attachments o.attachments;
    reply_to_message_id = non_empty o.reply_to_message_id;
    attempt = o.attempts;
    lease_token = or_else o.lease_token "";
    available_at = o.available_at;
    trace = o.trace;
  })
]

pub record DeliveryReceipt : Type 0 where
  pub owner_scope : DeliveryScope
  pub outbound_id : String
  pub binding_id : String
  pub lease_token : String
  pub status : String
  pub attempt : ℕ
  pub channel_message_id : Option String
  pub error_code : Option String
  pub retry_after_ms : Option ℕ
  pub observed_at : ℕ

-- The machine that authenticateMachine answers.
pub record Machine : Type 0 where
  pub machine_id : String
  pub credential : WorkerCredential

abbrev pub owns_binding : Option String → Binding → Bool
owns_binding none b = true
owns_binding (some o) b = o === "" || b.organization_id === o

abbrev pub is_authorized : Machine → Binding → Bool
is_authorized m b =
    owns_binding m.credential.organization_id b && includes m.credential.allowed_channels b.channel

abbrev pub receipt_input : Machine → Binding → DeliveryReceipt → ReceiptInput
receipt_input m b r = record {
  receipt_id = none;
  outbound_id = r.outbound_id;
  binding_id = r.binding_id;
  agent_id = b.agent_id;
  worker_id = some m.machine_id;
  lease_token = r.lease_token;
  attempt = r.attempt;
  status = r.status;
  channel_message_id = r.channel_message_id;
  error_code = r.error_code;
  retry_after_ms = r.retry_after_ms;
  observed_at = r.observed_at;
}

-- The answers 400, 404, 409 and 202, and the route's throwing.
pub data RouteAnswer : Type 0 where
  invalid_receipt not_available lease_not_found thrown : RouteAnswer
  received : String → String → ℕ → RouteAnswer

abbrev pub answer_to : ReceiptResult → RouteAnswer
answer_to not_leased = lease_not_found
answer_to receipt_conflict = thrown
answer_to (recorded r o) = received r.outbound_id r.status r.observed_at

-- The scope that a receipt must come with.
unfoldable pub receipt_scope :
    (Text → String) → List AgentRuntime → DeliveryReceipt → Store → Scoped
unfolding delivery_scope
receipt_scope sha256 runtimes r s = elim (find? (λ o. o.id === r.outbound_id) s.outbox) [
  | none ↦ unscoped
  | some o ↦ if o.binding_id === r.binding_id then delivery_scope sha256 runtimes o else unscoped
]

-- The record of a receipt whose binding and scope are known.
unfoldable pub receive_in :
    Machine
    → ℕ
    → String
    → String
    → DeliveryReceipt
    → Option Binding
    → DeliveryScope
    → Store
    → Store × RouteAnswer
unfolding record_channel_delivery_receipt
receive_in m now fresh letter r none d s = (s, not_available)
receive_in m now fresh letter r (some b) d s =
    if is_authorized m b && same_delivery_scope r.owner_scope d
    then (
      (record_channel_delivery_receipt now fresh letter (receipt_input m b r) s).0,
      answer_to (record_channel_delivery_receipt now fresh letter (receipt_input m b r) s).1,
    )
    else (s, not_available)

unfoldable pub receive :
    (DeliveryReceipt → Bool)
    → (Text → String)
    → List AgentRuntime
    → Machine
    → ℕ
    → String
    → String
    → DeliveryReceipt
    → Store
    → Store × RouteAnswer
unfolding receipt_scope receive_in get_channel_binding_by_id
receive accepts sha256 runtimes m now fresh letter r s =
    if not (accepts r) then (s, invalid_receipt) else elim (receipt_scope sha256 runtimes r s) [
      | scope_thrown ↦ (s, thrown)
      | unscoped ↦ (s, not_available)
      | scoped d ↦ receive_in m now fresh letter r (get_channel_binding_by_id r.binding_id s) d s
    ]
