-- ===== src/Channel/Delivery.antt =====
-- The outbox: leaseChannelDeliveries and recordChannelDeliveryReceipt of
-- packages/db/memory-repository.mjs. The one `await` inside the latter is not a switch: each call
-- runs to its end.
use bai_rui_cloud_agent_plat.Prelude.{
  matches_or_any, ℕ, ◌+◌, ◌*◌, String, Option, none, some, List, [], ◌∷◌, ◌++◌, map, Bool, true,
  false, ◌&&◌, ◌||◌, not, ltb, leb, ◌==◌, ◌===◌, is_text, if◌then◌else◌, or_else, or_option, find?,
  any, update_first, update_at, select,
}
use Prim.Native.String
use bai_rui_cloud_agent_plat.Channel.Store.{
  Binding, OutboxItem, OutboxState, is_out_leased, is_out_waiting, DeadLetter, Direction,
  is_inbound, Receipt, Store, number_or,
}
use bai_rui_cloud_agent_plat.Channel.Ingress.{includes, is_before}
use bai_rui_cloud_agent_plat.Channel.Jobs.{lease_span, lease_limit}

pub record DeliveryLeaseInput : Type 0 where
  pub lease_id : Option String
  pub worker_id : String
  pub agent_id : Option String
  pub organization_id : Option String
  pub channels : List String
  pub binding_ids : List String
  pub limit : Option ℕ
  pub lease_seconds : Option ℕ

abbrev pub is_empty : List String → Bool
is_empty [] = true
is_empty _ = false

unfoldable pub can_deliver : ℕ → DeliveryLeaseInput → OutboxItem → Bool
can_deliver now l o =
    matches_or_any l.agent_id o.agent_id
    && matches_or_any l.organization_id o.organization_id
    && includes l.channels o.channel
    && (is_empty l.binding_ids || includes l.binding_ids o.binding_id)
    && ltb o.attempts o.max_attempts
    && (is_out_waiting o.state && leb o.available_at now
        || is_out_leased o.state && is_before o.lease_expires_at now)

unfoldable pub lease_outbox_item : ℕ → String → String → ℕ → OutboxItem → OutboxItem
lease_outbox_item now lease_id worker span o = record o {
  state = OutboxState.leased;
  attempts = o.attempts + 1;
  worker_id = some worker;
  lease_token = some (String.◌++◌ lease_id (String.◌++◌ ":" o.id));
  lease_expires_at = some (now + span * 1000);
  updated_at = now;
}

-- The objects that the call leases, by their place in the outbox.
unfoldable pub leased_deliveries : ℕ → DeliveryLeaseInput → Store → List (ℕ × OutboxItem)
unfolding can_deliver select
leased_deliveries now l s =
    select (can_deliver now l) (λ o. o.available_at) (lease_limit l.limit) s.outbox

unfoldable pub lease_channel_deliveries :
    ℕ → String → DeliveryLeaseInput → Store → Store × (String × List OutboxItem)
unfolding lease_outbox_item leased_deliveries
lease_channel_deliveries now fresh l s =
    let id = or_else l.lease_id fresh in
    let found = leased_deliveries now l s in
    let lease = lease_outbox_item now id l.worker_id (lease_span l.lease_seconds) in
    (
      record s { outbox = update_at (map (λ r. r.0) found) lease 0 s.outbox },
      (id, map (λ r. lease r.1) found),
    )

pub record ReceiptInput : Type 0 where
  pub receipt_id : Option String
  pub outbound_id : String
  pub binding_id : String
  pub agent_id : String
  pub worker_id : Option String
  pub lease_token : String
  pub attempt : ℕ
  pub status : String
  pub channel_message_id : Option String
  pub error_code : Option String
  pub retry_after_ms : Option ℕ
  pub observed_at : ℕ

pub data ReceiptResult : Type 0 where
  not_leased receipt_conflict : ReceiptResult
  recorded : Receipt → Option OutboxItem → ReceiptResult

abbrev pub same_attempt : String → ℕ → Receipt → Bool
same_attempt outbound attempt r = r.outbound_id === outbound && r.attempt == attempt

-- `input.workerId && worker !== input.workerId`
abbrev pub other_worker : Option String → Option String → Bool
other_worker none worker = false
other_worker (some w) worker = not (w === "") && not (is_text worker w)

abbrev pub is_receipt_target : ReceiptInput → OutboxItem → Bool
is_receipt_target r o =
    o.id === r.outbound_id
    && o.binding_id === r.binding_id
    && o.agent_id === r.agent_id
    && not (other_worker r.worker_id o.worker_id)
    && is_out_leased o.state
    && is_text o.lease_token r.lease_token
    && o.attempts == r.attempt

unfoldable pub next_state : String → OutboxItem → OutboxState
next_state status o =
    if status === "delivered"
    then OutboxState.delivered
    else if status === "retryable" && not (leb o.max_attempts o.attempts)
    then OutboxState.retry
    else if status === "retryable"
    then OutboxState.dead
    else OutboxState.failed

abbrev pub retry_time : ℕ → ReceiptInput → OutboxState → ℕ → ℕ
retry_time now r OutboxState.retry old = now + number_or r.retry_after_ms 0
retry_time now r _ old = old

abbrev pub delivery_time : ReceiptInput → OutboxState → Option ℕ → Option ℕ
delivery_time r OutboxState.delivered old = some r.observed_at
delivery_time r _ old = old

unfoldable pub settle_outbound : ℕ → ReceiptInput → OutboxItem → OutboxItem
unfolding next_state
settle_outbound now r o = record o {
  state = next_state r.status o;
  available_at = retry_time now r (next_state r.status o) o.available_at;
  worker_id = none;
  lease_token = none;
  lease_expires_at = none;
  channel_message_id = or_option r.channel_message_id o.channel_message_id;
  last_error_code = r.error_code;
  delivered_at = delivery_time r (next_state r.status o) o.delivered_at;
  updated_at = now;
}

unfoldable pub new_receipt : String → ReceiptInput → OutboxItem → Receipt
new_receipt fresh r o = record {
  id = or_else r.receipt_id fresh;
  outbound_id = o.id;
  binding_id = o.binding_id;
  worker_id = o.worker_id;
  attempt = r.attempt;
  status = r.status;
  channel_message_id = r.channel_message_id;
  error_code = r.error_code;
  observed_at = r.observed_at;
}

abbrev pub is_outbound_letter : String → DeadLetter → Bool
is_outbound_letter id d = not (is_inbound d.direction) && d.source_id === id

-- `["dead", "failed"].includes(state)`
abbrev pub is_lost : OutboxState → Bool
is_lost OutboxState.dead = true
is_lost OutboxState.failed = true
is_lost _ = false

abbrev pub is_delivered : OutboxState → Bool
is_delivered OutboxState.delivered = true
is_delivered _ = false

unfoldable pub new_outbound_letter : ℕ → String → ReceiptInput → OutboxItem → DeadLetter
new_outbound_letter now fresh r o = record {
  id = fresh;
  organization_id = o.organization_id;
  agent_id = o.agent_id;
  binding_id = o.binding_id;
  direction = Direction.outbound;
  source_id = o.id;
  attempts = o.attempts;
  error_code = or_else r.error_code "delivery_failed";
  dead_at = now;
}

unfoldable pub outbound_letters :
    ℕ → String → ReceiptInput → OutboxItem → List DeadLetter → List DeadLetter
unfolding next_state new_outbound_letter
outbound_letters now fresh r o ds =
    if is_lost (next_state r.status o) && not (any (is_outbound_letter o.id) ds)
    then ds ++ new_outbound_letter now fresh r o ∷ []
    else ds

abbrev pub touch_outbound : ℕ → ℕ → Binding → Binding
touch_outbound now at b = record b {
  last_outbound_at = some at;
  last_seen_at = some at;
  updated_at = now;
}

-- The receipt of an attempt that has none yet.
unfoldable pub settle_receipt : ℕ → String → String → ReceiptInput → Store → Store × ReceiptResult
unfolding settle_outbound new_receipt outbound_letters
settle_receipt now fresh fresh_letter r s = elim (find? (is_receipt_target r) s.outbox) [
  | none ↦ (s, not_leased)
  | some o ↦ (
    record s {
      receipts = s.receipts ++ new_receipt fresh r o ∷ [];
      outbox = update_first (is_receipt_target r) (settle_outbound now r) s.outbox;
      dead_letters = outbound_letters now fresh_letter r o s.dead_letters;
      bindings =
          if is_delivered (next_state r.status o)
          then update_first (λ b. b.id === o.binding_id) (touch_outbound now r.observed_at)
              s.bindings
          else s.bindings;
    },
    recorded (new_receipt fresh r o) (some (settle_outbound now r o)),
  )
]

unfoldable pub record_channel_delivery_receipt :
    ℕ → String → String → ReceiptInput → Store → Store × ReceiptResult
unfolding settle_receipt
record_channel_delivery_receipt now fresh fresh_letter r s =
    elim (find? (same_attempt r.outbound_id r.attempt) s.receipts) [
      | some previous ↦
          if other_worker r.worker_id previous.worker_id || not (previous.status === r.status)
          then (s, receipt_conflict)
          else (s, recorded previous (find? (λ o. o.id === r.outbound_id) s.outbox))
      | none ↦ settle_receipt now fresh fresh_letter r s
    ]
