-- ===== src/ChannelWorker/Released.antt =====
-- Leases of deliveries that end by a receipt (packages/channels/worker.mjs and
-- apps/web/routes/internal-channels.mjs).
mod Examples
use bai_rui_cloud_agent_plat.Channel.Store.{Store, OutboxItem, Binding, is_out_leased}
use bai_rui_cloud_agent_plat.Prelude.{
  Bool, Bool-cases, List, String, [], any, false, find?, inl, inr, none, some, true, update_first,
  ℕ, ◌===◌, ◌∷◌, ◌≡◌, ==_iff, Option-cases, any-append, ap, arith, eq_iff, eq_refl, or_else, refl,
  sym, ◌∙◌, ◌⊎◌,
}
use bai_rui_cloud_agent_plat.Channel.Delivery.{
  next_state, same_attempt, record_channel_delivery_receipt, settle_receipt, settle_outbound,
  is_receipt_target, new_receipt, ReceiptInput,
}
use bai_rui_cloud_agent_plat.ChannelWorker.Routes.{
  DeliveryScope, receive, same_delivery_scope, receive_in, DeliveryReceipt, Machine, Delivery,
  public_delivery, is_authorized, received, scoped, Scoped, delivery_scope, receipt_scope,
  scope_thrown, receipt_input, unscoped, answer_to,
}
use bai_rui_cloud_agent_plat.Json.{Text}
use bai_rui_cloud_agent_plat.Fleet.Store.{AgentRuntime}
use bai_rui_cloud_agent_plat.ChannelWorker.{Adapter, Worker}
use bai_rui_cloud_agent_plat.ChannelWorker.Delivering.{Vendor, deliver, attempt_delivery}
use bai_rui_cloud_agent_plat.Channel.Bindings.{get_channel_binding_by_id}

abbrev pub has_outbound_id : String → OutboxItem → Bool
has_outbound_id id o = o.id === id

-- A write at the first of the places that two tests name.
find?-update_first_narrow :
    (p q : OutboxItem → Bool) (f : OutboxItem → OutboxItem) (xs : List OutboxItem) {o : OutboxItem}
    → find? p xs ≡ some o
    → q o ≡ true
    → ((x : OutboxItem) → q x ≡ true → p x ≡ true)
    → p (f o) ≡ true
    → (find? q xs ≡ some o) × (find? p (update_first q f xs) ≡ some (f o))
find?-update_first_narrow p q f [] e t narrow kept = absurd (cc)
find?-update_first_narrow p q f (x ∷ xs) {o} e t narrow kept = elim (Bool-cases (q x)) [
  | inl u ↦
      let same : x ≡ o = (let z = rw (narrow x u) at e in cc) in rw u (rw (same, kept) (refl, refl))
  | inr u ↦ elim (Bool-cases (p x)) [
    | inl v ↦ absurd (let same : x ≡ o = (let z = rw v at e in cc) in let z = rw same at u in cc)
    | inr v ↦ rw u (rw v (find?-update_first_narrow p q f xs (rw v at e) t narrow kept))
  ]
]

settled_not_leased :
    (status : String) (o : OutboxItem) → is_out_leased (next_state status o) ≡ false
unfolding next_state
settled_not_leased status o = ground arith

same_delivery_scope_refl : (d : DeliveryScope) → same_delivery_scope d d ≡ true
same_delivery_scope_refl d = elim (Option-cases d.conversation_id) [
  | inl e ↦
      rw (e, eq_refl d.organization_id, eq_refl d.user_id, eq_refl d.agent_id)
        (ground (arith, eq_refl d.workspace_id))
  | inr (c, e) ↦
      rw (e, eq_refl d.organization_id, eq_refl d.user_id, eq_refl d.agent_id)
        (ground (arith, eq_refl d.workspace_id, eq_refl c))
]

some_eq : {A : Type 0} {x y : A} → some x ≡ some y → x ≡ y
some_eq e = cc

-- What a worker gets of an item.
record IsDelivery (o : OutboxItem) (d : Delivery) : Type 0 where
  outbound_is : d.outbound_id ≡ o.id
  binding_is : d.binding_id ≡ o.binding_id
  attempt_is : d.attempt ≡ o.attempts
  token_is : d.lease_token ≡ or_else o.lease_token ""

scoped-cases :
    (x : Scoped) → ((e : DeliveryScope) × (x ≡ scoped e)) ⊎ ((x ≡ scope_thrown) ⊎ (x ≡ unscoped))
scoped-cases scope_thrown = inr (inl refl)
scoped-cases unscoped = inr (inr refl)
scoped-cases (scoped e) = inl (e, refl)

public_delivery-IsDelivery :
    (sha256 : Text → String) (runtimes : List AgentRuntime) (o : OutboxItem) (d : Delivery)
    → public_delivery sha256 runtimes o ≡ some d
    → IsDelivery o d × (delivery_scope sha256 runtimes o ≡ scoped d.owner_scope)
unfolding public_delivery
public_delivery-IsDelivery sha256 runtimes o d h =
    elim (scoped-cases (delivery_scope sha256 runtimes o)) [
      | inr (inl e) ↦ absurd (let z = rw (public_delivery, e) at h in cc)
      | inr (inr e) ↦ absurd (let z = rw (public_delivery, e) at h in cc)
      | inl (c, e) ↦
          let z = rw (public_delivery, e) at h in
          let same = some_eq z in
          (
            record {
              outbound_is = ap (λ x. x.outbound_id) (sym same);
              binding_is = ap (λ x. x.binding_id) (sym same);
              attempt_is = ap (λ x. x.attempt) (sym same);
              token_is = ap (λ x. x.lease_token) (sym same);
            },
            e ∙ ap (λ x. scoped x.owner_scope) same,
          )
    ]

receipt_scope_lem :
    (sha256 : Text → String) (runtimes : List AgentRuntime) (r : DeliveryReceipt) (o : OutboxItem)
    → (e : DeliveryScope) (s : Store) → r.outbound_id ≡ o.id
    → r.binding_id ≡ o.binding_id
    → find? (has_outbound_id o.id) s.outbox ≡ some o
    → delivery_scope sha256 runtimes o ≡ scoped e
    → receipt_scope sha256 runtimes r s ≡ scoped e
unfolding receipt_scope
receipt_scope_lem sha256 runtimes r o e s same bound at scope =
    let found : find? (λ p. p.id === r.outbound_id) s.outbox ≡ some o = rw same at in
    rw (receipt_scope, found) (rw (bound, eq_refl o.binding_id) scope)

-- A receipt of a leased item's attempt ends the lease.
record-released :
    (now : ℕ) (fresh letter : String) (r : ReceiptInput) (o : OutboxItem) (s : Store)
    → find? (has_outbound_id o.id) s.outbox ≡ some o
    → is_receipt_target r o ≡ true
    → find? (same_attempt r.outbound_id r.attempt) s.receipts ≡ none
    → let x = record_channel_delivery_receipt now fresh letter r s in
      ((y : OutboxItem) × (find? (has_outbound_id o.id) x.0.outbox ≡ some y)
        × (is_out_leased y.state ≡ false))
      × (any (same_attempt o.id o.attempts) x.0.receipts ≡ true)
      × (answer_to x.1 ≡ received o.id r.status r.observed_at)
unfolding record_channel_delivery_receipt settle_receipt settle_outbound new_receipt
record-released now fresh letter r o s at target unseen =
    let id_is : o.id ≡ r.outbound_id = (eq_iff o.id r.outbound_id).0 (ground arith) in
    let attempt_is : o.attempts ≡ r.attempt = (==_iff o.attempts r.attempt).0 (ground arith) in
    let written =
      find?-update_first_narrow (has_outbound_id o.id) (is_receipt_target r) (settle_outbound now r)
        s.outbox at target (λ x t. rw id_is (ground arith)) (eq_refl o.id) in
    rw (record_channel_delivery_receipt, unseen)
      (rw (settle_receipt, written.0)
        (
          (settle_outbound now r o, written.1, settled_not_leased r.status o),
          rw (any-append (same_attempt o.id o.attempts) s.receipts (new_receipt fresh r o ∷ [])) (
              rw (← attempt_is)
                (ground (arith, eq_refl o.id, (==_iff o.attempts o.attempts).1 refl))),
          refl,
        ))

-- A delivery that a worker has leased, whose scope is known, ends with the worker's receipt: whatever
-- the adapter answers or throws, and where no adapter runs, the item is not leased any more, and the
-- attempt has a receipt with the status that the platform answers. The item is the first with its
-- identifier, the attempt has no receipt yet, the machine may use the item's binding, whose Agent is
-- the item's, and the contracts' check accepts the receipt.
pub receive-released :
    (accepts : DeliveryReceipt → Bool) (sha256 : Text → String) (runtimes : List AgentRuntime)
    → (m : Machine) (vendor : Adapter → Delivery → Vendor) (w : Worker)
    → (now observed : ℕ) (fresh letter token : String)
    → (o : OutboxItem) (d : Delivery) (b : Binding) (s : Store)
    → public_delivery sha256 runtimes o ≡ some d
    → find? (has_outbound_id o.id) s.outbox ≡ some o
    → is_out_leased o.state ≡ true
    → o.lease_token ≡ some token
    → o.worker_id ≡ some m.machine_id
    → get_channel_binding_by_id o.binding_id s ≡ some b
    → is_authorized m b ≡ true
    → b.agent_id ≡ o.agent_id
    → find? (same_attempt o.id o.attempts) s.receipts ≡ none
    → accepts (deliver vendor w observed d) ≡ true
    → let r = receive accepts sha256 runtimes m now fresh letter (deliver vendor w observed d) s in
      ((x : OutboxItem) × (find? (has_outbound_id o.id) r.0.outbox ≡ some x)
        × (is_out_leased x.state ≡ false))
      × (any (same_attempt o.id o.attempts) r.0.receipts ≡ true)
      × (r.1 ≡ received o.id (attempt_delivery vendor w d).status observed)
unfolding receive receive_in deliver
receive-released accepts sha256 runtimes m vendor w now observed fresh letter token o d b s public
      at leased held mine bound allowed agent unseen checked =
    let (is, scope) = public_delivery-IsDelivery sha256 runtimes o d public in
    let r = deliver vendor w observed d in
    let found : receipt_scope sha256 runtimes r s ≡ scoped d.owner_scope =
      receipt_scope_lem sha256 runtimes r o d.owner_scope s is.outbound_is is.binding_is at scope in
    let input = receipt_input m b r in
    let target : is_receipt_target input o ≡ true =
      rw (is.outbound_is, is.binding_is, is.attempt_is, is.token_is, held, mine, agent, leased)
        (rw (eq_refl o.id, eq_refl o.binding_id, eq_refl o.agent_id)
          (ground
            (arith, eq_refl m.machine_id, eq_refl token, (==_iff o.attempts o.attempts).1 refl))) in
    let new : find? (same_attempt r.outbound_id r.attempt) s.receipts ≡ none =
      rw (is.outbound_is, is.attempt_is) unseen in
    let known : get_channel_binding_by_id r.binding_id s ≡ some b =
      ap (λ i. get_channel_binding_by_id i s) is.binding_is ∙ bound in
    rw (receive, checked, found, known)
      (rw (receive_in, allowed, same_delivery_scope_refl d.owner_scope)
        (record-released now fresh letter input o s at target new))
