-- ===== src/Control/Examples.antt =====
-- The control plane on small stores (packages/db/memory-repository.mjs).
use bai_rui_cloud_agent_plat.Control.Store.{
  succeeded, rejected, approved, leased, ConfigDocument, Command, Approval, Store, ReceiptInput,
  Receipt,
}
use bai_rui_cloud_agent_plat.Json.{Value}
use bai_rui_cloud_agent_plat.Prelude.{
  All, Bool, Evolves, Option, String, [], arith, find?, find_last?, length, map, none, or_else,
  refl, some, true, ℕ, ◌∷◌, ◌≡◌, ◌≤◌, ap, false, suc, zero,
}
use bai_rui_cloud_agent_plat.Control.Approvals.{
  approval_not_pending, DecisionInput, decide_control_approval, decide,
}
use bai_rui_cloud_agent_plat.Control.Provisioning.{
  no_capacity, ProvisioningInput, request_agent_provisioning, ProvisioningAnswer,
}
use bai_rui_cloud_agent_plat.Control.Operations.{
  operation, refuse, request_control_operation, has_key, operation_key,
}
use bai_rui_cloud_agent_plat.Control.Operations.References.{
  OperationInput, Refusal, is_deployment_of,
}
use bai_rui_cloud_agent_plat.Control.Lifecycle.{
  pause, LifecycleInput, no_arguments, request_agent_lifecycle,
}
use bai_rui_cloud_agent_plat.Control.Recording.{receipt, record_command_receipt}
use bai_rui_cloud_agent_plat.Fleet.Store.{Deployment}
use bai_rui_cloud_agent_plat.Control.Leasing.{LeaseInput, lease_control_commands, sort_commands}
use bai_rui_cloud_agent_plat.Control.Leasing.Eligible.{
  IsEligible, lease_control_commands-IsEligible,
}
use bai_rui_cloud_agent_plat.Control.Leasing.Rounds.{IsRound, lease_control_commands-IsRound}
use bai_rui_cloud_agent_plat.Control.Lifecycle.Single.{IsSingle, request_agent_lifecycle-IsSingle}
use bai_rui_cloud_agent_plat.Control.OwnerConfiguration.{OwnerInput, skills}
use bai_rui_cloud_agent_plat.Control.Operations.Keyed.{IsKeyed, request_control_operation-IsKeyed}
use bai_rui_cloud_agent_plat.Control.Recording.Repeated.{record_command_receipt-repeated}
use bai_rui_cloud_agent_plat.Control.Approvals.Once.{decide_control_approval-once, decide_each}
use bai_rui_cloud_agent_plat.Control.Provisioning.Repeated.{
  request_agent_provisioning-repeated, provision_each,
}
use bai_rui_cloud_agent_plat.Control.Samples.{a_choice, a_command, an_approval, a_world}

-- A deletion that waits for its approval.
abbrev waiting_store : Store
waiting_store = record {
  commands = a_command ∷ [];
  approvals = an_approval ∷ [];
  receipts = [];
  world = a_world;
}

-- The same with the approval given.
abbrev approved_store : Store
approved_store = record waiting_store {
  approvals = (record an_approval { decision = approved }) ∷ [];
}

abbrev a_lease : LeaseInput
a_lease = record { server_id = "s1"; limit = none; lease_seconds = none }

one_leased : length (or_else (lease_control_commands 1000 a_lease approved_store).1 []) ≡ 1
unfolding lease_control_commands
one_leased = refl

none_leased : length (or_else (lease_control_commands 1000 a_lease waiting_store).1 []) ≡ 0
unfolding lease_control_commands
none_leased = refl

lease_control_commands-IsEligible_example :
    All
      (IsEligible 1000 a_lease approved_store)
      (or_else (lease_control_commands 1000 a_lease approved_store).1 [])
    × (length (or_else (lease_control_commands 1000 a_lease approved_store).1 []) ≤ 10)
lease_control_commands-IsEligible_example =
    lease_control_commands-IsEligible 1000 a_lease approved_store

lease_control_commands-IsRound_example :
    Evolves
      (IsRound 1000 a_lease)
      (sort_commands (a_command ∷ []))
      (lease_control_commands 1000 a_lease approved_store).0.commands
lease_control_commands-IsRound_example = lease_control_commands-IsRound 1000 a_lease approved_store

-- The deletion after server s1 has leased it.
abbrev held_store : Store
held_store = record approved_store {
  commands =
      (record a_command {
        state = leased;
        attempt = 1;
        lease_server_id = some "s1";
        lease_expires_at = some 61000;
      })
      ∷ [];
}

abbrev a_receipt : ReceiptInput
a_receipt = record {
  command_id = "k1";
  server_id = "s1";
  attempt = 1;
  state = succeeded;
  error_code = none;
  error_summary = none;
  runtime_endpoint_ref = none;
  evidence_refs = none;
  result_bytes = none;
}

deployment_revoked :
    map (λ d. d.status) (record_command_receipt 2000 "e1" a_receipt held_store).0.world.deployments
    ≡ "revoked" ∷ []
unfolding record_command_receipt
deployment_revoked = refl

record_command_receipt-repeated_example :
    let first = record_command_receipt 2000 "e1" a_receipt held_store in
    let second = record_command_receipt 3000 "e2" a_receipt first.0 in
    (second.0 ≡ first.0) × ((r : Receipt) → first.1 ≡ receipt r → second.1 ≡ receipt r)
record_command_receipt-repeated_example =
    record_command_receipt-repeated 2000 3000 "e1" "e2" a_receipt held_store

abbrev a_rejection : DecisionInput
a_rejection = record {
  approval_id = "p1";
  organization_id = none;
  decision = rejected;
  decided_by = "admin";
  reason = "no";
}

-- Someone tries to approve what was rejected, twice.
abbrev an_approving : DecisionInput
an_approving = record a_rejection { decision = approved }

decide_control_approval-once_example :
    let t =
      decide_each
        ((1500, an_approving) ∷ [])
        (decide_control_approval 1000 a_rejection waiting_store).0 in
    decide_control_approval 2000 an_approving t ≡ (t, approval_not_pending)
unfolding decide_control_approval
decide_control_approval-once_example =
    decide_control_approval-once 1000 2000 a_rejection an_approving waiting_store an_approval
      (decide 1000 a_rejection an_approval) ((1500, an_approving) ∷ []) refl refl refl refl refl

abbrev fresh_names : ℕ → String
fresh_names zero = "n0"
fresh_names (suc zero) = "n1"
fresh_names (suc (suc zero)) = "n2"
fresh_names _ = "n3"

abbrev idle_store : Store
idle_store = record waiting_store { commands = []; approvals = [] }

abbrev a_pause : LifecycleInput
a_pause = record { agent_id = "a1"; request = some pause; requested_by = "u1"; reason = none }

request_agent_lifecycle-IsSingle_example :
    IsSingle (request_agent_lifecycle 1000 fresh_names a_pause idle_store).0.commands
request_agent_lifecycle-IsSingle_example =
    request_agent_lifecycle-IsSingle 1000 fresh_names a_pause idle_store (λ d. omega arith)

abbrev an_operation : OperationInput
an_operation = record {
  organization_id = "org";
  agent_id = "a1";
  action = "service.restart";
  arguments = no_arguments;
  idempotency_key = some "key";
  expires_in_ms = none;
  approval_required = true;
  approval_id = none;
  command_id = none;
  priority = none;
  risk_level = none;
  reason = none;
  requested_by = "admin";
}

request_control_operation-IsKeyed_example :
    let after = request_control_operation 1000 fresh_names an_operation idle_store in
    IsKeyed after.0.commands
    × ((r : Refusal) → after.1 ≡ refuse r → after.0 ≡ idle_store)
    × ((c : Command) (p : Option Approval) (d : Deployment)
        → after.1 ≡ operation c p
        → find_last? (is_deployment_of an_operation) idle_store.world.deployments ≡ some d
        → find? (has_key d.id (operation_key (fresh_names 0) an_operation d)) after.0.commands
          ≡ some c)
request_control_operation-IsKeyed_example =
    request_control_operation-IsKeyed 1000 fresh_names an_operation idle_store (λ d k. omega arith)

abbrev a_request : ProvisioningInput
a_request = record {
  agent_id = "a1";
  skills = none;
  provider = a_choice;
  secret_envelope = Value.null;
  agent_credential_id = none;
  agent_credential_hash = "hash";
  agent_credential_hint = "hint";
  requested_by = "u1";
}

-- An order and a digest for the tests.
abbrev any_order : String → String → Bool
any_order a b = true

abbrev agent_of : ConfigDocument → String
agent_of d = d.agent_id

abbrev is_full : ProvisioningAnswer → Bool
is_full no_capacity = true
is_full _ = false

has_room : ¬ (
    (request_agent_provisioning any_order agent_of 1000 fresh_names a_request idle_store).1
    ≡ no_capacity)
unfolding request_agent_provisioning
has_room h = absurd (let e : false ≡ true = ap is_full h in cc)

request_agent_provisioning-repeated_example :
    let first =
      (request_agent_provisioning any_order agent_of 1000 fresh_names a_request idle_store).0 in
    provision_each any_order agent_of
      ((2000, fresh_names, a_request) ∷ (9000, fresh_names, a_request) ∷ [])
      first
    ≡ first
request_agent_provisioning-repeated_example =
    request_agent_provisioning-repeated any_order agent_of 1000 fresh_names a_request
      ((2000, fresh_names, a_request) ∷ (9000, fresh_names, a_request) ∷ []) idle_store
      (refl, (refl, tt)) has_room

abbrev an_owner : OwnerInput
an_owner = record { organization_id = "org"; user_id = "u1"; agent_id = "a1"; requested_by = "u1" }
