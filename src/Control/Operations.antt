-- ===== src/Control/Operations.antt =====
-- requestControlOperation and createReleaseManifest of packages/db/memory-repository.mjs.
pub mod References
pub mod Keyed
use Prim.Native.String
use bai_rui_cloud_agent_plat.Prelude.{
  Bool, List, Option, String, [], find?, find_last?, if◌then◌else◌, is_text, lookup, max, min, none,
  or_else, some, true, ℕ, ◌&&◌, ◌*◌, ◌++◌, ◌+◌, ◌===◌, ◌∷◌,
}
use bai_rui_cloud_agent_plat.Control.Store.{
  pending, queued, is_one_of, World, Command, TestRun, Restore, Store, Approval, Backup,
}
use bai_rui_cloud_agent_plat.Fleet.Store.{Deployment}
use bai_rui_cloud_agent_plat.Control.Operations.References.{
  deployment_unavailable, OperationInput, Refusal, broken_reference, is_deployment_of,
}

-- `Math.max(5 min, Math.min(expiresInMs ?? 30 min, 24 h))`
abbrev pub lifetime : Option ℕ → ℕ
lifetime ms = max (5 * 60000) (min (or_else ms (30 * 60000)) (24 * 60 * 60000))

abbrev pub approval_id_for : String → OperationInput → Option String
approval_id_for fresh i = if i.approval_required then some (or_else i.approval_id fresh) else none

abbrev pub new_command : ℕ → (ℕ → String) → OperationInput → Deployment → String → Command
new_command now fresh i d key = record {
  id = or_else i.command_id (fresh 1);
  organization_id = some i.organization_id;
  deployment_id = d.id;
  agent_id = i.agent_id;
  idempotency_key = some key;
  action = i.action;
  instance_id = i.agent_id;
  arguments = i.arguments;
  approval_id = approval_id_for (fresh 2) i;
  expected_observation_version = d.observed_state_version;
  state = queued;
  priority = or_else i.priority 100;
  attempt = 0;
  requested_by = some i.requested_by;
  lease_server_id = none;
  lease_expires_at = none;
  expires_at = now + lifetime i.expires_in_ms;
  created_at = now;
}

abbrev pub new_approval : ℕ → OperationInput → Command → String → Approval
new_approval now i c id = record {
  id = id;
  organization_id = i.organization_id;
  command_id = c.id;
  action = c.action;
  risk_level = or_else i.risk_level "high";
  requested_by = i.requested_by;
  decided_by = none;
  decision = pending;
  reason = or_else i.reason "";
  expires_at = c.expires_at;
  decided_at = none;
  created_at = now;
}

-- `join(",")`
unfoldable pub join_commas : List String → String
join_commas [] = ""
join_commas (x ∷ []) = x
join_commas (x ∷ xs) = String.◌++◌ x (String.◌++◌ "," (join_commas xs))

abbrev pub test_type_of : String → String
test_type_of action =
    if action === "probe.run"
    then "probe"
    else if action === "contract.test"
    then "contract"
    else "smoke"

unfoldable pub new_test_runs : ℕ → OperationInput → String → List TestRun
unfolding join_commas
new_test_runs now i deployment =
    if is_one_of ("probe.run" ∷ "contract.test" ∷ "smoke.test" ∷ []) i.action
    then elim i.arguments.test_run_id [
      | none ↦ []
      | some id ↦
          (record {
            id = id;
            deployment_id = deployment;
            suite_id = or_else i.arguments.suite_id (join_commas i.arguments.probe_ids);
            test_type = test_type_of i.action;
            status = "queued";
            started_at = none;
            completed_at = none;
            created_at = now;
          })
          ∷ []
    ]
    else []

unfoldable pub new_backups : ℕ → OperationInput → String → World → List Backup
new_backups now i deployment w =
    if i.action === "backup.create"
    then elim i.arguments.backup_id [
      | none ↦ []
      | some id ↦
          (record {
            id = id;
            deployment_id = deployment;
            policy_id = i.arguments.backup_policy_id;
            backup_type = "runtime-files";
            status = "creating";
            encrypted = true;
            storage_uri = none;
            sha256 = none;
            size_bytes = none;
            verified_at = none;
            expired_at = none;
            created_at = now;
            expires_at =
                now + or_else (lookup i.organization_id w.backup_days) 30 * 24 * 60 * 60000;
          })
          ∷ []
    ]
    else []

unfoldable pub new_restores : ℕ → OperationInput → String → String → List Restore
new_restores now i deployment command =
    if i.action === "backup.restore"
    then (record {
      id = i.arguments.restore_id;
      backup_id = i.arguments.backup_id;
      deployment_id = deployment;
      command_id = command;
      status = "requested";
      requested_by = i.requested_by;
      reason = i.reason;
      evidence_refs = [];
      error_code = none;
      error_summary = none;
      started_at = none;
      completed_at = none;
      created_at = now;
    })
      ∷ []
    else []

pub data OperationAnswer : Type 0 where
  refuse : Refusal → OperationAnswer
  operation : Command → Option Approval → OperationAnswer

abbrev pub approvals_for : ℕ → OperationInput → Command → List Approval
approvals_for now i c = elim c.approval_id [ none ↦ [] | some id ↦ new_approval now i c id ∷ [] ]

abbrev pub approval_for : ℕ → OperationInput → Command → Option Approval
approval_for now i c = elim c.approval_id [ none ↦ none | some id ↦ some (new_approval now i c id) ]

-- `input.idempotencyKey ?? "deployment/action/fresh"`
abbrev pub operation_key : String → OperationInput → Deployment → String
operation_key fresh i d =
    or_else i.idempotency_key
      (String.◌++◌ d.id (String.◌++◌ "/" (String.◌++◌ i.action (String.◌++◌ "/" fresh))))

unfoldable pub queue_operation :
    ℕ → (ℕ → String) → OperationInput → Deployment → String → Store → Store
unfolding new_test_runs new_backups new_restores
queue_operation now fresh i d key s =
    let c = new_command now fresh i d key in
    record s {
      commands = s.commands ++ c ∷ [];
      approvals = s.approvals ++ approvals_for now i c;
      world = record (s.world) {
        test_runs = s.world.test_runs ++ new_test_runs now i d.id;
        backups = s.world.backups ++ new_backups now i d.id s.world;
        restores = s.world.restores ++ new_restores now i d.id c.id;
      };
    }

abbrev pub has_key : String → String → Command → Bool
has_key deployment key c = c.deployment_id === deployment && is_text c.idempotency_key key

unfoldable pub request_control_operation :
    ℕ → (ℕ → String) → OperationInput → Store → Store × OperationAnswer
unfolding queue_operation broken_reference
request_control_operation now fresh i s =
    elim (find_last? (is_deployment_of i) s.world.deployments) [
      | none ↦ (s, refuse deployment_unavailable)
      | some d ↦ elim (broken_reference i d.id s.world) [
        | some r ↦ (s, refuse r)
        | none ↦
            let key = operation_key (fresh 0) i d in
            elim (find? (has_key d.id key) s.commands) [
              | some c ↦ (s, operation c (find? (λ a. a.command_id === c.id) s.approvals))
              | none ↦
                  let c = new_command now fresh i d key in
                  (queue_operation now fresh i d key s, operation c (approval_for now i c))
            ]
      ]
    ]
