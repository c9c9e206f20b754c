-- ===== src/Control/Lifecycle.antt =====
-- requestAgentLifecycle of packages/db/memory-repository.mjs. Its `updatedAt` is set to the same
-- time in each branch that queues a command.
pub mod Single
use bai_rui_cloud_agent_plat.Prelude.{
  Bool, Option, String, [], false, find_last?, if◌then◌else◌, lookup, none, not, or_else, remove,
  some, true, update_key, update_value, ℕ, ◌&&◌, ◌*◌, ◌++◌, ◌+◌, ◌===◌, ◌||◌, ◌∷◌,
}
use bai_rui_cloud_agent_plat.Control.Store.{
  approved, queued, is_one_of, Command, Arguments, Store, is_queued, Approval, runtime_of, is_held,
}
use bai_rui_cloud_agent_plat.Fleet.Store.{Agent, AgentRuntime}

pub data LifecycleRequest : Type 0 where
  pause resume delete : LifecycleRequest

pub record LifecycleInput : Type 0 where
  pub agent_id : String
  -- `none` is a request that has no action
  pub request : Option LifecycleRequest
  pub requested_by : String
  pub reason : Option String

abbrev pub action_of : LifecycleRequest → String
action_of pause = "deployment.suspend"
action_of resume = "deployment.resume"
action_of delete = "deployment.delete"

abbrev pub is_lifecycle_action : String → Bool
is_lifecycle_action action =
    is_one_of
      ("deployment.start" ∷ "deployment.stop" ∷ "deployment.suspend" ∷ "deployment.resume"
        ∷ "deployment.delete" ∷ [])
      action

-- A lifecycle command of the deployment that is not over.
abbrev pub is_in_progress : String → Command → Bool
is_in_progress deployment c =
    c.deployment_id === deployment
    && is_lifecycle_action c.action
    && (is_queued c.state || is_held c.state)

pub data LifecycleAnswer : Type 0 where
  unsupported : LifecycleAnswer
  no_agent : LifecycleAnswer
  not_initialized : LifecycleAnswer
  not_suspended : LifecycleAnswer
  lifecycle_in_progress : LifecycleAnswer
  -- the Agent is removed at once
  removed : LifecycleAnswer
  -- nothing is left to do
  already_suspended : LifecycleAnswer
  -- the command in progress, which was asked for before
  running_already : Command → LifecycleAnswer
  requested : Command → LifecycleAnswer

abbrev pub no_arguments : Arguments
no_arguments = record {
  config_revision_id = none;
  backup_id = none;
  backup_policy_id = none;
  restore_id = none;
  release_id = none;
  rollback_release_id = none;
  test_run_id = none;
  suite_id = none;
  probe_ids = [];
  candidate_id = none;
  upstream_id = none;
  identity_id = none;
  agent_id = none;
  workspace_ref = none;
}

abbrev pub is_delete : LifecycleRequest → Bool
is_delete delete = true
is_delete _ = false

abbrev pub is_pause : LifecycleRequest → Bool
is_pause pause = true
is_pause _ = false

abbrev pub is_resume : LifecycleRequest → Bool
is_resume resume = true
is_resume _ = false

abbrev pub lifecycle_command : ℕ → (ℕ → String) → Agent → String → LifecycleRequest → Command
lifecycle_command now fresh a deployment q = record {
  id = fresh 1;
  organization_id = none;
  deployment_id = deployment;
  agent_id = a.id;
  idempotency_key = none;
  action = action_of q;
  instance_id = a.id;
  arguments = record no_arguments { agent_id = some a.id };
  approval_id = if is_delete q then some (fresh 0) else none;
  expected_observation_version = 0;
  state = queued;
  priority = 100;
  attempt = 0;
  requested_by = none;
  lease_server_id = none;
  lease_expires_at = none;
  expires_at = now + 15 * 60000;
  created_at = now;
}

-- The owner's own approval of a deletion.
abbrev pub deletion_approval : ℕ → LifecycleInput → Agent → Command → String → Approval
deletion_approval now i a c id = record {
  id = id;
  organization_id = a.organization_id;
  command_id = c.id;
  action = c.action;
  risk_level = "high";
  requested_by = i.requested_by;
  decided_by = some i.requested_by;
  decision = approved;
  reason = or_else i.reason "Agent owner confirmed deletion";
  expires_at = c.expires_at;
  decided_at = some now;
  created_at = now;
}

abbrev pub desired_state : LifecycleRequest → String
desired_state pause = "suspended"
desired_state resume = "running"
desired_state delete = "deleted"

abbrev pub write_desired : ℕ → LifecycleRequest → Agent → Agent
write_desired now q a = record a {
  desired_runtime_state = desired_state q;
  initialization_status = if is_delete q then "deleting" else a.initialization_status;
  updated_at = now;
}

abbrev pub write_deleting : LifecycleRequest → AgentRuntime → AgentRuntime
write_deleting q r = record r { status = if is_delete q then "deleting" else r.status }

unfoldable pub queue_lifecycle :
    ℕ
    → (ℕ → String)
    → LifecycleInput
    → Agent
    → AgentRuntime
    → String
    → LifecycleRequest
    → Store
    → Store
queue_lifecycle now fresh i a r deployment q s =
    let c = lifecycle_command now fresh a deployment q in
    record s {
      commands = s.commands ++ c ∷ [];
      approvals =
          if is_delete q
          then s.approvals ++ deletion_approval now i a c (fresh 0) ∷ []
          else s.approvals;
      world = record (s.world) {
        agents = update_key i.agent_id (write_desired now q) s.world.agents;
        runtimes =
            update_value (λ x. x.agent_id === i.agent_id) (write_deleting q) s.world.runtimes;
      };
    }

-- An Agent that was never deployed is removed; nothing else can be asked of it.
abbrev pub remove_agent : Agent → AgentRuntime → Store → Store
remove_agent a r s = record s {
  world = record (s.world) {
    agents = remove a.id s.world.agents;
    runtimes = remove r.id s.world.runtimes;
  };
}

-- The request for an Agent with a deployment.
unfoldable pub request_deployed :
    ℕ
    → (ℕ → String)
    → LifecycleInput
    → Agent
    → AgentRuntime
    → String
    → LifecycleRequest
    → Store
    → Store × LifecycleAnswer
unfolding queue_lifecycle
request_deployed now fresh i a r deployment q s =
    if is_pause q && r.status === "suspended"
    then (s, already_suspended)
    else if is_resume q && not (r.status === "suspended")
    then (s, not_suspended)
    else elim (find_last? (is_in_progress deployment) s.commands) [
      | some c ↦ (s, if c.action === action_of q then running_already c else lifecycle_in_progress)
      | none ↦ (
        queue_lifecycle now fresh i a r deployment q s,
        requested (lifecycle_command now fresh a deployment q),
      )
    ]

unfoldable pub request_agent_lifecycle :
    ℕ → (ℕ → String) → LifecycleInput → Store → Store × LifecycleAnswer
unfolding request_deployed
request_agent_lifecycle now fresh i s = elim i.request [
  | none ↦ (s, unsupported)
  | some q ↦ elim (lookup i.agent_id s.world.agents) [
    | none ↦ (s, no_agent)
    | some a ↦ elim (runtime_of i.agent_id s.world) [
      | none ↦ (s, no_agent)
      | some r ↦ elim r.deployment_id [
        | none ↦ if is_delete q then (remove_agent a r s, removed) else (s, not_initialized)
        | some d ↦ request_deployed now fresh i a r d q s
      ]
    ]
  ]
]
