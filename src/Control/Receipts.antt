-- ===== src/Control/Receipts.antt =====
-- recordCommandReceipt of packages/db/memory-repository.mjs: one function for each of its blocks,
-- composed in the order of the source.

use bai_rui_cloud_agent_plat.Prelude.{
  Bool, List, Option, String, [], false, find?, is_text, lookup, none, not, some, true, update_key,
  update_value, update_where, ℕ, ◌&&◌, ◌===◌, ◌∷◌, update_first, if◌then◌else◌,
}
use bai_rui_cloud_agent_plat.Control.Store.{
  World, Command, SkillPreference, ConfigRevision, ReceiptInput, runtime_of, is_one_of,
  is_succeeded, is_failed,
}
use bai_rui_cloud_agent_plat.Fleet.Store.{AgentRuntime, Agent, Deployment}

-- What there is after the blocks so far, or as it was when one threw: `Object.assign` of `undefined`.
pub data Outcome : Type 0 where
  done : World → Outcome
  thrown : World → Outcome

abbrev pub and_then : Outcome → (World → Outcome) → Outcome
and_then (done s) f = f s
and_then (thrown s) f = thrown s

abbrev pub world_of : Outcome → World
world_of (done s) = s
world_of (thrown s) = s

abbrev pub is_thrown : Outcome → Bool
is_thrown (done s) = false
is_thrown (thrown s) = true

-- The command's deployment.
abbrev pub deployment_of : Command → World → Option Deployment
deployment_of c s = find? (λ d. d.id === c.deployment_id) s.deployments

abbrev pub write_deployment : Command → String → World → World
write_deployment c status s = record s {
  deployments =
      update_first (λ d. d.id === c.deployment_id)
        (λ (d : Deployment). record d { status = status }) s.deployments;
}

abbrev pub write_runtime_of : String → (AgentRuntime → AgentRuntime) → World → World
write_runtime_of agent write s = record s {
  runtimes = update_value (λ r. r.agent_id === agent) write s.runtimes;
}

abbrev pub write_agent_of : String → (Agent → Agent) → World → World
write_agent_of agent write s = record s { agents = update_key agent write s.agents }

-- The deployment's Runtime and its Agent are written; the code throws where one of them is missing.
unfoldable pub write_pair :
    Command → (AgentRuntime → AgentRuntime) → (Agent → Agent) → World → Outcome
write_pair c on_runtime on_agent s = elim (deployment_of c s) [
  | none ↦ thrown s
  | some d ↦ elim (runtime_of d.agent_id s) [
    | none ↦ thrown s
    | some _ ↦
        let t = write_runtime_of d.agent_id on_runtime s in
        elim (lookup d.agent_id s.agents) [
          | none ↦ thrown t
          | some _ ↦ done (write_agent_of d.agent_id on_agent t)
        ]
  ]
]

abbrev pub config_of : Command → World → Option ConfigRevision
config_of c s = find? (λ r. is_text c.arguments.config_revision_id r.id) s.revisions

abbrev pub write_config : Command → String → World → World
write_config c status s = record s {
  revisions =
      update_first (λ r. is_text c.arguments.config_revision_id r.id)
        (λ (r : ConfigRevision). record r { status = status }) s.revisions;
}

abbrev pub same_bool : Bool → Bool → Bool
same_bool true b = b
same_bool false b = not b

-- A preference of the Agent that is as the configuration has it.
abbrev pub matches_config : String → List String → SkillPreference → Bool
matches_config agent disabled p =
    p.agent_id === agent && same_bool p.enabled (not (is_one_of disabled p.skill_id))

abbrev pub apply_preference : ℕ → String → Option String → SkillPreference → SkillPreference
apply_preference now status error p = record p {
  apply_status = status;
  last_error_code = error;
  updated_at = now;
}

abbrev pub disabled_of : Option ConfigRevision → List String
disabled_of none = []
disabled_of (some r) = r.config_document.disabled

-- A provisioned deployment starts.
unfoldable pub provisioned : ℕ → ReceiptInput → Command → World → Outcome
provisioned now i c s = elim (deployment_of c s) [
  | none ↦ thrown s
  | some d ↦ elim (runtime_of d.agent_id s) [
    | none ↦ thrown s
    | some _ ↦
        let started =
          write_runtime_of d.agent_id
            (λ (r : AgentRuntime). record r {
              endpoint_ref = i.runtime_endpoint_ref;
              status = "starting";
              updated_at = now;
            })
            s in
        let applied = write_config c "applied" (write_deployment c "active" started) in
        done (record applied {
          preferences =
              update_where (matches_config d.agent_id (disabled_of (config_of c s)))
                (apply_preference now "applied" none) applied.preferences;
        })
  ]
]

unfoldable pub started : ℕ → Command → World → Outcome
unfolding write_pair
started now c s =
    write_pair c
      (λ (r : AgentRuntime). record r {
        status = "starting";
        last_error_code = none;
        last_error_detail = none;
        updated_at = now;
      })
      (λ (a : Agent). record a {
        status = "starting";
        desired_runtime_state = "running";
        last_error_code = none;
        last_error_detail = none;
        updated_at = now;
      })
      s

unfoldable pub suspended : ℕ → Command → World → Outcome
unfolding write_pair
suspended now c s =
    write_pair c (λ (r : AgentRuntime). record r { status = "suspended"; updated_at = now })
      (λ (a : Agent). record a {
        status = "suspended";
        desired_runtime_state = "suspended";
        updated_at = now;
      })
      s

unfoldable pub deleted : ℕ → Command → World → Outcome
unfolding write_pair
deleted now c s =
    and_then
      (write_pair c
        (λ (r : AgentRuntime). record r {
          status = "deleted";
          endpoint_ref = none;
          updated_at = now;
        })
        (λ (a : Agent). record a {
          status = "deleted";
          desired_runtime_state = "deleted";
          updated_at = now;
        })
        s)
      (λ t. done (write_deployment c "revoked" t))

unfoldable pub provision_failed : ReceiptInput → Command → World → Outcome
unfolding write_pair
provision_failed i c s =
    and_then
      (write_pair c
        (λ (r : AgentRuntime). record r {
          status = "failed";
          last_error_code = i.error_code;
          last_error_detail = i.error_summary;
        })
        (λ (a : Agent). record a {
          status = "failed";
          initialization_status = "failed";
          last_error_code = i.error_code;
          last_error_detail = i.error_summary;
        })
        s)
      (λ t. done (write_deployment c "degraded" t))

unfoldable pub operation_failed : ℕ → ReceiptInput → Command → World → Outcome
unfolding write_pair
operation_failed now i c s =
    let deleting = c.action === "deployment.delete" in
    and_then
      (write_pair c
        (λ (r : AgentRuntime). record r {
          status = if deleting then "degraded" else r.status;
          last_error_code = i.error_code;
          last_error_detail = i.error_summary;
          updated_at = now;
        })
        (λ (a : Agent). record a {
          status = "degraded";
          initialization_status = if deleting then "failed" else a.initialization_status;
          last_error_code = i.error_code;
          last_error_detail = i.error_summary;
          updated_at = now;
        })
        s)
      (λ t. done (write_deployment c "degraded" t))

abbrev pub failing_actions : List String
failing_actions =
    "deployment.start" ∷ "deployment.stop" ∷ "deployment.suspend" ∷ "deployment.resume"
    ∷ "deployment.delete" ∷ "config.apply" ∷ "release.apply" ∷ "release.rollback"
    ∷ "service.restart" ∷ "credential.revoke" ∷ []

-- The six blocks on the deployment, its Runtime and its Agent; at most one of their tests holds.
unfoldable pub deployment_effects : ℕ → ReceiptInput → Command → World → Outcome
unfolding provisioned started suspended deleted provision_failed operation_failed
deployment_effects now i c s =
    if is_succeeded i.state && c.action === "deployment.provision"
    then provisioned now i c s
    else if is_succeeded i.state
        && is_one_of ("deployment.start" ∷ "deployment.resume" ∷ []) c.action
    then started now c s
    else if is_succeeded i.state && c.action === "deployment.suspend"
    then suspended now c s
    else if is_succeeded i.state && c.action === "deployment.delete"
    then deleted now c s
    else if is_failed i.state && c.action === "deployment.provision"
    then provision_failed i c s
    else if is_failed i.state && is_one_of failing_actions c.action
    then operation_failed now i c s
    else done s
