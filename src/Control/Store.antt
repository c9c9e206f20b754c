-- ===== src/Control/Store.antt =====
-- What MemoryPlatformRepository (packages/db/memory-repository.mjs) keeps of the control plane,
-- with its field names. A command's target is the supervisor of the Agent `instance_id`.
use bai_rui_cloud_agent_plat.Prelude.{
  Option, String, List, Bool, ℕ, true, any, false, ◌===◌, find?, values,
}
use bai_rui_cloud_agent_plat.Fleet.Store.{Agent, AgentRuntime, Server, Deployment}
use bai_rui_cloud_agent_plat.Json.{Value}

pub data CommandState : Type 0 where
  queued leased accepted running succeeded failed cancelled expired : CommandState

pub data Decision : Type 0 where
  pending approved rejected : Decision

-- The named arguments that the repository reads.
pub record Arguments : Type 0 where
  pub config_revision_id : Option String
  pub backup_id : Option String
  pub backup_policy_id : Option String
  pub restore_id : Option String
  pub release_id : Option String
  pub rollback_release_id : Option String
  pub test_run_id : Option String
  pub suite_id : Option String
  pub probe_ids : List String
  pub candidate_id : Option String
  pub upstream_id : Option String
  pub identity_id : Option String
  pub agent_id : Option String
  pub workspace_ref : Option String

pub record Command : Type 0 where
  pub id : String
  pub organization_id : Option String
  pub deployment_id : String
  pub agent_id : String
  pub idempotency_key : Option String
  pub action : String
  pub instance_id : String
  pub arguments : Arguments
  pub approval_id : Option String
  pub expected_observation_version : ℕ
  pub state : CommandState
  pub priority : ℕ
  pub attempt : ℕ
  pub requested_by : Option String
  pub lease_server_id : Option String
  pub lease_expires_at : Option ℕ
  pub expires_at : ℕ
  pub created_at : ℕ

pub record Approval : Type 0 where
  pub id : String
  pub organization_id : String
  pub command_id : String
  pub action : String
  pub risk_level : String
  pub requested_by : String
  pub decided_by : Option String
  pub decision : Decision
  pub reason : String
  pub expires_at : ℕ
  pub decided_at : Option ℕ
  pub created_at : ℕ

pub record ProviderChoice : Type 0 where
  pub provider : String
  pub base_url : String
  pub model : String

pub record OwnerChange : Type 0 where
  pub scope : String
  pub generation : ℕ

pub record ConfigDocument : Type 0 where
  pub agent_id : String
  pub agent_name : String
  pub soul_markdown : String
  pub runtime_kind : String
  pub workspace_ref : String
  pub provider : ProviderChoice
  pub owner_change : Option OwnerChange
  pub disabled : List String

pub record ConfigRevision : Type 0 where
  pub id : String
  pub organization_id : String
  pub agent_id : String
  pub revision : ℕ
  pub config_document : ConfigDocument
  pub secret_envelope : Value
  pub content_hash : String
  pub status : String
  pub created_by : String
  pub created_at : ℕ

pub record Compatibility : Type 0 where
  pub hermes_image : Option String
  pub runtime_image : Option String

pub record ReleaseManifest : Type 0 where
  pub id : String
  pub release_id : Option String
  pub version : String
  pub agent_commit : String
  pub image_digest : String
  pub sbom_uri : String
  pub provenance_uri : String
  pub signature : String
  pub migration_version : Option String
  pub compatibility : Compatibility
  pub status : String
  pub created_by : String
  pub created_at : ℕ

pub record TestRun : Type 0 where
  pub id : String
  pub deployment_id : String
  pub suite_id : String
  pub test_type : String
  pub status : String
  pub started_at : Option ℕ
  pub completed_at : Option ℕ
  pub created_at : ℕ

pub record Backup : Type 0 where
  pub id : String
  pub deployment_id : String
  pub policy_id : Option String
  pub backup_type : String
  pub status : String
  pub encrypted : Bool
  pub storage_uri : Option String
  pub sha256 : Option String
  pub size_bytes : Option ℕ
  pub verified_at : Option ℕ
  pub expired_at : Option ℕ
  pub created_at : ℕ
  pub expires_at : ℕ

pub record Restore : Type 0 where
  pub id : Option String
  pub backup_id : Option String
  pub deployment_id : String
  pub command_id : String
  pub status : String
  pub requested_by : String
  pub reason : Option String
  pub evidence_refs : List String
  pub error_code : Option String
  pub error_summary : Option String
  pub started_at : Option ℕ
  pub completed_at : Option ℕ
  pub created_at : ℕ

pub record Candidate : Type 0 where
  pub id : String
  pub upstream_id : String
  pub status : String

pub record RuntimeCredential : Type 0 where
  pub id : String
  pub organization_id : String
  pub user_id : String
  pub agent_id : String
  pub runtime_id : String
  pub key_hash : String
  pub key_hint : String
  pub status : String
  pub created_by : String
  pub created_at : ℕ

pub record SkillPreference : Type 0 where
  pub agent_id : String
  pub skill_id : String
  pub enabled : Bool
  pub apply_status : String
  pub last_error_code : Option String
  pub updated_at : ℕ

pub record ProviderConfiguration : Type 0 where
  pub choice : ProviderChoice
  pub apply_status : String

pub record ProviderChannel : Type 0 where
  pub id : String
  pub organization_id : String
  pub choice : ProviderChoice
  pub status : String
  pub last_error_code : Option String
  pub updated_at : ℕ

pub record ReceiptInput : Type 0 where
  pub command_id : String
  pub server_id : String
  pub attempt : ℕ
  pub state : CommandState
  pub error_code : Option String
  pub error_summary : Option String
  pub runtime_endpoint_ref : Option String
  pub evidence_refs : Option (List String)
  pub result_bytes : Option ℕ

pub record Receipt : Type 0 where
  pub id : String
  pub input : ReceiptInput
  pub deployment_id : String
  pub created_at : ℕ

-- What the receipts of commands change.
pub record World : Type 0 where
  pub agents : List (String × Agent)
  pub runtimes : List (String × AgentRuntime)
  pub servers : List Server
  pub deployments : List Deployment
  pub revisions : List ConfigRevision
  pub credentials : List RuntimeCredential
  pub preferences : List SkillPreference
  pub provider_configurations : List (String × ProviderConfiguration)
  pub provider_channels : List ProviderChannel
  pub manifests : List ReleaseManifest
  pub test_runs : List TestRun
  pub backups : List Backup
  pub restores : List Restore
  pub candidates : List Candidate
  -- `backupDays` of each organization's retention policy
  pub backup_days : List (String × ℕ)

pub record Store : Type 0 where
  pub commands : List Command
  pub approvals : List Approval
  pub receipts : List Receipt
  pub world : World

abbrev pub is_queued : CommandState → Bool
is_queued queued = true
is_queued _ = false

-- `["leased", "accepted", "running"].includes(state)`
abbrev pub is_held : CommandState → Bool
is_held leased = true
is_held accepted = true
is_held running = true
is_held _ = false

abbrev pub is_succeeded : CommandState → Bool
is_succeeded succeeded = true
is_succeeded _ = false

abbrev pub is_failed : CommandState → Bool
is_failed failed = true
is_failed _ = false

abbrev pub is_running : CommandState → Bool
is_running running = true
is_running _ = false

abbrev pub is_cancelled : CommandState → Bool
is_cancelled cancelled = true
is_cancelled _ = false

abbrev pub same_state : CommandState → CommandState → Bool
same_state queued queued = true
same_state leased leased = true
same_state accepted accepted = true
same_state running running = true
same_state succeeded succeeded = true
same_state failed failed = true
same_state cancelled cancelled = true
same_state expired expired = true
same_state _ _ = false

abbrev pub is_approved_decision : Decision → Bool
is_approved_decision approved = true
is_approved_decision _ = false

-- `list.includes(action)`
abbrev pub is_one_of : List String → String → Bool
is_one_of names s = any (λ n. n === s) names

-- The Runtime of an Agent: `[...values()].find((item) => item.agentId === agentId)`.
abbrev pub runtime_of : String → World → Option AgentRuntime
runtime_of agent s = find? (λ r. r.agent_id === agent) (values s.runtimes)
