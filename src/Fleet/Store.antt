-- ===== src/Fleet/Store.antt =====
-- What MemoryPlatformRepository (packages/db/memory-repository.mjs) keeps of Agents, Runtimes,
-- servers, alerts and telemetry, with its field names. A `Map` is a table by its key.
use bai_rui_cloud_agent_plat.Prelude.{ℕ, String, Option, List, Bool, true, false}
use bai_rui_cloud_agent_plat.Json.{Value}

pub record Agent : Type 0 where
  pub id : String
  pub organization_id : String
  pub owner_user_id : String
  pub name : String
  pub description : String
  pub avatar_url : Option String
  pub soul_markdown : String
  pub status : String
  pub initialization_status : String
  pub desired_runtime_state : String
  pub settings : Value
  pub last_error_code : Option String
  pub last_error_detail : Option String
  pub created_at : ℕ
  pub updated_at : ℕ

pub record AgentRuntime : Type 0 where
  pub id : String
  pub organization_id : String
  pub owner_user_id : String
  pub agent_id : String
  pub deployment_id : Option String
  pub workspace_ref : String
  pub runtime_kind : String
  pub status : String
  pub endpoint_ref : Option String
  pub hermes_version : Option String
  pub boundary_version : Option String
  pub config_revision_id : Option String
  pub last_heartbeat_at : Option ℕ
  pub last_error_code : Option String
  pub last_error_detail : Option String
  pub created_at : ℕ
  pub updated_at : ℕ

pub record Server : Type 0 where
  pub id : String
  pub organization_id : String
  pub name : String
  pub status : String
  pub runtime_version : Option String
  pub last_seen_at : Option ℕ
  pub created_at : ℕ

pub record Deployment : Type 0 where
  pub id : String
  pub organization_id : String
  pub agent_id : String
  pub server_id : Option String
  pub name : Option String
  pub environment : String
  pub status : String
  pub observed_state_version : ℕ
  pub desired_state_version : ℕ
  pub created_at : ℕ

pub data AlertStatus : Type 0 where
  open_alert acknowledged resolved closed : AlertStatus

-- `["open", "acknowledged"].includes(status)`
abbrev pub is_active : AlertStatus → Bool
is_active open_alert = true
is_active acknowledged = true
is_active _ = false

-- A share of something, exactly: `used / limit`.
pub record Ratio : Type 0 where
  pub used : ℕ
  pub limit : ℕ

-- The summary's text, by what it shows.
pub data Summary : Type 0 where
  reported_status : String → Summary
  usage : Ratio → ℕ → Summary
  silent_for : ℕ → Summary

pub record Alert : Type 0 where
  pub id : String
  pub organization_id : String
  pub agent_id : String
  pub runtime_id : String
  pub code : String
  pub status : AlertStatus
  pub severity : String
  pub title : String
  pub summary : Summary
  pub first_seen_at : ℕ
  pub last_seen_at : ℕ
  pub created_at : ℕ
  pub acknowledged_by : Option String
  pub resolved_at : Option ℕ

pub record Component : Type 0 where
  pub module_id : String
  pub details : Value

pub record TelemetryInput : Type 0 where
  pub occurred_at : Option ℕ
  pub details : Value

pub record UsageInput : Type 0 where
  pub bucket_start : Option ℕ
  pub details : Value
  pub input_tokens : Option ℕ
  pub output_tokens : Option ℕ
  pub estimated_cost_usd : Option ℕ
  pub run_count : Option ℕ
  pub failed_run_count : Option ℕ
  pub latency_sum_ms : Option ℕ

pub record HeartbeatInput : Type 0 where
  pub id : Option String
  pub organization_id : String
  pub user_id : String
  pub agent_id : String
  pub runtime_id : String
  pub sequence : ℕ
  pub status : String
  pub runtime_version : Option String
  pub boundary_version : Option String
  pub config_revision_id : Option String
  pub observed_at : ℕ
  pub components : List Component
  pub events : List TelemetryInput
  pub usage : Option UsageInput

pub record Heartbeat : Type 0 where
  pub id : String
  pub beat : HeartbeatInput
  pub received_at : ℕ

pub record AgentComponent : Type 0 where
  pub id : String
  pub organization_id : String
  pub agent_id : String
  pub runtime_id : String
  pub component : Component
  pub updated_at : ℕ

pub record TelemetryEvent : Type 0 where
  pub id : String
  pub organization_id : String
  pub user_id : String
  pub agent_id : String
  pub runtime_id : String
  pub event : TelemetryInput
  pub received_at : ℕ

pub record UsageRollup : Type 0 where
  pub organization_id : String
  pub user_id : String
  pub agent_id : String
  pub runtime_id : String
  pub rollup : UsageInput

pub record SampleInput : Type 0 where
  pub deployment_id : String
  pub agent_id : String
  pub runtime_id : String
  pub sequence : ℕ
  pub cpu_percent : Option ℕ
  pub cpu_count : Option ℕ
  pub memory_used_bytes : ℕ
  pub memory_limit_bytes : ℕ
  pub host_storage_used_bytes : ℕ
  pub host_storage_limit_bytes : ℕ
  pub observed_at : ℕ

pub record ResourceSample : Type 0 where
  pub id : String
  pub organization_id : String
  pub user_id : String
  pub server_id : String
  pub environment : String
  pub sample : SampleInput
  pub received_at : ℕ

pub record Store : Type 0 where
  pub agents : List (String × Agent)
  pub runtimes : List (String × AgentRuntime)
  pub servers : List Server
  pub deployments : List Deployment
  pub alerts : List Alert
  pub heartbeats : List Heartbeat
  pub components : List (String × AgentComponent)
  pub telemetry : List TelemetryEvent
  pub usage_rollups : List UsageRollup
  pub samples : List ResourceSample
