-- ===== src/Fleet/Heartbeats.antt =====
-- saveAgentHeartbeat and saveAgentResourceSamples of packages/db/memory-repository.mjs.
pub mod Health
use Prim.Native.String
use bai_rui_cloud_agent_plat.Prelude.{
  ℕ, suc, String, Option, none, some, List, [], ◌∷◌, ◌++◌, Bool, false, ◌&&◌, ◌||◌, ◌==◌, ◌===◌,
  if◌then◌else◌, or_else, or_option, any, update_where, lookup, put, update_key,
}
use bai_rui_cloud_agent_plat.Fleet.Store.{
  Agent, AgentRuntime, Alert, open_alert, is_active, reported_status, Component, TelemetryInput,
  UsageInput, HeartbeatInput, Heartbeat, AgentComponent, TelemetryEvent, UsageRollup, Store, usage,
}
use bai_rui_cloud_agent_plat.Fleet.Alerts.{is_alert_of, resolve, raise}

abbrev pub runtime_status : String → String
runtime_status status =
    if status === "healthy"
    then "ready"
    else if status === "unhealthy"
    then "failed"
    else "degraded"

abbrev pub write_runtime : ℕ → HeartbeatInput → AgentRuntime → AgentRuntime
write_runtime now i r = record r {
  status = runtime_status i.status;
  hermes_version = or_option i.runtime_version r.hermes_version;
  boundary_version = or_option i.boundary_version r.boundary_version;
  config_revision_id = or_option i.config_revision_id r.config_revision_id;
  last_heartbeat_at = some i.observed_at;
  updated_at = now;
}

abbrev pub write_agent : ℕ → HeartbeatInput → Agent → Agent
write_agent now i a = record a {
  status = if i.status === "healthy" then "active" else runtime_status i.status;
  initialization_status = runtime_status i.status;
  updated_at = now;
}

abbrev pub write_health : HeartbeatInput → Alert → Alert
write_health i a = record a {
  severity = if i.status === "unhealthy" then "critical" else "medium";
  title = if i.status === "unhealthy" then "Agent Runtime 不健康" else "Agent Runtime 降级";
  summary = reported_status i.status;
  last_seen_at = i.observed_at;
}

abbrev pub health_alert : ℕ → String → HeartbeatInput → Alert
health_alert now fresh i = record {
  id = fresh;
  organization_id = i.organization_id;
  agent_id = i.agent_id;
  runtime_id = i.runtime_id;
  code = "runtime.health";
  status = open_alert;
  severity = "";
  title = "";
  summary = reported_status i.status;
  first_seen_at = i.observed_at;
  last_seen_at = i.observed_at;
  created_at = now;
  acknowledged_by = none;
  resolved_at = none;
}

-- The alerts that a healthy Runtime ends.
abbrev pub ends_when_healthy : String → Alert → Bool
ends_when_healthy agent a =
    a.agent_id === agent
    && (a.code === "runtime.health" || a.code === "runtime.offline")
    && is_active a.status

unfoldable pub health_alerts : ℕ → String → HeartbeatInput → List Alert → List Alert
unfolding raise
health_alerts now fresh i alerts =
    if i.status === "degraded" || i.status === "unhealthy"
    then raise (is_alert_of i.agent_id "runtime.health") (write_health i) (health_alert now fresh i)
        alerts
    else if i.status === "healthy"
    then update_where (ends_when_healthy i.agent_id) (resolve now) alerts
    else alerts

abbrev pub component_key : String → Component → String
component_key runtime c = String.◌++◌ runtime (String.◌++◌ ":" c.module_id)

abbrev pub component_id : String → Option AgentComponent → String
component_id fresh none = fresh
component_id fresh (some c) = c.id

unfoldable pub save_components :
    ℕ
    → (ℕ → String)
    → ℕ
    → HeartbeatInput
    → List Component
    → List (String × AgentComponent)
    → List (String × AgentComponent)
save_components now fresh n i [] table = table
save_components now fresh n i (c ∷ cs) table =
    let key = component_key i.runtime_id c in
    save_components now fresh (suc n) i cs (
      put key
        (record {
          id = component_id (fresh n) (lookup key table);
          organization_id = i.organization_id;
          agent_id = i.agent_id;
          runtime_id = i.runtime_id;
          component = c;
          updated_at = now;
        })
        table)

unfoldable pub new_events :
    ℕ → (ℕ → String) → ℕ → HeartbeatInput → List TelemetryInput → List TelemetryEvent
new_events now fresh n i [] = []
new_events now fresh n i (e ∷ es) =
    (record {
      id = fresh n;
      organization_id = i.organization_id;
      user_id = i.user_id;
      agent_id = i.agent_id;
      runtime_id = i.runtime_id;
      event = e;
      received_at = now;
    })
    ∷ new_events now fresh (suc n) i es

-- `Number(count) || 0` for each count.
unfoldable pub new_rollup : HeartbeatInput → Option UsageInput → List UsageRollup
new_rollup i none = []
new_rollup i (some u) =
    (record {
      organization_id = i.organization_id;
      user_id = i.user_id;
      agent_id = i.agent_id;
      runtime_id = i.runtime_id;
      rollup = record u {
        input_tokens = some (or_else u.input_tokens 0);
        output_tokens = some (or_else u.output_tokens 0);
        estimated_cost_usd = some (or_else u.estimated_cost_usd 0);
        run_count = some (or_else u.run_count 0);
        failed_run_count = some (or_else u.failed_run_count 0);
        latency_sum_ms = some (or_else u.latency_sum_ms 0);
      };
    })
    ∷ []

abbrev pub same_beat : HeartbeatInput → Heartbeat → Bool
same_beat i h = h.beat.runtime_id === i.runtime_id && h.beat.sequence == i.sequence

abbrev pub new_heartbeat : ℕ → String → HeartbeatInput → Heartbeat
new_heartbeat now fresh i = record { id = or_else i.id fresh; beat = i; received_at = now }

unfoldable pub add_heartbeat : ℕ → String → HeartbeatInput → List Heartbeat → List Heartbeat
add_heartbeat now fresh i beats =
    if any (same_beat i) beats then beats else beats ++ new_heartbeat now fresh i ∷ []

-- The writes once the Runtime is known to be the Agent's. `fresh` draws the identifiers: 0 for the
-- heartbeat, 1 for an alert, from 2 on for components, and `fresh_event` those of the events.
unfoldable pub record_heartbeat : ℕ → (ℕ → String) → (ℕ → String) → HeartbeatInput → Store → Store
unfolding add_heartbeat health_alerts save_components new_events new_rollup
record_heartbeat now fresh fresh_event i s = record s {
  heartbeats = add_heartbeat now (fresh 0) i s.heartbeats;
  runtimes = update_key i.runtime_id (write_runtime now i) s.runtimes;
  agents = update_key i.agent_id (write_agent now i) s.agents;
  alerts = health_alerts now (fresh 1) i s.alerts;
  components = save_components now fresh 2 i i.components s.components;
  telemetry = s.telemetry ++ new_events now fresh_event 0 i i.events;
  usage_rollups = s.usage_rollups ++ new_rollup i i.usage;
}

-- `runtime && agent && runtime.agentId === agent.id`
abbrev pub is_pair : Option AgentRuntime → Option Agent → Bool
is_pair (some r) (some a) = r.agent_id === a.id
is_pair _ _ = false

unfoldable pub save_agent_heartbeat :
    ℕ → (ℕ → String) → (ℕ → String) → HeartbeatInput → Store → Store × Option Heartbeat
unfolding record_heartbeat
save_agent_heartbeat now fresh fresh_event i s =
    if is_pair (lookup i.runtime_id s.runtimes) (lookup i.agent_id s.agents)
    then (record_heartbeat now fresh fresh_event i s, some (new_heartbeat now (fresh 0) i))
    else (s, none)
