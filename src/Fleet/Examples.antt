-- ===== src/Fleet/Examples.antt =====
-- Heartbeats and alerts on a small store (packages/db/memory-repository.mjs).
use bai_rui_cloud_agent_plat.Json.{Value}
use bai_rui_cloud_agent_plat.Prelude.{
  List, String, [], arith, map, none, refl, some, suc, zero, ℕ, ◌∷◌, ◌≡◌,
}
use bai_rui_cloud_agent_plat.Fleet.Store.{acknowledged, Agent, AgentRuntime, Store, HeartbeatInput}
use bai_rui_cloud_agent_plat.Fleet.Requests.{
  check_offline, save_heartbeat, set_status, AlertRequest, run_requests, any_reopens,
}
use bai_rui_cloud_agent_plat.Fleet.Alerts.Once.{IsOnce}
use bai_rui_cloud_agent_plat.Fleet.Requests.Single.{run_requests-IsOnce}

abbrev an_agent : Agent
an_agent = record {
  id = "a1";
  organization_id = "org";
  owner_user_id = "u1";
  name = "Ada";
  description = "";
  avatar_url = none;
  soul_markdown = "";
  status = "active";
  initialization_status = "ready";
  desired_runtime_state = "running";
  settings = Value.null;
  last_error_code = none;
  last_error_detail = none;
  created_at = 0;
  updated_at = 0;
}

abbrev a_runtime : AgentRuntime
a_runtime = record {
  id = "r1";
  organization_id = "org";
  owner_user_id = "u1";
  agent_id = "a1";
  deployment_id = some "d1";
  workspace_ref = "w1";
  runtime_kind = "hermes";
  status = "ready";
  endpoint_ref = none;
  hermes_version = none;
  boundary_version = none;
  config_revision_id = none;
  last_heartbeat_at = none;
  last_error_code = none;
  last_error_detail = none;
  created_at = 0;
  updated_at = 0;
}

abbrev a_store : Store
a_store = record {
  agents = ("a1", an_agent) ∷ [];
  runtimes = ("r1", a_runtime) ∷ [];
  servers = [];
  deployments = [];
  alerts = [];
  heartbeats = [];
  components = [];
  telemetry = [];
  usage_rollups = [];
  samples = [];
}

abbrev a_beat : HeartbeatInput
a_beat = record {
  id = none;
  organization_id = "org";
  user_id = "u1";
  agent_id = "a1";
  runtime_id = "r1";
  sequence = 1;
  status = "degraded";
  runtime_version = none;
  boundary_version = none;
  config_revision_id = none;
  observed_at = 500;
  components = [];
  events = [];
  usage = none;
}

abbrev names : ℕ → String
names zero = "n0"
names (suc n) = "n1"

-- A degraded Runtime, found silent later, and then healthy again.
abbrev some_requests : List AlertRequest
some_requests =
    save_heartbeat 600 names names a_beat
    ∷ check_offline 900000 names (record { organization_id = none; stale_after_ms = none })
    ∷ set_status 900001 (record { alert_id = "n1"; status = acknowledged; actor_user_id = "u2" })
    ∷ save_heartbeat 900002 names names (record a_beat { sequence = 2; status = "healthy" })
    ∷ []

two_alerts :
    map (λ a. a.code) (run_requests some_requests a_store).alerts
    ≡ "runtime.health" ∷ "runtime.offline" ∷ []
unfolding run_requests
two_alerts = refl

run_requests-IsOnce_example : IsOnce (run_requests some_requests a_store).alerts
unfolding run_requests any_reopens
run_requests-IsOnce_example =
    run_requests-IsOnce some_requests a_store refl (λ agent code. omega arith)
