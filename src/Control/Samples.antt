-- ===== src/Control/Samples.antt =====
-- A small control plane for the tests (packages/db/memory-repository.mjs).
use bai_rui_cloud_agent_plat.Control.Store.{
  queued, pending, ProviderChoice, ConfigDocument, ConfigRevision, Command, Approval, World,
}
use bai_rui_cloud_agent_plat.Json.{Value}
use bai_rui_cloud_agent_plat.Prelude.{[], none, some, ◌∷◌}
use bai_rui_cloud_agent_plat.Control.Lifecycle.{no_arguments}
use bai_rui_cloud_agent_plat.Fleet.Store.{Agent, AgentRuntime, Deployment, Server}

abbrev pub an_agent : Agent
an_agent = record {
  id = "a1";
  organization_id = "org";
  owner_user_id = "u1";
  name = "Ada";
  description = "";
  avatar_url = none;
  soul_markdown = "";
  status = "pending";
  initialization_status = "uninitialized";
  desired_runtime_state = "stopped";
  settings = Value.null;
  last_error_code = none;
  last_error_detail = none;
  created_at = 0;
  updated_at = 0;
}

abbrev pub a_runtime : AgentRuntime
a_runtime = record {
  id = "r1";
  organization_id = "org";
  owner_user_id = "u1";
  agent_id = "a1";
  deployment_id = some "d1";
  workspace_ref = "w1";
  runtime_kind = "hermes";
  status = "ready";
  endpoint_ref = none;
  hermes_version = none;
  boundary_version = none;
  config_revision_id = some "c1";
  last_heartbeat_at = none;
  last_error_code = none;
  last_error_detail = none;
  created_at = 0;
  updated_at = 0;
}

abbrev pub a_deployment : Deployment
a_deployment = record {
  id = "d1";
  organization_id = "org";
  agent_id = "a1";
  server_id = some "s1";
  name = some "Ada";
  environment = "production";
  status = "active";
  observed_state_version = 0;
  desired_state_version = 1;
  created_at = 0;
}

abbrev pub a_server : Server
a_server = record {
  id = "s1";
  organization_id = "org";
  name = "one";
  status = "active";
  runtime_version = none;
  last_seen_at = none;
  created_at = 0;
}

abbrev pub a_choice : ProviderChoice
a_choice = record { provider = "p"; base_url = "https://p"; model = "m" }

abbrev pub a_document : ConfigDocument
a_document = record {
  agent_id = "a1";
  agent_name = "Ada";
  soul_markdown = "";
  runtime_kind = "hermes";
  workspace_ref = "w1";
  provider = a_choice;
  owner_change = none;
  disabled = [];
}

abbrev pub a_revision : ConfigRevision
a_revision = record {
  id = "c1";
  organization_id = "org";
  agent_id = "a1";
  revision = 1;
  config_document = a_document;
  secret_envelope = Value.null;
  content_hash = "h1";
  status = "applied";
  created_by = "u1";
  created_at = 0;
}

abbrev pub a_command : Command
a_command = record {
  id = "k1";
  organization_id = some "org";
  deployment_id = "d1";
  agent_id = "a1";
  idempotency_key = some "key";
  action = "deployment.delete";
  instance_id = "a1";
  arguments = no_arguments;
  approval_id = some "p1";
  expected_observation_version = 0;
  state = queued;
  priority = 100;
  attempt = 0;
  requested_by = none;
  lease_server_id = none;
  lease_expires_at = none;
  expires_at = 100000;
  created_at = 0;
}

abbrev pub an_approval : Approval
an_approval = record {
  id = "p1";
  organization_id = "org";
  command_id = "k1";
  action = "deployment.delete";
  risk_level = "high";
  requested_by = "u1";
  decided_by = none;
  decision = pending;
  reason = "";
  expires_at = 100000;
  decided_at = none;
  created_at = 0;
}

abbrev pub a_world : World
a_world = record {
  agents = ("a1", an_agent) ∷ [];
  runtimes = ("r1", a_runtime) ∷ [];
  servers = a_server ∷ [];
  deployments = a_deployment ∷ [];
  revisions = a_revision ∷ [];
  credentials = [];
  preferences = [];
  provider_configurations = [];
  provider_channels = [];
  manifests = [];
  test_runs = [];
  backups = [];
  restores = [];
  candidates = [];
  backup_days = [];
}
