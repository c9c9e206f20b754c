-- ===== src/Accounts/Agents.antt =====
-- Agents and their Runtimes (packages/db/memory-repository.mjs).
use bai_rui_cloud_agent_plat.Fleet.Store.{Agent, AgentRuntime}
use bai_rui_cloud_agent_plat.Json.{Value, obj, end}
use bai_rui_cloud_agent_plat.Prelude.{
  Bool, Option, String, find?, lookup, none, or_else, put, some, update_key, values, ℕ, ◌===◌,
}
use bai_rui_cloud_agent_plat.Accounts.{Store}

pub record AgentInput : Type 0 where
  pub id : Option String
  pub organization_id : String
  -- `none` is an empty or missing owner
  pub owner_user_id : Option String
  pub name : String
  pub description : Option String
  pub avatar_url : Option String
  pub soul_markdown : Option String
  pub status : Option String
  pub initialization_status : Option String
  pub desired_runtime_state : Option String
  pub settings : Option Value

abbrev pub new_agent : ℕ → String → AgentInput → String → Agent
new_agent now fresh i owner = record {
  id = or_else i.id fresh;
  organization_id = i.organization_id;
  owner_user_id = owner;
  name = i.name;
  description = or_else i.description "";
  avatar_url = i.avatar_url;
  soul_markdown = or_else i.soul_markdown "";
  status = or_else i.status "pending";
  initialization_status = or_else i.initialization_status "uninitialized";
  desired_runtime_state = or_else i.desired_runtime_state "stopped";
  settings = or_else i.settings (obj end);
  last_error_code = none;
  last_error_detail = none;
  created_at = now;
  updated_at = now;
}

-- `none` where the owner is missing, and the code throws.
unfoldable pub create_agent : ℕ → String → AgentInput → Store → Store × Option Agent
create_agent now fresh i s = elim i.owner_user_id [
  | none ↦ (s, none)
  | some owner ↦
      let a = new_agent now fresh i owner in (record s { agents = put a.id a s.agents }, some a)
]

-- A field of `patch`; a field that may be `null` is there or not, and then may be `null`.
pub record AgentPatch : Type 0 where
  pub name : Option String
  pub description : Option String
  pub avatar_url : Option (Option String)
  pub soul_markdown : Option String
  pub status : Option String
  pub initialization_status : Option String
  pub desired_runtime_state : Option String
  pub settings : Option Value
  pub last_error_code : Option (Option String)
  pub last_error_detail : Option (Option String)

abbrev pub patch_agent : ℕ → AgentPatch → Agent → Agent
patch_agent now p a = record a {
  name = or_else p.name a.name;
  description = or_else p.description a.description;
  avatar_url = or_else p.avatar_url a.avatar_url;
  soul_markdown = or_else p.soul_markdown a.soul_markdown;
  status = or_else p.status a.status;
  initialization_status = or_else p.initialization_status a.initialization_status;
  desired_runtime_state = or_else p.desired_runtime_state a.desired_runtime_state;
  settings = or_else p.settings a.settings;
  last_error_code = or_else p.last_error_code a.last_error_code;
  last_error_detail = or_else p.last_error_detail a.last_error_detail;
  updated_at = now;
}

unfoldable pub update_agent : ℕ → String → AgentPatch → Store → Store × Option Agent
update_agent now id p s = elim (lookup id s.agents) [
  | none ↦ (s, none)
  | some a ↦
      (record s { agents = update_key id (patch_agent now p) s.agents }, some (patch_agent now p a))
]

pub record RuntimeInput : Type 0 where
  pub id : Option String
  pub organization_id : String
  pub owner_user_id : String
  pub agent_id : String
  pub deployment_id : Option String
  pub workspace_ref : String
  pub status : Option String

abbrev pub serves : String → AgentRuntime → Bool
serves agent r = r.agent_id === agent

abbrev pub new_runtime : ℕ → String → RuntimeInput → AgentRuntime
new_runtime now fresh i = record {
  id = or_else i.id fresh;
  organization_id = i.organization_id;
  owner_user_id = i.owner_user_id;
  agent_id = i.agent_id;
  deployment_id = i.deployment_id;
  workspace_ref = i.workspace_ref;
  runtime_kind = "hermes";
  status = or_else i.status "uninitialized";
  endpoint_ref = none;
  hermes_version = none;
  boundary_version = none;
  config_revision_id = none;
  last_heartbeat_at = none;
  last_error_code = none;
  last_error_detail = none;
  created_at = now;
  updated_at = now;
}

unfoldable pub create_agent_runtime : ℕ → String → RuntimeInput → Store → Store × AgentRuntime
create_agent_runtime now fresh i s = elim (find? (serves i.agent_id) (values s.runtimes)) [
  | some r ↦ (s, r)
  | none ↦ let r = new_runtime now fresh i in (record s { runtimes = put r.id r s.runtimes }, r)
]
