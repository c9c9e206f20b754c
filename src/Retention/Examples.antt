-- ===== src/Retention/Examples.antt =====
-- Retention on a small store (packages/db/memory-repository.mjs).
use bai_rui_cloud_agent_plat.Prelude.{All, String, [], map, none, refl, ℕ, ◌∷◌, ◌≡◌}
use bai_rui_cloud_agent_plat.Retention.{EnforceInput, enforce_retention_policies, policy_of}
use bai_rui_cloud_agent_plat.Retention.Data.{AuditEvent, Store}
use bai_rui_cloud_agent_plat.Retention.Recent.{IsTrimmed, enforce_retention_policies-IsTrimmed}
use bai_rui_cloud_agent_plat.Retention.Spared.{IsSpared}

abbrev an_event : String → ℕ → AuditEvent
an_event id at = record {
  id = id;
  organization_id = "org";
  actor_user_id = none;
  action = "a";
  target_type = "t";
  target_id = none;
  created_at = at;
}

abbrev a_store : Store
a_store = record {
  organizations = "org" ∷ [];
  policies = [];
  heartbeats = [];
  samples = [];
  telemetry = [];
  usage_rollups = [];
  sensitive_events = [];
  audit = an_event "old" 0 ∷ an_event "new" 40000000000 ∷ [];
  backups = [];
  restores = [];
  deployments = [];
  commands = [];
  runs = [];
}

abbrev an_input : EnforceInput
an_input = record { organization_id = none; actor_user_id = none; reason = "" }

abbrev ids : ℕ → ℕ → String
ids n m = "x"

old_removed :
    map (λ e. e.id) (enforce_retention_policies 50000000000 ids an_input a_store).0.audit
    ≡ "new" ∷ "x" ∷ []
unfolding enforce_retention_policies
old_removed = refl

enforce_retention_policies-IsTrimmed_example :
    All
      (λ id.
        IsTrimmed 50000000000 id
          (policy_of id a_store)
          (enforce_retention_policies 50000000000 ids an_input a_store).0)
      ("org" ∷ [])
    × IsSpared 50000000000 a_store (enforce_retention_policies 50000000000 ids an_input a_store).0
enforce_retention_policies-IsTrimmed_example =
    enforce_retention_policies-IsTrimmed 50000000000 ids an_input a_store
