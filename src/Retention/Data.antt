-- ===== src/Retention/Data.antt =====
-- The policies, the counts and the events that retention is about (packages/db/memory-repository.mjs).

use bai_rui_cloud_agent_plat.Prelude.{
  List, Option, String, none, ℕ, ◌*◌, Bool, leb, some, true, ◌+◌,
}
use bai_rui_cloud_agent_plat.Control.Store.{Restore, Backup, Command}
use bai_rui_cloud_agent_plat.Fleet.Store.{
  Heartbeat, ResourceSample, TelemetryEvent, UsageRollup, Deployment,
}

pub record Policy : Type 0 where
  pub telemetry_days : ℕ
  pub usage_days : ℕ
  pub audit_days : ℕ
  pub sensitive_access_event_days : ℕ
  pub backup_days : ℕ
  pub updated_by : Option String

abbrev pub default_retention : Policy
default_retention = record {
  telemetry_days = 30;
  usage_days = 400;
  audit_days = 365;
  sensitive_access_event_days = 365;
  backup_days = 30;
  updated_by = none;
}

pub record Cutoffs : Type 0 where
  pub telemetry : ℕ
  pub usage : ℕ
  pub audit : ℕ
  pub sensitive_access : ℕ
  pub backup : ℕ

abbrev pub day : ℕ
day = 24 * 60 * 60000

abbrev pub retention_cutoffs : Policy → Cutoffs
retention_cutoffs p = record {
  telemetry = p.telemetry_days * day;
  usage = p.usage_days * day;
  audit = p.audit_days * day;
  sensitive_access = p.sensitive_access_event_days * day;
  backup = p.backup_days * day;
}

pub record SensitiveEvent : Type 0 where
  pub id : String
  pub grant_id : String
  pub organization_id : String
  pub actor_user_id : String
  pub target_type : String
  pub target_id : String
  pub reason : String
  pub created_at : ℕ

pub record AuditEvent : Type 0 where
  pub id : String
  pub organization_id : String
  pub actor_user_id : Option String
  pub action : String
  pub target_type : String
  pub target_id : Option String
  pub created_at : ℕ

pub record DeletedCounts : Type 0 where
  pub heartbeats : ℕ
  pub resource_samples : ℕ
  pub telemetry_events : ℕ
  pub usage_rollups : ℕ
  pub sensitive_access_events : ℕ
  pub audit_events : ℕ

pub record RetentionRun : Type 0 where
  pub id : String
  pub organization_id : String
  pub status : String
  pub cutoffs : Cutoffs
  pub deleted_counts : DeletedCounts
  pub backup_expiration_commands : ℕ
  pub started_at : ℕ
  pub completed_at : Option ℕ

pub record Store : Type 0 where
  pub organizations : List String
  pub policies : List (String × Policy)
  pub heartbeats : List Heartbeat
  pub samples : List ResourceSample
  pub telemetry : List TelemetryEvent
  pub usage_rollups : List UsageRollup
  pub sensitive_events : List SensitiveEvent
  pub audit : List AuditEvent
  pub backups : List Backup
  pub restores : List Restore
  pub deployments : List Deployment
  pub commands : List Command
  pub runs : List RetentionRun

-- `!Number.isFinite(Date.parse(value)) || Date.parse(value) >= Date.parse(cutoff)`
abbrev pub is_recent : ℕ → ℕ → Option ℕ → Bool
is_recent now age none = true
is_recent now age (some t) = leb now (t + age)
