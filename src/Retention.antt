-- ===== src/Retention.antt =====
-- Retention in MemoryPlatformRepository (packages/db/memory-repository.mjs): retentionCutoffs,
-- upsertRetentionPolicy and enforceRetentionPolicies. A cutoff is kept as the age that it stands
-- for, in milliseconds before `now`.
pub mod Backups
pub mod Data
pub mod Purged
pub mod Recent
pub mod Spared
mod Examples
use Prim.Native.String
use bai_rui_cloud_agent_plat.Prelude.{
  Bool, List, Option, String, [], filter, length, lookup, matches_or_any, not, or_else, put, some,
  suc, ℕ, ◌++◌, ◌-◌, ◌===◌, ◌||◌, ◌∷◌,
}
use bai_rui_cloud_agent_plat.Control.Store.{expired}
use bai_rui_cloud_agent_plat.Fleet.Store.{Heartbeat, ResourceSample, TelemetryEvent, UsageRollup}
use bai_rui_cloud_agent_plat.Retention.Data.{
  Policy, Store, AuditEvent, SensitiveEvent, Cutoffs, default_retention, is_recent, DeletedCounts,
  RetentionRun, retention_cutoffs,
}
use bai_rui_cloud_agent_plat.Retention.Backups.{expire_backups}

unfoldable pub upsert_retention_policy : String → Policy → Store → Store
upsert_retention_policy organization p s = record s { policies = put organization p s.policies }

-- `{ ...DEFAULT_RETENTION, ...(policies.get(id) ?? {}) }`; a stored policy sets every field.
abbrev pub policy_of : String → Store → Policy
policy_of organization s = or_else (lookup organization s.policies) default_retention

-- Kept are the items of other organizations, and the recent ones.
abbrev pub keeps {ℓ} : {A : Type ℓ} → (A → String) → (A → Option ℕ) → ℕ → ℕ → String → A → Bool
keeps organization time now age id x = not (organization x === id) || is_recent now age (time x)

unfoldable pub purge {ℓ} :
    {A : Type ℓ} → (A → String) → (A → Option ℕ) → ℕ → ℕ → String → List A → List A
purge organization time now age id xs = filter (keeps organization time now age id) xs

pub record EnforceInput : Type 0 where
  pub organization_id : Option String
  pub actor_user_id : Option String
  pub reason : String

abbrev pub enforced_audit : ℕ → String → String → EnforceInput → String → AuditEvent
enforced_audit now fresh run i id = record {
  id = fresh;
  organization_id = id;
  actor_user_id = i.actor_user_id;
  action = "retention.enforced";
  target_type = "retention_run";
  target_id = some run;
  created_at = now;
}

abbrev pub beat_time : Heartbeat → Option ℕ
beat_time h = some h.received_at

abbrev pub sample_time : ResourceSample → Option ℕ
sample_time r = some r.received_at

-- `item.occurredAt ?? item.receivedAt`
abbrev pub event_time : TelemetryEvent → Option ℕ
event_time e = some (or_else e.event.occurred_at e.received_at)

abbrev pub rollup_time : UsageRollup → Option ℕ
rollup_time u = u.rollup.bucket_start

abbrev pub sensitive_time : SensitiveEvent → Option ℕ
sensitive_time e = some e.created_at

abbrev pub audit_time : AuditEvent → Option ℕ
audit_time e = some e.created_at

-- The six purges.
unfoldable pub purge_all : ℕ → Cutoffs → String → Store → Store
unfolding purge
purge_all now c id s = record s {
  heartbeats = purge (λ h. h.beat.organization_id) beat_time now c.telemetry id s.heartbeats;
  samples = purge (λ r. r.organization_id) sample_time now c.telemetry id s.samples;
  telemetry = purge (λ e. e.organization_id) event_time now c.telemetry id s.telemetry;
  usage_rollups = purge (λ u. u.organization_id) rollup_time now c.usage id s.usage_rollups;
  sensitive_events =
      purge (λ e. e.organization_id) sensitive_time now c.sensitive_access id s.sensitive_events;
  audit = purge (λ e. e.organization_id) audit_time now c.audit id s.audit;
}

abbrev pub counts : Store → Store → DeletedCounts
counts before after = record {
  heartbeats = length before.heartbeats - length after.heartbeats;
  resource_samples = length before.samples - length after.samples;
  telemetry_events = length before.telemetry - length after.telemetry;
  usage_rollups = length before.usage_rollups - length after.usage_rollups;
  sensitive_access_events = length before.sensitive_events - length after.sensitive_events;
  audit_events = length before.audit - length after.audit;
}

-- One organization's run; `fresh` draws 0 for the run, 1 for the audit event, and from 2 on for
-- the commands.
unfoldable pub enforce_one : ℕ → (ℕ → String) → EnforceInput → String → Store → Store × RetentionRun
unfolding purge_all expire_backups
enforce_one now fresh i id s =
    let p = policy_of id s in
    let t = purge_all now (retention_cutoffs p) id s in
    let expired = expire_backups now fresh (fresh 0) id p s 2 s.backups in
    let run : RetentionRun = record {
      id = fresh 0;
      organization_id = id;
      status = "succeeded";
      cutoffs = retention_cutoffs p;
      deleted_counts = counts s t;
      backup_expiration_commands = length (expired.1);
      started_at = now;
      completed_at = some now;
    } in
    (
      record t {
        backups = expired.0;
        commands = s.commands ++ expired.1;
        audit = t.audit ++ enforced_audit now (fresh 1) (fresh 0) i id ∷ [];
        runs = s.runs ++ run ∷ [];
      },
      run,
    )

unfoldable pub enforce_each :
    ℕ → (ℕ → ℕ → String) → ℕ → EnforceInput → List String → Store → Store × List RetentionRun
unfolding enforce_one
enforce_each now fresh n i [] s = (s, [])
enforce_each now fresh n i (id ∷ ids) s =
    let one = enforce_one now (fresh n) i id s in
    let rest = enforce_each now fresh (suc n) i ids one.0 in (rest.0, one.1 ∷ rest.1)

unfoldable pub enforce_retention_policies :
    ℕ → (ℕ → ℕ → String) → EnforceInput → Store → Store × List RetentionRun
unfolding enforce_each
enforce_retention_policies now fresh i s =
    enforce_each now fresh 0 i (filter (λ id. matches_or_any i.organization_id id) s.organizations)
      s
