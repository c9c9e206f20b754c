-- ===== src/Retention/Recent.antt =====
-- What is left after enforceRetentionPolicies (packages/db/memory-repository.mjs).
use bai_rui_cloud_agent_plat.Prelude.{
  All, All-append, List, String, [], arith, filter, inr, matches_or_any, suc, ℕ, ◌*◌, ◌∷◌, or_else,
  refl, some,
}
use bai_rui_cloud_agent_plat.Retention.{
  purge, EnforceInput, enforce_one, enforce_each, enforce_retention_policies, purge_all, beat_time,
  audit_time, policy_of, enforced_audit, sample_time, event_time, rollup_time, sensitive_time,
}
use bai_rui_cloud_agent_plat.Retention.Data.{Policy, Store, day}
use bai_rui_cloud_agent_plat.Retention.Purged.{IsRecent, purge-IsRecent, purge-All}
use bai_rui_cloud_agent_plat.Retention.Spared.{IsSpared, enforce_each-IsSpared, IsSpared-refl}

-- An organization's items are as recent as its policy wants them.
pub record IsTrimmed (now : ℕ) (id : String) (p : Policy) (s : Store) : Type 0 where
  pub beats :
      All
        (λ h. IsRecent now p.telemetry_days id h.beat.organization_id (some h.received_at))
        s.heartbeats
  pub sampled :
      All (λ r. IsRecent now p.telemetry_days id r.organization_id (some r.received_at)) s.samples
  pub events :
      All
        (λ e.
          IsRecent now p.telemetry_days id e.organization_id
            (some (or_else e.event.occurred_at e.received_at)))
        s.telemetry
  pub rollups :
      All
        (λ u. IsRecent now p.usage_days id u.organization_id u.rollup.bucket_start)
        s.usage_rollups
  pub accesses :
      All
        (λ e. IsRecent now p.sensitive_access_event_days id e.organization_id (some e.created_at))
        s.sensitive_events
  pub audited :
      All (λ e. IsRecent now p.audit_days id e.organization_id (some e.created_at)) s.audit

enforce_one-IsTrimmed :
    (now : ℕ) (fresh : ℕ → String) (i : EnforceInput) (id : String) (s : Store)
    → IsTrimmed now id (policy_of id s) (enforce_one now fresh i id s).0
unfolding enforce_one purge_all
enforce_one-IsTrimmed now fresh i id s =
    let p = policy_of id s in
    record {
      beats =
          purge-IsRecent (λ h. h.beat.organization_id) beat_time now p.telemetry_days id
            s.heartbeats;
      sampled =
          purge-IsRecent (λ r. r.organization_id) sample_time now p.telemetry_days id s.samples;
      events =
          purge-IsRecent (λ e. e.organization_id) event_time now p.telemetry_days id s.telemetry;
      rollups =
          purge-IsRecent (λ u. u.organization_id) rollup_time now p.usage_days id s.usage_rollups;
      accesses =
          purge-IsRecent (λ e. e.organization_id) sensitive_time now p.sensitive_access_event_days
            id s.sensitive_events;
      audited =
          All-append (λ e. IsRecent now p.audit_days id e.organization_id (some e.created_at))
            (purge (λ e. e.organization_id) audit_time now (p.audit_days * day) id s.audit)
            (enforced_audit now (fresh 1) (fresh 0) i id ∷ [])
            (purge-IsRecent (λ e. e.organization_id) audit_time now p.audit_days id s.audit)
            (inr (omega arith), tt);
    }

-- The run of another organization, or of the same, keeps what is trimmed.
enforce_one-keeps :
    (now : ℕ) (fresh : ℕ → String) (i : EnforceInput) (id other : String) (p : Policy) (s : Store)
    → IsTrimmed now other p s
    → IsTrimmed now other p (enforce_one now fresh i id s).0
unfolding enforce_one purge_all
enforce_one-keeps now fresh i id other p s t =
    let q = policy_of id s in
    record {
      beats =
          purge-All (λ h. h.beat.organization_id) beat_time now q.telemetry_days id _ s.heartbeats
            t.beats;
      sampled =
          purge-All (λ r. r.organization_id) sample_time now q.telemetry_days id _ s.samples
            t.sampled;
      events =
          purge-All (λ e. e.organization_id) event_time now q.telemetry_days id _ s.telemetry
            t.events;
      rollups =
          purge-All (λ u. u.organization_id) rollup_time now q.usage_days id _ s.usage_rollups
            t.rollups;
      accesses =
          purge-All (λ e. e.organization_id) sensitive_time now q.sensitive_access_event_days id _
            s.sensitive_events t.accesses;
      audited =
          All-append (λ e. IsRecent now p.audit_days other e.organization_id (some e.created_at))
            (purge (λ e. e.organization_id) audit_time now (q.audit_days * day) id s.audit)
            (enforced_audit now (fresh 1) (fresh 0) i id ∷ [])
            (purge-All (λ e. e.organization_id) audit_time now q.audit_days id _ s.audit t.audited)
            (inr (omega arith), tt);
    }

enforce_each-keeps :
    (now : ℕ) (fresh : ℕ → ℕ → String) (n : ℕ) (i : EnforceInput) (ids : List String)
    (other : String) (p : Policy) (s : Store)
    → IsTrimmed now other p s
    → IsTrimmed now other p (enforce_each now fresh n i ids s).0
unfolding enforce_each
enforce_each-keeps now fresh n i [] other p s t = t
enforce_each-keeps now fresh n i (id ∷ ids) other p s t =
    enforce_each-keeps now fresh (suc n) i ids other p (enforce_one now (fresh n) i id s).0
      (enforce_one-keeps now (fresh n) i id other p s t)

enforce_each-IsTrimmed :
    (now : ℕ) (fresh : ℕ → ℕ → String) (n : ℕ) (i : EnforceInput) (ids : List String) (s : Store)
    → All (λ id. IsTrimmed now id (policy_of id s) (enforce_each now fresh n i ids s).0) ids
unfolding enforce_each enforce_one purge_all
enforce_each-IsTrimmed now fresh n i [] s = tt
enforce_each-IsTrimmed now fresh n i (id ∷ ids) s = (
  enforce_each-keeps now fresh (suc n) i ids id (policy_of id s)
      (enforce_one now (fresh n) i id s).0 (enforce_one-IsTrimmed now (fresh n) i id s),
  enforce_each-IsTrimmed now fresh (suc n) i ids (enforce_one now (fresh n) i id s).0,
)

-- After retention has been enforced, no heartbeat, resource sample, telemetry event, usage roll-up,
-- sensitive access event or audit event of an organization that it ran for, and that bears a date,
-- lies more days back than that organization's policy allows, or the default policy where it has none;
-- and of all that was stored, of any organization, only what lies further back than its own
-- organization's policy allows is gone.
pub enforce_retention_policies-IsTrimmed :
    (now : ℕ) (fresh : ℕ → ℕ → String) (i : EnforceInput) (s : Store)
    → All
        (λ id. IsTrimmed now id (policy_of id s) (enforce_retention_policies now fresh i s).0)
        (filter (λ id. matches_or_any i.organization_id id) s.organizations)
      × IsSpared now s (enforce_retention_policies now fresh i s).0
unfolding enforce_retention_policies
enforce_retention_policies-IsTrimmed now fresh i s =
    let ids = filter (λ id. matches_or_any i.organization_id id) s.organizations in
    (
      enforce_each-IsTrimmed now fresh 0 i ids s,
      enforce_each-IsSpared now fresh 0 i ids s s refl (IsSpared-refl now s),
    )
