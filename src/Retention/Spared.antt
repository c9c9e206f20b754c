-- ===== src/Retention/Spared.antt =====
-- What enforceRetentionPolicies leaves alone (packages/db/memory-repository.mjs).
use bai_rui_cloud_agent_plat.Prelude.{
  All, In, List, String, [], ap, inl, inr, or_else, refl, some, suc, ℕ, ◌*◌, ◌++◌, ◌∷◌, ◌≡◌, ◌⊎◌,
}
use bai_rui_cloud_agent_plat.Retention.Data.{Store, day}
use bai_rui_cloud_agent_plat.Retention.{
  enforce_one, enforce_each, purge_all, policy_of, EnforceInput, beat_time, sample_time, event_time,
  rollup_time, sensitive_time, purge, audit_time, enforced_audit,
}
use bai_rui_cloud_agent_plat.Retention.Purged.{IsOld, purge-spares}

-- Of the first store, the second lacks only what its organization's policy calls old.
pub record IsSpared (now : ℕ) (s t : Store) : Type 0 where
  pub beats :
      All
        (λ h.
          IsOld now (policy_of h.beat.organization_id s).telemetry_days (some h.received_at)
          ⊎ In h t.heartbeats)
        s.heartbeats
  pub sampled :
      All
        (λ r.
          IsOld now (policy_of r.organization_id s).telemetry_days (some r.received_at)
          ⊎ In r t.samples)
        s.samples
  pub events :
      All
        (λ e.
          IsOld now
            (policy_of e.organization_id s).telemetry_days
            (some (or_else e.event.occurred_at e.received_at))
          ⊎ In e t.telemetry)
        s.telemetry
  pub rollups :
      All
        (λ u.
          IsOld now (policy_of u.organization_id s).usage_days u.rollup.bucket_start
          ⊎ In u t.usage_rollups)
        s.usage_rollups
  pub accesses :
      All
        (λ e.
          IsOld now (policy_of e.organization_id s).sensitive_access_event_days (some e.created_at)
          ⊎ In e t.sensitive_events)
        s.sensitive_events
  pub audited :
      All
        (λ e.
          IsOld now (policy_of e.organization_id s).audit_days (some e.created_at) ⊎ In e t.audit)
        s.audit

module _ {A : Type 0} (old : A → Type 0) where
  listed : (xs ys : List A) → ((x : A) → In x ys → In x xs) → All (λ x. old x ⊎ In x xs) ys
  listed xs [] h = tt
  listed xs (y ∷ ys) h = (inr (h y (inl refl)), listed xs ys (λ x m. h x (inr m)))

  In-pushed : (xs : List A) (x e : A) → In x xs → In x (xs ++ e ∷ [])
  In-pushed [] x e m = absurd m
  In-pushed (y ∷ ys) x e m = elim m [ inl q ↦ inl q | inr l ↦ inr (In-pushed ys x e l) ]

  All-pushed :
      (xs zs : List A) (e : A)
      → All (λ x. old x ⊎ In x xs) zs
      → All (λ x. old x ⊎ In x (xs ++ e ∷ [])) zs
  All-pushed xs [] e h = tt
  All-pushed xs (z ∷ zs) e h =
      (elim (h.0) [ inl o ↦ inl o | inr m ↦ inr (In-pushed xs z e m) ], All-pushed xs zs e h.1)

pub IsSpared-refl : (now : ℕ) (s : Store) → IsSpared now s s
IsSpared-refl now s = record {
  beats = listed _ s.heartbeats s.heartbeats (λ x m. m);
  sampled = listed _ s.samples s.samples (λ x m. m);
  events = listed _ s.telemetry s.telemetry (λ x m. m);
  rollups = listed _ s.usage_rollups s.usage_rollups (λ x m. m);
  accesses = listed _ s.sensitive_events s.sensitive_events (λ x m. m);
  audited = listed _ s.audit s.audit (λ x m. m);
}

enforce_one-IsSpared :
    (now : ℕ) (fresh : ℕ → String) (i : EnforceInput) (id : String) (s t : Store)
    → t.policies ≡ s.policies
    → IsSpared now s t
    → IsSpared now s (enforce_one now fresh i id t).0
unfolding enforce_one purge_all
enforce_one-IsSpared now fresh i id s t same h =
    let p = policy_of id t in
    let own : (o : String) → o ≡ id → policy_of o s ≡ p = λ o e. rw (e, same) refl in
    record {
      beats =
          purge-spares (λ h. h.beat.organization_id) beat_time now p.telemetry_days id _
            t.heartbeats s.heartbeats (λ x e. ap (λ q. q.telemetry_days) (own _ e)) h.beats;
      sampled =
          purge-spares (λ r. r.organization_id) sample_time now p.telemetry_days id _ t.samples
            s.samples (λ x e. ap (λ q. q.telemetry_days) (own _ e)) h.sampled;
      events =
          purge-spares (λ e. e.organization_id) event_time now p.telemetry_days id _ t.telemetry
            s.telemetry (λ x e. ap (λ q. q.telemetry_days) (own _ e)) h.events;
      rollups =
          purge-spares (λ e. e.organization_id) rollup_time now p.usage_days id _ t.usage_rollups
            s.usage_rollups (λ x e. ap (λ q. q.usage_days) (own _ e)) h.rollups;
      accesses =
          purge-spares (λ e. e.organization_id) sensitive_time now p.sensitive_access_event_days id
            _ t.sensitive_events s.sensitive_events
            (λ x e. ap (λ q. q.sensitive_access_event_days) (own _ e)) h.accesses;
      audited =
          All-pushed _
            (purge (λ e. e.organization_id) audit_time now (p.audit_days * day) id t.audit) s.audit
            (enforced_audit now (fresh 1) (fresh 0) i id)
            (purge-spares (λ e. e.organization_id) audit_time now p.audit_days id _ t.audit s.audit
              (λ x e. ap (λ q. q.audit_days) (own _ e)) h.audited);
    }

pub enforce_each-IsSpared :
    (now : ℕ) (fresh : ℕ → ℕ → String) (n : ℕ) (i : EnforceInput) (ids : List String) (s t : Store)
    → t.policies ≡ s.policies
    → IsSpared now s t
    → IsSpared now s (enforce_each now fresh n i ids t).0
unfolding enforce_each enforce_one purge_all
enforce_each-IsSpared now fresh n i [] s t same h = h
enforce_each-IsSpared now fresh n i (id ∷ ids) s t same h =
    enforce_each-IsSpared now fresh (suc n) i ids s (enforce_one now (fresh n) i id t).0 same
      (enforce_one-IsSpared now (fresh n) i id s t same h)
