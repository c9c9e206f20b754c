-- ===== src/Fleet/Alerts/Once.antt =====
-- How many alerts of an Agent are active under one code: the writes of
-- packages/db/memory-repository.mjs.
use bai_rui_cloud_agent_plat.Prelude.{
  ℕ, suc, ◌≤◌, String, List, [], ◌∷◌, ◌++◌, Bool, true, false, ◌&&◌, ◌||◌, not, ◌===◌, or_else,
  matches_or_any, find?, any, update_first, update_where, count, ◌≡◌, inl, inr, refl, arith, eq_iff,
  Bool-cases, Option-cases, find?-All, find?-none, find?-test, count-append, count-update_first,
  count-update_first_le, count-update_where_le, count-zero_of_All, any-false_All, lookup, weight,
}
use bai_rui_cloud_agent_plat.Fleet.Store.{
  Agent, AgentRuntime, Alert, is_active, ResourceSample, HeartbeatInput,
}
use bai_rui_cloud_agent_plat.Fleet.Alerts.{
  is_alert_of, resolve, raise, settle, StatusInput, write_status, update_alert_status, Check,
  checks, is_high, resource_alert, write_usage, evaluate_check, evaluate_each,
  evaluate_resource_alerts, awaits_heartbeat, is_stale, offline_alert, write_offline,
  evaluate_offline, OfflineInput, evaluate_runtimes,
}
use bai_rui_cloud_agent_plat.Fleet.Heartbeats.{
  write_health, health_alert, ends_when_healthy, health_alerts,
}

-- An Agent has at most one open or acknowledged alert under each code.
abbrev pub IsOnce : List Alert → Type 0
IsOnce alerts = (agent code : String) → count (is_alert_of agent code) alerts ≤ 1

-- A write that keeps the Agent and the code, and makes no alert active.
record Calms (write : Alert → Alert) : Type 0 where
  keeps_agent : (a : Alert) → (write a).agent_id ≡ a.agent_id
  keeps_code : (a : Alert) → (write a).code ≡ a.code
  calms : (a : Alert) → is_active (write a).status ≡ true → is_active a.status ≡ true

Calms-weight :
    (write : Alert → Alert)
    → Calms write
    → (agent code : String) (a : Alert)
    → weight (is_alert_of agent code) (write a) ≤ weight (is_alert_of agent code) a
Calms-weight write c agent code a = rw (c.keeps_agent a, c.keeps_code a) (ground (arith, c.calms a))

Calms-refl : Calms (λ a. a)
Calms-refl = record { keeps_agent = λ a. refl; keeps_code = λ a. refl; calms = λ a h. h }

update_first-IsOnce :
    (test : Alert → Bool) (write : Alert → Alert) (alerts : List Alert)
    → Calms write
    → IsOnce alerts
    → IsOnce (update_first test write alerts)
update_first-IsOnce test write alerts c once agent code = omega (
  arith,
  once agent code,
  count-update_first_le (is_alert_of agent code) test write alerts
      (λ a _. Calms-weight write c agent code a),
)

update_where-IsOnce :
    (test : Alert → Bool) (write : Alert → Alert) (alerts : List Alert)
    → Calms write
    → IsOnce alerts
    → IsOnce (update_where test write alerts)
update_where-IsOnce test write alerts c once agent code = omega (
  arith,
  once agent code,
  count-update_where_le (is_alert_of agent code) test write alerts
      (λ a _. Calms-weight write c agent code a),
)

resolve-Calms : (now : ℕ) → Calms (resolve now)
resolve-Calms now = record {
  keeps_agent = λ a. refl;
  keeps_code = λ a. refl;
  calms = λ a h. absurd (ground arith);
}

-- Where no alert of an Agent and a code is active, one can be added.
push-IsOnce :
    (alerts : List Alert) (a : Alert)
    → count (is_alert_of a.agent_id a.code) alerts ≡ 0
    → IsOnce alerts
    → IsOnce (alerts ++ a ∷ [])
push-IsOnce alerts a zero_here once agent code =
    rw (count-append (is_alert_of agent code) alerts (a ∷ []))
      (elim (Bool-cases (is_alert_of agent code a)) [
        | inr n ↦ rw n (omega (arith, once agent code))
        | inl t ↦
            let same_agent : a.agent_id ≡ agent = (eq_iff a.agent_id agent).0 (ground arith) in
            let same_code : a.code ≡ code = (eq_iff a.code code).0 (ground arith) in
            let none_yet : count (is_alert_of agent code) alerts ≡ 0 =
              rw (← same_agent, ← same_code) zero_here in
            rw t (omega (arith, none_yet))
      ])

raise-IsOnce :
    (write : Alert → Alert) (new : Alert) (alerts : List Alert)
    → Calms write
    → IsOnce alerts
    → IsOnce (raise (is_alert_of new.agent_id new.code) write new alerts)
unfolding raise
raise-IsOnce write new alerts c once =
    elim (Option-cases (find? (is_alert_of new.agent_id new.code) alerts)) [
      | inr (a, e) ↦
          rw (raise, e)
            (update_first-IsOnce (is_alert_of new.agent_id new.code) write alerts c once)
      | inl e ↦
          rw (raise, e)
            (push-IsOnce alerts (write new)
              (rw (c.keeps_agent new, c.keeps_code new)
                (count-zero_of_All (is_alert_of new.agent_id new.code) alerts
                  (find?-none (λ _. Unit {0}) _ alerts e)))
              once)
    ]

settle-IsOnce :
    (test : Alert → Bool) (now : ℕ) (alerts : List Alert)
    → IsOnce alerts
    → IsOnce (settle test now alerts)
unfolding settle
settle-IsOnce test now alerts once =
    update_first-IsOnce test (resolve now) alerts (resolve-Calms now) once

write_usage-Calms : (r : ResourceSample) (c : Check) → Calms (write_usage r c)
write_usage-Calms r c = record { keeps_agent = λ a. refl; keeps_code = λ a. refl; calms = λ a h. h }

evaluate_check-IsOnce :
    (fresh : String) (r : ResourceSample) (c : Check) (alerts : List Alert)
    → IsOnce alerts
    → IsOnce (evaluate_check fresh r c alerts)
unfolding evaluate_check
evaluate_check-IsOnce fresh r c alerts once = elim (Bool-cases (is_high c.value)) [
  | inl t ↦
      rw (evaluate_check, t)
        (raise-IsOnce (write_usage r c) (resource_alert fresh r c) alerts (write_usage-Calms r c)
          once)
  | inr n ↦
      rw (evaluate_check, n)
        (settle-IsOnce (is_alert_of r.sample.agent_id c.code) r.received_at alerts once)
]

evaluate_each-IsOnce :
    (fresh : ℕ → String) (n : ℕ) (r : ResourceSample) (cs : List Check) (alerts : List Alert)
    → IsOnce alerts
    → IsOnce (evaluate_each fresh n r cs alerts)
unfolding evaluate_each
evaluate_each-IsOnce fresh n r [] alerts once = once
evaluate_each-IsOnce fresh n r (c ∷ cs) alerts once =
    evaluate_each-IsOnce fresh (suc n) r cs (evaluate_check (fresh n) r c alerts)
      (evaluate_check-IsOnce (fresh n) r c alerts once)

pub evaluate_resource_alerts-IsOnce :
    (fresh : ℕ → String) (r : ResourceSample) (alerts : List Alert)
    → IsOnce alerts
    → IsOnce (evaluate_resource_alerts fresh r alerts)
unfolding evaluate_resource_alerts
evaluate_resource_alerts-IsOnce fresh r alerts once =
    evaluate_each-IsOnce fresh 0 r (checks r) alerts once

write_offline-Calms : (now stale_after : ℕ) → Calms (write_offline now stale_after)
write_offline-Calms now stale_after = record {
  keeps_agent = λ a. refl;
  keeps_code = λ a. refl;
  calms = λ a h. h;
}

evaluate_offline-IsOnce :
    (now : ℕ) (fresh : String) (stale_after : ℕ) (agents : List (String × Agent)) (r : AgentRuntime)
    (alerts : List Alert)
    → IsOnce alerts
    → IsOnce (evaluate_offline now fresh stale_after agents r alerts)
unfolding evaluate_offline
evaluate_offline-IsOnce now fresh stale_after agents r alerts once =
    elim (Bool-cases
      (awaits_heartbeat (lookup r.agent_id agents) r && is_stale now stale_after r)) [
        | inl t ↦
            rw (evaluate_offline, t)
              (raise-IsOnce (write_offline now stale_after) (offline_alert now fresh stale_after r)
                alerts (write_offline-Calms now stale_after) once)
        | inr n ↦
            rw (evaluate_offline, n)
              (settle-IsOnce (is_alert_of r.agent_id "runtime.offline") now alerts once)
      ]

pub evaluate_runtimes-IsOnce :
    (now : ℕ) (fresh : ℕ → String) (n : ℕ) (i : OfflineInput) (agents : List (String × Agent))
    (runtimes : List AgentRuntime) (alerts : List Alert)
    → IsOnce alerts
    → IsOnce (evaluate_runtimes now fresh n i agents runtimes alerts)
unfolding evaluate_runtimes
evaluate_runtimes-IsOnce now fresh n i agents [] alerts once = once
evaluate_runtimes-IsOnce now fresh n i agents (r ∷ rs) alerts once =
    elim (Bool-cases (matches_or_any i.organization_id r.organization_id)) [
      | inl t ↦
          rw (evaluate_runtimes, t)
            (evaluate_runtimes-IsOnce now fresh (suc n) i agents rs _ (
              evaluate_offline-IsOnce now (fresh n) (or_else i.stale_after_ms 120000) agents r
                alerts once))
      | inr e ↦
          rw (evaluate_runtimes, e)
            (evaluate_runtimes-IsOnce now fresh (suc n) i agents rs alerts once)
    ]

write_health-Calms : (i : HeartbeatInput) → Calms (write_health i)
write_health-Calms i = record { keeps_agent = λ a. refl; keeps_code = λ a. refl; calms = λ a h. h }

pub health_alerts-IsOnce :
    (now : ℕ) (fresh : String) (i : HeartbeatInput) (alerts : List Alert)
    → IsOnce alerts
    → IsOnce (health_alerts now fresh i alerts)
unfolding health_alerts
health_alerts-IsOnce now fresh i alerts once =
    elim (Bool-cases (i.status === "degraded" || i.status === "unhealthy")) [
      | inl t ↦
          rw (health_alerts, t)
            (raise-IsOnce (write_health i) (health_alert now fresh i) alerts (write_health-Calms i)
              once)
      | inr n ↦ elim (Bool-cases (i.status === "healthy")) [
        | inl t ↦
            rw (health_alerts, n, t)
              (update_where-IsOnce (ends_when_healthy i.agent_id) (resolve now) alerts
                (resolve-Calms now) once)
        | inr e ↦ rw (health_alerts, n, e) once
      ]
    ]

-- A status that makes no alert active, or only one that is.
pub update_alert_status-IsOnce :
    (now : ℕ) (i : StatusInput) (alerts : List Alert)
    → (is_active i.status && any (λ a. a.id === i.alert_id && not (is_active a.status)) alerts)
      ≡ false
    → IsOnce alerts
    → IsOnce (update_alert_status now i alerts).0
unfolding update_alert_status
update_alert_status-IsOnce now i alerts quiet once =
    elim (Option-cases (find? (λ a. a.id === i.alert_id) alerts)) [
      | inl e ↦ rw (update_alert_status, e) once
      | inr (a, e) ↦
          rw (update_alert_status, e)
            (λ agent code.
              let found : (is_active i.status && (a.id === i.alert_id && not (is_active a.status)))
                  ≡ false =
                elim (Bool-cases (is_active i.status)) [
                  | inr n ↦ rw n refl
                  | inl t ↦
                      rw t
                        (find?-All _ (λ a. a.id === i.alert_id) alerts e
                          (any-false_All (λ a. a.id === i.alert_id && not (is_active a.status))
                            alerts (rw t at quiet))).0
                ] in
              let same_id : (a.id === i.alert_id) ≡ true =
                find?-test (λ a. a.id === i.alert_id) alerts e in
              let lighter : weight (is_alert_of agent code) (write_status now i a)
                  ≤ weight (is_alert_of agent code) a =
                ground arith in
              omega (
                arith,
                once agent code,
                lighter,
                count-update_first (is_alert_of agent code) (λ a. a.id === i.alert_id)
                    (write_status now i) alerts e,
              ))
    ]
