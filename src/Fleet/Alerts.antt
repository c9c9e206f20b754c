-- ===== src/Fleet/Alerts.antt =====
-- Alerts: updateAlertStatus, #evaluateResourceAlerts and evaluateOfflineAlerts of
-- packages/db/memory-repository.mjs. A share is compared as a fraction, without rounding.
pub mod Once
use bai_rui_cloud_agent_plat.Prelude.{
  ℕ, suc, ◌+◌, ◌*◌, max, String, Option, none, some, List, [], ◌∷◌, ◌++◌, Bool, true, false, ◌&&◌,
  not, ltb, leb, ◌===◌, if◌then◌else◌, or_else, matches_or_any, find?, any, update_first, lookup,
  values,
}
use bai_rui_cloud_agent_plat.Fleet.Store.{
  Agent, AgentRuntime, Alert, AlertStatus, open_alert, acknowledged, resolved, closed, is_active,
  Ratio, usage, silent_for, ResourceSample, Store,
}

-- An open or acknowledged alert of an Agent under a code.
abbrev pub is_alert_of : String → String → Alert → Bool
is_alert_of agent code a = a.agent_id === agent && a.code === code && is_active a.status

abbrev pub resolve : ℕ → Alert → Alert
resolve now a = record a { status = resolved; resolved_at = some now }

-- `active ?? { … }`, the assignment to it, and `push` if it is new.
unfoldable pub raise : (Alert → Bool) → (Alert → Alert) → Alert → List Alert → List Alert
raise test write new alerts = elim (find? test alerts) [
  | some _ ↦ update_first test write alerts
  | none ↦ alerts ++ write new ∷ []
]

-- `if (active) Object.assign(active, { status: "resolved", … })`
unfoldable pub settle : (Alert → Bool) → ℕ → List Alert → List Alert
settle test now alerts = update_first test (resolve now) alerts

pub record StatusInput : Type 0 where
  pub alert_id : String
  pub status : AlertStatus
  pub actor_user_id : String

abbrev pub is_acknowledged : AlertStatus → Bool
is_acknowledged acknowledged = true
is_acknowledged _ = false

abbrev pub is_over : AlertStatus → Bool
is_over resolved = true
is_over closed = true
is_over _ = false

abbrev pub write_status : ℕ → StatusInput → Alert → Alert
write_status now i a = record a {
  status = i.status;
  acknowledged_by = if is_acknowledged i.status then some i.actor_user_id else a.acknowledged_by;
  resolved_at = if is_over i.status then some now else a.resolved_at;
}

unfoldable pub update_alert_status : ℕ → StatusInput → List Alert → List Alert × Option Alert
update_alert_status now i alerts = elim (find? (λ a. a.id === i.alert_id) alerts) [
  | none ↦ (alerts, none)
  | some a ↦ (
    update_first (λ a. a.id === i.alert_id) (write_status now i) alerts,
    some (write_status now i a),
  )
]

-- A row of `checks`, less its threshold, which is 90 in each.
pub record Check : Type 0 where
  pub code : String
  pub value : Option Ratio
  pub severity : String
  pub title : String

-- `limit > 0 ? used / limit * 100 : null`
abbrev pub share : ℕ → ℕ → Option Ratio
share used limit = if ltb 0 limit then some (record { used = used * 100; limit = limit }) else none

unfoldable pub checks : ResourceSample → List Check
checks r =
    (record {
      code = "resource.cpu.high";
      value = elim r.sample.cpu_percent [
        | none ↦ none
        | some p ↦ some (record { used = p; limit = max 1 (or_else r.sample.cpu_count 1) })
      ];
      severity = "high";
      title = "Agent CPU 使用率过高";
    })
    ∷ (record {
      code = "resource.memory.high";
      value = share r.sample.memory_used_bytes r.sample.memory_limit_bytes;
      severity = "high";
      title = "Agent 内存使用率过高";
    })
    ∷ (record {
      code = "resource.storage.high";
      value = share r.sample.host_storage_used_bytes r.sample.host_storage_limit_bytes;
      severity = "critical";
      title = "Agent 主机存储使用率过高";
    })
    ∷ []

-- `Number.isFinite(value) && value >= 90`
abbrev pub is_high : Option Ratio → Bool
is_high none = false
is_high (some r) = leb (90 * r.limit) r.used

abbrev pub ratio_of : Option Ratio → Ratio
ratio_of none = record { used = 0; limit = 1 }
ratio_of (some r) = r

abbrev pub resource_alert : String → ResourceSample → Check → Alert
resource_alert fresh r c = record {
  id = fresh;
  organization_id = r.organization_id;
  agent_id = r.sample.agent_id;
  runtime_id = r.sample.runtime_id;
  code = c.code;
  status = open_alert;
  severity = c.severity;
  title = c.title;
  summary = usage (ratio_of c.value) 90;
  first_seen_at = r.sample.observed_at;
  last_seen_at = r.sample.observed_at;
  created_at = r.received_at;
  acknowledged_by = none;
  resolved_at = none;
}

abbrev pub write_usage : ResourceSample → Check → Alert → Alert
write_usage r c a = record a {
  severity = c.severity;
  title = c.title;
  summary = usage (ratio_of c.value) 90;
  last_seen_at = r.sample.observed_at;
}

-- One round of the loop.
unfoldable pub evaluate_check : String → ResourceSample → Check → List Alert → List Alert
unfolding raise settle
evaluate_check fresh r c alerts =
    if is_high c.value
    then raise (is_alert_of r.sample.agent_id c.code) (write_usage r c) (resource_alert fresh r c)
        alerts
    else settle (is_alert_of r.sample.agent_id c.code) r.received_at alerts

-- `fresh n` is the identifier that round `n` draws if it needs one.
unfoldable pub evaluate_each :
    (ℕ → String) → ℕ → ResourceSample → List Check → List Alert → List Alert
unfolding evaluate_check
evaluate_each fresh n r [] alerts = alerts
evaluate_each fresh n r (c ∷ cs) alerts =
    evaluate_each fresh (suc n) r cs (evaluate_check (fresh n) r c alerts)

unfoldable pub evaluate_resource_alerts : (ℕ → String) → ResourceSample → List Alert → List Alert
unfolding evaluate_each checks
evaluate_resource_alerts fresh r alerts = evaluate_each fresh 0 r (checks r) alerts

-- The states in which no heartbeat is awaited.
abbrev pub is_silent : String → Bool
is_silent status =
    any (λ s. s === status)
      ("uninitialized" ∷ "stopped" ∷ "suspended" ∷ "deleting" ∷ "deleted" ∷ [])

abbrev pub awaits_heartbeat : Option Agent → AgentRuntime → Bool
awaits_heartbeat none r = false
awaits_heartbeat (some a) r = a.desired_runtime_state === "running" && not (is_silent r.status)

-- `!lastHeartbeatAt || lastHeartbeatAt < Date.now() - staleAfterMs`
abbrev pub is_stale : ℕ → ℕ → AgentRuntime → Bool
is_stale now stale_after r = elim r.last_heartbeat_at [
  | none ↦ true
  | some t ↦ ltb (t + stale_after) now
]

abbrev pub offline_alert : ℕ → String → ℕ → AgentRuntime → Alert
offline_alert now fresh stale_after r = record {
  id = fresh;
  organization_id = r.organization_id;
  agent_id = r.agent_id;
  runtime_id = r.id;
  code = "runtime.offline";
  status = open_alert;
  severity = "high";
  title = "Agent Runtime 离线";
  summary = silent_for stale_after;
  first_seen_at = now;
  last_seen_at = now;
  created_at = now;
  acknowledged_by = none;
  resolved_at = none;
}

abbrev pub write_offline : ℕ → ℕ → Alert → Alert
write_offline now stale_after a = record a { summary = silent_for stale_after; last_seen_at = now }

-- One round of the loop over the Runtimes. The list that the call answers is left out.
unfoldable pub evaluate_offline :
    ℕ → String → ℕ → List (String × Agent) → AgentRuntime → List Alert → List Alert
unfolding raise settle
evaluate_offline now fresh stale_after agents r alerts =
    if awaits_heartbeat (lookup r.agent_id agents) r && is_stale now stale_after r
    then raise (is_alert_of r.agent_id "runtime.offline") (write_offline now stale_after)
        (offline_alert now fresh stale_after r) alerts
    else settle (is_alert_of r.agent_id "runtime.offline") now alerts

pub record OfflineInput : Type 0 where
  pub organization_id : Option String
  pub stale_after_ms : Option ℕ

unfoldable pub evaluate_runtimes :
    ℕ
    → (ℕ → String)
    → ℕ
    → OfflineInput
    → List (String × Agent)
    → List AgentRuntime
    → List Alert
    → List Alert
unfolding evaluate_offline
evaluate_runtimes now fresh n i agents [] alerts = alerts
evaluate_runtimes now fresh n i agents (r ∷ rs) alerts =
    evaluate_runtimes now fresh (suc n) i agents rs (
      if matches_or_any i.organization_id r.organization_id
      then evaluate_offline now (fresh n) (or_else i.stale_after_ms 120000) agents r alerts
      else alerts)

unfoldable pub evaluate_offline_alerts : ℕ → (ℕ → String) → OfflineInput → Store → Store
unfolding evaluate_runtimes
evaluate_offline_alerts now fresh i s = record s {
  alerts = evaluate_runtimes now fresh 0 i s.agents (values s.runtimes) s.alerts;
}
