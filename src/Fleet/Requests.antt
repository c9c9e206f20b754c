-- ===== src/Fleet/Requests.antt =====
-- The calls of packages/db/memory-repository.mjs that write alerts, as requests.
pub mod Single
use bai_rui_cloud_agent_plat.Prelude.{
  ℕ, String, List, [], ◌∷◌, Bool, false, ◌&&◌, ◌||◌, not, ◌===◌, any,
}
use bai_rui_cloud_agent_plat.Fleet.Store.{is_active, HeartbeatInput, Store}
use bai_rui_cloud_agent_plat.Fleet.Alerts.{
  OfflineInput, StatusInput, evaluate_offline_alerts, update_alert_status,
}
use bai_rui_cloud_agent_plat.Fleet.Heartbeats.{save_agent_heartbeat}
use bai_rui_cloud_agent_plat.Fleet.Samples.{SamplesInput, save_agent_resource_samples}

-- Each call with the time and the identifiers that it draws.
pub data AlertRequest : Type 0 where
  save_heartbeat : ℕ → (ℕ → String) → (ℕ → String) → HeartbeatInput → AlertRequest
  save_samples_of : ℕ → (ℕ → ℕ → String) → SamplesInput → AlertRequest
  check_offline : ℕ → (ℕ → String) → OfflineInput → AlertRequest
  set_status : ℕ → StatusInput → AlertRequest

unfoldable pub run_request : AlertRequest → Store → Store
unfolding save_agent_heartbeat save_agent_resource_samples evaluate_offline_alerts
    update_alert_status
run_request (save_heartbeat now fresh fresh_event i) s =
    (save_agent_heartbeat now fresh fresh_event i s).0
run_request (save_samples_of now fresh i) s = (save_agent_resource_samples now fresh i s).0
run_request (check_offline now fresh i) s = evaluate_offline_alerts now fresh i s
run_request (set_status now i) s = record s { alerts = (update_alert_status now i s.alerts).0 }

unfoldable pub run_requests : List AlertRequest → Store → Store
unfolding run_request
run_requests [] s = s
run_requests (r ∷ rs) s = run_requests rs (run_request r s)

-- Whether a status is set that makes an alert active which is not.
unfoldable pub reopens : AlertRequest → Store → Bool
reopens (set_status now i) s =
    is_active i.status && any (λ a. a.id === i.alert_id && not (is_active a.status)) s.alerts
reopens _ s = false

unfoldable pub any_reopens : List AlertRequest → Store → Bool
unfolding reopens run_request
any_reopens [] s = false
any_reopens (r ∷ rs) s = reopens r s || any_reopens rs (run_request r s)
