-- ===== src/Fleet/Requests/Single.antt =====
-- The alerts after any sequence of requests (packages/db/memory-repository.mjs).
use bai_rui_cloud_agent_plat.Prelude.{
  ℕ, suc, String, List, [], ◌∷◌, false, find?, ◌≡◌, inl, inr, arith, Bool-cases, Option-cases,
  lookup, values,
}
use bai_rui_cloud_agent_plat.Fleet.Store.{HeartbeatInput, SampleInput, Store}
use bai_rui_cloud_agent_plat.Fleet.Alerts.{evaluate_offline_alerts}
use bai_rui_cloud_agent_plat.Fleet.Alerts.Once.{
  IsOnce, evaluate_resource_alerts-IsOnce, evaluate_runtimes-IsOnce, health_alerts-IsOnce,
  update_alert_status-IsOnce,
}
use bai_rui_cloud_agent_plat.Fleet.Heartbeats.{is_pair, record_heartbeat, save_agent_heartbeat}
use bai_rui_cloud_agent_plat.Fleet.Samples.{
  sample_owner, save_sample, save_samples, save_agent_resource_samples, new_sample, sample_to_store,
  same_sample,
}
use bai_rui_cloud_agent_plat.Fleet.Requests.{
  AlertRequest, save_heartbeat, save_samples_of, check_offline, set_status, run_request,
  run_requests, reopens, any_reopens,
}

save_agent_heartbeat-IsOnce :
    (now : ℕ) (fresh fresh_event : ℕ → String) (i : HeartbeatInput) (s : Store)
    → IsOnce s.alerts
    → IsOnce (save_agent_heartbeat now fresh fresh_event i s).0.alerts
unfolding save_agent_heartbeat record_heartbeat
save_agent_heartbeat-IsOnce now fresh fresh_event i s once =
    elim (Bool-cases (is_pair (lookup i.runtime_id s.runtimes) (lookup i.agent_id s.agents))) [
      | inl t ↦ rw (save_agent_heartbeat, t) (health_alerts-IsOnce now (fresh 1) i s.alerts once)
      | inr n ↦ rw (save_agent_heartbeat, n) once
    ]

save_samples-IsOnce :
    (now : ℕ) (fresh : ℕ → ℕ → String) (n : ℕ) (server : String) (xs : List SampleInput) (s : Store)
    → IsOnce s.alerts
    → IsOnce (save_samples now fresh n server xs s).0.alerts
unfolding save_samples save_sample
save_samples-IsOnce now fresh n server [] s once = once
save_samples-IsOnce now fresh n server (x ∷ xs) s once =
    elim (Option-cases (sample_owner server x s)) [
      | inl e ↦ rw (save_samples, save_sample, e) once
      | inr (owner, e) ↦
          rw (save_samples, save_sample, e)
            (save_samples-IsOnce now fresh (suc n) server xs _ (
              evaluate_resource_alerts-IsOnce (fresh n)
                (sample_to_store (new_sample now (fresh n 3) server x owner)
                  (find? (same_sample x) s.samples))
                s.alerts once))
    ]

run_request-IsOnce :
    (r : AlertRequest) (s : Store)
    → reopens r s ≡ false
    → IsOnce s.alerts
    → IsOnce (run_request r s).alerts
unfolding run_request reopens evaluate_offline_alerts save_agent_resource_samples
run_request-IsOnce (save_heartbeat now fresh fresh_event i) s quiet once =
    save_agent_heartbeat-IsOnce now fresh fresh_event i s once
run_request-IsOnce (save_samples_of now fresh i) s quiet once =
    save_samples-IsOnce now fresh 0 i.server_id i.samples s once
run_request-IsOnce (check_offline now fresh i) s quiet once =
    evaluate_runtimes-IsOnce now fresh 0 i s.agents (values s.runtimes) s.alerts once
run_request-IsOnce (set_status now i) s quiet once =
    update_alert_status-IsOnce now i s.alerts quiet once

-- After any sequence of heartbeats, resource samples, offline checks and changes of an alert's
-- status, an Agent has at most one open or acknowledged alert under each code, if this held before
-- and no change of status makes an alert active again that is resolved or closed.
pub run_requests-IsOnce :
    (rs : List AlertRequest) (s : Store)
    → any_reopens rs s ≡ false
    → IsOnce s.alerts
    → IsOnce (run_requests rs s).alerts
unfolding run_requests any_reopens
run_requests-IsOnce [] s quiet once = once
run_requests-IsOnce (r ∷ rs) s quiet once =
    run_requests-IsOnce rs (run_request r s) (ground arith)
      (run_request-IsOnce r s (ground arith) once)
