-- ===== src/Fleet/Heartbeats/Health.antt =====
-- What a heartbeat leaves active under runtime.health (packages/db/memory-repository.mjs).
use bai_rui_cloud_agent_plat.Prelude.{
  ◌≤◌, String, Bool, ◌||◌, ◌===◌, find?, inl, inr, refl, eq_refl, Option-cases, find?-none,
  find?-none, count-append, count-zero_of_All, count-update_first, weight, eq_refl, Option-cases,
  find?, ◌≤◌, inl, inr, refl, count-append, count-update_first, count-zero_of_All, weight,
}
use bai_rui_cloud_agent_plat.Fleet.Store.{Store}

unfoldable pub is_unwell : String → Bool
is_unwell status = status === "degraded" || status === "unhealthy"
