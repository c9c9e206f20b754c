-- ===== src/Accounts/Unique.antt =====
-- What no two accounts share (packages/db/memory-repository.mjs).
-- No two users have one address, and no two Runtimes serve one Agent.
use bai_rui_cloud_agent_plat.Prelude.{String, count, values, ◌≤◌}
use bai_rui_cloud_agent_plat.Accounts.{Store, has_email}
use bai_rui_cloud_agent_plat.Accounts.Agents.{serves}

pub record IsUnique (s : Store) : Type 0 where
  pub emails : (email : String) → count (has_email email) (values s.users) ≤ 1
  pub agents : (agent : String) → count (serves agent) (values s.runtimes) ≤ 1
