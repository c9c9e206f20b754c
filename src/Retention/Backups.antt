-- ===== src/Retention/Backups.antt =====
-- Backups whose time is over (packages/db/memory-repository.mjs).
use Prim.Native.String
use bai_rui_cloud_agent_plat.Prelude.{
  Bool, List, String, [], any, false, find?, is_text, none, not, some, suc, true, ℕ, ◌&&◌, ◌*◌, ◌+◌,
  ◌===◌, ◌∷◌,
}
use bai_rui_cloud_agent_plat.Control.Store.{queued, Restore, Backup, is_one_of, Command}
use bai_rui_cloud_agent_plat.Fleet.Store.{Deployment}
use bai_rui_cloud_agent_plat.Control.Lifecycle.{no_arguments}
use bai_rui_cloud_agent_plat.Control.Leasing.{set_backup_status}
use bai_rui_cloud_agent_plat.Retention.Data.{Policy, day, Store, is_recent}

abbrev pub is_restoring : List Restore → Backup → Bool
is_restoring restores b =
    any (λ r. is_text r.backup_id b.id && is_one_of ("requested" ∷ "running" ∷ []) r.status)
      restores

abbrev pub is_expirable : ℕ → ℕ → List Restore → Backup → Bool
is_expirable now age restores b =
    not (is_restoring restores b)
    && is_one_of ("created" ∷ "verified" ∷ "failed" ∷ []) b.status
    && not (is_recent now age (some b.created_at))

abbrev pub is_own_deployment : String → Backup → Deployment → Bool
is_own_deployment id b d = d.id === b.deployment_id && d.organization_id === id

abbrev pub expire_command : ℕ → String → String → String → Policy → Backup → Deployment → Command
expire_command now fresh run id p b d = record {
  id = fresh;
  organization_id = some id;
  deployment_id = d.id;
  agent_id = d.agent_id;
  idempotency_key =
      some
        (String.◌++◌ d.id (String.◌++◌ "/backup.expire/" (String.◌++◌ b.id (String.◌++◌ "/" run))));
  action = "backup.expire";
  instance_id = d.agent_id;
  arguments = record no_arguments { backup_id = some b.id };
  approval_id = none;
  expected_observation_version = d.observed_state_version;
  state = queued;
  priority = 200;
  attempt = 0;
  requested_by = p.updated_by;
  lease_server_id = none;
  lease_expires_at = none;
  expires_at = now + day;
  created_at = now;
}

-- The backups after the loop, and the commands that it has queued.
unfoldable pub expire_backups :
    ℕ
    → (ℕ → String)
    → String
    → String
    → Policy
    → Store
    → ℕ
    → List Backup
    → List Backup × List Command
expire_backups now fresh run id p s n [] = ([], [])
expire_backups now fresh run id p s n (b ∷ bs) =
    elim (find? (is_own_deployment id b) s.deployments) [
      | none ↦ let rest = expire_backups now fresh run id p s n bs in (b ∷ rest.0, rest.1)
      | some d ↦ elim (is_expirable now (p.backup_days * day) s.restores b) [
        | false ↦ let rest = expire_backups now fresh run id p s n bs in (b ∷ rest.0, rest.1)
        | true ↦
            let rest = expire_backups now fresh run id p s (suc n) bs in
            (
              set_backup_status "expiring" b ∷ rest.0,
              expire_command now (fresh n) run id p b d ∷ rest.1,
            )
      ]
    ]
