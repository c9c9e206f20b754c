-- ===== src/Control/Effects/Maintenance.antt =====
-- What receipts of tests, backups and restores do (packages/db/memory-repository.mjs).
use Prim.Native.String
use Prim.Native.Char.{code}
use bai_rui_cloud_agent_plat.Prelude.{
  List, Option, String, [], is_text, none, or_else, ℕ, ◌&&◌, ◌===◌, ◌==◌, ◌∷◌, some, if◌then◌else◌,
  update_first, same_option,
}
use bai_rui_cloud_agent_plat.Control.Store.{
  is_one_of, CommandState, Command, ReceiptInput, World, TestRun, Backup, Restore, is_failed,
  is_succeeded, is_running, is_cancelled,
}
use bai_rui_cloud_agent_plat.Control.Leasing.{set_backup_status}

unfoldable pub test_status : ℕ → CommandState → TestRun → TestRun
test_status now state r =
    if is_running state
    then record r { status = "running"; started_at = some (or_else r.started_at now) }
    else if is_succeeded state
    then record r { status = "passed"; completed_at = some now }
    else if is_failed state
    then record r { status = "failed"; completed_at = some now }
    else r

unfoldable pub test_effects : ℕ → ReceiptInput → Command → World → World
unfolding test_status
test_effects now i c s =
    if is_one_of ("probe.run" ∷ "contract.test" ∷ "smoke.test" ∷ []) c.action
    then record s {
      test_runs =
          update_first (λ r. is_text c.arguments.test_run_id r.id) (test_status now i.state)
            s.test_runs;
    }
    else s

-- `startsWith(prefix)` and then `slice(prefix.length)`.
unfoldable pub after_prefix : String → String → Option String
after_prefix String.[] t = some t
after_prefix (String.◌∷◌ c p) String.[] = none
after_prefix (String.◌∷◌ c p) (String.◌∷◌ d t) =
    let rest = after_prefix p t in if code c == code d then rest else none

unfoldable pub first_digest : List String → Option String
unfolding after_prefix
first_digest [] = none
first_digest (e ∷ es) =
    let rest = first_digest es in elim (after_prefix "sha256:" e) [ some d ↦ some d | none ↦ rest ]

unfoldable pub created_backup : ReceiptInput → Backup → Backup
unfolding first_digest
created_backup i b = record b {
  status = "created";
  storage_uri =
      some (String.◌++◌ "bairui-backup://" (String.◌++◌ i.server_id (String.◌++◌ "/" b.id)));
  sha256 = first_digest (or_else i.evidence_refs []);
  size_bytes = i.result_bytes;
}

-- A command of `backup.create` or `backup.verify`, and one of `backup.expire`.
unfoldable pub backup_status : ℕ → ReceiptInput → String → Backup → Backup
unfolding created_backup
backup_status now i action b =
    if is_failed i.state
    then set_backup_status "failed" b
    else if action === "backup.create"
    then (if is_succeeded i.state then created_backup i b else b)
    else if action === "backup.verify"
    then (if is_running i.state
        then set_backup_status "verifying" b
        else if is_succeeded i.state
        then record b { status = "verified"; verified_at = some now }
        else b)
    else if is_succeeded i.state
    then record b { status = "expired"; storage_uri = none; expired_at = some now }
    else b

unfoldable pub backup_effects : ℕ → ReceiptInput → Command → World → World
unfolding backup_status
backup_effects now i c s =
    if is_one_of ("backup.create" ∷ "backup.verify" ∷ "backup.expire" ∷ []) c.action
    then record s {
      backups =
          update_first (λ b. is_text c.arguments.backup_id b.id) (backup_status now i c.action)
            s.backups;
    }
    else s

unfoldable pub restore_status : ℕ → ReceiptInput → Restore → Restore
restore_status now i r =
    if is_running i.state
    then record r { status = "running"; started_at = some (or_else r.started_at now) }
    else if is_succeeded i.state
    then record r {
      status = "succeeded";
      evidence_refs = or_else i.evidence_refs [];
      completed_at = some now;
    }
    else if is_failed i.state
    then record r {
      status = "failed";
      error_code = some (or_else i.error_code "restore_failed");
      error_summary = some (or_else i.error_summary "Backup restore failed");
      completed_at = some now;
    }
    else if is_cancelled i.state
    then record r {
      status = "cancelled";
      error_code = some (or_else i.error_code "restore_cancelled");
      error_summary = some (or_else i.error_summary "Backup restore was cancelled");
      completed_at = some now;
    }
    else r

unfoldable pub restore_effects : ℕ → ReceiptInput → Command → World → World
unfolding restore_status
restore_effects now i c s =
    if c.action === "backup.restore"
    then record s {
      restores =
          update_first (λ r. same_option r.id c.arguments.restore_id && r.command_id === c.id)
            (restore_status now i) s.restores;
    }
    else s
