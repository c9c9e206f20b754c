-- ===== src/Control/Recording.antt =====
-- recordCommandReceipt of packages/db/memory-repository.mjs, as a whole.
-- The command is found, and held by the server for this attempt.
pub mod Repeated
use bai_rui_cloud_agent_plat.Prelude.{
  Bool, String, [], false, find?, is_text, none, some, true, update_first, ℕ, ◌&&◌, ◌*◌, ◌++◌, ◌+◌,
  ◌===◌, ◌==◌, ◌∷◌, if◌then◌else◌,
}
use bai_rui_cloud_agent_plat.Control.Store.{
  ReceiptInput, Receipt, Command, same_state, Store, is_running, World,
}
use bai_rui_cloud_agent_plat.Control.Receipts.{
  deployment_effects, world_of, is_thrown, Outcome, and_then, done,
}
use bai_rui_cloud_agent_plat.Control.Effects.{
  config_effects, provider_effects, release_effects, candidate_effects,
}
use bai_rui_cloud_agent_plat.Control.Effects.Maintenance.{
  test_effects, backup_effects, restore_effects,
}

abbrev pub is_holder : ReceiptInput → Command → Bool
is_holder i c = is_text c.lease_server_id i.server_id && c.attempt == i.attempt

abbrev pub same_receipt : ReceiptInput → Receipt → Bool
same_receipt i r =
    r.input.command_id === i.command_id
    && r.input.attempt == i.attempt
    && same_state r.input.state i.state

abbrev pub write_receipt : ℕ → ReceiptInput → Command → Command
write_receipt now i c = record c {
  state = i.state;
  lease_expires_at = if is_running i.state then some (now + 5 * 60000) else c.lease_expires_at;
}

abbrev pub new_receipt : ℕ → String → ReceiptInput → Command → Receipt
new_receipt now fresh i c = record {
  id = fresh;
  input = i;
  deployment_id = c.deployment_id;
  created_at = now;
}

-- The blocks after the command's own state.
unfoldable pub receipt_effects : ℕ → ReceiptInput → Command → World → Outcome
unfolding deployment_effects config_effects provider_effects test_effects backup_effects
    restore_effects release_effects candidate_effects
receipt_effects now i c s = and_then (deployment_effects now i c s) (λ t.
    and_then (config_effects now i c t) (λ u. done (
      candidate_effects i c (
        release_effects i c (
          restore_effects now i c
            (backup_effects now i c (test_effects now i c (provider_effects now i c u))))))))

-- The answer is `none` for `null`; an exception leaves what was written before it.
pub data Answer : Type 0 where
  receipt : Receipt → Answer
  refused : Answer
  failure : Answer

unfoldable pub record_command_receipt : ℕ → String → ReceiptInput → Store → Store × Answer
unfolding receipt_effects
record_command_receipt now fresh i s = elim (find? (λ c. c.id === i.command_id) s.commands) [
  | none ↦ (s, refused)
  | some c ↦ elim (is_holder i c) [
    | false ↦ (s, refused)
    | true ↦ elim (find? (same_receipt i) s.receipts) [
      | some r ↦ (s, receipt r)
      | none ↦
          let new = new_receipt now fresh i c in
          let after = receipt_effects now i (write_receipt now i c) s.world in
          (
            record s {
              commands = update_first (λ c. c.id === i.command_id) (write_receipt now i) s.commands;
              receipts = s.receipts ++ new ∷ [];
              world = world_of after;
            },
            if is_thrown after then failure else receipt new,
          )
    ]
  ]
]
