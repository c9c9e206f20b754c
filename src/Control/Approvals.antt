-- ===== src/Control/Approvals.antt =====
-- decideControlApproval of packages/db/memory-repository.mjs.
pub mod Once
use bai_rui_cloud_agent_plat.Prelude.{
  Bool, Option, String, false, find?, if◌then◌else◌, ltb, matches_or_any, none, some, true,
  update_first, ℕ, ◌&&◌, ◌===◌,
}
use bai_rui_cloud_agent_plat.Control.Store.{
  cancelled, pending, rejected, Decision, Approval, Command, Restore, Store, is_queued,
}

pub record DecisionInput : Type 0 where
  pub approval_id : String
  pub organization_id : Option String
  pub decision : Decision
  pub decided_by : String
  pub reason : String

abbrev pub is_pending : Decision → Bool
is_pending pending = true
is_pending _ = false

abbrev pub is_rejected : Decision → Bool
is_rejected rejected = true
is_rejected _ = false

-- The approval that the input names, in the organization that it names.
abbrev pub is_named : DecisionInput → Approval → Bool
is_named i a = a.id === i.approval_id && matches_or_any i.organization_id a.organization_id

abbrev pub decide : ℕ → DecisionInput → Approval → Approval
decide now i a = record a {
  decision = i.decision;
  decided_by = some i.decided_by;
  reason = i.reason;
  decided_at = some now;
}

abbrev pub cancel_queued : Command → Command
cancel_queued c = if is_queued c.state then record c { state = cancelled } else c

abbrev pub reject_restore : ℕ → Restore → Restore
reject_restore now r = record r {
  status = "cancelled";
  error_code = some "approval_rejected";
  error_summary = some "Backup restore approval was rejected";
  completed_at = some now;
}

abbrev pub is_restore : Option Command → Bool
is_restore none = false
is_restore (some c) = c.action === "backup.restore"

-- What a rejection writes besides the approval.
unfoldable pub reject_command : ℕ → String → Store → Store
reject_command now command s = record s {
  commands = update_first (λ c. c.id === command) cancel_queued s.commands;
  world = record (s.world) {
    restores =
        if is_restore (find? (λ c. c.id === command) s.commands)
        then update_first (λ r. r.command_id === command) (reject_restore now) s.world.restores
        else s.world.restores;
  };
}

-- The answer: `null`, the exception `approval_not_pending`, or the approval.
pub data DecisionAnswer : Type 0 where
  no_approval : DecisionAnswer
  approval_not_pending : DecisionAnswer
  decided : Approval → DecisionAnswer

unfoldable pub decide_control_approval : ℕ → DecisionInput → Store → Store × DecisionAnswer
unfolding reject_command
decide_control_approval now i s = elim (find? (is_named i) s.approvals) [
  | none ↦ (s, no_approval)
  | some a ↦ elim (is_pending a.decision && ltb now a.expires_at) [
    | false ↦ (s, approval_not_pending)
    | true ↦
        let t = record s { approvals = update_first (is_named i) (decide now i) s.approvals } in
        (
          if is_rejected i.decision then reject_command now a.command_id t else t,
          decided (decide now i a),
        )
  ]
]
