-- ===== src/Notebook/Examples.antt =====
-- Notes on a small store (packages/db/memory-repository.mjs).
use bai_rui_cloud_agent_plat.Prelude.{Evolves, String, [], any, map, none, refl, true, ℕ, ◌∷◌, ◌≡◌}
use bai_rui_cloud_agent_plat.Notebook.Queued.{
  create, NoteChange, run_change, IsMarked, mark_obsidian_projection-IsMarked, run_change-queued,
}
use bai_rui_cloud_agent_plat.Notebook.{
  ProjectedInput, mark_obsidian_projection, create_obsidian_note,
}
use bai_rui_cloud_agent_plat.Notebook.Data.{CreateInput, Store}
use bai_rui_cloud_agent_plat.Projection.{waits_for, enqueue}

abbrev an_input : CreateInput
an_input = record {
  id = none;
  organization_id = "org";
  user_id = "u1";
  agent_id = "a1";
  slug = "one";
  title = "One";
  markdown = "text";
  memory_kind = none;
  importance = none;
  hermes_target = none;
  source_ref = none;
  queue_projection = true;
  projection_reason = none;
}

abbrev names : ℕ → String
names n = "x"

abbrev nothing : Store
nothing = record { notes = []; jobs = [] }

abbrev a_change : NoteChange
a_change = create 1 names an_input

run_change-queued_example : any (waits_for "a1") (run_change a_change nothing).0.jobs ≡ true
unfolding run_change create_obsidian_note enqueue
run_change-queued_example = run_change-queued a_change nothing refl refl

abbrev a_report : ProjectedInput
a_report = record {
  organization_id = "org";
  user_id = "u1";
  agent_id = "a1";
  note_revisions = ("x", 1) ∷ [];
  included_note_ids = "x" ∷ [];
  conflict_note_ids = [];
}

materialized :
    map
      (λ n. n.hermes_sync_status)
      (mark_obsidian_projection 2 a_report (run_change a_change nothing).0).notes
    ≡ "materialized" ∷ []
unfolding mark_obsidian_projection run_change create_obsidian_note enqueue
materialized = refl

mark_obsidian_projection-IsMarked_example :
    Evolves
      (IsMarked a_report)
      (run_change a_change nothing).0.notes
      (mark_obsidian_projection 2 a_report (run_change a_change nothing).0).notes
mark_obsidian_projection-IsMarked_example =
    mark_obsidian_projection-IsMarked 2 a_report (run_change a_change nothing).0
