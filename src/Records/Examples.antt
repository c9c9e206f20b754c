-- ===== src/Records/Examples.antt =====
-- Records on a small store (packages/db/memory-repository.mjs).
use bai_rui_cloud_agent_plat.Prelude.{List, [], arith, none, true, ◌∷◌}
use bai_rui_cloud_agent_plat.Records.Unique.{
  create_run, set_bookmark, RecordCall, IsUnique, run_records, run_records-IsUnique,
}
use bai_rui_cloud_agent_plat.Records.Data.{RunInput, BookmarkInput, Store}

abbrev a_run : RunInput
a_run = record {
  id = "r1";
  organization_id = "org";
  user_id = "u1";
  agent_id = "a1";
  parent_run_id = none;
  input_text = "hi";
  model = none;
  status = none;
  last_error = none;
  completed_at = none;
}

abbrev a_bookmark : BookmarkInput
a_bookmark = record {
  organization_id = "org";
  user_id = "u1";
  agent_id = "a1";
  hotspot_item_id = "h1";
  bookmarked = true;
}

abbrev blank : Store
blank = record { authorizations = []; runs = []; bookmarks = []; grants = [] }

abbrev some_records : List RecordCall
some_records =
    create_run 1 a_run
    ∷ create_run 2 a_run
    ∷ set_bookmark 3 a_bookmark
    ∷ set_bookmark 4 a_bookmark
    ∷ []

run_records-IsUnique_example : IsUnique (run_records some_records blank)
run_records-IsUnique_example = run_records-IsUnique some_records blank (record {
  authorizations_once = λ a b c. omega arith;
  runs_once = λ a. omega arith;
  bookmarks_once = λ a b. omega arith;
})
