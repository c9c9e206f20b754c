-- ===== src/Scenes/Examples.antt =====
-- A scene with two patches (packages/db/memory-repository.mjs).
use bai_rui_cloud_agent_plat.Json.{Value}
use bai_rui_cloud_agent_plat.Fleet.Store.{Agent}
use bai_rui_cloud_agent_plat.Prelude.{List, [], map, none, refl, some, ◌∷◌, ◌≡◌, true}
use bai_rui_cloud_agent_plat.Scenes.Steps.{
  ensure, intend, SceneCall, calls, IsFaithful, calls-IsFaithful,
}
use bai_rui_cloud_agent_plat.Scenes.{
  Store, EnsureInput, IntentInput, apply_agent_scene_intent, ensure_agent_scene,
}

abbrev pub an_agent : Agent
an_agent = record {
  id = "a1";
  organization_id = "org";
  owner_user_id = "u1";
  name = "Ada";
  description = "";
  avatar_url = none;
  soul_markdown = "";
  status = "active";
  initialization_status = "ready";
  desired_runtime_state = "running";
  settings = Value.null;
  last_error_code = none;
  last_error_detail = none;
  created_at = 0;
  updated_at = 0;
}

abbrev pub start : Store
start = record { agents = ("a1", an_agent) ∷ []; scenes = []; events = [] }

abbrev pub opened : EnsureInput
opened = record {
  organization_id = "org";
  user_id = "u1";
  agent_id = "a1";
  scene_id = "main";
  view = none;
}

abbrev pub shown : IntentInput
shown = record {
  organization_id = "org";
  user_id = "u1";
  agent_id = "a1";
  scene_id = "main";
  action = "open";
  expected_revision = some 0;
  view = some (Value.bool true);
  event_id = none;
}

abbrev some_calls : List SceneCall
some_calls =
    ensure 1 opened
    ∷ intend 2 "e1" shown
    ∷ intend 3 "e2" shown
    ∷ intend 4 "e3" (record shown { expected_revision = none })
    ∷ []

-- The second intent is made against a revision that the scene has left.
two_events : map (λ p. p.id) (calls some_calls start).events ≡ "e1" ∷ "e3" ∷ []
unfolding calls apply_agent_scene_intent ensure_agent_scene
two_events = refl

pub start-IsFaithful : IsFaithful start
start-IsFaithful = record {
  each =
      λ key. record { absent = λ h. tt; named = λ x h. absurd (cc); rebuilt = λ x h. absurd (cc) };
}

calls-IsFaithful_example : IsFaithful (calls some_calls start)
calls-IsFaithful_example = calls-IsFaithful some_calls start start-IsFaithful
