-- ===== src/SceneDocuments.antt =====
-- The documents that a scene is shown by (packages/scene/projection.mjs). The checks of the contracts'
-- package are arguments, and so are the clock and `randomUUID`. A stored view is never `null`, so
-- `scene.view ?? …` is the view.
use Prim.Native.String
use bai_rui_cloud_agent_plat.Scenes.{Scene, Patch}
use bai_rui_cloud_agent_plat.Json.{
  Value, Text, codes, obj, field, end, arr, cons, nil, str, num, finite, bool,
}
use bai_rui_cloud_agent_plat.Patterns.{first_then, is_alnum, one_of}
use bai_rui_cloud_agent_plat.Prelude.{
  Option, String, if◌then◌else◌, none, or_else, some, true, ℕ, ◌||◌,
}

pub record OwnerScope : Type 0 where
  pub organization_id : String
  pub user_id : String
  pub agent_id : String

pub record SceneSnapshot : Type 0 where
  pub schema_version : String
  pub scene_id : String
  pub owner_scope : OwnerScope
  pub revision : ℕ
  pub view : Value
  pub generated_at : ℕ
  pub correlation_id : String

pub record ScenePatch : Type 0 where
  pub schema_version : String
  pub scene_id : String
  pub owner_scope : OwnerScope
  pub base_revision : ℕ
  pub revision : ℕ
  pub view : Value
  pub generated_at : ℕ
  pub correlation_id : String

pub record SceneIntent : Type 0 where
  pub schema_version : String
  pub scene_id : Text
  pub owner_scope : OwnerScope
  pub intent_id : String
  pub action : String
  pub payload : Value
  pub created_at : ℕ
  pub correlation_id : String

-- `none` where the check throws.
pub record Contracts : Type 0 where
  pub validate_scene_snapshot : SceneSnapshot → Option SceneSnapshot
  pub validate_scene_patch : ScenePatch → Option ScenePatch
  pub validate_scene_intent : SceneIntent → Option SceneIntent

-- `/^[A-Za-z0-9][A-Za-z0-9._:/-]{0,255}$/`
unfoldable pub assert_scene_id : Text → Option Text
unfolding first_then
assert_scene_id id =
    if first_then is_alnum (λ c. is_alnum c || one_of "._:/-" c) 255 id then some id else none

-- What the default view reads of an Agent, if there is one.
pub record AgentSummary : Type 0 where
  pub operational_code : Option Text
  pub initialization_status : Option Text
  pub name : Option Text

unfoldable pub default_scene_view : AgentSummary → Value
default_scene_view a =
    let status =
      or_else a.operational_code (or_else a.initialization_status (codes "uninitialized")) in
    obj (
      field (codes "surfaces")
        (arr (
          cons
            (obj (
              field (codes "id") (str (codes "bairui-agent-status")) (
                field (codes "kind") (str (codes "metric")) (
                  field (codes "order") (num (finite 0)) (
                    field (codes "intent") (str (codes "inform")) (
                      field (codes "focus") (bool true) (
                        field (codes "data")
                          (obj (
                            field (codes "label") (str (or_else a.name (codes "bairui-agent"))) (
                              field (codes "value") (str status) (
                                field (codes "detail") (str (codes "Hermes Runtime"))
                                  (field (codes "status") (str status) end)))))
                          end)))))))
            nil))
        end)

unfoldable pub scene_snapshot : Contracts → OwnerScope → String → Scene → Option SceneSnapshot
scene_snapshot k scope trace x = k.validate_scene_snapshot (record {
  schema_version = "2.0";
  scene_id = x.scene_id;
  owner_scope = scope;
  revision = x.revision;
  view = x.view;
  generated_at = x.updated_at;
  correlation_id = trace;
})

unfoldable pub scene_patch : Contracts → OwnerScope → String → Patch → Option ScenePatch
scene_patch k scope trace p = k.validate_scene_patch (record {
  schema_version = "2.0";
  scene_id = p.scene_id;
  owner_scope = scope;
  base_revision = p.base_revision;
  revision = p.revision;
  view = p.view;
  generated_at = p.created_at;
  correlation_id = trace;
})

pub record IntentRequest : Type 0 where
  pub scene_id : Text
  pub owner_scope : OwnerScope
  pub action : String
  pub payload : Option Value
  pub trace : Option String
  pub intent_id : Option String
  pub created_at : Option ℕ

unfoldable pub scene_intent : Contracts → ℕ → String → String → IntentRequest → Option SceneIntent
unfolding assert_scene_id
scene_intent k now fresh_trace fresh_intent i = elim (assert_scene_id i.scene_id) [
  | none ↦ none
  | some id ↦ k.validate_scene_intent (record {
    schema_version = "2.0";
    scene_id = id;
    owner_scope = i.owner_scope;
    intent_id = or_else i.intent_id (String.◌++◌ "intent_" fresh_intent);
    action = i.action;
    payload = or_else i.payload (obj end);
    created_at = or_else i.created_at now;
    correlation_id = or_else i.trace fresh_trace;
  })
]

pub data Document : Type 0 where
  snapshot : SceneSnapshot → Document
  patch : ScenePatch → Document

-- `{ v: 1, type: "scene", … }` and `{ v: 1, type: "scene.patch", … }`
pub data Message : Type 0 where
  whole : ℕ → Value → Message
  change : ℕ → ℕ → Value → Message

unfoldable pub scene_event_message : Document → Message
scene_event_message (snapshot d) = whole d.revision d.view
scene_event_message (patch d) = change d.base_revision d.revision d.view
