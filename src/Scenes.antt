-- ===== src/Scenes.antt =====
-- Agents' scenes in MemoryPlatformRepository (packages/db/memory-repository.mjs). A view is a JSON
-- value that the repository only copies.
pub mod Replay
pub mod Steps
pub mod Examples
use Prim.Native.String
use bai_rui_cloud_agent_plat.Prelude.{
  Bool, List, Option, String, [], false, filter, if◌then◌else◌, lookup, ltb, max, min, none, not,
  or_else, put, some, take, true, update_key, ℕ, ◌&&◌, ◌++◌, ◌+◌, ◌===◌, ◌==◌, ◌∷◌,
}
use bai_rui_cloud_agent_plat.Json.{Value, obj, field, codes, arr, nil, end}
use bai_rui_cloud_agent_plat.Fleet.Store.{Agent}

pub record Scene : Type 0 where
  pub organization_id : String
  pub user_id : String
  pub agent_id : String
  pub scene_id : String
  pub revision : ℕ
  pub view : Value
  pub created_at : ℕ
  pub updated_at : ℕ

-- An event's one operation replaces the view.
pub record Patch : Type 0 where
  pub id : String
  pub organization_id : String
  pub user_id : String
  pub agent_id : String
  pub scene_id : String
  pub base_revision : ℕ
  pub revision : ℕ
  pub view : Value
  pub created_at : ℕ

pub record Store : Type 0 where
  pub agents : List (String × Agent)
  pub scenes : List (String × Scene)
  pub events : List Patch

pub record EnsureInput : Type 0 where
  pub organization_id : String
  pub user_id : String
  pub agent_id : String
  pub scene_id : String
  pub view : Option Value

pub record IntentInput : Type 0 where
  pub organization_id : String
  pub user_id : String
  pub agent_id : String
  pub scene_id : String
  pub action : String
  pub expected_revision : Option ℕ
  pub view : Option Value
  pub event_id : Option String

abbrev pub scene_key : String → String → String
scene_key agent scene = String.◌++◌ agent (String.◌++◌ ":" scene)

-- `{ surfaces: [] }`
abbrev pub empty_view : Value
empty_view = obj (field (codes "surfaces") (arr nil) end)

abbrev pub new_scene : ℕ → EnsureInput → Scene
new_scene now i = record {
  organization_id = i.organization_id;
  user_id = i.user_id;
  agent_id = i.agent_id;
  scene_id = i.scene_id;
  revision = 0;
  view = or_else i.view empty_view;
  created_at = now;
  updated_at = now;
}

abbrev pub owns : EnsureInput → Agent → Bool
owns i a = a.organization_id === i.organization_id && a.owner_user_id === i.user_id

unfoldable pub ensure_agent_scene : ℕ → EnsureInput → Store → Store × Option Scene
ensure_agent_scene now i s = elim (lookup i.agent_id s.agents) [
  | none ↦ (s, none)
  | some a ↦ elim (owns i a) [
    | false ↦ (s, none)
    | true ↦ elim (lookup (scene_key i.agent_id i.scene_id) s.scenes) [
      | some x ↦ (s, some x)
      | none ↦ (
        record s { scenes = put (scene_key i.agent_id i.scene_id) (new_scene now i) s.scenes },
        some (new_scene now i),
      )
    ]
  ]
]

abbrev pub is_reader : String → String → Scene → Bool
is_reader organization user x = x.organization_id === organization && x.user_id === user

-- What a call answers: `null`, the scene as it is, the conflict, or the scene and its patch.
pub data IntentAnswer : Type 0 where
  no_scene : IntentAnswer
  resynced : Scene → IntentAnswer
  conflict : Scene → IntentAnswer
  applied : Scene → Patch → IntentAnswer

-- `expectedRevision !== undefined && Number(expectedRevision) !== scene.revision`
abbrev pub is_stale_intent : Option ℕ → ℕ → Bool
is_stale_intent none revision = false
is_stale_intent (some e) revision = not (e == revision)

abbrev pub advance : ℕ → IntentInput → Scene → Scene
advance now i x = record x {
  revision = x.revision + 1;
  view = or_else i.view x.view;
  updated_at = now;
}

abbrev pub patch_of : ℕ → String → IntentInput → Scene → Patch
patch_of now fresh i x = record {
  id = or_else i.event_id fresh;
  organization_id = x.organization_id;
  user_id = x.user_id;
  agent_id = x.agent_id;
  scene_id = x.scene_id;
  base_revision = x.revision;
  revision = x.revision + 1;
  view = or_else i.view x.view;
  created_at = now;
}

unfoldable pub apply_agent_scene_intent : ℕ → String → IntentInput → Store → Store × IntentAnswer
apply_agent_scene_intent now fresh i s = elim (lookup (scene_key i.agent_id i.scene_id) s.scenes) [
  | none ↦ (s, no_scene)
  | some x ↦ elim (is_reader i.organization_id i.user_id x) [
    | false ↦ (s, no_scene)
    | true ↦ elim (i.action === "resync") [
      | true ↦ (s, resynced x)
      | false ↦ elim (is_stale_intent i.expected_revision x.revision) [
        | true ↦ (s, conflict x)
        | false ↦ (
          record s {
            scenes = update_key (scene_key i.agent_id i.scene_id) (advance now i) s.scenes;
            events = s.events ++ patch_of now fresh i x ∷ [];
          },
          applied (advance now i x) (patch_of now fresh i x),
        )
      ]
    ]
  ]
]

unfoldable pub get_agent_scene : String → String → String → String → Store → Option Scene
get_agent_scene organization user agent scene s = elim (lookup (scene_key agent scene) s.scenes) [
  | none ↦ none
  | some x ↦ if is_reader organization user x then some x else none
]

pub record EventsInput : Type 0 where
  pub organization_id : String
  pub user_id : String
  pub agent_id : String
  pub scene_id : String
  pub after_revision : Option ℕ
  pub limit : Option ℕ

abbrev pub is_event_of : String → String → String → String → Patch → Bool
is_event_of organization user agent scene p =
    p.organization_id === organization
    && p.user_id === user
    && p.agent_id === agent
    && p.scene_id === scene

-- `Math.max(1, Math.min(Number(limit) || 100, 500))`
abbrev pub events_limit : Option ℕ → ℕ
events_limit none = 100
events_limit (some n) = max 1 (min (if n == 0 then 100 else n) 500)

unfoldable pub list_agent_scene_events : EventsInput → Store → List Patch
list_agent_scene_events i s = take (events_limit i.limit) (
    filter
      (λ p.
        is_event_of i.organization_id i.user_id i.agent_id i.scene_id p
        && ltb (or_else i.after_revision 0) p.revision)
      s.events)
