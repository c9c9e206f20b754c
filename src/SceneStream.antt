-- ===== src/SceneStream.antt =====
-- The stream that a client reads a scene from (packages/scene/sse-transport.mjs). The clock,
-- `randomUUID`, and the repository at the moments at which the stream reads it are arguments.
mod Examples
pub mod Behind
pub mod Following
pub mod Rounds
pub mod Synced
use Prim.Native.String
use bai_rui_cloud_agent_plat.Scenes
use bai_rui_cloud_agent_plat.Scenes.{
  Scene, Patch, EventsInput, get_agent_scene, list_agent_scene_events,
}
use bai_rui_cloud_agent_plat.Scenes.Steps.{SceneCall, calls}
use bai_rui_cloud_agent_plat.Json.{
  Value, Text, codes, obj, field, end, arr, cons, nil, str, num, finite, bool,
}
use bai_rui_cloud_agent_plat.Patterns.{first_then, is_alnum, one_of}
use bai_rui_cloud_agent_plat.Prelude.{
  Bool, List, Option, String, [], false, if◌then◌else◌, leb, length, max, none, not, or_else, some,
  true, ℕ, ◌++◌, ◌+◌, ◌==◌, ◌||◌, ◌∷◌,
}
use bai_rui_cloud_agent_plat.SceneDocuments.{
  Contracts, OwnerScope, SceneSnapshot, ScenePatch, Document, Message, snapshot, patch,
  scene_snapshot, scene_patch, scene_event_message,
}

-- `Number` of a parameter or a header: a safe integer, or something else.
pub data Reading : Type 0 where
  natural : ℕ → Reading
  negative no_integer : Reading

abbrev pub at_least_zero : Reading → ℕ
at_least_zero (natural n) = n
at_least_zero _ = 0

unfoldable pub scene_event_cursor : Reading → Reading → ℕ
scene_event_cursor query header = max (at_least_zero query) (at_least_zero header)

-- What is written to the response.
pub data Output : Type 0 where
  head : Output
  retry_after : ℕ → Output
  frame : ℕ → String → Message → Output
  keepalive : ℕ → Output
  ended : Output

pub record Stream : Type 0 where
  pub cursor : ℕ
  pub last_heartbeat : ℕ
  pub is_open : Bool
  pub failed : Bool
  pub sent : List Output

abbrev pub write : Output → Stream → Stream
write o st = record st { sent = st.sent ++ o ∷ [] }

abbrev pub emit : Output → Stream → Stream
emit o st = if st.is_open then write o st else st

-- What happens from one round to the next: calls on scenes before the round and in its course, the
-- clock, and whether the client has gone before it. A client that goes in the course of a round is
-- one that has gone before the next.
pub record Moment : Type 0 where
  pub before : List SceneCall
  pub during : List SceneCall
  pub now : ℕ
  pub closed : Bool

-- After the loop. A stream that has failed is left to its caller.
abbrev pub leave : Stream → Stream
leave st = if st.failed then st else write ended (record st { is_open = false })

module _ (k : Contracts) (fresh : ℕ → String) (scope : OwnerScope) where
  -- The n-th document of a stream draws the n-th trace. A document that a check refuses ends it.
  unfoldable pub emit_snapshot : Scene → Stream → Stream
  unfolding scene_snapshot scene_event_message
  emit_snapshot x st = elim (scene_snapshot k scope (fresh (length st.sent)) x) [
    | none ↦ record st { failed = true }
    | some d ↦ record (emit (frame x.revision "scene" (scene_event_message (snapshot d))) st) {
      cursor = x.revision;
    }
  ]

  unfoldable pub emit_patch : Patch → ScenePatch → Stream → Stream
  unfolding scene_event_message
  emit_patch p d st =
      record (emit (frame p.revision "scene.patch" (scene_event_message (patch d))) st) {
        cursor = p.revision;
      }

  -- The loop over the events that a poll has found; `latest` is the scene for a client that missed one.
  unfoldable pub emit_each : Option Scene → List Patch → Stream → Stream
  unfolding emit_snapshot emit_patch scene_patch
  emit_each latest [] st = st
  emit_each latest (p ∷ ps) st = elim (p.base_revision == st.cursor) [
    | false ↦ elim latest [ none ↦ st | some x ↦ emit_snapshot x st ]
    | true ↦ elim (scene_patch k scope (fresh (length st.sent)) p) [
      | none ↦ record st { failed = true }
      | some d ↦ emit_each latest ps (emit_patch p d st)
    ]
  ]

  abbrev pub events_input : String → ℕ → EventsInput
  events_input scene cursor = record {
    organization_id = scope.organization_id;
    user_id = scope.user_id;
    agent_id = scope.agent_id;
    scene_id = scene;
    after_revision = some cursor;
    limit = some 100;
  }

  unfoldable pub emit_events : ℕ → Option Scene → List Patch → Stream → Stream
  unfolding emit_each
  emit_events now latest [] st =
      if leb (st.last_heartbeat + 15000) now
      then record (write (keepalive st.cursor) st) { last_heartbeat = now }
      else st
  emit_events now latest (p ∷ ps) st = emit_each latest (p ∷ ps) st

  -- One round: `s` is the repository when the events are listed, `t` when the scene is read.
  unfoldable pub poll : ℕ → String → Scenes.Store → Scenes.Store → Stream → Stream
  unfolding emit_events get_agent_scene list_agent_scene_events
  poll now scene s t st =
      emit_events now (get_agent_scene scope.organization_id scope.user_id scope.agent_id scene t)
        (list_agent_scene_events (events_input scene st.cursor) s) st

  -- The response until the loop: a client without a usable cursor is sent the scene.
  unfoldable pub open_stream : ℕ → Scene → ℕ → Stream
  unfolding emit_snapshot
  open_stream now x after =
      let st : Stream = record {
        cursor = after;
        last_heartbeat = now;
        is_open = true;
        failed = false;
        sent = head ∷ retry_after 3000 ∷ [];
      } in
      if after == 0 || not (leb after x.revision) then emit_snapshot x st else st

  -- The loop, for as many rounds as there are moments.
  unfoldable pub stream_rounds :
      String → List Moment → Scenes.Store → Stream → Stream × Scenes.Store
  unfolding poll calls
  stream_rounds scene [] s st = (st, s)
  stream_rounds scene (m ∷ ms) s st =
      let before = calls m.before s in
      let during = calls m.during before in
      if m.closed || st.failed || not st.is_open
      then (leave st, before)
      else stream_rounds scene ms during (poll m.now scene before during st)
