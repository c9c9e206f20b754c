-- ===== src/SceneStream/Examples.antt =====
-- A stream over a scene that changes (packages/scene/sse-transport.mjs).
use bai_rui_cloud_agent_plat.Json.{codes, Value}
use bai_rui_cloud_agent_plat.Scenes
use bai_rui_cloud_agent_plat.Scenes.{
  Scene, new_scene, scene_key, ensure_agent_scene, get_agent_scene, apply_agent_scene_intent,
  list_agent_scene_events, advance,
}
use bai_rui_cloud_agent_plat.Scenes.Replay.{snapshot_of}
use bai_rui_cloud_agent_plat.Scenes.Steps.{ensure, intend, call, calls, calls-IsFaithful}
use bai_rui_cloud_agent_plat.Scenes.Examples.{start, opened, shown, start-IsFaithful}
use bai_rui_cloud_agent_plat.SceneDocuments.{Contracts, assert_scene_id, scene_snapshot}
use bai_rui_cloud_agent_plat.SceneStream.{
  Stream, Moment, scene_event_cursor, natural, negative, poll, open_stream, stream_rounds,
}
use bai_rui_cloud_agent_plat.SceneStream.Behind.{IsOrderly}
use bai_rui_cloud_agent_plat.SceneStream.Synced.{IsChecking, IsSynced, receive_all, scope_of}
use bai_rui_cloud_agent_plat.SceneStream.Rounds.{stream_rounds-IsSynced, poll-caught_up, followed}
use bai_rui_cloud_agent_plat.Prelude.{
  List, String, [], arith, false, inl, lookup, none, refl, some, sym, true, ℕ, ◌∷◌, ◌≡◌,
}

abbrev checker : Contracts
checker = record {
  validate_scene_snapshot = λ d. some d;
  validate_scene_patch = λ d. some d;
  validate_scene_intent = λ d. some d;
}

checker-IsChecking : IsChecking checker
checker-IsChecking = record {
  snapshots = λ d e h. (let same : d ≡ e = cc in sym same);
  patches = λ d e h. (let same : d ≡ e = cc in sym same);
}

abbrev traces : ℕ → String
traces n = "trace"

abbrev the_scene : Scene
the_scene = new_scene 1 opened

unfoldable begun : Scenes.Store
unfolding calls call ensure_agent_scene
begun = calls (ensure 1 opened ∷ []) start

begun-IsOrderly : IsOrderly begun
unfolding begun calls call ensure_agent_scene
begun-IsOrderly = record {
  faithful = calls-IsFaithful (ensure 1 opened ∷ []) start start-IsFaithful;
  stepwise = tt;
}

begun-found : lookup (scene_key the_scene.agent_id the_scene.scene_id) begun.scenes ≡ some the_scene
unfolding begun
begun-found = refl

abbrev some_moments : List Moment
some_moments =
    record { before = intend 2 "e1" shown ∷ []; during = []; now = 3; closed = false }
    ∷ record { before = []; during = []; now = 4; closed = true }
    ∷ []

-- The scene, then the patch.
two_frames :
    receive_all none
      (stream_rounds checker traces
        (scope_of the_scene)
        "main"
        some_moments
        begun
        (open_stream checker traces (scope_of the_scene) 2 the_scene 0)).0.sent
    ≡ some (record { revision = 1; view = Value.bool true })
unfolding begun stream_rounds open_stream poll apply_agent_scene_intent
two_frames = refl

stream_rounds-IsSynced_example :
    let r =
      stream_rounds checker traces
        (scope_of the_scene)
        "main"
        some_moments
        begun
        (open_stream checker traces (scope_of the_scene) 2 the_scene 0) in
    IsSynced the_scene none r.0 r.1
unfolding scene_snapshot
stream_rounds-IsSynced_example =
    stream_rounds-IsSynced checker checker-IsChecking traces the_scene 2 0 none some_moments begun _
      begun-IsOrderly begun-found refl (inl (inl refl))

-- The round before sends nothing; in its course the view changes, and that event is pending.
abbrev quiet_round : List Moment
quiet_round =
    record { before = []; during = intend 2 "e1" shown ∷ []; now = 3; closed = false } ∷ []

unfoldable changed : Stream × Scenes.Store
unfolding begun stream_rounds open_stream poll apply_agent_scene_intent
changed = followed checker checker-IsChecking traces the_scene 2 0 quiet_round begun

poll-caught_up_example :
    receive_all none
      (poll checker traces (scope_of the_scene) 4 "main" changed.1 changed.1 changed.0).sent
    ≡ some (snapshot_of (advance 2 shown the_scene))
unfolding changed scene_snapshot
poll-caught_up_example =
    poll-caught_up checker checker-IsChecking traces the_scene 2 0 4 none quiet_round begun
      changed.1 _ (advance 2 shown the_scene) begun-IsOrderly begun-found refl (inl (inl refl)) refl
      refl (omega arith) refl

bad_id : assert_scene_id (codes "a b") ≡ none
unfolding assert_scene_id
bad_id = refl

later_cursor : scene_event_cursor negative (natural 4) ≡ 4
unfolding scene_event_cursor
later_cursor = refl
