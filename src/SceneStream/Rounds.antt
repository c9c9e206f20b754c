-- ===== src/SceneStream/Rounds.antt =====
-- The rounds of a stream (packages/scene/sse-transport.mjs), with calls on scenes between them.
use bai_rui_cloud_agent_plat.Scenes
use bai_rui_cloud_agent_plat.Scenes.{
  Scene, Patch, scene_key, get_agent_scene, list_agent_scene_events,
}
use bai_rui_cloud_agent_plat.Scenes.Replay.{Snapshot, replay, snapshot_of}
use bai_rui_cloud_agent_plat.Scenes.Steps.{calls, SceneCall}
use bai_rui_cloud_agent_plat.SceneDocuments.{
  Contracts, SceneSnapshot, scene_snapshot, scene_event_message,
}
use bai_rui_cloud_agent_plat.SceneStream.{
  keepalive, ended, Stream, Moment, emit_snapshot, emit_events, poll, open_stream, stream_rounds,
  leave,
}
use bai_rui_cloud_agent_plat.SceneStream.Following.{IsBehind, pending}
use bai_rui_cloud_agent_plat.SceneStream.Behind.{IsOrderly, calls-IsBehind, snapshot-IsBehind}
use bai_rui_cloud_agent_plat.Prelude.{
  List, Option, String, [], false, length, refl, some, suc, take, true, ℕ, ◌==◌, ◌∷◌, ◌≡◌, ◌≤◌, ap,
  arith, inl, inr, ◌∙◌, Bool-cases, leb, lookup, not, ◌+◌, ◌<◌, ◌||◌, ◌⊎◌,
}
use bai_rui_cloud_agent_plat.SceneStream.Synced.{
  IsChecking, IsSynced, receive_all, receive_all-snoc, scope_of, emit_each-IsSynced,
}

module _ (k : Contracts) (checks : IsChecking k) (fresh : ℕ → String) (x : Scene) where
  emit_events-IsSynced :
      (now n : ℕ) (latest : Option Scene) (ps : List Patch) (start : Option Snapshot) (st : Stream)
      (s : Scenes.Store)
      → IsOrderly s
      → IsSynced x start st s
      → pending x st.cursor s.events ≡ ps
      → st.is_open ≡ true
      → IsSynced x start (emit_events k fresh (scope_of x) now latest (take (suc n) ps) st) s
        × ((emit_events k fresh (scope_of x) now latest (take (suc n) ps) st).failed ≡ false
            → length ps ≤ suc n
            → pending x
                (emit_events k fresh (scope_of x) now latest (take (suc n) ps) st).cursor
                s.events
              ≡ [])
  unfolding emit_events
  emit_events-IsSynced now n latest [] start st s o y e live =
      elim (Bool-cases (leb (st.last_heartbeat + 15000) now)) [
        | inr f ↦ rw f (y, λ ok short. e)
        | inl t ↦ rw t (
          record {
            copy = y.copy;
            received = receive_all-snoc start st.sent (keepalive st.cursor) ∙ y.received;
            at_cursor = y.at_cursor;
            behind = y.behind;
          },
          λ ok short. e,
        )
      ]
  emit_events-IsSynced now n latest (p ∷ ps) start st s o y e live =
      emit_each-IsSynced k checks fresh x (suc n) latest (p ∷ ps) start st s o y e live

  poll-IsSynced :
      (now : ℕ) (t : Scenes.Store) (start : Option Snapshot) (st : Stream) (s : Scenes.Store)
      → IsOrderly s
      → IsSynced x start st s
      → st.is_open ≡ true
      → IsSynced x start (poll k fresh (scope_of x) now x.scene_id s t st) s
        × ((poll k fresh (scope_of x) now x.scene_id s t st).failed ≡ false
            → length (pending x st.cursor s.events) ≤ 100
            → pending x (poll k fresh (scope_of x) now x.scene_id s t st).cursor s.events ≡ [])
  unfolding poll list_agent_scene_events
  poll-IsSynced now t start st s o y live =
      emit_events-IsSynced now 99
        (get_agent_scene x.organization_id x.user_id x.agent_id x.scene_id t)
        (pending x st.cursor s.events) start st s o y refl live

  pub calls-IsSynced :
      (cs : List SceneCall) (start : Option Snapshot) (st : Stream) (s : Scenes.Store)
      → IsOrderly s
      → IsSynced x start st s
      → IsSynced x start st (calls cs s) × IsOrderly (calls cs s)
  calls-IsSynced cs start st s o y =
      let (behind, orderly) = calls-IsBehind cs x y.copy s o y.behind in
      (
        record { copy = y.copy; received = y.received; at_cursor = y.at_cursor; behind = behind },
        orderly,
      )

  -- What the client holds, if it comes with a cursor that is not beyond the scene.
  abbrev pub Resumes : ℕ → Option Snapshot → Scenes.Store → Type 0
  Resumes after start s = (c : Snapshot) × (start ≡ some c) × (c.revision ≡ after) × IsBehind x c s

  pub open_stream-IsSynced :
      (now after : ℕ) (start : Option Snapshot) (s : Scenes.Store) (shown : SceneSnapshot)
      → IsOrderly s
      → lookup (scene_key x.agent_id x.scene_id) s.scenes ≡ some x
      → scene_snapshot k (scope_of x) (fresh 2) x ≡ some shown
      → ((after ≡ 0) ⊎ (x.revision < after)) ⊎ Resumes after start s
      → IsSynced x start (open_stream k fresh (scope_of x) now x after) s
  unfolding open_stream emit_snapshot scene_event_message scene_snapshot
  open_stream-IsSynced now after start s shown o found passed from =
      elim (Bool-cases (after == 0 || not (leb after x.revision))) [
        | inl t ↦
            let given = checks.snapshots _ shown passed in
            rw (t, emit_snapshot, passed, given)
              (record {
                copy = snapshot_of x;
                received = refl;
                at_cursor = refl;
                behind = snapshot-IsBehind x s o found;
              })
        | inr f ↦ elim from [
          | inl known ↦ absurd (elim known [ inl a ↦ ground arith | inr b ↦ ground arith ])
          | inr (c, held, here, behind) ↦
              rw f (record { copy = c; received = held; at_cursor = here; behind = behind })
        ]
      ]

  leave-IsSynced :
      (start : Option Snapshot) (st : Stream) (s : Scenes.Store)
      → IsSynced x start st s
      → IsSynced x start (leave st) s
  leave-IsSynced start st s y = elim (Bool-cases st.failed) [
    | inl t ↦ rw t (record {
      copy = y.copy;
      received = y.received;
      at_cursor = y.at_cursor;
      behind = y.behind;
    })
    | inr f ↦ rw f (record {
      copy = y.copy;
      received = receive_all-snoc start st.sent ended ∙ y.received;
      at_cursor = y.at_cursor;
      behind = y.behind;
    })
  ]

  rounds-IsSynced :
      (ms : List Moment) (start : Option Snapshot) (st : Stream) (s : Scenes.Store)
      → IsOrderly s
      → IsSynced x start st s
      → let r = stream_rounds k fresh (scope_of x) x.scene_id ms s st in
        IsSynced x start r.0 r.1 × IsOrderly r.1
  unfolding stream_rounds
  rounds-IsSynced [] start st s o y = (y, o)
  rounds-IsSynced (m ∷ ms) start st s o y =
      let (before, orderly) = calls-IsSynced m.before start st s o y in
      elim (Bool-cases (m.closed || st.failed || not st.is_open)) [
        | inl t ↦ rw t (leave-IsSynced start st (calls m.before s) before, orderly)
        | inr f ↦
            let live : st.is_open ≡ true = ground arith in
            let next =
              (poll-IsSynced m.now (calls m.during (calls m.before s)) start st (calls m.before s)
                orderly before live).0 in
            let (after, still) =
              calls-IsSynced m.during start
                (poll k fresh (scope_of x) m.now x.scene_id (calls m.before s)
                  (calls m.during (calls m.before s)) st)
                (calls m.before s) orderly next in
            rw f (rounds-IsSynced ms start _ _ still after)
      ]

  -- Whatever calls on scenes come between and in the rounds of a stream, and whether it ends, fails or
  -- goes on: where it begins with the stored scene, the client holds nothing or is behind that scene
  -- at the cursor it names, and the scene's own document passes the check, the patches that the client
  -- is sent always fit its copy; the copy stands at the stream's cursor; and the events of the scene
  -- after it lead from it to the scene that is stored in the end.
  pub stream_rounds-IsSynced :
      (now after : ℕ) (start : Option Snapshot) (ms : List Moment) (s : Scenes.Store)
      (shown : SceneSnapshot)
      → IsOrderly s
      → lookup (scene_key x.agent_id x.scene_id) s.scenes ≡ some x
      → scene_snapshot k (scope_of x) (fresh 2) x ≡ some shown
      → ((after ≡ 0) ⊎ (x.revision < after)) ⊎ Resumes after start s
      → let r =
          stream_rounds k fresh
            (scope_of x)
            x.scene_id
            ms
            s
            (open_stream k fresh (scope_of x) now x after) in
        IsSynced x start r.0 r.1
  stream_rounds-IsSynced now after start ms s shown o found passed from =
      (rounds-IsSynced ms start (open_stream k fresh (scope_of x) now x after) s o
        (open_stream-IsSynced now after start s shown o found passed from)).0

  poll_caught_up :
      (now : ℕ) (t : Scenes.Store) (start : Option Snapshot) (st : Stream) (s : Scenes.Store)
      (z : Scene)
      → IsOrderly s
      → IsSynced x start st s
      → st.is_open ≡ true
      → (poll k fresh (scope_of x) now x.scene_id s t st).failed ≡ false
      → length (pending x st.cursor s.events) ≤ 100
      → lookup (scene_key x.agent_id x.scene_id) s.scenes ≡ some z
      → receive_all start (poll k fresh (scope_of x) now x.scene_id s t st).sent
        ≡ some (snapshot_of z)
  unfolding replay
  poll_caught_up now t start st s z o y live ok few found =
      let (next, none_left) = poll-IsSynced now t start st s o y live in
      let empty : pending x next.copy.revision s.events ≡ [] =
        rw (next.at_cursor) (none_left ok few) in
      let led : some next.copy ≡ some (snapshot_of next.behind.stored) =
        rw empty at next.behind.replayed in
      let same : next.behind.stored ≡ z = (let w = next.behind.found in cc) in
      next.received ∙ led ∙ ap (λ w. some (snapshot_of w)) same

  -- A stream that was opened on the scene, and the store, after some rounds.
  abbrev pub followed : ℕ → ℕ → List Moment → Scenes.Store → Stream × Scenes.Store
  followed now after ms s =
      stream_rounds k fresh (scope_of x) x.scene_id ms s
        (open_stream k fresh (scope_of x) now x after)

  -- Where a stream is opened on the stored scene, in a store in which the events of each scene lead to
  -- it one revision at a time, where the scene's own document passes the check, which gives back what
  -- it passes, and the client holds nothing or is behind the scene at the cursor it names: after any
  -- rounds, with any calls on scenes in and between them, if the stream is still open, the client's
  -- copy after one more round is the scene that was stored when that round listed the events, if that
  -- round refuses no document and at most a hundred events were pending before it.
  pub poll-caught_up :
      (now after later : ℕ) (start : Option Snapshot) (ms : List Moment) (s t : Scenes.Store)
      (shown : SceneSnapshot) (z : Scene)
      → IsOrderly s
      → lookup (scene_key x.agent_id x.scene_id) s.scenes ≡ some x
      → scene_snapshot k (scope_of x) (fresh 2) x ≡ some shown
      → ((after ≡ 0) ⊎ (x.revision < after)) ⊎ Resumes after start s
      → (followed now after ms s).0.is_open ≡ true
      → (poll k fresh
          (scope_of x)
          later
          x.scene_id
          (followed now after ms s).1
          t
          (followed now after ms s).0).failed
        ≡ false
      → length (pending x (followed now after ms s).0.cursor (followed now after ms s).1.events)
        ≤ 100
      → lookup (scene_key x.agent_id x.scene_id) (followed now after ms s).1.scenes ≡ some z
      → receive_all start
          (poll k fresh
            (scope_of x)
            later
            x.scene_id
            (followed now after ms s).1
            t
            (followed now after ms s).0).sent
        ≡ some (snapshot_of z)
  poll-caught_up now after later start ms s t shown z o here passed from live ok few found =
      let (synced, orderly) =
        rounds-IsSynced ms start (open_stream k fresh (scope_of x) now x after) s o
          (open_stream-IsSynced now after start s shown o here passed from) in
      poll_caught_up later t start (followed now after ms s).0 (followed now after ms s).1 z orderly
        synced live ok few found
