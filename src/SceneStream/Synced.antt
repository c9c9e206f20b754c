-- ===== src/SceneStream/Synced.antt =====
-- What a client makes of a stream (packages/scene/sse-transport.mjs), which stands between the
-- scenes of packages/db/memory-repository.mjs and their readers.
use bai_rui_cloud_agent_plat.Scenes
use bai_rui_cloud_agent_plat.Scenes.{
  Scene, Patch, scene_key, get_agent_scene, list_agent_scene_events,
}
use bai_rui_cloud_agent_plat.Scenes.Replay.{Snapshot, follow, replay, snapshot_of}
use bai_rui_cloud_agent_plat.SceneDocuments.{
  Contracts, OwnerScope, SceneSnapshot, ScenePatch, whole, change, scene_patch, scene_event_message,
}
use bai_rui_cloud_agent_plat.SceneStream.{
  Output, head, retry_after, frame, keepalive, ended, Stream, emit_patch, emit_each,
}
use bai_rui_cloud_agent_plat.SceneStream.Following.{
  IsBehind, IsStep, pending, pending-follow, follow-revision, replay-bounds,
}
use bai_rui_cloud_agent_plat.SceneStream.Behind.{IsOrderly}
use bai_rui_cloud_agent_plat.Prelude.{
  List, Option, String, [], false, if◌then◌else◌, length, none, refl, some, suc, take, true, zero,
  ℕ, ◌++◌, ◌==◌, ◌∷◌, ◌≡◌, ◌≤◌, All, All-imp, Option-cases, ap, arith, filter-All, inl, inr, subst,
  sym, ◌∙◌,
}

-- A client that replaces its copy by a scene, and applies a patch to the revision that it names.
abbrev pub receive : Option Snapshot → Output → Option Snapshot
receive copy head = copy
receive copy (retry_after n) = copy
receive copy (frame n event (whole r v)) = some (record { revision = r; view = v })
receive none (frame n event (change b r v)) = none
receive (some c) (frame n event (change b r v)) =
    if b == c.revision then some (record { revision = r; view = v }) else none
receive copy (keepalive n) = copy
receive copy ended = copy

abbrev pub receive_all : Option Snapshot → List Output → Option Snapshot
receive_all copy [] = copy
receive_all copy (o ∷ os) = receive_all (receive copy o) os

pub receive_all-snoc :
    (copy : Option Snapshot) (os : List Output) (o : Output)
    → receive_all copy (os ++ o ∷ []) ≡ receive (receive_all copy os) o
receive_all-snoc copy [] o = refl
receive_all-snoc copy (x ∷ xs) o = receive_all-snoc (receive copy x) xs o

-- A check that lets a document pass answers the document.
pub record IsChecking (k : Contracts) : Type 0 where
  pub snapshots : (d e : SceneSnapshot) → k.validate_scene_snapshot d ≡ some e → e ≡ d
  pub patches : (d e : ScenePatch) → k.validate_scene_patch d ≡ some e → e ≡ d

abbrev pub scope_of : Scene → OwnerScope
scope_of x = record {
  organization_id = x.organization_id;
  user_id = x.user_id;
  agent_id = x.agent_id;
}

-- The client's copy stands at the stream's cursor, and is behind the scene by its later events.
pub record IsSynced (x : Scene) (start : Option Snapshot) (st : Stream) (s : Scenes.Store)
    : Type 0 where
  pub copy : Snapshot
  pub received : receive_all start st.sent ≡ some copy
  pub at_cursor : copy.revision ≡ st.cursor
  pub behind : IsBehind x copy s

pending-IsStep :
    (x : Scene) (n : ℕ) (s : Scenes.Store) → IsOrderly s → All IsStep (pending x n s.events)
pending-IsStep x n s o =
    All-imp _ _ (pending x n s.events) (λ p h. h.0) (filter-All IsStep _ s.events o.stepwise)

nil_of_length : {A : Type 0} (xs : List A) → length xs ≤ 0 → xs ≡ []
nil_of_length [] h = refl
nil_of_length (x ∷ xs) h = absurd (omega (arith, h))

-- The first pending event fits the copy, and leaves the others pending.
pending-first :
    (x : Scene) (start : Option Snapshot) (st : Stream) (s : Scenes.Store) (p : Patch)
    (ps : List Patch)
    → IsOrderly s
    → (y : IsSynced x start st s) → pending x st.cursor s.events ≡ p ∷ ps
    → (d : Snapshot) × (follow y.copy p ≡ some d)
      × (replay d ps ≡ some (snapshot_of y.behind.stored))
      × (pending x d.revision s.events ≡ ps)
      × (p.base_revision == st.cursor ≡ true)
unfolding replay
pending-first x start st s p ps o y e =
    let here : pending x y.copy.revision s.events ≡ p ∷ ps = rw (y.at_cursor) e in
    let whole : replay y.copy (p ∷ ps) ≡ some (snapshot_of y.behind.stored) =
      ap (replay y.copy) (sym here) ∙ y.behind.replayed in
    let steps : All IsStep (p ∷ ps) = subst (All IsStep) e (pending-IsStep x st.cursor s o) in
    elim (Option-cases (follow y.copy p)) [
      | inl n ↦ absurd (let z = rw (replay, n) at whole in cc)
      | inr (d, f) ↦
          let rest = rw (replay, f) at whole in
          (
            d,
            f,
            rest,
            pending-follow x y.copy d (snapshot_of y.behind.stored) s.events p ps steps here f rest,
            rw (← (y.at_cursor)) (follow-revision y.copy d p f).0,
          )
    ]

module _ (k : Contracts) (checks : IsChecking k) (fresh : ℕ → String) (x : Scene) where
  emit_patch-IsSynced :
      (start : Option Snapshot) (st : Stream) (s : Scenes.Store) (p : Patch) (ps : List Patch)
      (doc : ScenePatch)
      → IsOrderly s
      → IsSynced x start st s
      → pending x st.cursor s.events ≡ p ∷ ps
      → st.is_open ≡ true
      → scene_patch k (scope_of x) (fresh (length st.sent)) p ≡ some doc
      → IsSynced x start (emit_patch k fresh (scope_of x) p doc st) s
        × (pending x p.revision s.events ≡ ps)
  unfolding emit_patch scene_event_message scene_patch
  emit_patch-IsSynced start st s p ps doc o y e live h =
      let (d, f, rest, later, base) = pending-first x start st s p ps o y e in
      let given = checks.patches _ doc h in
      let at_base = follow-revision y.copy d p f in
      let bounds =
        replay-bounds d (snapshot_of y.behind.stored) ps
          (subst (All IsStep) later (pending-IsStep x d.revision s o)) rest in
      rw live (
        record {
          copy = d;
          received =
              receive_all-snoc start st.sent
                (frame p.revision "scene.patch" (change doc.base_revision doc.revision doc.view))
              ∙ (rw (y.received, given) f);
          at_cursor = at_base.1;
          behind = record {
            stored = y.behind.stored;
            found = y.behind.found;
            organization = y.behind.organization;
            user = y.behind.user;
            agent = y.behind.agent;
            scene = y.behind.scene;
            bounded = bounds.0;
            replayed = ap (replay d) later ∙ rest;
          };
        },
        rw (← (at_base.1)) later,
      )

  failing-IsSynced :
      (start : Option Snapshot) (st : Stream) (s : Scenes.Store)
      → IsSynced x start st s
      → IsSynced x start (record st { failed = true }) s
  failing-IsSynced start st s y = record {
    copy = y.copy;
    received = y.received;
    at_cursor = y.at_cursor;
    behind = y.behind;
  }

  pub emit_each-IsSynced :
      (n : ℕ) (latest : Option Scene) (ps : List Patch) (start : Option Snapshot) (st : Stream)
      (s : Scenes.Store)
      → IsOrderly s
      → IsSynced x start st s
      → pending x st.cursor s.events ≡ ps
      → st.is_open ≡ true
      → IsSynced x start (emit_each k fresh (scope_of x) latest (take n ps) st) s
        × ((emit_each k fresh (scope_of x) latest (take n ps) st).failed ≡ false
            → length ps ≤ n
            → pending x (emit_each k fresh (scope_of x) latest (take n ps) st).cursor s.events ≡ [])
  unfolding emit_each emit_patch
  emit_each-IsSynced zero latest ps start st s o y e live =
      (y, λ ok short. e ∙ nil_of_length ps short)
  emit_each-IsSynced (suc n) latest [] start st s o y e live = (y, λ ok short. e)
  emit_each-IsSynced (suc n) latest (p ∷ ps) start st s o y e live =
      let base = (pending-first x start st s p ps o y e).4 in
      elim (Option-cases (scene_patch k (scope_of x) (fresh (length st.sent)) p)) [
        | inl refused ↦
            rw (emit_each, base, refused) (failing-IsSynced start st s y, λ ok short. absurd (cc))
        | inr (doc, h) ↦
            let (next, later) = emit_patch-IsSynced start st s p ps doc o y e live h in
            let rest =
              emit_each-IsSynced n latest ps start (emit_patch k fresh (scope_of x) p doc st) s o
                next later (rw live refl) in
            rw (emit_each, base, h) (rest.0, λ ok short. rest.1 ok (omega (arith, short)))
      ]
