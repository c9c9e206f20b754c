-- ===== src/SceneStream/Behind.antt =====
-- Calls on scenes while a reader is behind (packages/db/memory-repository.mjs).
use bai_rui_cloud_agent_plat.Scenes.{
  Patch, Scene, Store, EnsureInput, IntentInput, is_event_of, scene_key, new_scene, advance,
  patch_of, ensure_agent_scene, apply_agent_scene_intent, owns, is_reader, is_stale_intent,
}
use bai_rui_cloud_agent_plat.Scenes.Replay.{
  Snapshot, replay, replay-snoc, snapshot_of, filter-snoc_true, filter-snoc_false, event_key,
  lookup-update_key_other, events_of,
}
use bai_rui_cloud_agent_plat.Scenes.Steps.{
  IsFaithful, SceneCall, ensure, intend, call, calls, calls-IsFaithful,
}
use bai_rui_cloud_agent_plat.SceneStream.Following.{IsBehind, IsStep, pending, replay-bounds}
use bai_rui_cloud_agent_plat.Prelude.{
  ==_iff, All, All-append, Bool-cases, List, Option-cases, String, [], ap, arith, eq_iff, eq_refl,
  false, inl, inr, lookup, lookup-put_other, lookup-update_key, ltb, refl, some, sym, true,
  update_key, ℕ, ◌&&◌, ◌++◌, ◌+◌, ◌===◌, ◌∙◌, ◌∷◌, ◌≡◌, ◌≤◌, All-imp, Bool, filter, filter-All,
}

-- The stores that calls on scenes make: the events of each scene lead from its first view to it, one
-- revision at a time.
pub record IsOrderly (s : Store) : Type 0 where
  pub faithful : IsFaithful s
  pub stepwise : All IsStep s.events

ensure-events :
    (now : ℕ) (i : EnsureInput) (s : Store) → (ensure_agent_scene now i s).0.events ≡ s.events
unfolding ensure_agent_scene
ensure-events now i s = ground arith

ensure-lookup :
    (now : ℕ) (i : EnsureInput) (s : Store) (key : String) {x : Scene}
    → lookup key s.scenes ≡ some x
    → lookup key (ensure_agent_scene now i s).0.scenes ≡ some x
unfolding ensure_agent_scene
ensure-lookup now i s key {x} h = elim (Option-cases (lookup i.agent_id s.agents)) [
  | inl e ↦ rw (ensure_agent_scene, e) h
  | inr (a, e) ↦ elim (Bool-cases (owns i a)) [
    | inr n ↦ rw (ensure_agent_scene, e, n) h
    | inl t ↦ elim (Option-cases (lookup (scene_key i.agent_id i.scene_id) s.scenes)) [
      | inr (y, g) ↦ rw (ensure_agent_scene, e, t, g) h
      | inl g ↦
          rw (ensure_agent_scene, e, t, g)
            (elim (Bool-cases (scene_key i.agent_id i.scene_id === key)) [
              | inr n ↦
                  lookup-put_other (scene_key i.agent_id i.scene_id) key (new_scene now i) s.scenes
                    n
                  ∙ h
              | inl u ↦ absurd (
                  let k : scene_key i.agent_id i.scene_id ≡ key =
                    (eq_iff (scene_key i.agent_id i.scene_id) key).0 u in
                  let z = rw k at g in cc)
            ])
    ]
  ]
]

ensure-IsBehind :
    (now : ℕ) (i : EnsureInput) (x : Scene) (c : Snapshot) (s : Store)
    → IsBehind x c s
    → IsBehind x c (ensure_agent_scene now i s).0
ensure-IsBehind now i x c s b = record {
  stored = b.stored;
  found = ensure-lookup now i s (scene_key x.agent_id x.scene_id) b.found;
  organization = b.organization;
  user = b.user;
  agent = b.agent;
  scene = b.scene;
  bounded = b.bounded;
  replayed = rw (ensure-events now i s) b.replayed;
}

module _ (now : ℕ) (fresh : String) (i : IntentInput) (s : Store) (y : Scene) where
  abbrev applied : Store
  applied = record s {
    scenes = update_key (scene_key i.agent_id i.scene_id) (advance now i) s.scenes;
    events = s.events ++ patch_of now fresh i y ∷ [];
  }

  -- The scene that the reader follows is another one.
  other-IsBehind :
      (x : Scene) (c : Snapshot)
      → IsFaithful s
      → lookup (scene_key i.agent_id i.scene_id) s.scenes ≡ some y
      → (scene_key i.agent_id i.scene_id === scene_key x.agent_id x.scene_id) ≡ false
      → IsBehind x c s
      → IsBehind x c applied
  other-IsBehind x c f found apart b =
      let named = (f.each (scene_key i.agent_id i.scene_id)).named y found in
      let missed : (is_event_of x.organization_id x.user_id x.agent_id x.scene_id
              (patch_of now fresh i y)
            && ltb c.revision (y.revision + 1))
          ≡ false =
        elim (Bool-cases (
          is_event_of x.organization_id x.user_id x.agent_id x.scene_id (patch_of now fresh i y))) [
            | inr n ↦ rw n refl
            | inl t ↦ absurd (
                let same =
                  (eq_iff (scene_key i.agent_id i.scene_id) (scene_key x.agent_id x.scene_id)).1
                    (sym named ∙ event_key x (patch_of now fresh i y) t) in
                cc)
          ] in
      record {
        stored = b.stored;
        found =
            lookup-update_key_other (scene_key i.agent_id i.scene_id)
              (scene_key x.agent_id x.scene_id) (advance now i) s.scenes apart
            ∙ b.found;
        organization = b.organization;
        user = b.user;
        agent = b.agent;
        scene = b.scene;
        bounded = b.bounded;
        replayed =
            ap (replay c) (
              filter-snoc_false
                (λ p.
                  is_event_of x.organization_id x.user_id x.agent_id x.scene_id p
                  && ltb c.revision p.revision)
                s.events (patch_of now fresh i y) missed)
            ∙ b.replayed;
      }

  -- The scene that the reader follows gets one more event.
  same-IsBehind :
      (x : Scene) (c : Snapshot)
      → lookup (scene_key i.agent_id i.scene_id) s.scenes ≡ some y
      → scene_key i.agent_id i.scene_id ≡ scene_key x.agent_id x.scene_id
      → IsBehind x c s
      → IsBehind x c applied
  same-IsBehind x c found k b =
      let here : b.stored ≡ y = (let z = rw k at found in let w = b.found in cc) in
      let organization : y.organization_id ≡ x.organization_id =
        ap (λ z. z.organization_id) (sym here) ∙ b.organization in
      let user : y.user_id ≡ x.user_id = ap (λ z. z.user_id) (sym here) ∙ b.user in
      let agent : y.agent_id ≡ x.agent_id = ap (λ z. z.agent_id) (sym here) ∙ b.agent in
      let scene : y.scene_id ≡ x.scene_id = ap (λ z. z.scene_id) (sym here) ∙ b.scene in
      let bound : c.revision ≤ y.revision = (let z = b.bounded in rw (← here) z) in
      let later : ltb c.revision (y.revision + 1) ≡ true = ground arith in
      let hit : (is_event_of x.organization_id x.user_id x.agent_id x.scene_id
              (patch_of now fresh i y)
            && ltb c.revision (y.revision + 1))
          ≡ true =
        rw (organization, user, agent, scene, later)
          (rw (eq_refl x.organization_id, eq_refl x.user_id, eq_refl x.agent_id, eq_refl x.scene_id)
            refl) in
      record {
        stored = advance now i y;
        found =
            rw (← k)
              (lookup-update_key (scene_key i.agent_id i.scene_id) (advance now i) s.scenes found);
        organization = organization;
        user = user;
        agent = agent;
        scene = scene;
        bounded = omega (arith, bound);
        replayed =
            ap (replay c) (
              filter-snoc_true
                (λ p.
                  is_event_of x.organization_id x.user_id x.agent_id x.scene_id p
                  && ltb c.revision p.revision)
                s.events (patch_of now fresh i y) hit)
            ∙ replay-snoc c (snapshot_of y) (snapshot_of (advance now i y))
                (pending x c.revision s.events) (patch_of now fresh i y)
                (b.replayed ∙ ap (λ z. some (snapshot_of z)) here)
                (rw ((==_iff y.revision y.revision).1 refl) refl);
      }

apply-IsBehind :
    (now : ℕ) (fresh : String) (i : IntentInput) (x : Scene) (c : Snapshot) (s : Store)
    → IsOrderly s
    → IsBehind x c s
    → IsBehind x c (apply_agent_scene_intent now fresh i s).0
      × All IsStep (apply_agent_scene_intent now fresh i s).0.events
unfolding apply_agent_scene_intent
apply-IsBehind now fresh i x c s o b =
    elim (Option-cases (lookup (scene_key i.agent_id i.scene_id) s.scenes)) [
      | inl e ↦ rw (apply_agent_scene_intent, e) (b, o.stepwise)
      | inr (y, e) ↦ elim (Bool-cases (is_reader i.organization_id i.user_id y)) [
        | inr n ↦ rw (apply_agent_scene_intent, e, n) (b, o.stepwise)
        | inl t ↦ elim (Bool-cases (i.action === "resync")) [
          | inl r ↦ rw (apply_agent_scene_intent, e, t, r) (b, o.stepwise)
          | inr r ↦ elim (Bool-cases (is_stale_intent i.expected_revision y.revision)) [
            | inl h ↦ rw (apply_agent_scene_intent, e, t, r, h) (b, o.stepwise)
            | inr h ↦
                rw (apply_agent_scene_intent, e, t, r, h)
                  (
                    elim (Bool-cases
                        (scene_key i.agent_id i.scene_id === scene_key x.agent_id x.scene_id)) [
                          | inr n ↦ other-IsBehind now fresh i s y x c o.faithful e n b
                          | inl u ↦ same-IsBehind now fresh i s y x c e ((eq_iff _ _).0 u) b
                        ],
                    All-append IsStep s.events (patch_of now fresh i y ∷ []) o.stepwise (refl, tt),
                  )
          ]
        ]
      ]
    ]

-- Calls keep a reader behind, wherever it was.
pub calls-IsBehind :
    (cs : List SceneCall) (x : Scene) (c : Snapshot) (s : Store)
    → IsOrderly s
    → IsBehind x c s
    → IsBehind x c (calls cs s) × IsOrderly (calls cs s)
unfolding calls call
calls-IsBehind [] x c s o b = (b, o)
calls-IsBehind (ensure now i ∷ cs) x c s o b =
    calls-IsBehind cs x c (ensure_agent_scene now i s).0
      (record {
        faithful = calls-IsFaithful (ensure now i ∷ []) s o.faithful;
        stepwise = rw (ensure-events now i s) o.stepwise;
      })
      (ensure-IsBehind now i x c s b)
calls-IsBehind (intend now fresh i ∷ cs) x c s o b =
    let next = apply-IsBehind now fresh i x c s o b in
    calls-IsBehind cs x c (apply_agent_scene_intent now fresh i s).0
      (record {
        faithful = calls-IsFaithful (intend now fresh i ∷ []) s o.faithful;
        stepwise = next.1;
      })
      next.0

filter_beyond :
    (is : Patch → Bool) (n : ℕ) (ps : List Patch)
    → All (λ p. p.revision ≤ n) (filter is ps)
    → filter (λ p. is p && ltb n p.revision) ps ≡ []
filter_beyond is n [] a = refl
filter_beyond is n (p ∷ ps) a = elim (Bool-cases (is p)) [
  | inr f ↦ rw f (filter_beyond is n ps (rw f at a))
  | inl t ↦
      let b = rw t at a in
      let low : ltb n p.revision ≡ false = ground (arith, b.0) in
      rw (t, low) (filter_beyond is n ps b.1)
]

-- A reader that has just been given the stored scene is behind by nothing.
pub snapshot-IsBehind :
    (x : Scene) (s : Store)
    → IsOrderly s
    → lookup (scene_key x.agent_id x.scene_id) s.scenes ≡ some x
    → IsBehind x (snapshot_of x) s
unfolding replay
snapshot-IsBehind x s o found =
    let first = (o.faithful.each (scene_key x.agent_id x.scene_id)).rebuilt x found in
    let steps =
      All-imp _ _ (events_of x s.events) (λ p h. h.0)
        (filter-All IsStep (is_event_of x.organization_id x.user_id x.agent_id x.scene_id) s.events
          o.stepwise) in
    let bounds =
      replay-bounds (record { revision = 0; view = first.0 }) (snapshot_of x) (events_of x s.events)
        steps first.1 in
    record {
      stored = x;
      found = found;
      organization = refl;
      user = refl;
      agent = refl;
      scene = refl;
      bounded = omega arith;
      replayed =
          rw
            (filter_beyond (is_event_of x.organization_id x.user_id x.agent_id x.scene_id)
              x.revision s.events bounds.2)
            refl;
    }
