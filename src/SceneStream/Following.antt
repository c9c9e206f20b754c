-- ===== src/SceneStream/Following.antt =====
-- A reader that is behind a scene: its copy, and the events of the scene after it
-- (packages/scene/sse-transport.mjs, packages/db/memory-repository.mjs).
use bai_rui_cloud_agent_plat.Scenes.{Patch, Scene, Store, is_event_of, scene_key}
use bai_rui_cloud_agent_plat.Scenes.Replay.{Snapshot, follow, replay, snapshot_of}
use bai_rui_cloud_agent_plat.Prelude.{
  ==_iff, All, Bool, Bool-cases, List, Option-cases, [], ap, arith, false, filter, inl, inr, lookup,
  ltb, refl, some, sym, true, ℕ, ◌&&◌, ◌+◌, ◌<◌, ◌==◌, ◌∙◌, ◌∷◌, ◌≡◌, ◌≤◌, All-imp,
}

abbrev pub IsStep : Patch → Type 0
IsStep p = p.revision ≡ p.base_revision + 1

-- What a poll lists of a scene for a reader at a revision.
abbrev pub pending : Scene → ℕ → List Patch → List Patch
pending x n events =
    filter
      (λ p. is_event_of x.organization_id x.user_id x.agent_id x.scene_id p && ltb n p.revision)
      events

-- A reader's copy is behind the scene that is stored where `x` was: the events after it lead there.
pub record IsBehind (x : Scene) (c : Snapshot) (s : Store) : Type 0 where
  pub stored : Scene
  pub found : lookup (scene_key x.agent_id x.scene_id) s.scenes ≡ some stored
  pub organization : stored.organization_id ≡ x.organization_id
  pub user : stored.user_id ≡ x.user_id
  pub agent : stored.agent_id ≡ x.agent_id
  pub scene : stored.scene_id ≡ x.scene_id
  pub bounded : c.revision ≤ stored.revision
  pub replayed : replay c (pending x c.revision s.events) ≡ some (snapshot_of stored)

pub follow-revision :
    (c d : Snapshot) (p : Patch)
    → follow c p ≡ some d
    → (p.base_revision == c.revision ≡ true) × (d.revision ≡ p.revision) × (d.view ≡ p.view)
follow-revision c d p h = elim (Bool-cases (p.base_revision == c.revision)) [
  | inr n ↦ absurd (let z = rw n at h in cc)
  | inl t ↦
      let z = rw t at h in
      let one : Snapshot = record { revision = p.revision; view = p.view } in
      let same : one ≡ d = cc in (t, ap (λ e. e.revision) (sym same), ap (λ e. e.view) (sym same))
]

-- The revisions of the patches that a reader has applied lie between its first and its last one.
pub replay-bounds :
    (c d : Snapshot) (ps : List Patch)
    → All IsStep ps
    → replay c ps ≡ some d
    → (c.revision ≤ d.revision)
      × All (λ p. c.revision < p.revision) ps
      × All (λ p. p.revision ≤ d.revision) ps
unfolding replay
replay-bounds c d [] a h = (let same : c ≡ d = cc in rw same (omega arith), tt, tt)
replay-bounds c d (p ∷ ps) a h = elim (Option-cases (follow c p)) [
  | inl n ↦ absurd (let z = rw (replay, n) at h in cc)
  | inr (e, f) ↦
      let at_base = follow-revision c e p f in
      let rest = replay-bounds e d ps a.1 (rw (replay, f) at h) in
      let base : p.base_revision ≡ c.revision = (==_iff p.base_revision c.revision).0 at_base.0 in
      let next : e.revision ≡ c.revision + 1 = omega (arith, at_base.1, a.0, base) in
      (
        omega (arith, rest.0, next),
        (
          omega (arith, a.0, base),
          All-imp _ _ ps (λ q (l : e.revision < q.revision). omega (arith, l, next)) rest.1,
        ),
        (omega (arith, rest.0, at_base.1), rest.2),
      )
]

filter_narrow :
    (is : Patch → Bool) (n m : ℕ) (ps : List Patch)
    → n ≤ m
    → filter (λ p. is p && ltb m p.revision) ps
      ≡ filter (λ p. ltb m p.revision) (filter (λ p. is p && ltb n p.revision) ps)
filter_narrow is n m [] l = refl
filter_narrow is n m (p ∷ ps) l = elim (Bool-cases (is p)) [
  | inr f ↦ rw f (filter_narrow is n m ps l)
  | inl t ↦ elim (Bool-cases (ltb m p.revision)) [
    | inl u ↦
        let v : ltb n p.revision ≡ true = ground arith in
        rw (t, u, v) (rw u (ap (λ qs. p ∷ qs) (filter_narrow is n m ps l)))
    | inr u ↦ elim (Bool-cases (ltb n p.revision)) [
      | inl v ↦ rw (t, u, v) (rw u (filter_narrow is n m ps l))
      | inr v ↦ rw (t, u, v) (filter_narrow is n m ps l)
    ]
  ]
]

filter_every : (p : Patch → Bool) (ps : List Patch) → All (λ x. p x ≡ true) ps → filter p ps ≡ ps
filter_every p [] a = refl
filter_every p (x ∷ xs) a = rw (a.0) (ap (λ ys. x ∷ ys) (filter_every p xs a.1))

-- A reader that applies the first of its pending events is behind by the others.
pub pending-follow :
    (x : Scene) (c d e : Snapshot) (events : List Patch) (p : Patch) (ps : List Patch)
    → All IsStep (p ∷ ps)
    → pending x c.revision events ≡ p ∷ ps
    → follow c p ≡ some d
    → replay d ps ≡ some e
    → pending x d.revision events ≡ ps
pending-follow x c d e events p ps a h f r =
    let at_base = follow-revision c d p f in
    let base : p.base_revision ≡ c.revision = (==_iff p.base_revision c.revision).0 at_base.0 in
    let bounds = replay-bounds d e ps a.1 r in
    let narrow =
      filter_narrow (is_event_of x.organization_id x.user_id x.agent_id x.scene_id) c.revision
        d.revision events (omega (arith, at_base.1, a.0, base)) in
    let first : ltb d.revision p.revision ≡ false = rw (at_base.1) (ground arith) in
    narrow
    ∙ (rw h (
        rw first (
          filter_every (λ q. ltb d.revision q.revision) ps
            (All-imp _ _ ps (λ q (l : d.revision < q.revision). ground arith) bounds.1))))
