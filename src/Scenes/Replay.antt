-- ===== src/Scenes/Replay.antt =====
-- What a reader of a scene's events can rebuild (packages/db/memory-repository.mjs).
-- A reader's copy of a scene: its revision and its view.
use bai_rui_cloud_agent_plat.Prelude.{
  All, Bool, Bool-cases, List, Option, Option-cases, String, [], ap, arith, eq_iff, false, filter,
  if◌then◌else◌, inl, inr, lookup, none, refl, some, true, update_key, ℕ, ◌++◌, ◌===◌, ◌==◌, ◌∷◌,
  ◌≡◌,
}
use bai_rui_cloud_agent_plat.Json.{Value}
use bai_rui_cloud_agent_plat.Scenes.{Patch, Scene, Store, is_event_of, scene_key}

pub record Snapshot : Type 0 where
  pub revision : ℕ
  pub view : Value

-- A patch applies to the revision that it names as its base.
abbrev pub follow : Snapshot → Patch → Option Snapshot
follow c p =
    if p.base_revision == c.revision
    then some (record { revision = p.revision; view = p.view })
    else none

-- The reader applies each patch in turn, and gives up when one does not fit.
unfoldable pub replay : Snapshot → List Patch → Option Snapshot
replay c [] = some c
replay c (p ∷ ps) = elim (follow c p) [ none ↦ none | some d ↦ replay d ps ]

pub replay-snoc :
    (c d e : Snapshot) (ps : List Patch) (p : Patch)
    → replay c ps ≡ some d
    → follow d p ≡ some e
    → replay c (ps ++ p ∷ []) ≡ some e
unfolding replay
replay-snoc c d e [] p h k = (let same : c ≡ d = cc in rw same (rw (replay, k) refl))
replay-snoc c d e (q ∷ qs) p h k = elim (Option-cases (follow c q)) [
  | inl n ↦ absurd (let z = rw (replay, n) at h in cc)
  | inr (x, f) ↦ rw (replay, f) (replay-snoc x d e qs p (rw (replay, f) at h) k)
]

-- The events of a scene, oldest first.
abbrev pub events_of : Scene → List Patch → List Patch
events_of x events = filter (is_event_of x.organization_id x.user_id x.agent_id x.scene_id) events

abbrev pub snapshot_of : Scene → Snapshot
snapshot_of x = record { revision = x.revision; view = x.view }

-- The scene under a key, if there is one, is what its events make of some first view.
pub record IsReplayed (key : String) (s : Store) : Type 0 where
  pub absent :
      lookup key s.scenes ≡ none
      → All (λ p. (scene_key p.agent_id p.scene_id === key) ≡ false) s.events
  pub named : (x : Scene) → lookup key s.scenes ≡ some x → scene_key x.agent_id x.scene_id ≡ key
  pub rebuilt :
      (x : Scene)
      → lookup key s.scenes ≡ some x
      → (first : Value) × (replay (record { revision = 0; view = first }) (events_of x s.events)
          ≡ some (snapshot_of x))

pub filter-snoc_true :
    (p : Patch → Bool) (ps : List Patch) (x : Patch)
    → p x ≡ true
    → filter p (ps ++ x ∷ []) ≡ filter p ps ++ x ∷ []
filter-snoc_true p [] x t = rw t refl
filter-snoc_true p (y ∷ ys) x t = elim (Bool-cases (p y)) [
  | inl u ↦ rw u (ap (λ zs. y ∷ zs) (filter-snoc_true p ys x t))
  | inr n ↦ rw n (filter-snoc_true p ys x t)
]

pub filter-snoc_false :
    (p : Patch → Bool) (ps : List Patch) (x : Patch)
    → p x ≡ false
    → filter p (ps ++ x ∷ []) ≡ filter p ps
filter-snoc_false p [] x t = rw t refl
filter-snoc_false p (y ∷ ys) x t = elim (Bool-cases (p y)) [
  | inl u ↦ rw u (ap (λ zs. y ∷ zs) (filter-snoc_false p ys x t))
  | inr n ↦ rw n (filter-snoc_false p ys x t)
]

pub filter-none :
    (p : Patch → Bool) (ps : List Patch) → All (λ x. p x ≡ false) ps → filter p ps ≡ []
filter-none p [] h = refl
filter-none p (x ∷ xs) h = rw (h.0) (filter-none p xs h.1)

pub lookup-update_key_other :
    (k l : String) (f : Scene → Scene) (m : List (String × Scene))
    → (k === l) ≡ false
    → lookup l (update_key k f m) ≡ lookup l m
lookup-update_key_other k l f [] h = refl
lookup-update_key_other k l f ((j, v) ∷ m) h = elim (Bool-cases (j === k)) [
  | inl t ↦ rw t (rw ((eq_iff j k).0 t) (rw h refl))
  | inr n ↦ rw n (elim (Bool-cases (j === l)) [
    | inl u ↦ rw u refl
    | inr g ↦ rw g (lookup-update_key_other k l f m h)
  ])
]

-- An event of a scene has the scene's key.
pub event_key :
    (x : Scene) (p : Patch)
    → is_event_of x.organization_id x.user_id x.agent_id x.scene_id p ≡ true
    → scene_key p.agent_id p.scene_id ≡ scene_key x.agent_id x.scene_id
event_key x p h =
    let agents : p.agent_id ≡ x.agent_id = (eq_iff p.agent_id x.agent_id).0 (ground arith) in
    let scenes : p.scene_id ≡ x.scene_id = (eq_iff p.scene_id x.scene_id).0 (ground arith) in
    rw (agents, scenes) refl
