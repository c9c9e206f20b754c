-- ===== src/Scenes/Steps.antt =====
-- The scenes after each call (packages/db/memory-repository.mjs).
use bai_rui_cloud_agent_plat.Prelude.{
  All, All-append, All-imp, Bool-cases, List, String, [], eq_iff, false, inl, inr, lookup,
  lookup-put_other, lookup-put_same, none, or_else, put, refl, some, sym, update_key, ℕ, ◌++◌,
  ◌===◌, ◌∙◌, ◌∷◌, ◌≡◌, ==_iff, Option-cases, ap, eq_refl, lookup-update_key,
}
use bai_rui_cloud_agent_plat.Scenes.{
  Store, Scene, EnsureInput, IntentInput, Patch, scene_key, new_scene, advance, empty_view,
  patch_of, ensure_agent_scene, apply_agent_scene_intent, is_event_of, owns, is_reader,
  is_stale_intent,
}
use bai_rui_cloud_agent_plat.Scenes.Replay.{
  IsReplayed, replay, events_of, filter-none, lookup-update_key_other, event_key, filter-snoc_false,
  filter-snoc_true, replay-snoc, snapshot_of,
}

pub record IsFaithful (s : Store) : Type 0 where
  pub each : (key : String) → IsReplayed key s

-- Every event of a scene bears the scene's key, so a scene that is new has none.
no_events :
    (x : Scene) (events : List Patch)
    → All
        (λ p. (scene_key p.agent_id p.scene_id === scene_key x.agent_id x.scene_id) ≡ false)
        events
    → events_of x events ≡ []
no_events x events h =
    filter-none (is_event_of x.organization_id x.user_id x.agent_id x.scene_id) events (
      All-imp _ _ events
        (λ p n.
          elim (Bool-cases (is_event_of x.organization_id x.user_id x.agent_id x.scene_id p)) [
            | inr f ↦ f
            | inl t ↦ absurd (
                let same =
                  (eq_iff (scene_key p.agent_id p.scene_id) (scene_key x.agent_id x.scene_id)).1
                    (event_key x p t) in
                cc)
          ])
        h)

module _ (now : ℕ) (i : EnsureInput) (s : Store) where
  added : Store
  added = record s { scenes = put (scene_key i.agent_id i.scene_id) (new_scene now i) s.scenes }

  added-IsReplayed :
      (key : String)
      → lookup (scene_key i.agent_id i.scene_id) s.scenes ≡ none
      → IsReplayed (scene_key i.agent_id i.scene_id) s
      → IsReplayed key s
      → IsReplayed key added
  unfolding added replay
  added-IsReplayed key gone here there =
      elim (Bool-cases (scene_key i.agent_id i.scene_id === key)) [
        | inr n ↦
            let same =
              lookup-put_other (scene_key i.agent_id i.scene_id) key (new_scene now i) s.scenes n in
            record {
              absent = λ h. there.absent (sym same ∙ h);
              named = λ x h. there.named x (sym same ∙ h);
              rebuilt = λ x h. there.rebuilt x (sym same ∙ h);
            }
        | inl t ↦
            let k : scene_key i.agent_id i.scene_id ≡ key =
              (eq_iff (scene_key i.agent_id i.scene_id) key).0 t in
            rw (← k) (
              let stored =
                lookup-put_same (scene_key i.agent_id i.scene_id) (new_scene now i) s.scenes in
              record {
                absent = λ h. absurd (cc);
                named = λ x h. let same : new_scene now i ≡ x = cc in rw (← same) refl;
                rebuilt = λ x h.
                    let same : new_scene now i ≡ x = cc in
                    rw (← same) (
                      or_else i.view empty_view,
                      rw (no_events (new_scene now i) s.events (here.absent gone)) refl,
                    );
              })
      ]

module _ (now : ℕ) (fresh : String) (i : IntentInput) (s : Store) (x : Scene) where
  advanced : Store
  advanced = record s {
    scenes = update_key (scene_key i.agent_id i.scene_id) (advance now i) s.scenes;
    events = s.events ++ patch_of now fresh i x ∷ [];
  }

  advanced-IsReplayed :
      (key : String)
      → lookup (scene_key i.agent_id i.scene_id) s.scenes ≡ some x
      → IsReplayed (scene_key i.agent_id i.scene_id) s
      → IsReplayed key s
      → IsReplayed key advanced
  unfolding advanced
  advanced-IsReplayed key found here there =
      elim (Bool-cases (scene_key i.agent_id i.scene_id === key)) [
        | inr n ↦
            let same =
              lookup-update_key_other (scene_key i.agent_id i.scene_id) key (advance now i) s.scenes
                n in
            let other : (scene_key x.agent_id x.scene_id === key) ≡ false =
              rw (here.named x found) n in
            record {
              absent = λ h.
                  All-append _ s.events (patch_of now fresh i x ∷ []) (there.absent (sym same ∙ h))
                    (other, tt);
              named = λ y h. there.named y (sym same ∙ h);
              rebuilt = λ y h.
                  let mine : scene_key y.agent_id y.scene_id ≡ key = there.named y (sym same ∙ h) in
                  let apart : is_event_of y.organization_id y.user_id y.agent_id y.scene_id
                        (patch_of now fresh i x)
                      ≡ false =
                    elim (Bool-cases (
                      is_event_of y.organization_id y.user_id y.agent_id y.scene_id
                        (patch_of now fresh i x))) [
                          | inr f ↦ f
                          | inl t ↦ absurd (
                              let clash =
                                (eq_iff (scene_key x.agent_id x.scene_id) key).1
                                  (event_key y (patch_of now fresh i x) t ∙ mine) in
                              cc)
                        ] in
                  let before = there.rebuilt y (sym same ∙ h) in
                  (
                    before.0,
                    ap (replay (record { revision = 0; view = before.0 })) (
                          filter-snoc_false
                            (is_event_of y.organization_id y.user_id y.agent_id y.scene_id) s.events
                            (patch_of now fresh i x) apart)
                        ∙ before.1,
                  );
            }
        | inl t ↦
            let k : scene_key i.agent_id i.scene_id ≡ key =
              (eq_iff (scene_key i.agent_id i.scene_id) key).0 t in
            let stored =
              lookup-update_key (scene_key i.agent_id i.scene_id) (advance now i) s.scenes found in
            let before = here.rebuilt x found in
            let grown =
              filter-snoc_true (is_event_of x.organization_id x.user_id x.agent_id x.scene_id)
                s.events (patch_of now fresh i x)
                (rw
                  (
                    eq_refl x.organization_id,
                    eq_refl x.user_id,
                    eq_refl x.agent_id,
                    eq_refl x.scene_id,
                  )
                  refl) in
            let one =
              replay-snoc (record { revision = 0; view = before.0 }) (snapshot_of x)
                (snapshot_of (advance now i x)) (events_of x s.events) (patch_of now fresh i x)
                before.1 (rw ((==_iff x.revision x.revision).1 refl) refl) in
            rw (← k) (record {
              absent = λ h. absurd (cc);
              named =
                  λ y h. let same : advance now i x ≡ y = cc in rw (← same) (here.named x found);
              rebuilt = λ y h.
                  let same : advance now i x ≡ y = cc in
                  rw (← same)
                    (before.0, ap (replay (record { revision = 0; view = before.0 })) grown ∙ one);
            })
      ]

IsFaithful-ensure :
    (now : ℕ) (i : EnsureInput) (s : Store)
    → IsFaithful s
    → IsFaithful (ensure_agent_scene now i s).0
unfolding ensure_agent_scene added
IsFaithful-ensure now i s f = elim (Option-cases (lookup i.agent_id s.agents)) [
  | inl e ↦ rw (ensure_agent_scene, e) f
  | inr (a, e) ↦ elim (Bool-cases (owns i a)) [
    | inr n ↦ rw (ensure_agent_scene, e, n) f
    | inl t ↦ elim (Option-cases (lookup (scene_key i.agent_id i.scene_id) s.scenes)) [
      | inr (x, h) ↦ rw (ensure_agent_scene, e, t, h) f
      | inl h ↦
          rw (ensure_agent_scene, e, t, h)
            (record {
              each = λ key.
                  added-IsReplayed now i s key h (f.each (scene_key i.agent_id i.scene_id))
                    (f.each key);
            })
    ]
  ]
]

IsFaithful-apply :
    (now : ℕ) (fresh : String) (i : IntentInput) (s : Store)
    → IsFaithful s
    → IsFaithful (apply_agent_scene_intent now fresh i s).0
unfolding apply_agent_scene_intent advanced
IsFaithful-apply now fresh i s f =
    elim (Option-cases (lookup (scene_key i.agent_id i.scene_id) s.scenes)) [
      | inl e ↦ rw (apply_agent_scene_intent, e) f
      | inr (x, e) ↦ elim (Bool-cases (is_reader i.organization_id i.user_id x)) [
        | inr n ↦ rw (apply_agent_scene_intent, e, n) f
        | inl t ↦ elim (Bool-cases (i.action === "resync")) [
          | inl r ↦ rw (apply_agent_scene_intent, e, t, r) f
          | inr r ↦ elim (Bool-cases (is_stale_intent i.expected_revision x.revision)) [
            | inl h ↦ rw (apply_agent_scene_intent, e, t, r, h) f
            | inr h ↦
                rw (apply_agent_scene_intent, e, t, r, h)
                  (record {
                    each = λ key.
                        advanced-IsReplayed now fresh i s x key e
                          (f.each (scene_key i.agent_id i.scene_id)) (f.each key);
                  })
          ]
        ]
      ]
    ]

-- A call that changes scenes, with the time and the identifier that it draws.
pub data SceneCall : Type 0 where
  ensure : ℕ → EnsureInput → SceneCall
  intend : ℕ → String → IntentInput → SceneCall

unfoldable pub call : SceneCall → Store → Store
call (ensure now i) s = (ensure_agent_scene now i s).0
call (intend now fresh i) s = (apply_agent_scene_intent now fresh i s).0

unfoldable pub calls : List SceneCall → Store → Store
unfolding call
calls [] s = s
calls (c ∷ cs) s = calls cs (call c s)

-- After any calls on scenes, if this held before: a reader who starts from a scene's first view at
-- revision 0 and applies the scene's events in their order, each to the revision that it names as its
-- base, never meets one that does not fit, and ends at the scene's revision and view.
pub calls-IsFaithful : (cs : List SceneCall) (s : Store) → IsFaithful s → IsFaithful (calls cs s)
unfolding calls call
calls-IsFaithful [] s f = f
calls-IsFaithful (ensure now i ∷ cs) s f =
    calls-IsFaithful cs (ensure_agent_scene now i s).0 (IsFaithful-ensure now i s f)
calls-IsFaithful (intend now fresh i ∷ cs) s f =
    calls-IsFaithful cs (apply_agent_scene_intent now fresh i s).0
      (IsFaithful-apply now fresh i s f)
