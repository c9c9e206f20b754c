-- ===== src/Control/Approvals/Once.antt =====
-- Decisions that come again, and rejections (packages/db/memory-repository.mjs).
-- An approval that is found pending and in time is decided.
use bai_rui_cloud_agent_plat.Prelude.{
  Bool-cases, false, find?, find?-update_first, if◌then◌else◌, inl, inr, ltb, refl, some, true,
  update_first, ℕ, ◌&&◌, ◌===◌, ◌≡◌, Bool, List, Option-cases, [], arith, ◌∷◌,
}
use bai_rui_cloud_agent_plat.Control.Approvals.{
  approval_not_pending, decided, decide_control_approval, DecisionInput, reject_command, is_named,
  is_pending, decide, is_rejected, cancel_queued,
}
use bai_rui_cloud_agent_plat.Control.Store.{cancelled, Store, Approval, Command, is_queued}

decided_first :
    (now : ℕ) (i : DecisionInput) (s : Store) (a : Approval)
    → find? (is_named i) s.approvals ≡ some a
    → (is_pending a.decision && ltb now a.expires_at) ≡ true
    → ((decide_control_approval now i s).0.approvals
        ≡ update_first (is_named i) (decide now i) s.approvals)
      × ((decide_control_approval now i s).1 ≡ decided (decide now i a))
unfolding decide_control_approval reject_command
decided_first now i s a e t = elim (Bool-cases (is_rejected i.decision)) [
  | inl r ↦ rw (decide_control_approval, e, t, r) (refl, refl)
  | inr r ↦ rw (decide_control_approval, e, t, r) (refl, refl)
]

decided_already :
    (now : ℕ) (i : DecisionInput) (s : Store) (a : Approval)
    → find? (is_named i) s.approvals ≡ some a
    → (is_pending a.decision && ltb now a.expires_at) ≡ false
    → decide_control_approval now i s ≡ (s, approval_not_pending)
unfolding decide_control_approval
decided_already now i s a e t = rw (decide_control_approval, e, t) refl

-- Decisions one after the other, each at its time.
abbrev pub decide_each : List (ℕ × DecisionInput) → Store → Store
decide_each [] s = s
decide_each ((now, i) ∷ rest) s = decide_each rest (decide_control_approval now i s).0

-- A write to the first item with `q`, which is pending, does not reach the first with `p`, which is
-- not.
find?-other :
    (p q : Approval → Bool) (f : Approval → Approval) (xs : List Approval) {x y : Approval}
    → ((a : Approval) → p (f a) ≡ p a)
    → find? p xs ≡ some x
    → find? q xs ≡ some y
    → is_pending x.decision ≡ false
    → is_pending y.decision ≡ true
    → find? p (update_first q f xs) ≡ some x
find?-other p q f [] keep e g settled waits = absurd (cc)
find?-other p q f (a ∷ xs) {x} {y} keep e g settled waits = elim (Bool-cases (q a)) [
  | inl t ↦
      let same : a ≡ y = (let z = rw t at g in cc) in
      elim (Bool-cases (p a)) [
        | inl u ↦
            let this : a ≡ x = (let z = rw u at e in cc) in
            absurd (let z = rw (← this, same) at settled in cc)
        | inr u ↦ rw t (rw (keep a) (rw u (rw u at e)))
      ]
  | inr t ↦ elim (Bool-cases (p a)) [
    | inl u ↦ rw t (rw u (rw u at e))
    | inr u ↦ rw t (rw u (find?-other p q f xs keep (rw u at e) (rw t at g) settled waits))
  ]
]

-- A decision keeps an approval that is found and not pending.
settled-decide :
    (now : ℕ) (i j : DecisionInput) (s : Store) (x : Approval)
    → find? (is_named j) s.approvals ≡ some x
    → is_pending x.decision ≡ false
    → find? (is_named j) (decide_control_approval now i s).0.approvals ≡ some x
unfolding decide_control_approval
settled-decide now i j s x e settled = elim (Option-cases (find? (is_named i) s.approvals)) [
  | inl g ↦ rw (decide_control_approval, g) e
  | inr (y, g) ↦ elim (Bool-cases (is_pending y.decision && ltb now y.expires_at)) [
    | inr n ↦ rw (decided_already now i s y g n) e
    | inl t ↦ rw ((decided_first now i s y g t).0) (
        find?-other (is_named j) (is_named i) (decide now i) s.approvals (λ a. refl) e g settled
          (ground arith))
  ]
]

settled-decide_each :
    (ds : List (ℕ × DecisionInput)) (j : DecisionInput) (s : Store) (x : Approval)
    → find? (is_named j) s.approvals ≡ some x
    → is_pending x.decision ≡ false
    → find? (is_named j) (decide_each ds s).approvals ≡ some x
settled-decide_each [] j s x e settled = e
settled-decide_each ((now, i) ∷ ds) j s x e settled =
    settled-decide_each ds j (decide_control_approval now i s).0 x
      (settled-decide now i j s x e settled) settled

-- An approval that has been approved or rejected is not decided again: whatever decisions come in
-- between, on it or on others, a later one that names it and the same organization, at any time and
-- by whomever, throws, and changes nothing.
pub decide_control_approval-once :
    (now later : ℕ) (i j : DecisionInput) (s : Store) (a b : Approval)
    (between : List (ℕ × DecisionInput))
    → find? (is_named i) s.approvals ≡ some a
    → (decide_control_approval now i s).1 ≡ decided b
    → is_pending i.decision ≡ false
    → j.approval_id ≡ i.approval_id
    → j.organization_id ≡ i.organization_id
    → let t = decide_each between (decide_control_approval now i s).0 in
      decide_control_approval later j t ≡ (t, approval_not_pending)
decide_control_approval-once now later i j s a b between e answered settled same_id
      same_organization =
    elim (Bool-cases (is_pending a.decision && ltb now a.expires_at)) [
      | inr n ↦ absurd (let r = rw (decided_already now i s a e n) at answered in cc)
      | inl t ↦
          let first = decided_first now i s a e t in
          let found : find? (is_named i) (decide_control_approval now i s).0.approvals
              ≡ some (decide now i a) =
            rw (first.0)
              (find?-update_first (is_named i) (decide now i) s.approvals (λ x. refl) e) in
          let still =
            settled-decide_each between j (decide_control_approval now i s).0 (decide now i a)
              (rw (same_id, same_organization) found) settled in
          decided_already later j (decide_each between (decide_control_approval now i s).0)
            (decide now i a) still (rw settled refl)
    ]

-- A rejection of a pending approval cancels its command, if that is still queued.
pub decide_control_approval-rejected :
    (now : ℕ) (i : DecisionInput) (s : Store) (a : Approval) (c : Command)
    → find? (is_named i) s.approvals ≡ some a
    → (is_pending a.decision && ltb now a.expires_at) ≡ true
    → is_rejected i.decision ≡ true
    → find? (λ x. x.id === a.command_id) s.commands ≡ some c
    → (find? (λ x. x.id === a.command_id) (decide_control_approval now i s).0.commands
        ≡ some (if is_queued c.state then record c { state = cancelled } else c))
unfolding decide_control_approval reject_command
decide_control_approval-rejected now i s a c e t r here =
    rw (decide_control_approval, e, t, r)
      (find?-update_first (λ x. x.id === a.command_id) cancel_queued s.commands keeps here)
  where
    keeps : (x : Command) → ((cancel_queued x).id === a.command_id) ≡ (x.id === a.command_id)
    keeps x = elim (Bool-cases (is_queued x.state)) [ inl q ↦ rw q refl | inr q ↦ rw q refl ]
