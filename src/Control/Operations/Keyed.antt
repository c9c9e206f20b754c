-- ===== src/Control/Operations/Keyed.antt =====
-- The idempotency keys of control operations (packages/db/memory-repository.mjs).
-- At most one command of a deployment has a key.
use bai_rui_cloud_agent_plat.Prelude.{
  Bool-cases, List, Option, Option-cases, String, [], arith, count, count-append, count-zero_of_All,
  eq_iff, find?, find?-none, find_last?, inl, inr, is_text, refl, some, true, ℕ, ◌++◌, ◌∷◌, ◌≡◌,
  ◌≤◌, eq_refl, find?-append_none, ◌∙◌,
}
use bai_rui_cloud_agent_plat.Control.Operations.{
  operation, refuse, request_control_operation, has_key, queue_operation, operation_key,
  new_command,
}
use bai_rui_cloud_agent_plat.Control.Operations.References.{
  OperationInput, Refusal, is_deployment_of, broken_reference,
}
use bai_rui_cloud_agent_plat.Control.Store.{Command, Store, Approval}
use bai_rui_cloud_agent_plat.Fleet.Store.{Deployment}

abbrev pub IsKeyed : List Command → Type 0
IsKeyed commands = (deployment key : String) → count (has_key deployment key) commands ≤ 1

push-IsKeyed :
    (cs : List Command) (c : Command) (key : String)
    → c.idempotency_key ≡ some key
    → count (has_key c.deployment_id key) cs ≡ 0
    → IsKeyed cs
    → IsKeyed (cs ++ c ∷ [])
push-IsKeyed cs c key named zero_here keyed deployment other =
    rw (count-append (has_key deployment other) cs (c ∷ []))
      (elim (Bool-cases (has_key deployment other c)) [
        | inr n ↦ rw n (omega (arith, keyed deployment other))
        | inl t ↦
            let same : c.deployment_id ≡ deployment =
              (eq_iff c.deployment_id deployment).0 (ground arith) in
            let keys : is_text c.idempotency_key other ≡ true = ground arith in
            let same_key : key ≡ other = (eq_iff key other).0 (rw named at keys) in
            let none_yet : count (has_key deployment other) cs ≡ 0 =
              rw (← same, ← same_key) zero_here in
            rw t (omega (arith, none_yet))
      ])

answered :
    (fresh : String) (i : OperationInput) (cs : List Command) (c x : Command)
    (p q : Option Approval) (d e : Deployment)
    → find? (has_key d.id (operation_key fresh i d)) cs ≡ some c
    → operation c p ≡ operation x q
    → some d ≡ some e
    → find? (has_key e.id (operation_key fresh i e)) cs ≡ some x
answered fresh i cs c x p q d e here same there =
    let same_command : c ≡ x = cc in
    let same_deployment : d ≡ e = cc in rw (← same_command, ← same_deployment) here

-- A requested operation leaves at most one command of a deployment under each idempotency key. Where
-- a reference is refused, nothing is written; otherwise the command that is answered is the one that
-- the store then has under the operation's key.
pub request_control_operation-IsKeyed :
    (now : ℕ) (fresh : ℕ → String) (i : OperationInput) (s : Store)
    → IsKeyed s.commands
    → let after = request_control_operation now fresh i s in
      IsKeyed after.0.commands
      × ((r : Refusal) → after.1 ≡ refuse r → after.0 ≡ s)
      × ((c : Command) (p : Option Approval) (d : Deployment)
          → after.1 ≡ operation c p
          → find_last? (is_deployment_of i) s.world.deployments ≡ some d
          → find? (has_key d.id (operation_key (fresh 0) i d)) after.0.commands ≡ some c)
unfolding request_control_operation queue_operation
request_control_operation-IsKeyed now fresh i s keyed =
    elim (Option-cases (find_last? (is_deployment_of i) s.world.deployments)) [
      | inl e ↦ rw (request_control_operation, e) (keyed, λ r h. refl, λ c p d h. absurd (cc))
      | inr (d, e) ↦ elim (Option-cases (broken_reference i d.id s.world)) [
        | inr (r, b) ↦
            rw (request_control_operation, e, b) (keyed, λ r h. refl, λ c p d h. absurd (cc))
        | inl b ↦
            let key = operation_key (fresh 0) i d in
            elim (Option-cases (find? (has_key d.id key) s.commands)) [
              | inr (c, f) ↦
                  rw (request_control_operation, e, b, f)
                    (
                      keyed,
                      λ r h. refl,
                      λ x p u h k. answered (fresh 0) i s.commands c x _ p d u f h k,
                    )
              | inl f ↦
                  rw (request_control_operation, e, b, f)
                    (
                      push-IsKeyed s.commands (new_command now fresh i d key) key refl
                          (count-zero_of_All (has_key d.id key) s.commands
                            (find?-none (λ _. Unit {0}) (has_key d.id key) s.commands f))
                          keyed,
                      λ r h. absurd (cc),
                      λ x p u h k.
                          answered (fresh 0) i _ (new_command now fresh i d key) x _ p d u
                            (find?-append_none (has_key d.id key) s.commands
                                (new_command now fresh i d key ∷ []) f
                              ∙ rw (eq_refl d.id, eq_refl key) refl)
                            h k,
                    )
            ]
      ]
    ]
