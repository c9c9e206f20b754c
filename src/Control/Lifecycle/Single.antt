-- ===== src/Control/Lifecycle/Single.antt =====
-- How many lifecycle commands of a deployment are in progress (packages/db/memory-repository.mjs).
use bai_rui_cloud_agent_plat.Prelude.{
  Bool, Bool-cases, List, Option-cases, String, [], arith, count, count-append, eq_iff, find_last?,
  inl, inr, lookup, none, not, refl, ℕ, ◌&&◌, ◌++◌, ◌===◌, ◌∷◌, ◌≡◌, ◌≤◌,
}
use bai_rui_cloud_agent_plat.Control.Store.{Command, Store, runtime_of}
use bai_rui_cloud_agent_plat.Control.Lifecycle.{
  request_deployed, request_agent_lifecycle, is_in_progress, queue_lifecycle, LifecycleInput,
  LifecycleRequest, is_delete, is_pause, is_resume, lifecycle_command,
}
use bai_rui_cloud_agent_plat.Fleet.Store.{Agent, AgentRuntime}

abbrev pub IsSingle : List Command → Type 0
IsSingle commands = (deployment : String) → count (is_in_progress deployment) commands ≤ 1

find_last?-none : (p : Command → Bool) (cs : List Command) → find_last? p cs ≡ none → count p cs ≡ 0
find_last?-none p [] e = refl
find_last?-none p (c ∷ cs) e = elim (Option-cases (find_last? p cs)) [
  | inr (d, h) ↦ absurd (let r = rw h at e in cc)
  | inl h ↦ elim (Bool-cases (p c)) [
    | inl t ↦ absurd (let r = rw (h, t) at e in cc)
    | inr n ↦ rw n (omega (arith, find_last?-none p cs h))
  ]
]

push-IsSingle :
    (cs : List Command) (c : Command)
    → count (is_in_progress c.deployment_id) cs ≡ 0
    → IsSingle cs
    → IsSingle (cs ++ c ∷ [])
push-IsSingle cs c zero_here single deployment =
    rw (count-append (is_in_progress deployment) cs (c ∷ []))
      (elim (Bool-cases (is_in_progress deployment c)) [
        | inr n ↦ rw n (omega (arith, single deployment))
        | inl t ↦
            let same : c.deployment_id ≡ deployment =
              (eq_iff c.deployment_id deployment).0 (ground arith) in
            let none_yet : count (is_in_progress deployment) cs ≡ 0 = rw (← same) zero_here in
            rw t (omega (arith, none_yet))
      ])

request_deployed-IsSingle :
    (now : ℕ) (fresh : ℕ → String) (i : LifecycleInput) (a : Agent) (r : AgentRuntime) (d : String)
    (q : LifecycleRequest) (s : Store)
    → IsSingle s.commands
    → IsSingle (request_deployed now fresh i a r d q s).0.commands
unfolding request_deployed queue_lifecycle
request_deployed-IsSingle now fresh i a r d q s single =
    elim (Bool-cases (is_pause q && r.status === "suspended")) [
      | inl t ↦ rw (request_deployed, t) single
      | inr n ↦ elim (Bool-cases (is_resume q && not (r.status === "suspended"))) [
        | inl t ↦ rw (request_deployed, n, t) single
        | inr m ↦ elim (Option-cases (find_last? (is_in_progress d) s.commands)) [
          | inr (c, e) ↦ rw (request_deployed, n, m, e) single
          | inl e ↦
              rw (request_deployed, n, m, e)
                (push-IsSingle s.commands (lifecycle_command now fresh a d q)
                  (find_last?-none (is_in_progress d) s.commands e) single)
        ]
      ]
    ]

-- A lifecycle request, whatever it answers, never puts a second lifecycle command of a deployment
-- in progress.
pub request_agent_lifecycle-IsSingle :
    (now : ℕ) (fresh : ℕ → String) (i : LifecycleInput) (s : Store)
    → IsSingle s.commands
    → IsSingle (request_agent_lifecycle now fresh i s).0.commands
unfolding request_agent_lifecycle
request_agent_lifecycle-IsSingle now fresh i s single = elim (Option-cases i.request) [
  | inl e ↦ rw (request_agent_lifecycle, e) single
  | inr (q, e) ↦ elim (Option-cases (lookup i.agent_id s.world.agents)) [
    | inl h ↦ rw (request_agent_lifecycle, e, h) single
    | inr (a, h) ↦ elim (Option-cases (runtime_of i.agent_id s.world)) [
      | inl k ↦ rw (request_agent_lifecycle, e, h, k) single
      | inr (r, k) ↦ elim (Option-cases r.deployment_id) [
        | inr (d, l) ↦
            rw (request_agent_lifecycle, e, h, k, l)
              (request_deployed-IsSingle now fresh i a r d q s single)
        | inl l ↦ elim (Bool-cases (is_delete q)) [
          | inl t ↦ rw (request_agent_lifecycle, e, h, k, l, t) single
          | inr n ↦ rw (request_agent_lifecycle, e, h, k, l, n) single
        ]
      ]
    ]
  ]
]
