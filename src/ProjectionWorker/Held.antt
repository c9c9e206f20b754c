-- ===== src/ProjectionWorker/Held.antt =====
-- Tokens of the jobs that run (packages/db/memory-repository.mjs).
use bai_rui_cloud_agent_plat.Projection.{
  Job, EnqueueInput, enqueue, enqueue_reason, valid_reason, requeue, new_job, waits_for,
  is_processing, CompleteInput, complete, complete_job, RetryInput, retry_later, retry_job,
  retry_state, holds_lease, is_newer, runs_for,
}
use bai_rui_cloud_agent_plat.Projection.Lease.{
  lease, lease_job, lease_one, lease_each, release, release_from, has_lapsed, lease_span,
  lease_limit, candidates, Progress,
}
use bai_rui_cloud_agent_plat.Projection.Calls.{
  Step, Reach, enqueued, leased, completed, retried, here, next,
}
use bai_rui_cloud_agent_plat.Prelude.{
  All, All-append, Bool, Bool-cases, List, Option-cases, String, [], any, arith, false, find?,
  get_elem?, inl, inr, is_some, leb, length, or_else, set, some, suc, true, update_first-All, zero,
  ℕ, ◌++◌, ◌∷◌, ◌≡◌, if◌then◌else◌, refl,
}

-- A job that runs has a token.
abbrev pub HasToken : Job → Type 0
HasToken j = is_processing j.state ≡ true → is_some j.lease_token ≡ true

abbrev pub IsHeld : List Job → Type 0
IsHeld js = All HasToken js

enqueue-IsHeld :
    (now : ℕ) (fresh : String) (i : EnqueueInput) (js : List Job) {ks : List Job}
    → enqueue now fresh i js ≡ some ks
    → IsHeld js
    → IsHeld ks
unfolding enqueue enqueue_reason requeue new_job
enqueue-IsHeld now fresh i js {ks} e h =
    elim (Bool-cases (valid_reason (or_else i.reason "note-write"))) [
      | inr n ↦ absurd (ground arith)
      | inl t ↦
          let same : enqueue_reason now fresh (or_else i.reason "note-write") i js ≡ ks =
            ground arith in
          rw (← same) (elim (Option-cases (find? (waits_for i.agent_id) js)) [
            | inr (j, g) ↦
                rw (enqueue_reason, g)
                  (update_first-All HasToken (waits_for i.agent_id)
                    (requeue now (or_else i.reason "note-write")) js (λ x t k. λ z. absurd (cc)) h)
            | inl g ↦ rw (enqueue_reason, g) (All-append HasToken js _ h (λ z. absurd (cc), tt))
          ])
    ]

complete-IsHeld :
    (now : ℕ) (c : CompleteInput) (js : List Job) → IsHeld js → IsHeld (complete now c js).0
unfolding complete complete_job
complete-IsHeld now c js h = elim (Option-cases (find? (holds_lease c.id c.lease_token) js)) [
  | inl e ↦ rw (e, complete) h
  | inr (j, e) ↦
      rw (e, complete)
        (update_first-All HasToken (holds_lease c.id c.lease_token) (complete_job now c) js
          (λ x t k. λ z. absurd (cc)) h)
]

retry_later-IsHeld :
    (now : ℕ) (r : RetryInput) (js : List Job) → IsHeld js → IsHeld (retry_later now r js).0
unfolding retry_later retry_job retry_state
retry_later-IsHeld now r js h = elim (Option-cases (find? (holds_lease r.id r.lease_token) js)) [
  | inl e ↦ rw (e, retry_later) h
  | inr (j, e) ↦
      rw (e, retry_later)
        (update_first-All HasToken (holds_lease r.id r.lease_token)
          (retry_job now (any (is_newer j) js) r) js (λ x t k. λ z. absurd (ground arith)) h)
]

release-HasToken : (now : ℕ) (newer : Bool) (j : Job) → HasToken (release now newer j)
unfolding release
release-HasToken now true j = λ z. absurd (cc)
release-HasToken now false j = λ z. absurd (cc)

release_from-IsHeld :
    (now : ℕ) (seen js : List Job) → IsHeld seen → IsHeld js → IsHeld (release_from now seen js)
unfolding release_from
release_from-IsHeld now seen [] a b = a
release_from-IsHeld now seen (j ∷ js) a b =
    let newer = any (is_newer j) (seen ++ j ∷ js) in
    let one : HasToken (if has_lapsed now j then release now newer j else j) =
      elim (Bool-cases (has_lapsed now j)) [
        | inl t ↦ rw t (release-HasToken now newer j)
        | inr n ↦ rw n b.0
      ] in
    release_from-IsHeld now (seen ++ (if has_lapsed now j then release now newer j else j) ∷ []) js
      (All-append HasToken seen _ a (one, tt)) b.1

set-IsHeld : (js : List Job) (k : ℕ) (j : Job) → HasToken j → IsHeld js → IsHeld (set js k j)
set-IsHeld [] k j t h = tt
set-IsHeld (x ∷ xs) zero j t h = (t, h.1)
set-IsHeld (x ∷ xs) (suc k) j t h = (h.0, set-IsHeld xs k j t h.1)

lease_one-IsHeld :
    (now span limit : ℕ) (fresh : ℕ → String) (k : ℕ) (p : Progress)
    → IsHeld p.0
    → IsHeld (lease_one now span limit fresh k p).0
unfolding lease_one lease_job
lease_one-IsHeld now span limit fresh k (js, ks) h = elim (Bool-cases (leb limit (length ks))) [
  | inl t ↦ rw t h
  | inr n ↦ elim (Option-cases (get_elem? js k)) [
    | inl e ↦ rw (lease_one, n, e) h
    | inr (j, e) ↦ elim (Bool-cases (any (runs_for j.agent_id) js)) [
      | inl t ↦ rw (lease_one, n, e, t) h
      | inr f ↦
          rw (lease_one, n, e, f)
            (set-IsHeld js k (lease_job now span (fresh (length ks)) j) (λ z. refl) h)
    ]
  ]
]

lease_each-IsHeld :
    (now span limit : ℕ) (fresh : ℕ → String) (ks : List ℕ) (p : Progress)
    → IsHeld p.0
    → IsHeld (lease_each now span limit fresh ks p).0
unfolding lease_each
lease_each-IsHeld now span limit fresh [] p h = h
lease_each-IsHeld now span limit fresh (k ∷ ks) p h =
    lease_each-IsHeld now span limit fresh ks (lease_one now span limit fresh k p)
      (lease_one-IsHeld now span limit fresh k p h)

Step-IsHeld : {js ks : List Job} → Step js ks → IsHeld js → IsHeld ks
unfolding lease
Step-IsHeld {js} (enqueued now fresh i unused e) h = enqueue-IsHeld now fresh i js e h
Step-IsHeld {js} (leased now fresh l) h =
    lease_each-IsHeld now (lease_span l.lease_seconds) (lease_limit l.limit) fresh
      (candidates now (release_from now [] js)) (release_from now [] js, [])
      (release_from-IsHeld now [] js tt h)
Step-IsHeld {js} (completed now c) h = complete-IsHeld now c js h
Step-IsHeld {js} (retried now r) h = retry_later-IsHeld now r js h

pub Reach-IsHeld : {js : List Job} → Reach [] js → IsHeld js
Reach-IsHeld here = tt
Reach-IsHeld (next r s) = Step-IsHeld s (Reach-IsHeld r)
