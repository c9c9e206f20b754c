-- ===== src/Projection/Calls.antt =====
-- Any sequence of calls of the projection queue.
use bai_rui_cloud_agent_plat.Prelude.{
  ℕ, String, List, [], ◌≡◌, false, any, ◌===◌, some, or_else, Bool-cases, inl, inr, arith,
}
use bai_rui_cloud_agent_plat.Projection.{
  Job, EnqueueInput, enqueue, enqueue_reason, valid_reason, CompleteInput, complete, RetryInput,
  retry_later,
}
use bai_rui_cloud_agent_plat.Projection.Lease.{LeaseInput, lease}
use bai_rui_cloud_agent_plat.Projection.Exclusive.{IsExclusive, enqueue_reason-IsExclusive}
use bai_rui_cloud_agent_plat.Projection.Exclusive.Settling.{
  complete-IsExclusive, retry_later-IsExclusive,
}
use bai_rui_cloud_agent_plat.Projection.Exclusive.Leasing.{lease-IsExclusive}

-- One call. `randomUUID` draws an identifier that no job has.
pub data Step (js : List Job) : List Job → Type 0 where
  enqueued :
      (now : ℕ) (fresh : String) (i : EnqueueInput) {ks : List Job}
      → any (λ j. j.id === fresh) js ≡ false
      → enqueue now fresh i js ≡ some ks
      → Step js ks
  leased : (now : ℕ) (fresh : ℕ → String) (l : LeaseInput) → Step js (lease now fresh l js).0
  completed : (now : ℕ) (c : CompleteInput) → Step js (complete now c js).0
  retried : (now : ℕ) (r : RetryInput) → Step js (retry_later now r js).0

pub data Reach (js : List Job) : List Job → Type 0 where
  here : Reach js js
  next : {ks ls : List Job} → Reach js ks → Step ks ls → Reach js ls

enqueue-IsExclusive :
    (now : ℕ) (fresh : String) (i : EnqueueInput) (js : List Job) {ks : List Job}
    → any (λ j. j.id === fresh) js ≡ false
    → enqueue now fresh i js ≡ some ks
    → IsExclusive js
    → IsExclusive ks
unfolding enqueue
enqueue-IsExclusive now fresh i js {ks} unused e v =
    elim (Bool-cases (valid_reason (or_else i.reason "note-write"))) [
      | inr n ↦ absurd (ground arith)
      | inl t ↦
          let same : enqueue_reason now fresh (or_else i.reason "note-write") i js ≡ ks =
            ground arith in
          rw (← same) (enqueue_reason-IsExclusive now fresh _ i js unused v)
    ]

Step-IsExclusive : {js ks : List Job} → Step js ks → IsExclusive js → IsExclusive ks
Step-IsExclusive {js} (enqueued now fresh i unused e) v =
    enqueue-IsExclusive now fresh i js unused e v
Step-IsExclusive {js} (leased now fresh l) v = lease-IsExclusive now fresh l js v
Step-IsExclusive {js} (completed now c) v = complete-IsExclusive now c js v
Step-IsExclusive {js} (retried now r) v = retry_later-IsExclusive now r js v

Reach-from-IsExclusive : {js ks : List Job} → Reach js ks → IsExclusive js → IsExclusive ks
Reach-from-IsExclusive here v = v
Reach-from-IsExclusive (next r s) v = Step-IsExclusive s (Reach-from-IsExclusive r v)

-- In every queue that calls reach from the empty one, where each enqueued job draws an identifier
-- that no job in the queue has: an Agent has at most one job that waits and at most one that runs,
-- and no two jobs have one identifier.
pub Reach-IsExclusive : {js : List Job} → Reach [] js → IsExclusive js
Reach-IsExclusive r =
    Reach-from-IsExclusive r
      (record { one_waiting = λ a. omega arith; one_running = λ a. omega arith; ids_distinct = tt })
