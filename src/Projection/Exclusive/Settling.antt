-- ===== src/Projection/Exclusive/Settling.antt =====
-- Completing and retrying a projection job, and the exclusion of an Agent's jobs.
use bai_rui_cloud_agent_plat.Prelude.{
  ℕ, ◌+◌, ◌≤◌, String, some, List, ◌≡◌, refl, Bool, true, false, arith, eq_iff, ◌===◌, Option-cases,
  Bool-cases, inl, inr, find?, find?-test, any, update_first, map-update_first, count,
  count-update_first, weight, In-find?,
}
use bai_rui_cloud_agent_plat.Projection.{
  Job, waits_for, runs_for, CompleteInput, holds_lease, complete_job, complete, RetryInput,
  is_newer, retry_job, retry_later, is_processing,
}
use bai_rui_cloud_agent_plat.Projection.Exclusive.{IsExclusive, none_waiting}

-- A write by a lease holder that keeps identifiers, and adds a waiting job only where none waits.
settle-IsExclusive :
    (id token : String) (f : Job → Job) (js : List Job) {j : Job}
    → find? (holds_lease id token) js ≡ some j
    → ((x : Job) → (f x).id ≡ x.id)
    → ((agent : String) → count (waits_for agent) js + weight (waits_for agent) (f j) ≤ 1)
    → ((agent : String) → weight (runs_for agent) (f j) ≡ 0)
    → IsExclusive js
    → IsExclusive (update_first (holds_lease id token) f js)
settle-IsExclusive id token f js e keep waiting running v = record {
  one_waiting = λ agent.
      omega
        (arith, waiting agent, count-update_first (waits_for agent) (holds_lease id token) f js e);
  one_running = λ agent. omega (
    arith,
    running agent,
    v.one_running agent,
    count-update_first (runs_for agent) (holds_lease id token) f js e,
  );
  ids_distinct =
      rw (map-update_first (λ (j : Job). j.id) (holds_lease id token) f keep js) v.ids_distinct;
}

complete_job_id : (now : ℕ) (c : CompleteInput) (j : Job) → (complete_job now c j).id ≡ j.id
unfolding complete_job
complete_job_id now c j = refl

complete_job_weights :
    (now : ℕ) (c : CompleteInput) (agent : String) (j : Job)
    → (weight (waits_for agent) (complete_job now c j) ≡ 0)
      × (weight (runs_for agent) (complete_job now c j) ≡ 0)
unfolding complete_job
complete_job_weights now c agent j = (ground arith, ground arith)

pub complete-IsExclusive :
    (now : ℕ) (c : CompleteInput) (js : List Job)
    → IsExclusive js
    → IsExclusive (complete now c js).0
unfolding complete
complete-IsExclusive now c js v = elim (Option-cases (find? (holds_lease c.id c.lease_token) js)) [
  | inl e ↦ rw (e, complete) v
  | inr (j, e) ↦
      rw (e, complete)
        (settle-IsExclusive c.id c.lease_token (complete_job now c) js e (complete_job_id now c)
          (λ agent. omega (arith, v.one_waiting agent, (complete_job_weights now c agent j).0))
          (λ agent. (complete_job_weights now c agent j).1) v)
]

retry_job_id :
    (now : ℕ) (newer : Bool) (r : RetryInput) (j : Job) → (retry_job now newer r j).id ≡ j.id
unfolding retry_job
retry_job_id now newer r j = refl

retry_job_runs :
    (now : ℕ) (newer : Bool) (r : RetryInput) (agent : String) (j : Job)
    → weight (runs_for agent) (retry_job now newer r j) ≡ 0
unfolding retry_job
retry_job_runs now newer r agent j = ground arith

retry_job_newer :
    (now : ℕ) (r : RetryInput) (agent : String) (j : Job)
    → weight (waits_for agent) (retry_job now true r j) ≡ 0
unfolding retry_job
retry_job_newer now r agent j = ground arith

retry_job_other :
    (now : ℕ) (newer : Bool) (r : RetryInput) (agent : String) (j : Job)
    → (j.agent_id === agent) ≡ false
    → weight (waits_for agent) (retry_job now newer r j) ≡ 0
unfolding retry_job
retry_job_other now newer r agent j h = ground arith

weight-le-one : (p : Job → Bool) (j : Job) → weight p j ≤ 1
weight-le-one p j = ground arith

-- A job that goes back to waiting finds its Agent's place free.
retry_job_fits :
    (now : ℕ) (r : RetryInput) (agent : String) (js : List Job) (j : Job)
    → find? (holds_lease r.id r.lease_token) js ≡ some j
    → IsExclusive js
    → count (waits_for agent) js
        + weight (waits_for agent) (retry_job now (any (is_newer j) js) r j)
      ≤ 1
retry_job_fits now r agent js j e v = elim (Bool-cases (any (is_newer j) js)) [
  | inl newer ↦ rw newer (omega (arith, v.one_waiting agent, retry_job_newer now r agent j))
  | inr alone ↦ elim (Bool-cases (j.agent_id === agent)) [
    | inr other ↦
        omega
          (arith, v.one_waiting agent, retry_job_other now (any (is_newer j) js) r agent j other)
    | inl own ↦
        let same = (eq_iff j.agent_id agent).0 own in
        let z =
          none_waiting js j v.ids_distinct (In-find? (holds_lease r.id r.lease_token) js e)
            (running (find?-test (holds_lease r.id r.lease_token) js e)) alone in
        let z' : count (waits_for agent) js ≡ 0 = rw (← same) z in
        omega (arith, z', weight-le-one (waits_for agent) (retry_job now (any (is_newer j) js) r j))
  ]
]
  where
    running : holds_lease r.id r.lease_token j ≡ true → is_processing j.state ≡ true
    running h = ground arith

pub retry_later-IsExclusive :
    (now : ℕ) (r : RetryInput) (js : List Job)
    → IsExclusive js
    → IsExclusive (retry_later now r js).0
unfolding retry_later
retry_later-IsExclusive now r js v =
    elim (Option-cases (find? (holds_lease r.id r.lease_token) js)) [
      | inl e ↦ rw (e, retry_later) v
      | inr (j, e) ↦
          rw (e, retry_later)
            (settle-IsExclusive r.id r.lease_token (retry_job now (any (is_newer j) js) r) js e
              (retry_job_id now (any (is_newer j) js) r)
              (λ agent. retry_job_fits now r agent js j e v)
              (λ agent. retry_job_runs now (any (is_newer j) js) r agent j) v)
    ]
