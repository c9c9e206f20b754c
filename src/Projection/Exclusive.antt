-- ===== src/Projection/Exclusive.antt =====
-- How the jobs of an Agent exclude each other: the writes of the projection queue in
-- packages/db/memory-repository.mjs.
pub mod Settling
pub mod Leasing
use bai_rui_cloud_agent_plat.Prelude.{
  ℕ, ◌+◌, ◌≤◌, ◌<◌, String, Option, none, some, List, [], ◌∷◌, ◌++◌, map, ◌≡◌, ◌≢◌, refl, sym, ap,
  Bool, true, false, ◌&&◌, arith, eq_iff, eq_refl, ◌===◌, All, All-imp, Distinct, Option-cases,
  Bool-cases, inl, inr, find?, find?-none, find?-test, any, any-false_All, update_first,
  map-update_first, count, count-append, count-update_first, count-zero_of_All, count-set, weight,
  In, In-find?, In-middle, unique_by_key, push_found-Distinct, push-Distinct, get_elem?, set,
  map-set, leb, length, count-zero_of_any,
}
use bai_rui_cloud_agent_plat.Projection.{
  Job, JobState, EnqueueInput, waits_for, runs_for, requeue, new_job, enqueue_reason, CompleteInput,
  holds_lease, complete_job, complete, RetryInput, is_newer, retry_job, retry_later, is_waiting,
  is_processing,
}

pub record IsExclusive (js : List Job) : Type 0 where
  pub one_waiting : (agent : String) → count (waits_for agent) js ≤ 1
  pub one_running : (agent : String) → count (runs_for agent) js ≤ 1
  pub ids_distinct : Distinct (map (λ (j : Job). j.id) js)

-- Nobody else waits for the Agent of a running job, if no newer job is found.
pub none_waiting :
    (js : List Job) (j : Job)
    → Distinct (map (λ (j : Job). j.id) js)
    → In j js
    → is_processing j.state ≡ true
    → any (is_newer j) js ≡ false
    → count (waits_for j.agent_id) js ≡ 0
none_waiting js j d m running e =
    count-zero_of_All (waits_for j.agent_id) js
      (both js (unique_by_key (λ (j : Job). j.id) js j d m) (any-false_All (is_newer j) js e))
  where
    apart :
        (x : Job) → (x.id ≡ j.id → x ≡ j) → is_newer j x ≡ false → waits_for j.agent_id x ≡ false
    apart x same n = elim (Bool-cases (x.id === j.id)) [
      | inl t ↦ rw (same ((eq_iff x.id j.id).0 t)) (ground arith)
      | inr f ↦ ground arith
    ]

    both :
        (xs : List Job)
        → All (λ x. x.id ≡ j.id → x ≡ j) xs
        → All (λ x. is_newer j x ≡ false) xs
        → All (λ x. waits_for j.agent_id x ≡ false) xs
    both [] h k = tt
    both (x ∷ xs) h k = (apart x h.0 k.0, both xs h.1 k.1)

requeue_weights :
    (now : ℕ) (reason agent : String) (j : Job)
    → is_waiting j.state ≡ true
    → (weight (waits_for agent) (requeue now reason j) ≡ weight (waits_for agent) j)
      × (weight (runs_for agent) (requeue now reason j) ≡ weight (runs_for agent) j)
unfolding requeue
requeue_weights now reason agent j h = (ground arith, ground arith)

requeue_id : (now : ℕ) (reason : String) (j : Job) → (requeue now reason j).id ≡ j.id
unfolding requeue
requeue_id now reason j = refl

new_job_weights :
    (now : ℕ) (fresh reason agent : String) (i : EnqueueInput) (js : List Job)
    → count (waits_for i.agent_id) js ≡ 0
    → count (waits_for agent) js ≤ 1
    → (count (waits_for agent) js + weight (waits_for agent) (new_job now fresh reason i) ≤ 1)
      × (weight (runs_for agent) (new_job now fresh reason i) ≡ 0)
unfolding new_job
new_job_weights now fresh reason agent i js z h = elim (Bool-cases (i.agent_id === agent)) [
  | inl t ↦
      let same : i.agent_id ≡ agent = (eq_iff i.agent_id agent).0 t in
      (rw t (rw (← same) (omega arith)), ground arith)
  | inr n ↦ (rw n (omega arith), ground arith)
]

new_job_apart :
    (now : ℕ) (fresh reason : String) (i : EnqueueInput) (x : Job)
    → (x.id === fresh) ≡ false
    → x.id ≢ (new_job now fresh reason i).id
unfolding new_job
new_job_apart now fresh reason i x e k = ground (arith, eq_iff x.id fresh)

pub enqueue_reason-IsExclusive :
    (now : ℕ) (fresh reason : String) (i : EnqueueInput) (js : List Job)
    → any (λ j. j.id === fresh) js ≡ false
    → IsExclusive js
    → IsExclusive (enqueue_reason now fresh reason i js)
unfolding enqueue_reason
enqueue_reason-IsExclusive now fresh reason i js unused v =
    elim (Option-cases (find? (waits_for i.agent_id) js)) [
      | inr (j, e) ↦
          let w = λ (agent : String).
            requeue_weights now reason agent j (waits j (find?-test (waits_for i.agent_id) js e)) in
          rw (e, enqueue_reason)
            (record {
              one_waiting = λ agent. omega (
                arith,
                v.one_waiting agent,
                (w agent).0,
                count-update_first (waits_for agent) (waits_for i.agent_id) (requeue now reason) js
                    e,
              );
              one_running = λ agent. omega (
                arith,
                v.one_running agent,
                (w agent).1,
                count-update_first (runs_for agent) (waits_for i.agent_id) (requeue now reason) js
                    e,
              );
              ids_distinct =
                  rw
                    (map-update_first (λ (j : Job). j.id) (waits_for i.agent_id)
                      (requeue now reason) (requeue_id now reason) js)
                    v.ids_distinct;
            })
      | inl e ↦
          let z =
            count-zero_of_All (waits_for i.agent_id) js
              (find?-none (λ _. Unit {0}) (waits_for i.agent_id) js e) in
          rw (e, enqueue_reason)
            (record {
              one_waiting = λ agent. omega (
                arith,
                (new_job_weights now fresh reason agent i js z (v.one_waiting agent)).0,
                count-append (waits_for agent) js (new_job now fresh reason i ∷ []),
              );
              one_running = λ agent. omega (
                arith,
                v.one_running agent,
                (new_job_weights now fresh reason agent i js z (v.one_waiting agent)).1,
                count-append (runs_for agent) js (new_job now fresh reason i ∷ []),
              );
              ids_distinct =
                  push-Distinct (λ (j : Job). j.id) (λ j. j.id === fresh)
                    (new_job now fresh reason i) js (new_job_apart now fresh reason i)
                    (any-false_All (λ j. j.id === fresh) js unused) v.ids_distinct;
            })
    ]
  where
    waits : (j : Job) → waits_for i.agent_id j ≡ true → is_waiting j.state ≡ true
    waits j h = ground arith
