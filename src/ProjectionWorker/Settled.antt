-- ===== src/ProjectionWorker/Settled.antt =====
-- Jobs that the projection worker has run (packages/memory/projection-worker.mjs).
use bai_rui_cloud_agent_plat.Projection.{
  Job, is_processing, CompleteInput, complete_job, RetryInput, retry_job, retry_state, holds_lease,
  complete, retry_later, is_newer,
}
use bai_rui_cloud_agent_plat.ProjectionWorker.Held.{IsHeld, Reach-IsHeld}
use bai_rui_cloud_agent_plat.ProjectionWorker.{
  token_now, summary, threw, job_now, Projected, process, give_up, Worker, retry_input, is_dead,
  safe_error_code,
}
use bai_rui_cloud_agent_plat.Prelude.{
  All, Bool, Bool-cases, Distinct, List, Option-cases, String, [], any, arith, eq_iff, eq_refl,
  false, find?, inl, inr, map, map-update_first, refl, some, sym, true, update_first, ℕ, ◌&&◌,
  ◌===◌, ◌∷◌, ◌≡◌, ◌≢◌, Option, ap, find?-test, none, ◌⊎◌,
}
use bai_rui_cloud_agent_plat.Notebook.{mark_obsidian_projection_failed}
use bai_rui_cloud_agent_plat.Notebook.Data.{Store}
use bai_rui_cloud_agent_plat.Json.{Value}
use bai_rui_cloud_agent_plat.Projection.Calls.{Reach, Reach-IsExclusive}

abbrev pub is_running : String → Job → Bool
is_running id j = j.id === id && is_processing j.state

record IsEnding (f : Job → Job) : Type 0 where
  same_id : (j : Job) → (f j).id ≡ j.id
  ends : (j : Job) → is_processing (f j).state ≡ false

complete_job-IsEnding : (now : ℕ) (c : CompleteInput) → IsEnding (complete_job now c)
unfolding complete_job
complete_job-IsEnding now c = record { same_id = λ j. refl; ends = λ j. refl }

retry_job-IsEnding : (now : ℕ) (newer : Bool) (r : RetryInput) → IsEnding (retry_job now newer r)
unfolding retry_job retry_state
retry_job-IsEnding now newer r = record { same_id = λ j. refl; ends = λ j. ground arith }

absent-not_running :
    (id : String) (js : List Job)
    → All (λ z. id ≢ z) (map (λ (j : Job). j.id) js)
    → any (is_running id) js ≡ false
absent-not_running id [] a = refl
absent-not_running id (j ∷ js) a = elim (Bool-cases (j.id === id)) [
  | inl t ↦ absurd (a.0 (sym ((eq_iff j.id id).0 t)))
  | inr n ↦ rw n (absent-not_running id js a.1)
]

-- The one job with an identifier does not run after a write by the token that it holds.
ended-not_running :
    (id token : String) (f : Job → Job) (js : List Job)
    → IsEnding f
    → Distinct (map (λ (j : Job). j.id) js)
    → IsHeld js
    → ((j : Job) → find? (λ k. k.id === id) js ≡ some j → token_now j ≡ token)
    → any (is_running id) (update_first (holds_lease id token) f js) ≡ false
ended-not_running id token f [] e d h held = refl
ended-not_running id token f (j ∷ js) e d h held = elim (Bool-cases (j.id === id)) [
  | inr n ↦ rw n (rw n (ended-not_running id token f js e d.1 h.1 (λ k g. held k (rw n g))))
  | inl t ↦
      let same_id : j.id ≡ id = (eq_iff j.id id).0 t in
      let mine = held j (rw t refl) in
      let others : All (λ z. id ≢ z) (map (λ (k : Job). k.id) js) = rw (← same_id) d.0 in
      elim (Bool-cases (is_processing j.state)) [
        | inr u ↦
            rw (t, u)
              (rw (t, u)
                (absent-not_running id (update_first (holds_lease id token) f js) (
                  rw (map-update_first (λ (k : Job). k.id) (holds_lease id token) f e.same_id js)
                    others)))
        | inl l ↦ elim (Option-cases j.lease_token) [
          | inl g ↦ absurd (let z = h.0 l in let w = rw g at z in cc)
          | inr (u, g) ↦
              let same : u ≡ token = rw g at mine in
              let hit : holds_lease id token j ≡ true =
                rw (t, l) (rw g (rw same (eq_refl token))) in
              rw hit (ground (arith, e.ends j, absent-not_running id js others))
        ]
      ]
]

found-jobs :
    (p : Job → Bool) (f : Job → Job) (js : List Job) → find? p js ≡ none → update_first p f js ≡ js
found-jobs p f [] e = refl
found-jobs p f (x ∷ xs) e = elim (Bool-cases (p x)) [
  | inl t ↦ absurd (let z = rw t at e in cc)
  | inr n ↦ rw n (ap (λ ys. x ∷ ys) (found-jobs p f xs (rw n at e)))
]

complete-jobs :
    (now : ℕ) (c : CompleteInput) (js : List Job)
    → (complete now c js).0 ≡ update_first (holds_lease c.id c.lease_token) (complete_job now c) js
unfolding complete
complete-jobs now c js = elim (Option-cases (find? (holds_lease c.id c.lease_token) js)) [
  | inl e ↦
      rw (complete, e) (sym (found-jobs (holds_lease c.id c.lease_token) (complete_job now c) js e))
  | inr (j, e) ↦ rw (complete, e) refl
]

pub retry_later-jobs :
    (now : ℕ) (r : RetryInput) (js : List Job)
    → (newer : Bool) × ((retry_later now r js).0
        ≡ update_first (holds_lease r.id r.lease_token) (retry_job now newer r) js)
unfolding retry_later
retry_later-jobs now r js = elim (Option-cases (find? (holds_lease r.id r.lease_token) js)) [
  | inl e ↦ (
    false,
    rw (retry_later, e)
        (sym (found-jobs (holds_lease r.id r.lease_token) (retry_job now false r) js e)),
  )
  | inr (j, e) ↦ (any (is_newer j) js, rw (retry_later, e) refl)
]

-- The writes of notes leave the queue alone.
failed-jobs :
    (organization user agent : String) (s : Store)
    → (mark_obsidian_projection_failed organization user agent s).jobs ≡ s.jobs
unfolding mark_obsidian_projection_failed
failed-jobs organization user agent s = ground arith

job_now-token :
    (j : Job) (js : List Job) (k : Job)
    → find? (λ x. x.id === j.id) js ≡ some k
    → token_now k ≡ token_now (job_now j js)
unfolding job_now
job_now-token j js k e = rw e refl

job_now-id : (j : Job) (js : List Job) → (job_now j js).id ≡ j.id
unfolding job_now
job_now-id j js = elim (Option-cases (find? (λ x. x.id === j.id) js)) [
  | inl e ↦ rw e refl
  | inr (k, e) ↦ rw e ((eq_iff k.id j.id).0 (find?-test (λ x. x.id === j.id) js e))
]

-- The same for the job that the worker holds.
job-not_running :
    (j : Job) (f : Job → Job) (js : List Job)
    → IsEnding f
    → Reach [] js
    → any
        (is_running j.id)
        (update_first (holds_lease (job_now j js).id (token_now (job_now j js))) f js)
      ≡ false
job-not_running j f js e reach = rw (job_now-id j js) (
    ended-not_running j.id (token_now (job_now j js)) f js e (Reach-IsExclusive reach).ids_distinct
      (Reach-IsHeld reach) (job_now-token j js))

give_up-jobs :
    (now : ℕ) (w : Worker) (code : String) (j : Job) (s : Store)
    → (give_up now w code j s).0.jobs ≡ (retry_later now (retry_input w code j) s.jobs).0
unfolding give_up
give_up-jobs now w code j s =
    let r = retry_later now (retry_input w code j) s.jobs in
    elim (Bool-cases (is_dead r.1)) [
      | inl t ↦
          rw (give_up, t)
            (failed-jobs j.organization_id j.user_id j.agent_id (record s { jobs = r.0 }))
      | inr n ↦ rw (give_up, n) refl
    ]

projected-cases :
    (r : Projected) → ((v : Value) × (r ≡ summary v)) ⊎ ((code : Option String) × (r ≡ threw code))
projected-cases (summary v) = inl (v, refl)
projected-cases (threw code) = inr (code, refl)

-- When a job has been processed, whatever its projection does to the notes and the queue by calls on
-- them, and whether it returns or throws, no job with its identifier runs: it is done, it waits for
-- its next attempt, or it is given up.
pub process-settled :
    (lower : String → String) (now : ℕ) (w : Worker) (project : Job → Store → Store × Projected)
    (j : Job) (s : Store)
    → Reach [] (project j s).0.jobs
    → any (is_running j.id) (process lower now w project j s).0.jobs ≡ false
unfolding process give_up
process-settled lower now w project j s reach =
    let js = (project j s).0.jobs in
    let job = job_now j js in
    elim (projected-cases (project j s).1) [
      | inl (v, e) ↦
          let c : CompleteInput = record {
            id = job.id;
            lease_token = token_now job;
            result_summary = some v;
          } in
          rw (process, e)
            (rw (complete-jobs now c js)
              (job-not_running j (complete_job now c) js (complete_job-IsEnding now c) reach))
      | inr (code, e) ↦
          let r = retry_input w (safe_error_code lower code) job in
          let (newer, jobs) = retry_later-jobs now r js in
          rw (process, e)
            (rw (give_up-jobs now w (safe_error_code lower code) job (project j s).0, jobs)
              (job-not_running j (retry_job now newer r) js (retry_job-IsEnding now newer r) reach))
    ]
