-- ===== src/ProjectionWorker/Attempts.antt =====
-- How often the projection worker tries a job (packages/memory/projection-worker.mjs), however the calls
-- of the queue (packages/db/memory-repository.mjs) go on in between.
use bai_rui_cloud_agent_plat.Prelude.{
  All, Bool, Bool-cases, Distinct, List, Option-cases, String, [], any, arith, eq_iff, eq_refl,
  false, find?, find?-test, inl, inr, leb, map, max, not, refl, some, suc, sym, true, update_first,
  zero, ℕ, ◌&&◌, ◌+◌, ◌<◌, ◌===◌, ◌∷◌, ◌≡◌, ◌≢◌, ◌≤◌, ◌⊎◌,
}
use bai_rui_cloud_agent_plat.ProjectionWorker.{Worker, new_worker, Options, token_now, retry_input}
use bai_rui_cloud_agent_plat.Projection.{
  Job, number_or, retry_job, RetryInput, retry_state, is_processing, retry_later, has_ended,
  holds_lease,
}
use bai_rui_cloud_agent_plat.Projection.Calls.{Reach, Reach-IsExclusive}
use bai_rui_cloud_agent_plat.ProjectionWorker.Counted.{
  IsCounted, open_job, enqueue-IsCounted, running_open, lease-IsCounted, complete-IsCounted,
  retry_later-IsCounted,
}
use bai_rui_cloud_agent_plat.ProjectionWorker.Held.{IsHeld, Reach-IsHeld}
use bai_rui_cloud_agent_plat.ProjectionWorker.Settled.{retry_later-jobs}
use bai_rui_cloud_agent_plat.ProjectionWorker.Runs.{
  begin, enqueues, leases, completes, retries, fails, Run, Run-Reach,
}

bound_of : (m : ℕ) → 1 ≤ m → max 1 (number_or (some m) 8) ≡ m
bound_of zero h = absurd (omega (arith, h))
bound_of (suc m) h = omega arith

module _ (m : ℕ) (agent id : String) where
  absent-IsCounted :
      (n : ℕ) (js : List Job)
      → All (λ z. id ≢ z) (map (λ (j : Job). j.id) js)
      → All (IsCounted m n agent id) js
  absent-IsCounted n [] a = tt
  absent-IsCounted n (j ∷ js) a =
      (λ t. absurd (a.0 (sym ((eq_iff j.id id).0 t))), absent-IsCounted n js a.1)

  -- A retry of the job that is tried counts.
  failed_job :
      (n now : ℕ) (newer : Bool) (r : RetryInput) (j : Job)
      → max 1 (number_or r.max_attempts 8) ≡ m
      → is_processing j.state ≡ true
      → (j.id === id) ≡ true
      → IsCounted m n agent id j
      → IsCounted m (suc n) agent id (retry_job now newer r j) × (suc n ≤ m)
  unfolding retry_job retry_state
  failed_job n now newer r j b p t h =
      let (owned, less, counted) = open_job m n agent id j h t (running_open j.state p) in
      (
        λ z. elim (Bool-cases newer) [
          | inl u ↦ rw u (owned, inl refl)
          | inr u ↦ elim (Bool-cases (leb (max 1 (number_or r.max_attempts 8)) j.attempts)) [
            | inl v ↦ rw (u, v) (owned, inl refl)
            | inr v ↦
                let room : j.attempts < m = (let a = rw b at v in ground arith) in
                let once : n + 1 ≤ j.attempts = (let a = rw p at counted in omega (arith, a)) in
                rw (u, v) (owned, inr (omega (arith, room, once), omega (arith, once)))
          ]
        ],
        omega (arith, less),
      )

  failed_from :
      (n now : ℕ) (newer : Bool) (r : RetryInput) (token : String) (js : List Job) (k : Job)
      → max 1 (number_or r.max_attempts 8) ≡ m
      → Distinct (map (λ (j : Job). j.id) js)
      → IsHeld js
      → find? (λ j. j.id === id) js ≡ some k
      → is_processing k.state ≡ true
      → token_now k ≡ token
      → All (IsCounted m n agent id) js
      → All
          (IsCounted m (suc n) agent id)
          (update_first (holds_lease id token) (retry_job now newer r) js)
        × (suc n ≤ m)
  failed_from n now newer r token [] k b d h e p g c = absurd (cc)
  failed_from n now newer r token (j ∷ js) k b d h e p g c = elim (Bool-cases (j.id === id)) [
    | inr f ↦
        let (rest, less) = failed_from n now newer r token js k b d.1 h.1 (rw f at e) p g c.1 in
        rw f ((λ t. absurd (cc), rest), less)
    | inl t ↦
        let same : j ≡ k = (let z = rw t at e in cc) in
        let runs : is_processing j.state ≡ true = rw same p in
        let mine : token_now j ≡ token = rw same g in
        let same_id : j.id ≡ id = (eq_iff j.id id).0 t in
        let others : All (λ z. id ≢ z) (map (λ (x : Job). x.id) js) = rw (← same_id) d.0 in
        elim (Option-cases j.lease_token) [
          | inl o ↦ absurd (let z = h.0 runs in let v = rw o at z in cc)
          | inr (u, o) ↦
              let held : u ≡ token = rw o at mine in
              let hit : holds_lease id token j ≡ true =
                rw (t, runs) (rw o (rw held (eq_refl token))) in
              let (one, less) = failed_job n now newer r j b runs t c.0 in
              rw hit ((one, absent-IsCounted (suc n) js others), less)
        ]
  ]

  failed_by :
      (n now : ℕ) (newer : Bool) (r : RetryInput) (key token : String) (js : List Job) (k : Job)
      → max 1 (number_or r.max_attempts 8) ≡ m
      → key ≡ id
      → token_now k ≡ token
      → Reach [] js
      → find? (λ j. j.id === id) js ≡ some k
      → is_processing k.state ≡ true
      → All (IsCounted m n agent id) js
      → All
          (IsCounted m (suc n) agent id)
          (update_first (holds_lease key token) (retry_job now newer r) js)
        × (suc n ≤ m)
  failed_by n now newer r key token js k b q g reach e p c = rw q (
      failed_from n now newer r token js k b (Reach-IsExclusive reach).ids_distinct
        (Reach-IsHeld reach) e p g c)

  failed_later :
      (n now : ℕ) (r : RetryInput) (js : List Job) (k : Job)
      → max 1 (number_or r.max_attempts 8) ≡ m
      → r.id ≡ id
      → token_now k ≡ r.lease_token
      → Reach [] js
      → find? (λ j. j.id === id) js ≡ some k
      → is_processing k.state ≡ true
      → All (IsCounted m n agent id) js
      → All (IsCounted m (suc n) agent id) (retry_later now r js).0 × (suc n ≤ m)
  failed_later n now r js k b q g reach e p c =
      let (newer, jobs) = retry_later-jobs now r js in
      rw jobs (failed_by n now newer r r.id r.lease_token js k b q g reach e p c)

module _ (w : Worker) (agent id : String) (some_tries : 1 ≤ w.max_attempts) where
  failed-IsCounted :
      (n now : ℕ) (code : String) (k : Job) (js : List Job)
      → Reach [] js
      → find? (λ j. j.id === id) js ≡ some k
      → is_processing k.state ≡ true
      → All (IsCounted w.max_attempts n agent id) js
      → All
          (IsCounted w.max_attempts (suc n) agent id)
          (retry_later now (retry_input w code k) js).0
        × (suc n ≤ w.max_attempts)
  failed-IsCounted n now code k js reach e p c =
      failed_later w.max_attempts agent id n now (retry_input w code k) js k
        (bound_of w.max_attempts some_tries)
        ((eq_iff k.id id).0 (find?-test (λ x. x.id === id) js e)) refl reach e p c

  Run-IsCounted :
      {js ks : List Job} {n : ℕ}
      → Reach [] js
      → All (IsCounted w.max_attempts 0 agent id) js
      → Run w agent id js n ks
      → All (IsCounted w.max_attempts n agent id) ks × (n ≤ w.max_attempts)
  Run-IsCounted r c begin = (c, omega arith)
  Run-IsCounted r c (enqueues {n} {ks} now fresh i run unused new other e) =
      let (counted, less) = Run-IsCounted r c run in
      (enqueue-IsCounted w.max_attempts n agent id now fresh i ks new other e counted, less)
  Run-IsCounted r c (leases {n} {ks} now fresh l run) =
      let (counted, less) = Run-IsCounted r c run in
      (lease-IsCounted w.max_attempts n agent id now fresh l ks counted, less)
  Run-IsCounted r c (completes {n} {ks} now i run) =
      let (counted, less) = Run-IsCounted r c run in
      (complete-IsCounted w.max_attempts n agent id now i ks counted, less)
  Run-IsCounted r c (retries {n} {ks} now i run) =
      let (counted, less) = Run-IsCounted r c run in
      (retry_later-IsCounted w.max_attempts n agent id now i ks counted, less)
  Run-IsCounted r c (fails {n} {ks} now code k run e p) =
      failed-IsCounted n now code k ks (Run-Reach w agent id r run) e p (Run-IsCounted r c run).0

start-IsCounted :
    (m : ℕ) (agent id : String) (js : List Job) (j : Job)
    → 1 ≤ m
    → Distinct (map (λ (k : Job). k.id) js)
    → find? (λ k. k.id === id) js ≡ some j
    → j.agent_id ≡ agent
    → is_processing j.state ≡ false
    → All (IsCounted m 0 agent id) js
start-IsCounted m agent id [] j l d e a p = tt
start-IsCounted m agent id (x ∷ js) j l d e a p = elim (Bool-cases (x.id === id)) [
  | inr f ↦ (λ t. absurd (cc), start-IsCounted m agent id js j l d.1 (rw f at e) a p)
  | inl t ↦
      let same : x ≡ j = (let z = rw t at e in cc) in
      let same_id : x.id ≡ id = (eq_iff x.id id).0 t in
      let idle : is_processing x.state ≡ false = rw same p in
      (
        λ z. (rw same a, inr (omega (arith, l), rw idle (omega arith))),
        absent-IsCounted m agent id 0 js (rw (← same_id) d.0),
      )
]

ended-IsCounted :
    (m n : ℕ) (agent id : String) (js : List Job)
    → m ≤ n
    → All (IsCounted m n agent id) js
    → any (λ j. j.id === id && not (has_ended j.state)) js ≡ false
ended-IsCounted m n agent id [] l c = refl
ended-IsCounted m n agent id (j ∷ js) l c = elim (Bool-cases (j.id === id)) [
  | inr f ↦ rw f (ended-IsCounted m n agent id js l c.1)
  | inl t ↦ elim (Bool-cases (has_ended j.state)) [
    | inl u ↦ rw (t, u) (ended-IsCounted m n agent id js l c.1)
    | inr u ↦
        absurd
          (let (owned, less, counted) = open_job m n agent id j c.0 t u in omega (arith, less, l))
  ]
]

-- Take a queue that calls reach from the empty one, and a job of it that does not run. However the calls
-- of the queue go on, by any workers and with leases that run out, while nothing is enqueued for the
-- job's Agent, which would set its attempts back to 0, and each job enqueued for another Agent draws an
-- identifier that is neither the job's nor of a job in the queue: the worker's failed tries at the job
-- are no more than the attempts that it allows, and when they are as many, no job with the identifier
-- has not ended.
pub tries-end :
    (o : Options) (agent id : String) {js ks : List Job} {n : ℕ} (j : Job)
    → Reach [] js
    → find? (λ k. k.id === id) js ≡ some j
    → j.agent_id ≡ agent
    → is_processing j.state ≡ false
    → Run (new_worker o) agent id js n ks
    → (n < (new_worker o).max_attempts)
      ⊎ ((n ≡ (new_worker o).max_attempts)
          × (any (λ k. k.id === id && not (has_ended k.state)) ks ≡ false))
unfolding new_worker
tries-end o agent id {js} {ks} {n} j reach e owned idle run =
    let m = (new_worker o).max_attempts in
    let allowed : 1 ≤ m = omega arith in
    let (counted, less) =
      Run-IsCounted (new_worker o) agent id allowed reach
        (start-IsCounted m agent id js j allowed (Reach-IsExclusive reach).ids_distinct e owned
          idle)
        run in
    elim (Bool-cases (leb m n)) [
      | inr f ↦ inl (ground arith)
      | inl t ↦
          let reached : m ≤ n = ground arith in
          inr (omega (arith, reached, less), ended-IsCounted m n agent id ks reached counted)
    ]
