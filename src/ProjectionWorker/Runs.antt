-- ===== src/ProjectionWorker/Runs.antt =====
-- Calls of the projection queue (packages/db/memory-repository.mjs) with the tries of a worker among
-- them (packages/memory/projection-worker.mjs).
use bai_rui_cloud_agent_plat.Prelude.{
  List, String, [], any, false, find?, some, suc, true, ℕ, ◌===◌, ◌≡◌,
}
use bai_rui_cloud_agent_plat.ProjectionWorker.{Worker, retry_input}
use bai_rui_cloud_agent_plat.Projection.Lease.{lease, LeaseInput}
use bai_rui_cloud_agent_plat.Projection.{
  complete, Job, EnqueueInput, enqueue, CompleteInput, RetryInput, retry_later, is_processing,
}
use bai_rui_cloud_agent_plat.Projection.Calls.{Reach, next, enqueued, leased, completed, retried}

module _ (w : Worker) (agent id : String) where
  -- Calls of a queue, and among them `n` failed tries of the worker at the job with an identifier: each
  -- a retry call, as the worker makes it, by the lease that the job has then. Jobs are enqueued for
  -- other Agents than its own, and any worker leases, completes and retries.
  pub data Run (js : List Job) : ℕ → List Job → Type 0 where
    begin : Run js 0 js
    enqueues :
        {n : ℕ} {ks ls : List Job} (now : ℕ) (fresh : String) (i : EnqueueInput)
        → Run js n ks
        → any (λ j. j.id === fresh) ks ≡ false
        → (fresh === id) ≡ false
        → (i.agent_id === agent) ≡ false
        → enqueue now fresh i ks ≡ some ls
        → Run js n ls
    leases :
        {n : ℕ} {ks : List Job} (now : ℕ) (fresh : ℕ → String) (l : LeaseInput)
        → Run js n ks
        → Run js n (lease now fresh l ks).0
    completes :
        {n : ℕ} {ks : List Job} (now : ℕ) (c : CompleteInput)
        → Run js n ks
        → Run js n (complete now c ks).0
    retries :
        {n : ℕ} {ks : List Job} (now : ℕ) (r : RetryInput)
        → Run js n ks
        → Run js n (retry_later now r ks).0
    fails :
        {n : ℕ} {ks : List Job} (now : ℕ) (code : String) (k : Job)
        → Run js n ks
        → find? (λ j. j.id === id) ks ≡ some k
        → is_processing k.state ≡ true
        → Run js (suc n) (retry_later now (retry_input w code k) ks).0

  pub Run-Reach : {js ks : List Job} {n : ℕ} → Reach [] js → Run js n ks → Reach [] ks
  Run-Reach r begin = r
  Run-Reach r (enqueues now fresh i run unused new other e) =
      next (Run-Reach r run) (enqueued now fresh i unused e)
  Run-Reach r (leases now fresh l run) = next (Run-Reach r run) (leased now fresh l)
  Run-Reach r (completes now c run) = next (Run-Reach r run) (completed now c)
  Run-Reach r (retries now i run) = next (Run-Reach r run) (retried now i)
  Run-Reach r (fails now code k run e p) =
      next (Run-Reach r run) (retried now (retry_input w code k))
