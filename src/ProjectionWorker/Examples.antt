-- ===== src/ProjectionWorker/Examples.antt =====
-- The projection worker on one job (packages/memory/projection-worker.mjs).
use bai_rui_cloud_agent_plat.Projection.{
  Job, EnqueueInput, enqueue, has_ended, retry_later, new_job,
}
use bai_rui_cloud_agent_plat.Projection.Lease.{lease, lease_job, LeaseInput}
use bai_rui_cloud_agent_plat.Projection.Calls.{Reach, here, next, enqueued, leased}
use bai_rui_cloud_agent_plat.Notebook.Data.{Store}
use bai_rui_cloud_agent_plat.ProjectionWorker.{
  Options, new_worker, Projected, threw, process, safe_error_code, retry_input, job_now,
  retry_delay,
}
use bai_rui_cloud_agent_plat.ProjectionWorker.Settled.{is_running, process-settled}
use bai_rui_cloud_agent_plat.ProjectionWorker.Attempts.{tries-end}
use bai_rui_cloud_agent_plat.ProjectionWorker.Runs.{fails, leases, enqueues, begin}
use bai_rui_cloud_agent_plat.Prelude.{
  List, String, [], any, false, none, refl, some, ◌∷◌, ◌≡◌, map, not, ℕ, ◌&&◌, ◌<◌, ◌===◌, ◌⊎◌,
  ◌++◌,
}

abbrev note_job : EnqueueInput
note_job = record { organization_id = "org"; user_id = "u1"; agent_id = "a1"; reason = none }

abbrev defaults : Options
defaults = record {
  batch_size = none;
  lease_seconds = none;
  max_attempts = some 2;
  base_retry_ms = none;
  max_retry_ms = none;
  interval_ms = none;
}

abbrev the_lease : LeaseInput
the_lease = record { limit = some 4; lease_seconds = some 90 }

unfoldable queued : List Job
unfolding new_job
queued = new_job 1 "j1" "note-write" note_job ∷ []

unfoldable running_jobs : List Job
unfolding lease queued
running_jobs = (lease 5 (λ n. "t") the_lease queued).0

unfoldable the_job : Job
unfolding lease_job new_job
the_job = lease_job 5 90 "t" (new_job 1 "j1" "note-write" note_job)

abbrev failing : Job → Store → Store × Projected
failing j s = (s, threw (some "runtime_unavailable"))

abbrev lower : String → String
lower s = s

reached : Reach [] running_jobs
unfolding running_jobs queued enqueue
reached = next (next here (enqueued 1 "j1" note_job refl refl)) (leased 5 (λ n. "t") the_lease)

waits_again :
    map
      (λ (j : Job). j.available_at)
      (process lower 10
        (new_worker defaults)
        failing
        the_job
        (record { notes = []; jobs = running_jobs })).0.jobs
    ≡ 2010 ∷ []
unfolding process new_worker the_job running_jobs lease queued retry_later
waits_again = refl

process-settled_example :
    any
      (is_running "j1")
      (process lower 10
        (new_worker defaults)
        failing
        the_job
        (record { notes = []; jobs = running_jobs })).0.jobs
    ≡ false
unfolding the_job
process-settled_example =
    process-settled lower 10 (new_worker defaults) failing the_job
      (record { notes = []; jobs = running_jobs }) reached

abbrev other_job : EnqueueInput
other_job = record { organization_id = "org"; user_id = "u1"; agent_id = "a2"; reason = none }

abbrev fail : ℕ → List Job → List Job
fail now js = (retry_later now (retry_input (new_worker defaults) "x" (job_now the_job js)) js).0

-- The queue after two failed tries, with a job of another Agent between them.
unfoldable tried_twice : List Job
unfolding lease queued new_job
tried_twice =
    fail 5001
      (lease 5000 (λ n. "u") the_lease
        (fail 10 running_jobs ++ new_job 20 "j2" "note-write" other_job ∷ [])).0

tries-end_example :
    (2 < (new_worker defaults).max_attempts)
    ⊎ ((2 ≡ (new_worker defaults).max_attempts)
        × (any (λ k. k.id === "j1" && not (has_ended k.state)) tried_twice ≡ false))
unfolding tried_twice queued running_jobs new_worker the_job enqueue lease lease_job retry_later
    new_job retry_delay job_now
tries-end_example =
    tries-end defaults "a1" "j1" (new_job 1 "j1" "note-write" note_job)
      (next here (enqueued 1 "j1" note_job refl refl)) refl refl refl
      (fails 5001 "x" _
        (leases 5000 (λ n. "u") the_lease
          (enqueues 20 "j2" other_job
            (fails 10 "x" _ (leases 5 (λ n. "t") the_lease begin) refl refl) refl refl refl refl))
        refl refl)

bad_code : safe_error_code lower (some "Not ok") ≡ "memory_projection_failed"
unfolding safe_error_code
bad_code = refl
