-- ===== src/Projection/Examples.antt =====
-- A projection queue on concrete values: tests of the calls, and the theorem at these values.
use bai_rui_cloud_agent_plat.Prelude.{ℕ, ◌∷◌, [], List, String, none, some, ◌≡◌, refl, map, String}
use bai_rui_cloud_agent_plat.Projection.{
  Job, JobState, EnqueueInput, enqueue, enqueue_reason, new_job, retry_later,
}
use bai_rui_cloud_agent_plat.Projection.Lease.{LeaseInput, lease}
use bai_rui_cloud_agent_plat.Projection.Calls.{
  enqueued, leased, Reach, here, next, Reach-IsExclusive,
}
use bai_rui_cloud_agent_plat.Projection.Exclusive.{IsExclusive}

abbrev note : EnqueueInput
note = record { organization_id = "o1"; user_id = "u1"; agent_id = "a1"; reason = none }

abbrev names : ℕ → String
names _ = "l1"

abbrev one : LeaseInput
one = record { limit = none; lease_seconds = none }

-- A note is written, its job leased, and another note is written while the job runs.
abbrev queued : List Job
queued = (new_job 100 "j1" "note-write" note) ∷ []

abbrev running : List Job
running = (lease 200 names one queued).0

abbrev busy : List Job
busy = enqueue_reason 300 "j2" "note-write" note running

busy_test : map (λ j. j.state) busy ≡ JobState.processing ∷ JobState.pending ∷ []
unfolding enqueue_reason lease new_job
busy_test = refl

-- The running job fails, and ends because the other one took over.
abbrev after_failure : List Job
after_failure =
    (retry_later 400
      (record {
        id = "j1";
        lease_token = "l1";
        error_code = "busy";
        max_attempts = none;
        delay_ms = some 5;
      })
      busy).0

after_failure_test : map (λ j. j.state) after_failure ≡ JobState.completed ∷ JobState.pending ∷ []
unfolding enqueue_reason lease new_job retry_later
after_failure_test = refl

-- The lease runs out instead, and the other job is leased.
abbrev after_lapse : List Job
after_lapse = (lease 90000 names one busy).0

after_lapse_test : map (λ j. j.state) after_lapse ≡ JobState.completed ∷ JobState.processing ∷ []
unfolding enqueue_reason lease new_job
after_lapse_test = refl

Reach-lapse : Reach [] after_lapse
unfolding enqueue enqueue_reason lease new_job
Reach-lapse =
    next
      (next (next (next here (enqueued 100 "j1" note refl refl)) (leased 200 names one))
        (enqueued 300 "j2" note refl refl))
      (leased 90000 names one)

Reach-IsExclusive_example : IsExclusive after_lapse
Reach-IsExclusive_example = Reach-IsExclusive Reach-lapse
