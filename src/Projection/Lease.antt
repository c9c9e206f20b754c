-- ===== src/Projection/Lease.antt =====
-- leaseMemoryProjectionJobs of packages/db/memory-repository.mjs.
use bai_rui_cloud_agent_plat.Prelude.{
  ℕ, ◌+◌, ◌*◌, String, Option, none, some, List, [], ◌∷◌, ◌++◌, map, Bool, true, false, ◌&&◌, max,
  min, leb, if◌then◌else◌, any, positions, sort_by, get_elem?, set, length,
}
use bai_rui_cloud_agent_plat.Projection.{
  Job, JobState, is_waiting, is_processing, runs_for, is_newer, superseded, number_or,
}

-- `Date.parse(x) <= now`, which no missing instant passes.
abbrev pub is_due : Option ℕ → ℕ → Bool
is_due none now = false
is_due (some t) now = leb t now

abbrev pub has_lapsed : ℕ → Job → Bool
has_lapsed now j = is_processing j.state && is_due j.lease_expires_at now

-- The write to a job whose lease has run out.
unfoldable pub release : ℕ → Bool → Job → Job
release now true j = record j {
  state = JobState.completed;
  result_summary = superseded;
  completed_at = some now;
  lease_token = none;
  lease_expires_at = none;
  updated_at = now;
}
release now false j = record j {
  state = JobState.retry;
  available_at = now;
  completed_at = none;
  lease_token = none;
  lease_expires_at = none;
  updated_at = now;
}

-- The first loop, over the jobs whose lease has run out, in order. A job is only written at its own
-- turn, so the test at its turn is the test of the filter; `seen` are the jobs before it.
unfoldable pub release_from : ℕ → List Job → List Job → List Job
unfolding release
release_from now seen [] = seen
release_from now seen (j ∷ js) =
    release_from now
      (seen
        ++ (if has_lapsed now j then release now (any (is_newer j) (seen ++ j ∷ js)) j else j) ∷ [])
      js

abbrev pub is_candidate : ℕ → Job → Bool
is_candidate now j = is_waiting j.state && leb j.available_at now

-- The candidates by availability, then by creation: two stable sorts, the last one first.
unfoldable pub candidates : ℕ → List Job → List ℕ
candidates now js =
    map (λ (r : ℕ × Job). r.0)
      (sort_by (λ (r : ℕ × Job). r.1.available_at)
        (sort_by (λ (r : ℕ × Job). r.1.created_at) (positions (is_candidate now) 0 js)))

unfoldable pub lease_job : ℕ → ℕ → String → Job → Job
lease_job now span token j = record j {
  state = JobState.processing;
  attempts = j.attempts + 1;
  lease_token = some token;
  lease_expires_at = some (now + span * 1000);
  updated_at = now;
}

-- The queue and the places leased so far, in reverse.
abbrev pub Progress : Type 0
Progress = List Job × List ℕ

-- One round of the second loop, for the candidate at a place. `break` and `continue` both leave
-- everything as it is, and once the limit is met it stays met. `fresh n` is the n-th identifier
-- that the call draws.
unfoldable pub lease_one : ℕ → ℕ → ℕ → (ℕ → String) → ℕ → Progress → Progress
unfolding lease_job
lease_one now span limit fresh k (js, leased) =
    if leb limit (length leased) then (js, leased) else elim (get_elem? js k) [
      | none ↦ (js, leased)
      | some j ↦
          if any (runs_for j.agent_id) js
          then (js, leased)
          else (set js k (lease_job now span (fresh (length leased)) j), k ∷ leased)
    ]

unfoldable pub lease_each : ℕ → ℕ → ℕ → (ℕ → String) → List ℕ → Progress → Progress
unfolding lease_one
lease_each now span limit fresh [] p = p
lease_each now span limit fresh (k ∷ ks) p =
    lease_each now span limit fresh ks (lease_one now span limit fresh k p)

pub record LeaseInput : Type 0 where
  pub limit : Option ℕ
  pub lease_seconds : Option ℕ

-- `Math.max(1, Math.min(20, Number(limit) || 1))`
abbrev pub lease_limit : Option ℕ → ℕ
lease_limit n = max 1 (min 20 (number_or n 1))

-- `Math.max(15, Math.min(600, Number(leaseSeconds) || 60))`
abbrev pub lease_span : Option ℕ → ℕ
lease_span n = max 15 (min 600 (number_or n 60))

unfoldable pub lease : ℕ → (ℕ → String) → LeaseInput → List Job → Progress
unfolding release_from candidates lease_each
lease now fresh l js =
    let released = release_from now [] js in
    lease_each now (lease_span l.lease_seconds) (lease_limit l.limit) fresh
      (candidates now released) (released, [])
