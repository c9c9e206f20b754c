-- ===== src/ProjectionWorker.antt =====
-- The worker that carries notes to the Runtimes: packages/memory/projection-worker.mjs, over the queue
-- of packages/db/memory-repository.mjs. What a projection does to the repository, and what others do
-- in its course, is an argument; so is `toLowerCase`.
mod Examples
pub mod Counted
pub mod Attempts
pub mod Held
pub mod Runs
pub mod Settled
use bai_rui_cloud_agent_plat.Json.{Value, codes}
use bai_rui_cloud_agent_plat.Patterns.{first_then, is_lower, is_digit, one_of}
use bai_rui_cloud_agent_plat.Projection.{Job, number_or, complete, retry_later, RetryInput, dead}
use bai_rui_cloud_agent_plat.Projection.Lease.{lease}
use bai_rui_cloud_agent_plat.Notebook.{mark_obsidian_projection_failed}
use bai_rui_cloud_agent_plat.Notebook.Data.{Store}
use bai_rui_cloud_agent_plat.Prelude.{
  Bool, List, Option, String, [], false, find?, get_elem?, if◌then◌else◌, max, min, none, or_else,
  some, true, ℕ, ◌*◌, ◌++◌, ◌-◌, ◌===◌, ◌^◌, ◌||◌, ◌∷◌,
}

-- `/^[a-z][a-z0-9_.-]{0,127}$/`
unfoldable pub is_code : String → Bool
unfolding first_then
is_code s = first_then is_lower (λ c. is_lower c || is_digit c || one_of "_.-" c) 127 (codes s)

unfoldable pub safe_error_code : (String → String) → Option String → String
unfolding is_code
safe_error_code lower code =
    let value = lower (or_else code "memory_projection_failed") in
    if is_code value then value else "memory_projection_failed"

pub record Options : Type 0 where
  pub batch_size : Option ℕ
  pub lease_seconds : Option ℕ
  pub max_attempts : Option ℕ
  pub base_retry_ms : Option ℕ
  pub max_retry_ms : Option ℕ
  pub interval_ms : Option ℕ

pub record Worker : Type 0 where
  pub batch_size : ℕ
  pub lease_seconds : ℕ
  pub max_attempts : ℕ
  pub base_retry_ms : ℕ
  pub max_retry_ms : ℕ
  pub interval_ms : ℕ
  pub running : Bool
  pub timer : Bool

unfoldable pub new_worker : Options → Worker
new_worker o = record {
  batch_size = max 1 (min 20 (number_or o.batch_size 4));
  lease_seconds = max 15 (min 600 (number_or o.lease_seconds 90));
  max_attempts = max 1 (min 100 (number_or o.max_attempts 8));
  base_retry_ms = or_else o.base_retry_ms 2000;
  max_retry_ms = max (or_else o.base_retry_ms 2000) (or_else o.max_retry_ms 300000);
  interval_ms = max 250 (number_or o.interval_ms 2000);
  running = false;
  timer = false;
}

unfoldable pub retry_delay : Worker → ℕ → ℕ
retry_delay w attempts = min w.max_retry_ms (w.base_retry_ms * 2 ^ (attempts - 1))

-- What a projection comes to: the summary that it returns, or the code of what it throws.
pub data Projected : Type 0 where
  summary : Value → Projected
  threw : Option String → Projected

-- A leased job is the repository's own object: what is read of it is what the queue holds by then.
unfoldable pub job_now : Job → List Job → Job
job_now j jobs = or_else (find? (λ k. k.id === j.id) jobs) j

-- `job.leaseToken`. No lease has the empty token, nor `null`.
abbrev pub token_now : Job → String
token_now j = or_else j.lease_token ""

abbrev pub retry_input : Worker → String → Job → RetryInput
retry_input w code j = record {
  id = j.id;
  lease_token = token_now j;
  error_code = code;
  max_attempts = some w.max_attempts;
  delay_ms = some (retry_delay w j.attempts);
}

abbrev pub is_dead : Option Job → Bool
is_dead none = false
is_dead (some j) = elim j.state [ dead ↦ true | _ ↦ false ]

-- The `catch`.
unfoldable pub give_up : ℕ → Worker → String → Job → Store → Store × Option Job
unfolding retry_delay
give_up now w code j s =
    let r = retry_later now (retry_input w code j) s.jobs in
    let stored = record s { jobs = r.0 } in
    (
      if is_dead r.1
          then mark_obsidian_projection_failed j.organization_id j.user_id j.agent_id stored
          else stored,
      r.1,
    )

unfoldable pub process :
    (String → String)
    → ℕ
    → Worker
    → (Job → Store → Store × Projected)
    → Job
    → Store
    → Store × Option Job
unfolding job_now give_up safe_error_code
process lower now w project j s =
    let r = project j s in
    let job = job_now j r.0.jobs in
    elim r.1 [
      | summary v ↦
          let c =
            complete now
              (record { id = job.id; lease_token = token_now job; result_summary = some v })
              r.0.jobs in
          (record r.0 { jobs = c.0 }, c.1)
      | threw code ↦ give_up now w (safe_error_code lower code) job r.0
    ]

unfoldable pub process_each :
    (String → String)
    → ℕ
    → Worker
    → (Job → Store → Store × Projected)
    → List Job
    → Store
    → Store × List (Option Job)
unfolding process
process_each lower now w project [] s = (s, [])
process_each lower now w project (j ∷ js) s =
    let r = process lower now w project j s in
    let rest = process_each lower now w project js r.0 in (rest.0, r.1 ∷ rest.1)

-- The jobs at the places that a lease call answers, which it holds in reverse.
abbrev pub jobs_at : List ℕ → List Job → List Job
jobs_at [] jobs = []
jobs_at (k ∷ ks) jobs =
    let before = jobs_at ks jobs in
    elim (get_elem? jobs k) [ none ↦ before | some j ↦ before ++ j ∷ [] ]

-- One round, its jobs in some order. `running` stands while it lasts.
unfoldable pub run_once :
    (String → String)
    → ℕ
    → (ℕ → String)
    → Worker
    → (Job → Store → Store × Projected)
    → Store
    → Store × List (Option Job)
unfolding process_each lease
run_once lower now fresh w project s =
    let leased =
      lease now fresh (record { limit = some w.batch_size; lease_seconds = some w.lease_seconds })
        s.jobs in
    process_each lower now w project (jobs_at leased.1 leased.0) (record s { jobs = leased.0 })

unfoldable pub tick :
    (String → String)
    → ℕ
    → (ℕ → String)
    → Worker
    → (Job → Store → Store × Projected)
    → Store
    → Store × List (Option Job)
unfolding run_once
tick lower now fresh w project s =
    if w.running then (s, []) else run_once lower now fresh w project s

unfoldable pub stop : Worker → Worker
stop w = record w { timer = false }
