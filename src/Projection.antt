-- ===== src/Projection.antt =====
-- The memory projection queue: packages/db/memory-repository.mjs, the jobs that carry an Agent's
-- notes to its Runtime. `now` stands for the clock and `fresh` for what `randomUUID` returns.
pub mod Lease
pub mod Exclusive
pub mod Calls
pub mod Examples
use bai_rui_cloud_agent_plat.Prelude.{
  ℕ, ◌+◌, ◌*◌, String, Option, none, some, List, [], ◌∷◌, ◌++◌, Bool, true, false, ◌&&◌, ◌||◌, not,
  max, min, leb, ◌===◌, is_text, if◌then◌else◌, or_else, find?, any, update_first,
}
use bai_rui_cloud_agent_plat.Json.{Value, Fields, codes}
use bai_rui_cloud_agent_plat.Patterns.{is_lower, is_digit, one_of, first_then}

pub data JobState : Type 0 where
  pending retry processing completed dead : JobState

-- `["pending", "retry"].includes(state)`
abbrev pub is_waiting : JobState → Bool
is_waiting pending = true
is_waiting retry = true
is_waiting _ = false

abbrev pub is_processing : JobState → Bool
is_processing processing = true
is_processing _ = false

-- A `resultSummary`: empty, the note that a newer job took over, or what the worker reports.
pub data Summary : Type 0 where
  nothing superseded : Summary
  reported : Value → Summary

pub record Job : Type 0 where
  pub id : String
  pub organization_id : String
  pub user_id : String
  pub agent_id : String
  pub reason : String
  pub state : JobState
  pub attempts : ℕ
  pub available_at : ℕ
  pub lease_token : Option String
  pub lease_expires_at : Option ℕ
  pub last_error_code : Option String
  pub result_summary : Summary
  pub created_at : ℕ
  pub updated_at : ℕ
  pub completed_at : Option ℕ

pub record EnqueueInput : Type 0 where
  pub organization_id : String
  pub user_id : String
  pub agent_id : String
  pub reason : Option String

abbrev pub waits_for : String → Job → Bool
waits_for agent j = j.agent_id === agent && is_waiting j.state

abbrev pub runs_for : String → Job → Bool
runs_for agent j = j.agent_id === agent && is_processing j.state

-- The write to the job that already waits.
unfoldable pub requeue : ℕ → String → Job → Job
requeue now reason j = record j {
  reason = reason;
  state = pending;
  attempts = 0;
  available_at = now;
  last_error_code = none;
  result_summary = nothing;
  updated_at = now;
  completed_at = none;
}

unfoldable pub new_job : ℕ → String → String → EnqueueInput → Job
new_job now fresh reason i = record {
  id = fresh;
  organization_id = i.organization_id;
  user_id = i.user_id;
  agent_id = i.agent_id;
  reason = reason;
  state = pending;
  attempts = 0;
  available_at = now;
  lease_token = none;
  lease_expires_at = none;
  last_error_code = none;
  result_summary = nothing;
  created_at = now;
  updated_at = now;
  completed_at = none;
}

-- The queue after `#enqueueMemoryProjection` once the reason has passed its pattern.
unfoldable pub enqueue_reason : ℕ → String → String → EnqueueInput → List Job → List Job
enqueue_reason now fresh reason i js = elim (find? (waits_for i.agent_id) js) [
  | some _ ↦ update_first (waits_for i.agent_id) (requeue now reason) js
  | none ↦ js ++ new_job now fresh reason i ∷ []
]

-- `/^[a-z][a-z0-9._-]{0,63}$/`
unfoldable pub valid_reason : String → Bool
unfolding first_then
valid_reason r = first_then is_lower (λ c. is_lower c || is_digit c || one_of "._-" c) 63 (codes r)

-- A reason that fails the pattern throws, and nothing changes.
unfoldable pub enqueue : ℕ → String → EnqueueInput → List Job → Option (List Job)
unfolding valid_reason enqueue_reason
enqueue now fresh i js =
    if valid_reason (or_else i.reason "note-write")
    then some (enqueue_reason now fresh (or_else i.reason "note-write") i js)
    else none

pub record CompleteInput : Type 0 where
  pub id : String
  pub lease_token : String
  pub result_summary : Option Value

abbrev pub holds_lease : String → String → Job → Bool
holds_lease id token j = j.id === id && is_processing j.state && is_text j.lease_token token

unfoldable pub complete_job : ℕ → CompleteInput → Job → Job
complete_job now c j = record j {
  state = completed;
  lease_token = none;
  lease_expires_at = none;
  last_error_code = none;
  result_summary = reported (or_else c.result_summary (Value.obj Fields.end));
  completed_at = some now;
  updated_at = now;
}

unfoldable pub complete : ℕ → CompleteInput → List Job → List Job × Option Job
complete now c js = elim (find? (holds_lease c.id c.lease_token) js) [
  | none ↦ (js, none)
  | some j ↦ (
    update_first (holds_lease c.id c.lease_token) (complete_job now c) js,
    some (complete_job now c j),
  )
]

pub record RetryInput : Type 0 where
  pub id : String
  pub lease_token : String
  pub error_code : String
  pub max_attempts : Option ℕ
  pub delay_ms : Option ℕ

-- `Number(x) || d` for a count that the caller may leave out.
abbrev pub number_or : Option ℕ → ℕ → ℕ
number_or none d = d
number_or (some ℕ.zero) d = d
number_or (some (ℕ.suc n)) d = ℕ.suc n

-- A job of the same Agent, other than `j`, that waits.
abbrev pub is_newer : Job → Job → Bool
is_newer j other =
    other.agent_id === j.agent_id && not (other.id === j.id) && is_waiting other.state

unfoldable pub retry_state : Bool → RetryInput → Job → JobState
retry_state newer r j =
    if newer
    then completed
    else if leb (max 1 (number_or r.max_attempts 8)) j.attempts
    then dead
    else retry

abbrev pub is_retry : JobState → Bool
is_retry retry = true
is_retry _ = false

abbrev pub has_ended : JobState → Bool
has_ended completed = true
has_ended dead = true
has_ended _ = false

unfoldable pub retry_job : ℕ → Bool → RetryInput → Job → Job
unfolding retry_state
retry_job now newer r j = record j {
  state = retry_state newer r j;
  lease_token = none;
  lease_expires_at = none;
  last_error_code = some r.error_code;
  result_summary = if newer then superseded else nothing;
  available_at =
      if is_retry (retry_state newer r j) then now + number_or r.delay_ms 0 else j.available_at;
  completed_at = if has_ended (retry_state newer r j) then some now else none;
  updated_at = now;
}

unfoldable pub retry_later : ℕ → RetryInput → List Job → List Job × Option Job
unfolding retry_job
retry_later now r js = elim (find? (holds_lease r.id r.lease_token) js) [
  | none ↦ (js, none)
  | some j ↦
      let newer = any (is_newer j) js in
      (
        update_first (holds_lease r.id r.lease_token) (retry_job now newer r) js,
        some (retry_job now newer r j),
      )
]
