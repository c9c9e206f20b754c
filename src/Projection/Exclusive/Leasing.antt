-- ===== src/Projection/Exclusive/Leasing.antt =====
-- Leasing projection jobs, and the exclusion of an Agent's jobs.
use bai_rui_cloud_agent_plat.Prelude.{
  ℕ, ◌+◌, ◌≤◌, String, List, [], ◌∷◌, ◌++◌, ◌≡◌, refl, Bool, true, false, arith, eq_iff, ◌===◌,
  Option-cases, Bool-cases, inl, inr, any, count, count-append, count-set, count-zero_of_any,
  weight, In-middle, get_elem?, map-set, leb, length, if◌then◌else◌,
}
use mathlib.Core.List.{map-append, append_assoc, append-nil}
use bai_rui_cloud_agent_plat.Projection.{Job, waits_for, runs_for, is_newer, is_processing}
use bai_rui_cloud_agent_plat.Projection.Lease.{
  release, has_lapsed, release_from, lease_job, Progress, lease_one, lease_each, LeaseInput,
  lease_limit, lease_span, candidates, lease,
}
use bai_rui_cloud_agent_plat.Projection.Exclusive.{IsExclusive, none_waiting}

-- A write to the middle of the queue.
middle-IsExclusive :
    (seen js : List Job) (j k : Job)
    → k.id ≡ j.id
    → ((agent : String)
        → count (waits_for agent) (seen ++ j ∷ js) + weight (waits_for agent) k
          ≤ 1 + weight (waits_for agent) j)
    → ((agent : String)
        → count (runs_for agent) (seen ++ j ∷ js) + weight (runs_for agent) k
          ≤ 1 + weight (runs_for agent) j)
    → IsExclusive (seen ++ j ∷ js)
    → IsExclusive (seen ++ k ∷ js)
middle-IsExclusive seen js j k same waiting running v = record {
  one_waiting = λ agent. omega (
    arith,
    waiting agent,
    count-append (waits_for agent) seen (j ∷ js),
    count-append (waits_for agent) seen (k ∷ js),
  );
  one_running = λ agent. omega (
    arith,
    running agent,
    count-append (runs_for agent) seen (j ∷ js),
    count-append (runs_for agent) seen (k ∷ js),
  );
  ids_distinct =
      rw (map-append (λ (j : Job). j.id) seen (k ∷ js))
        (rw same (rw (map-append (λ (j : Job). j.id) seen (j ∷ js)) at v.ids_distinct));
}

release_id : (now : ℕ) (newer : Bool) (j : Job) → (release now newer j).id ≡ j.id
unfolding release
release_id now true j = refl
release_id now false j = refl

release_runs :
    (now : ℕ) (newer : Bool) (agent : String) (j : Job)
    → weight (runs_for agent) (release now newer j) ≡ 0
unfolding release
release_runs now true agent j = ground arith
release_runs now false agent j = ground arith

release_newer :
    (now : ℕ) (agent : String) (j : Job) → weight (waits_for agent) (release now true j) ≡ 0
unfolding release
release_newer now agent j = ground arith

release_alone :
    (now : ℕ) (agent : String) (j : Job)
    → weight (waits_for agent) (release now false j) ≡ (if j.agent_id === agent then 1 else 0)
unfolding release
release_alone now agent j = ground arith

release_fits :
    (now : ℕ) (agent : String) (all : List Job) (j : Job)
    → is_processing j.state ≡ true
    → (any (is_newer j) all ≡ false → count (waits_for j.agent_id) all ≡ 0)
    → count (waits_for agent) all ≤ 1
    → count (waits_for agent) all + weight (waits_for agent) (release now (any (is_newer j) all) j)
      ≤ 1
release_fits now agent all j p z h = elim (Bool-cases (any (is_newer j) all)) [
  | inl newer ↦ rw newer (omega (arith, h, release_newer now agent j))
  | inr alone ↦ elim (Bool-cases (j.agent_id === agent)) [
    | inr other ↦ rw (alone, release_alone, other) (omega (arith, h))
    | inl own ↦
        let same = (eq_iff j.agent_id agent).0 own in
        let z' : count (waits_for agent) all ≡ 0 = rw (← same) (z alone) in
        rw (alone, release_alone, own, z') (omega arith)
  ]
]

release_one-IsExclusive :
    (now : ℕ) (seen js : List Job) (j : Job)
    → IsExclusive (seen ++ j ∷ js)
    → IsExclusive (
        seen
        ++ (if has_lapsed now j then release now (any (is_newer j) (seen ++ j ∷ js)) j else j) ∷ js)
release_one-IsExclusive now seen js j v = elim (Bool-cases (has_lapsed now j)) [
  | inr n ↦ rw n v
  | inl t ↦
      let newer = any (is_newer j) (seen ++ j ∷ js) in
      let running = lapsed t in
      rw t (
        middle-IsExclusive seen js j (release now newer j) (release_id now newer j)
          (λ agent. omega (
            arith,
            release_fits now agent (seen ++ j ∷ js) j running
                (none_waiting (seen ++ j ∷ js) j v.ids_distinct (In-middle seen j js) running)
                (v.one_waiting agent),
          ))
          (λ agent. omega (arith, release_runs now newer agent j, v.one_running agent)) v)
]
  where
    lapsed : has_lapsed now j ≡ true → is_processing j.state ≡ true
    lapsed h = ground arith

release_from-IsExclusive :
    (now : ℕ) (seen js : List Job)
    → IsExclusive (seen ++ js)
    → IsExclusive (release_from now seen js)
unfolding release_from
release_from-IsExclusive now seen [] v = rw (append-nil seen) at v
release_from-IsExclusive now seen (j ∷ js) v =
    release_from-IsExclusive now
      (seen
        ++ (if has_lapsed now j then release now (any (is_newer j) (seen ++ j ∷ js)) j else j) ∷ [])
      js (rw (append_assoc seen _ js) (release_one-IsExclusive now seen js j v))

weight-le-one : (p : Job → Bool) (j : Job) → weight p j ≤ 1
weight-le-one p j = ground arith

lease_job_weights :
    (now span : ℕ) (token agent : String) (j : Job)
    → weight (waits_for agent) (lease_job now span token j) ≡ 0
unfolding lease_job
lease_job_weights now span token agent j = ground arith

lease_job_id : (now span : ℕ) (token : String) (j : Job) → (lease_job now span token j).id ≡ j.id
unfolding lease_job
lease_job_id now span token j = refl

lease_job_other :
    (now span : ℕ) (token agent : String) (j : Job)
    → (j.agent_id === agent) ≡ false
    → weight (runs_for agent) (lease_job now span token j) ≡ 0
unfolding lease_job
lease_job_other now span token agent j h = ground arith

lease_job_fits :
    (now span : ℕ) (token agent : String) (js : List Job) (j : Job)
    → any (runs_for j.agent_id) js ≡ false
    → count (runs_for agent) js ≤ 1
    → count (runs_for agent) js + weight (runs_for agent) (lease_job now span token j) ≤ 1
lease_job_fits now span token agent js j free h = elim (Bool-cases (j.agent_id === agent)) [
  | inr other ↦ omega (arith, h, lease_job_other now span token agent j other)
  | inl own ↦
      let same = (eq_iff j.agent_id agent).0 own in
      let z : count (runs_for agent) js ≡ 0 =
        rw (← same) (count-zero_of_any (runs_for j.agent_id) js free) in
      omega (arith, z, weight-le-one (runs_for agent) (lease_job now span token j))
]

lease_one-IsExclusive :
    (now span limit : ℕ) (fresh : ℕ → String) (k : ℕ) (p : Progress)
    → IsExclusive p.0
    → IsExclusive (lease_one now span limit fresh k p).0
unfolding lease_one
lease_one-IsExclusive now span limit fresh k (js, leased) v =
    elim (Bool-cases (leb limit (length leased))) [
      | inl full ↦ rw full v
      | inr room ↦ elim (Option-cases (get_elem? js k)) [
        | inl e ↦ rw room (rw (e, lease_one) v)
        | inr (j, e) ↦ elim (Bool-cases (any (runs_for j.agent_id) js)) [
          | inl busy ↦ rw room (rw (e, lease_one) (rw busy v))
          | inr free ↦
              let token = fresh (length leased) in
              let w = λ (agent : String). lease_job_weights now span token agent j in
              rw room (
                rw (e, lease_one)
                  (rw free (record {
                    one_waiting = λ agent. omega (
                      arith,
                      v.one_waiting agent,
                      w agent,
                      count-set (waits_for agent) js k (lease_job now span token j) e,
                    );
                    one_running = λ agent. omega (
                      arith,
                      lease_job_fits now span token agent js j free (v.one_running agent),
                      count-set (runs_for agent) js k (lease_job now span token j) e,
                    );
                    ids_distinct =
                        rw
                          (map-set (λ (j : Job). j.id) js k (lease_job now span token j) e
                            (lease_job_id now span token j))
                          v.ids_distinct;
                  })))
        ]
      ]
    ]

lease_each-IsExclusive :
    (now span limit : ℕ) (fresh : ℕ → String) (ks : List ℕ) (p : Progress)
    → IsExclusive p.0
    → IsExclusive (lease_each now span limit fresh ks p).0
unfolding lease_each
lease_each-IsExclusive now span limit fresh [] p v = v
lease_each-IsExclusive now span limit fresh (k ∷ ks) p v =
    lease_each-IsExclusive now span limit fresh ks (lease_one now span limit fresh k p)
      (lease_one-IsExclusive now span limit fresh k p v)

pub lease-IsExclusive :
    (now : ℕ) (fresh : ℕ → String) (l : LeaseInput) (js : List Job)
    → IsExclusive js
    → IsExclusive (lease now fresh l js).0
unfolding lease
lease-IsExclusive now fresh l js v =
    lease_each-IsExclusive now (lease_span l.lease_seconds) (lease_limit l.limit) fresh
      (candidates now (release_from now [] js)) (release_from now [] js, [])
      (release_from-IsExclusive now [] js v)
