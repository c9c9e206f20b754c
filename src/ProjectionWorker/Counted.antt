-- ===== src/ProjectionWorker/Counted.antt =====
-- A bound on the tries at one job, through every call of the queue (packages/db/memory-repository.mjs).
use bai_rui_cloud_agent_plat.Projection.{
  Job, JobState, is_processing, is_waiting, has_ended, waits_for, complete, retry_job, retry_later,
  enqueue, complete_job, retry_state, RetryInput, is_newer, enqueue_reason, CompleteInput,
  number_or, holds_lease, runs_for, requeue, new_job, EnqueueInput, valid_reason,
}
use bai_rui_cloud_agent_plat.Prelude.{
  All, All-append, Bool, Bool-cases, Found, List, Option-cases, String, [], any, arith, eq_iff,
  false, find?, get_elem?, if◌then◌else◌, inl, inr, leb, length, map, max, or_else, positions-Found,
  refl, set, some, sort_by-All, suc, sym, true, update_first-All, zero, ℕ, ◌++◌, ◌+◌, ◌<◌, ◌===◌,
  ◌∙◌, ◌∷◌, ◌≡◌, ◌≤◌, ◌⊎◌,
}
use bai_rui_cloud_agent_plat.Projection.Lease.{
  lease_job, is_candidate, candidates, release, release_from, lease_one, lease_each, lease,
  Progress, LeaseInput, has_lapsed, lease_span, lease_limit,
}

-- The job with an identifier is an Agent's, and where it has not ended, it has been tried less often
-- than `m` times, and its attempts count the tries and the lease that runs.
abbrev pub IsCounted : ℕ → ℕ → String → String → Job → Type 0
IsCounted m n agent id j =
    (j.id === id) ≡ true
    → (j.agent_id ≡ agent)
      × ((has_ended j.state ≡ true)
          ⊎ ((n < m) × (n + (if is_processing j.state then 1 else 0) ≤ j.attempts)))

-- Nothing that has ended stands at a place.
abbrev IsOpenAt : List Job → ℕ → Type 0
IsOpenAt js k = (j : Job) → get_elem? js k ≡ some j → has_ended j.state ≡ false

get_elem?-set :
    (js : List Job) (i k : ℕ) (y j : Job)
    → get_elem? (set js i y) k ≡ some j
    → (y ≡ j) ⊎ (get_elem? js k ≡ some j)
get_elem?-set [] i k y j e = inr e
get_elem?-set (x ∷ xs) zero zero y j e = inl (cc)
get_elem?-set (x ∷ xs) zero (suc k) y j e = inr e
get_elem?-set (x ∷ xs) (suc i) zero y j e = inr e
get_elem?-set (x ∷ xs) (suc i) (suc k) y j e = get_elem?-set xs i k y j e

waiting_open : (x : JobState) → is_waiting x ≡ true → has_ended x ≡ false
waiting_open JobState.pending h = refl
waiting_open JobState.retry h = refl
waiting_open JobState.processing h = refl
waiting_open JobState.completed h = absurd (cc)
waiting_open JobState.dead h = absurd (cc)

pub running_open : (x : JobState) → is_processing x ≡ true → has_ended x ≡ false
running_open JobState.pending h = refl
running_open JobState.retry h = refl
running_open JobState.processing h = refl
running_open JobState.completed h = absurd (cc)
running_open JobState.dead h = absurd (cc)

leased_open :
    (now span : ℕ) (token : String) (j : Job) → has_ended (lease_job now span token j).state ≡ false
unfolding lease_job
leased_open now span token j = refl

places_open :
    (now : ℕ) (js : List Job) (rs : List (ℕ × Job))
    → All (Found (is_candidate now) 0 js) rs
    → All (IsOpenAt js) (map (λ (r : ℕ × Job). r.0) rs)
places_open now js [] h = tt
places_open now js (r ∷ rs) h = (
  λ j e.
      let place : r.0 ≡ h.0.offset = h.0.at ∙ omega arith in
      let same : j ≡ r.1 = (let z = rw place at e in let f = h.0.element in cc) in
      let waits : is_waiting r.1.state ≡ true = (let t = h.0.passes in ground arith) in
      rw same (waiting_open r.1.state waits),
  places_open now js rs h.1,
)

candidates_open : (now : ℕ) (js : List Job) → All (IsOpenAt js) (candidates now js)
unfolding candidates
candidates_open now js = places_open now js _ (
    sort_by-All (Found (is_candidate now) 0 js) (λ (r : ℕ × Job). r.1.available_at) _
      (sort_by-All (Found (is_candidate now) 0 js) (λ (r : ℕ × Job). r.1.created_at) _
        (positions-Found (is_candidate now) 0 js)))

module _ (m n : ℕ) (agent id : String) where
  pub open_job :
      (j : Job)
      → IsCounted m n agent id j
      → (j.id === id) ≡ true
      → has_ended j.state ≡ false
      → (j.agent_id ≡ agent) × (n < m) × (n + (if is_processing j.state then 1 else 0) ≤ j.attempts)
  open_job j h t o = elim (h t).1 [
    | inl e ↦ absurd (cc)
    | inr (less, counted) ↦ ((h t).0, less, counted)
  ]

  pub complete-IsCounted :
      (now : ℕ) (c : CompleteInput) (js : List Job)
      → All (IsCounted m n agent id) js
      → All (IsCounted m n agent id) (complete now c js).0
  unfolding complete complete_job
  complete-IsCounted now c js h = elim (Option-cases (find? (holds_lease c.id c.lease_token) js)) [
    | inl e ↦ rw (e, complete) h
    | inr (j, e) ↦
        rw (e, complete)
          (update_first-All (IsCounted m n agent id) (holds_lease c.id c.lease_token)
            (complete_job now c) js (λ x t k. λ z. ((k z).0, inl refl)) h)
  ]

  retry_job-IsCounted :
      (now : ℕ) (newer : Bool) (r : RetryInput) (j : Job)
      → is_processing j.state ≡ true
      → IsCounted m n agent id j
      → IsCounted m n agent id (retry_job now newer r j)
  unfolding retry_job retry_state
  retry_job-IsCounted now newer r j p h t =
      let (owned, less, counted) = open_job j h t (running_open j.state p) in
      elim (Bool-cases newer) [
        | inl u ↦ rw u (owned, inl refl)
        | inr u ↦ elim (Bool-cases (leb (max 1 (number_or r.max_attempts 8)) j.attempts)) [
          | inl v ↦ rw (u, v) (owned, inl refl)
          | inr v ↦ rw (u, v) (owned, inr (less, omega (arith, rw p at counted)))
        ]
      ]

  pub retry_later-IsCounted :
      (now : ℕ) (r : RetryInput) (js : List Job)
      → All (IsCounted m n agent id) js
      → All (IsCounted m n agent id) (retry_later now r js).0
  unfolding retry_later
  retry_later-IsCounted now r js h =
      elim (Option-cases (find? (holds_lease r.id r.lease_token) js)) [
        | inl e ↦ rw (e, retry_later) h
        | inr (j, e) ↦
            rw (e, retry_later)
              (update_first-All (IsCounted m n agent id) (holds_lease r.id r.lease_token)
                (retry_job now (any (is_newer j) js) r) js
                (λ x t k. retry_job-IsCounted now (any (is_newer j) js) r x (ground arith) k) h)
      ]

  release-IsCounted :
      (now : ℕ) (newer : Bool) (j : Job)
      → is_processing j.state ≡ true
      → IsCounted m n agent id j
      → IsCounted m n agent id (release now newer j)
  unfolding release
  release-IsCounted now true j p h t = ((h t).0, inl refl)
  release-IsCounted now false j p h t =
      let (owned, less, counted) = open_job j h t (running_open j.state p) in
      (owned, inr (less, omega (arith, counted)))

  release_from-IsCounted :
      (now : ℕ) (seen js : List Job)
      → All (IsCounted m n agent id) seen
      → All (IsCounted m n agent id) js
      → All (IsCounted m n agent id) (release_from now seen js)
  unfolding release_from
  release_from-IsCounted now seen [] a b = a
  release_from-IsCounted now seen (j ∷ js) a b =
      let newer = any (is_newer j) (seen ++ j ∷ js) in
      let one : IsCounted m n agent id (if has_lapsed now j then release now newer j else j) =
        elim (Bool-cases (has_lapsed now j)) [
          | inl t ↦ rw t (release-IsCounted now newer j (ground arith) b.0)
          | inr f ↦ rw f b.0
        ] in
      release_from-IsCounted now
        (seen ++ (if has_lapsed now j then release now newer j else j) ∷ []) js
        (All-append (IsCounted m n agent id) seen _ a (one, tt)) b.1

  lease_job-IsCounted :
      (now span : ℕ) (token : String) (j : Job)
      → has_ended j.state ≡ false
      → IsCounted m n agent id j
      → IsCounted m n agent id (lease_job now span token j)
  unfolding lease_job
  lease_job-IsCounted now span token j o h t =
      let (owned, less, counted) = open_job j h t o in (owned, inr (less, omega (arith, counted)))

  set-IsCounted :
      (js : List Job) (k : ℕ) (y : Job)
      → IsCounted m n agent id y
      → All (IsCounted m n agent id) js
      → All (IsCounted m n agent id) (set js k y)
  set-IsCounted [] k y c h = tt
  set-IsCounted (x ∷ xs) zero y c h = (c, h.1)
  set-IsCounted (x ∷ xs) (suc k) y c h = (h.0, set-IsCounted xs k y c h.1)

  get-IsCounted :
      (js : List Job) (k : ℕ) {j : Job}
      → get_elem? js k ≡ some j
      → All (IsCounted m n agent id) js
      → IsCounted m n agent id j
  get-IsCounted [] k e h = absurd (cc)
  get-IsCounted (x ∷ xs) zero {j} e h = let same : x ≡ j = cc in rw (← same) h.0
  get-IsCounted (x ∷ xs) (suc k) e h = get-IsCounted xs k e h.1

  open_still :
      (js : List Job) (i : ℕ) (y : Job) (ks : List ℕ)
      → has_ended y.state ≡ false
      → All (IsOpenAt js) ks
      → All (IsOpenAt (set js i y)) ks
  open_still js i y [] o h = tt
  open_still js i y (k ∷ ks) o h = (
    λ j e. elim (get_elem?-set js i k y j e) [ inl same ↦ rw (← same) o | inr f ↦ h.0 j f ],
    open_still js i y ks o h.1,
  )

  lease_one-IsCounted :
      (now span limit : ℕ) (fresh : ℕ → String) (k : ℕ) (ks : List ℕ) (p : Progress)
      → All (IsOpenAt p.0) (k ∷ ks)
      → All (IsCounted m n agent id) p.0
      → All (IsCounted m n agent id) (lease_one now span limit fresh k p).0
        × All (IsOpenAt (lease_one now span limit fresh k p).0) ks
  unfolding lease_one
  lease_one-IsCounted now span limit fresh k ks (js, taken) o h =
      elim (Bool-cases (leb limit (length taken))) [
        | inl t ↦ rw t (h, o.1)
        | inr f ↦ elim (Option-cases (get_elem? js k)) [
          | inl e ↦ rw (lease_one, f, e) (h, o.1)
          | inr (j, e) ↦ elim (Bool-cases (any (runs_for j.agent_id) js)) [
            | inl t ↦ rw (lease_one, f, e, t) (h, o.1)
            | inr free ↦
                let y = lease_job now span (fresh (length taken)) j in
                rw (lease_one, f, e, free)
                  (
                    set-IsCounted js k y
                        (lease_job-IsCounted now span (fresh (length taken)) j (o.0 j e)
                          (get-IsCounted js k e h))
                        h,
                    open_still js k y ks (leased_open now span (fresh (length taken)) j) o.1,
                  )
          ]
        ]
      ]

  lease_each-IsCounted :
      (now span limit : ℕ) (fresh : ℕ → String) (ks : List ℕ) (p : Progress)
      → All (IsOpenAt p.0) ks
      → All (IsCounted m n agent id) p.0
      → All (IsCounted m n agent id) (lease_each now span limit fresh ks p).0
  unfolding lease_each
  lease_each-IsCounted now span limit fresh [] p o h = h
  lease_each-IsCounted now span limit fresh (k ∷ ks) p o h =
      let (counted, still) = lease_one-IsCounted now span limit fresh k ks p o h in
      lease_each-IsCounted now span limit fresh ks (lease_one now span limit fresh k p) still
        counted

  pub lease-IsCounted :
      (now : ℕ) (fresh : ℕ → String) (l : LeaseInput) (js : List Job)
      → All (IsCounted m n agent id) js
      → All (IsCounted m n agent id) (lease now fresh l js).0
  unfolding lease
  lease-IsCounted now fresh l js h =
      lease_each-IsCounted now (lease_span l.lease_seconds) (lease_limit l.limit) fresh
        (candidates now (release_from now [] js)) (release_from now [] js, [])
        (candidates_open now (release_from now [] js)) (release_from-IsCounted now [] js tt h)

  -- Jobs of other Agents are enqueued.
  pub enqueue-IsCounted :
      (now : ℕ) (fresh : String) (i : EnqueueInput) (js : List Job) {ks : List Job}
      → (fresh === id) ≡ false
      → (i.agent_id === agent) ≡ false
      → enqueue now fresh i js ≡ some ks
      → All (IsCounted m n agent id) js
      → All (IsCounted m n agent id) ks
  unfolding enqueue enqueue_reason requeue new_job
  enqueue-IsCounted now fresh i js {ks} new other e h =
      elim (Bool-cases (valid_reason (or_else i.reason "note-write"))) [
        | inr f ↦ absurd (ground arith)
        | inl t ↦
            let same : enqueue_reason now fresh (or_else i.reason "note-write") i js ≡ ks =
              ground arith in
            rw (← same) (elim (Option-cases (find? (waits_for i.agent_id) js)) [
              | inr (j, g) ↦
                  rw (enqueue_reason, g)
                    (update_first-All (IsCounted m n agent id) (waits_for i.agent_id)
                      (requeue now (or_else i.reason "note-write")) js
                      (λ x u k. λ z. absurd (
                        let mine : x.agent_id ≡ i.agent_id =
                          (eq_iff x.agent_id i.agent_id).0 (ground arith) in
                        let own : x.agent_id ≡ agent = (k z).0 in
                        let both : (i.agent_id === agent) ≡ true =
                          (eq_iff i.agent_id agent).1 (sym mine ∙ own) in
                        cc))
                      h)
              | inl g ↦
                  rw (enqueue_reason, g)
                    (All-append (IsCounted m n agent id) js _ h (λ z. absurd (cc), tt))
            ])
      ]
