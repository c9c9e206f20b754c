-- ===== src/Notebook/Queued.antt =====
-- What a change of a note queues (packages/db/memory-repository.mjs).
use bai_rui_cloud_agent_plat.Notebook.{
  removed, saved, NoteAnswer, queue_job, create_obsidian_note, ProjectedInput, mark_note,
  mark_obsidian_projection, update_obsidian_note, delete_obsidian_note, is_current, is_of,
  get_obsidian_note, has_text, is_note,
}
use bai_rui_cloud_agent_plat.Notebook.Data.{CreateInput, Store, UpdateInput, Note}
use bai_rui_cloud_agent_plat.Projection.{
  Job, EnqueueInput, enqueue, enqueue_reason, requeue, new_job, waits_for, valid_reason,
}
use bai_rui_cloud_agent_plat.Prelude.{
  Bool, Bool-cases, List, Option-cases, String, [], any, any-append, find?, inl, inr, or_else, refl,
  some, true, update_first, ℕ, ◌++◌, ◌∷◌, ◌≡◌, Evolves, arith, eq_refl, false, update_where, ◌&&◌,
  ◌===◌, ◌≢◌, if◌then◌else◌,
}

any-update_first :
    (p : Job → Bool) (f : Job → Job) (js : List Job) {j : Job}
    → find? p js ≡ some j
    → ((x : Job) → p x ≡ true → p (f x) ≡ true)
    → any p (update_first p f js) ≡ true
any-update_first p f [] e keep = absurd (cc)
any-update_first p f (x ∷ xs) e keep = elim (Bool-cases (p x)) [
  | inl t ↦ rw t (rw (keep x t) refl)
  | inr n ↦ rw n (rw n (any-update_first p f xs (rw (n, if◌then◌else◌) at e) keep))
]

-- A queued job waits for its Agent.
enqueue-waits :
    (now : ℕ) (fresh : String) (i : EnqueueInput) (js ks : List Job)
    → enqueue now fresh i js ≡ some ks
    → any (waits_for i.agent_id) ks ≡ true
unfolding enqueue enqueue_reason requeue new_job
enqueue-waits now fresh i js ks e =
    elim (Bool-cases (valid_reason (or_else i.reason "note-write"))) [
      | inr n ↦ absurd (let z = rw (enqueue, n) at e in cc)
      | inl t ↦ elim (Option-cases (find? (waits_for i.agent_id) js)) [
        | inr (j, f) ↦
            let same : update_first (waits_for i.agent_id)
                  (requeue now (or_else i.reason "note-write")) js
                ≡ ks =
              (let z = rw (enqueue, t, enqueue_reason, f) at e in cc) in
            rw (← same) (
              any-update_first (waits_for i.agent_id) (requeue now (or_else i.reason "note-write"))
                js f
                (λ x h.
                  let mine : (x.agent_id === i.agent_id) ≡ true = ground arith in rw mine refl))
        | inl f ↦
            let same : js ++ new_job now fresh (or_else i.reason "note-write") i ∷ [] ≡ ks =
              (let z = rw (enqueue, t, enqueue_reason, f) at e in cc) in
            rw (← same) (
              rw
                (any-append (waits_for i.agent_id) js
                  (new_job now fresh (or_else i.reason "note-write") i ∷ []))
                (rw (eq_refl i.agent_id) (ground arith)))
      ]
    ]

-- What a saved or removed note promises of an Agent's jobs.
abbrev pub is_done : NoteAnswer → Bool
is_done (saved n) = true
is_done removed = true
is_done _ = false

queue_job-waits :
    (now : ℕ) (fresh : String) (j : EnqueueInput) (answer : NoteAnswer) (s : Store)
    → is_done (queue_job now fresh j answer s).1 ≡ true
    → any (waits_for j.agent_id) (queue_job now fresh j answer s).0.jobs ≡ true
unfolding queue_job
queue_job-waits now fresh j answer s h = elim (Option-cases (enqueue now fresh j s.jobs)) [
  | inl e ↦ absurd (let z = rw (queue_job, e) at h in cc)
  | inr (jobs, e) ↦ rw (queue_job, e) (enqueue-waits now fresh j s.jobs jobs e)
]

-- A change of an Agent's notes, with its time and the identifiers that it draws.
pub data NoteChange : Type 0 where
  create : ℕ → (ℕ → String) → CreateInput → NoteChange
  update : ℕ → String → UpdateInput → NoteChange
  delete : ℕ → String → String → String → String → String → NoteChange

abbrev pub agent_of_change : NoteChange → String
agent_of_change (create now fresh i) = i.agent_id
agent_of_change (update now fresh i) = i.agent_id
agent_of_change (delete now fresh organization user agent id) = agent

-- `queueProjection !== false`; a deletion always queues.
abbrev pub queues : NoteChange → Bool
queues (create now fresh i) = i.queue_projection
queues (update now fresh i) = i.queue_projection
queues (delete now fresh organization user agent id) = true

unfoldable pub run_change : NoteChange → Store → Store × NoteAnswer
run_change (create now fresh i) s = create_obsidian_note now fresh i s
run_change (update now fresh i) s = update_obsidian_note now fresh i s
run_change (delete now fresh organization user agent id) s =
    delete_obsidian_note now fresh organization user agent id s

-- Whenever a note has been created, changed or deleted, and the caller has not asked otherwise, a
-- job waits that will project the Agent's notes again.
pub run_change-queued :
    (c : NoteChange) (s : Store)
    → queues c ≡ true
    → is_done (run_change c s).1 ≡ true
    → any (waits_for (agent_of_change c)) (run_change c s).0.jobs ≡ true
unfolding run_change create_obsidian_note update_obsidian_note delete_obsidian_note
run_change-queued (create now fresh i) s q h =
    rw (create_obsidian_note, q)
      (queue_job-waits now (fresh 1) _ _ _ (rw (create_obsidian_note, q) at h))
run_change-queued (update now fresh i) s q h =
    elim (Option-cases (get_obsidian_note i.organization_id i.user_id i.agent_id i.id s)) [
      | inl e ↦ absurd (let z = rw (update_obsidian_note, e) at h in cc)
      | inr (n, e) ↦
          rw (update_obsidian_note, e, q)
            (queue_job-waits now fresh _ _ _ (rw (update_obsidian_note, e, q) at h))
    ]
run_change-queued (delete now fresh organization user agent id) s q h =
    elim (Bool-cases (any (is_note organization user agent id) s.notes)) [
      | inr n ↦ absurd (let z = rw (delete_obsidian_note, n) at h in cc)
      | inl t ↦
          rw (delete_obsidian_note, t)
            (queue_job-waits now fresh _ _ _ (rw (delete_obsidian_note, t) at h))
    ]

-- How a note may change when a projection is reported.
pub record IsMarked (i : ProjectedInput) (n m : Note) : Type 0 where
  pub same_text :
      (m.id ≡ n.id) × (m.title ≡ n.title) × (m.markdown ≡ n.markdown) × (m.revision ≡ n.revision)
  pub newer : is_current i.note_revisions n ≡ false → m ≡ n
  pub foreign : is_of i.organization_id i.user_id i.agent_id n ≡ false → m ≡ n
  pub synced :
      m.hermes_synced_revision ≢ n.hermes_synced_revision
      → m.hermes_synced_revision ≡ some n.revision

IsMarked-refl : (i : ProjectedInput) (n : Note) → IsMarked i n n
IsMarked-refl i n = record {
  same_text = (refl, refl, refl, refl);
  newer = λ h. refl;
  foreign = λ h. refl;
  synced = λ h. absurd (h refl);
}

IsMarked-mark :
    (now : ℕ) (i : ProjectedInput) (n : Note)
    → (is_of i.organization_id i.user_id i.agent_id n && is_current i.note_revisions n) ≡ true
    → IsMarked i n (mark_note now i n)
unfolding mark_note
IsMarked-mark now i n t =
    let own : is_of i.organization_id i.user_id i.agent_id n ≡ true = ground arith in
    let current : is_current i.note_revisions n ≡ true = ground arith in
    elim (Bool-cases (has_text i.conflict_note_ids n.id)) [
      | inl c ↦
          rw (mark_note, c)
            (record {
              same_text = (refl, refl, refl, refl);
              newer = λ h. absurd (cc);
              foreign = λ h. absurd (cc);
              synced = λ h. absurd (h refl);
            })
      | inr c ↦ elim (Bool-cases (has_text i.included_note_ids n.id)) [
        | inl d ↦
            rw (mark_note, c, d)
              (record {
                same_text = (refl, refl, refl, refl);
                newer = λ h. absurd (cc);
                foreign = λ h. absurd (cc);
                synced = λ h. refl;
              })
        | inr d ↦
            rw (mark_note, c, d)
              (record {
                same_text = (refl, refl, refl, refl);
                newer = λ h. absurd (cc);
                foreign = λ h. absurd (cc);
                synced = λ h. absurd (h refl);
              })
      ]
    ]

-- A report of a projection changes no note's text or revision, leaves alone the notes of others and
-- each note that has been changed since the projection was built, and notes as materialized only
-- the revision that the note still has.
pub mark_obsidian_projection-IsMarked :
    (now : ℕ) (i : ProjectedInput) (s : Store)
    → Evolves (IsMarked i) s.notes (mark_obsidian_projection now i s).notes
unfolding mark_obsidian_projection
mark_obsidian_projection-IsMarked now i s = each s.notes
  where
    each :
        (ns : List Note)
        → Evolves (IsMarked i) ns (
            update_where
              (λ n. is_of i.organization_id i.user_id i.agent_id n && is_current i.note_revisions n)
              (mark_note now i)
              ns)
    each [] = tt
    each (n ∷ ns) =
        elim (Bool-cases
          (is_of i.organization_id i.user_id i.agent_id n && is_current i.note_revisions n)) [
            | inl t ↦ rw t (IsMarked-mark now i n t, each ns)
            | inr f ↦ rw f (IsMarked-refl i n, each ns)
          ]
