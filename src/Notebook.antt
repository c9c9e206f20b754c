-- ===== src/Notebook.antt =====
-- The notes that MemoryPlatformRepository keeps (packages/db/memory-repository.mjs), and the jobs
-- that their changes queue.
pub mod Data
pub mod Queued
mod Examples
use bai_rui_cloud_agent_plat.Projection.{Job, EnqueueInput, enqueue, is_waiting, is_processing}
use bai_rui_cloud_agent_plat.Prelude.{
  Bool, List, Option, String, [], any, false, find?, if◌then◌else◌, lookup, none, or_else, some,
  update_first, update_where, ℕ, ◌&&◌, ◌++◌, ◌+◌, ◌===◌, ◌==◌, ◌||◌, ◌∷◌,
}
use bai_rui_cloud_agent_plat.Notebook.Data.{Note, CreateInput, Store, UpdateInput}

abbrev pub is_of : String → String → String → Note → Bool
is_of organization user agent n =
    n.organization_id === organization && n.user_id === user && n.agent_id === agent

abbrev pub is_duplicate : CreateInput → Note → Bool
is_duplicate i n = is_of i.organization_id i.user_id i.agent_id n && n.slug === i.slug

-- `Object.assign(duplicate, normalized, …)`; an input without an identifier keeps the note's.
abbrev pub overwrite : ℕ → CreateInput → Note → Note
overwrite now i n = record n {
  id = or_else i.id n.id;
  title = i.title;
  markdown = i.markdown;
  memory_kind = or_else i.memory_kind "knowledge";
  importance = or_else i.importance 3;
  hermes_target = or_else i.hermes_target "auto";
  source_ref = or_else i.source_ref "bairui-user";
  revision = n.revision + 1;
  hermes_sync_status = "pending";
  updated_at = now;
}

abbrev pub new_note : ℕ → String → CreateInput → Note
new_note now fresh i = record {
  id = or_else i.id fresh;
  organization_id = i.organization_id;
  user_id = i.user_id;
  agent_id = i.agent_id;
  slug = i.slug;
  title = i.title;
  markdown = i.markdown;
  memory_kind = or_else i.memory_kind "knowledge";
  importance = or_else i.importance 3;
  hermes_target = or_else i.hermes_target "auto";
  source_ref = or_else i.source_ref "bairui-user";
  revision = 1;
  hermes_sync_status = "pending";
  hermes_synced_revision = none;
  hermes_synced_at = none;
  created_at = now;
  updated_at = now;
}

-- `null` or `false`; the note; or the exception for the reason, after the note has been written.
pub data NoteAnswer : Type 0 where
  missing : NoteAnswer
  saved : Note → NoteAnswer
  removed : NoteAnswer
  invalid_reason : NoteAnswer

abbrev pub job_input : String → String → String → String → EnqueueInput
job_input organization user agent reason = record {
  organization_id = organization;
  user_id = user;
  agent_id = agent;
  reason = some reason;
}

-- The notes are written already; then the job is queued, or the code throws.
unfoldable pub queue_job : ℕ → String → EnqueueInput → NoteAnswer → Store → Store × NoteAnswer
queue_job now fresh j answer s = elim (enqueue now fresh j s.jobs) [
  | none ↦ (s, invalid_reason)
  | some jobs ↦ (record s { jobs = jobs }, answer)
]

unfoldable pub write_note : ℕ → String → CreateInput → List Note → List Note × Note
write_note now fresh i notes = elim (find? (is_duplicate i) notes) [
  | some n ↦ (update_first (is_duplicate i) (overwrite now i) notes, overwrite now i n)
  | none ↦ (notes ++ new_note now fresh i ∷ [], new_note now fresh i)
]

unfoldable pub create_obsidian_note : ℕ → (ℕ → String) → CreateInput → Store → Store × NoteAnswer
unfolding write_note queue_job
create_obsidian_note now fresh i s =
    let written = write_note now (fresh 0) i s.notes in
    let t = record s { notes = written.0 } in
    if i.queue_projection
    then queue_job now (fresh 1)
        (job_input i.organization_id i.user_id i.agent_id
          (or_else i.projection_reason "note-write"))
        (saved written.1) t
    else (t, saved written.1)

abbrev pub is_note : String → String → String → String → Note → Bool
is_note organization user agent id n = n.id === id && is_of organization user agent n

unfoldable pub get_obsidian_note : String → String → String → String → Store → Option Note
get_obsidian_note organization user agent id s = find? (is_note organization user agent id) s.notes

abbrev pub change : ℕ → UpdateInput → Note → Note
change now i n = record n {
  slug = or_else i.slug n.slug;
  title = or_else i.title n.title;
  markdown = or_else i.markdown n.markdown;
  memory_kind = or_else i.memory_kind n.memory_kind;
  importance = or_else i.importance n.importance;
  hermes_target = or_else i.hermes_target n.hermes_target;
  source_ref = or_else i.source_ref n.source_ref;
  revision = n.revision + 1;
  hermes_sync_status = "pending";
  updated_at = now;
}

unfoldable pub update_obsidian_note : ℕ → String → UpdateInput → Store → Store × NoteAnswer
unfolding get_obsidian_note queue_job
update_obsidian_note now fresh i s =
    elim (get_obsidian_note i.organization_id i.user_id i.agent_id i.id s) [
      | none ↦ (s, missing)
      | some n ↦
          let test = is_note i.organization_id i.user_id i.agent_id i.id in
          let t = record s { notes = update_first test (change now i) s.notes } in
          if i.queue_projection
          then queue_job now fresh
              (job_input i.organization_id i.user_id i.agent_id
                (or_else i.projection_reason "note-write"))
              (saved (change now i n)) t
          else (t, saved (change now i n))
    ]

-- `splice(findIndex(p), 1)`
abbrev pub remove_first : (Note → Bool) → List Note → List Note
remove_first p [] = []
remove_first p (n ∷ ns) = let rest = remove_first p ns in if p n then ns else n ∷ rest

unfoldable pub delete_obsidian_note :
    ℕ → String → String → String → String → String → Store → Store × NoteAnswer
unfolding queue_job
delete_obsidian_note now fresh organization user agent id s =
    if any (is_note organization user agent id) s.notes
    then queue_job now fresh (job_input organization user agent "note-delete") removed
        (record s { notes = remove_first (is_note organization user agent id) s.notes })
    else (s, missing)

pub record ProjectedInput : Type 0 where
  pub organization_id : String
  pub user_id : String
  pub agent_id : String
  pub note_revisions : List (String × ℕ)
  pub included_note_ids : List String
  pub conflict_note_ids : List String

-- `Number(noteRevisions?.[note.id]) === Number(note.revision)`
abbrev pub is_current : List (String × ℕ) → Note → Bool
is_current revisions n = elim (lookup n.id revisions) [ none ↦ false | some r ↦ r == n.revision ]

abbrev pub has_text : List String → String → Bool
has_text xs s = any (λ x. x === s) xs

unfoldable pub mark_note : ℕ → ProjectedInput → Note → Note
mark_note now i n =
    if has_text i.conflict_note_ids n.id
    then record n { hermes_sync_status = "conflict" }
    else if has_text i.included_note_ids n.id
    then record n {
      hermes_sync_status = "materialized";
      hermes_synced_revision = some n.revision;
      hermes_synced_at = some now;
    }
    else record n { hermes_sync_status = "excluded" }

unfoldable pub mark_obsidian_projection : ℕ → ProjectedInput → Store → Store
unfolding mark_note
mark_obsidian_projection now i s = record s {
  notes =
      update_where
        (λ n. is_of i.organization_id i.user_id i.agent_id n && is_current i.note_revisions n)
        (mark_note now i) s.notes;
}

abbrev pub is_unfinished : String → Job → Bool
is_unfinished agent j = j.agent_id === agent && (is_waiting j.state || is_processing j.state)

abbrev pub fail_note : Note → Note
fail_note n = record n { hermes_sync_status = "failed" }

unfoldable pub mark_obsidian_projection_failed : String → String → String → Store → Store
mark_obsidian_projection_failed organization user agent s =
    if any (is_unfinished agent) s.jobs then s else record s {
      notes =
          update_where (λ n. is_of organization user agent n && n.hermes_sync_status === "pending")
            fail_note s.notes;
    }
