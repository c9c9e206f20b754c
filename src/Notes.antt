-- ===== src/Notes.antt =====
-- The choice of notes that are projected into a Runtime's memory: targetFor, compactEntry and
-- buildHermesMemoryProjection of packages/memory/obsidian-note.mjs.
pub mod Budget
pub mod Sharing
pub mod Examples
use bai_rui_cloud_agent_plat.Prelude.{
  ℕ, zero, suc, ◌+◌, ◌-◌, Bool, true, false, ◌&&◌, ◌||◌, not, ltb, leb, max, String, Option, some,
  List, [], ◌∷◌, ◌++◌, map, any, filter, length, take, if◌then◌else◌, ◌===◌, ◌==◌,
}
use bai_rui_cloud_agent_plat.Json.{Text, codes}
use bai_rui_cloud_agent_plat.Policy.{after, is_space}

-- HERMES_MEMORY_TARGETS, to which `oneOf` keeps a note's `hermesTarget`.
pub data HermesTarget : Type 0 where
  auto memory user none : HermesTarget

-- `importance` is left out where `Number(importance) || 3` is 3 because of it.
pub record Note : Type 0 where
  pub id : String
  pub title : Text
  pub markdown : Text
  pub memory_kind : String
  pub importance : Option ℕ
  pub hermes_target : HermesTarget
  pub source_ref : Text
  pub updated_at : ℕ

pub data Target : Type 0 where
  to_memory to_user to_none : Target

-- targetFor
unfoldable pub target_for : Note → Target
target_for n = elim n.hermes_target [
  | HermesTarget.none ↦ to_none
  | HermesTarget.memory ↦ to_memory
  | HermesTarget.user ↦ to_user
  | HermesTarget.auto ↦
      if n.memory_kind === "preference" || n.memory_kind === "person" then to_user else to_memory
]

-- HERMES_MEMORY_LIMITS
abbrev pub memory_limit : ℕ
memory_limit = 2200

abbrev pub user_limit : ℕ
user_limit = 1375

-- `HERMES_MEMORY_LIMITS[hermesTarget] ?? 2200`
unfoldable pub native_limit : HermesTarget → ℕ
native_limit HermesTarget.user = user_limit
native_limit HermesTarget.memory = memory_limit
native_limit HermesTarget.auto = 2200
native_limit HermesTarget.none = 2200

unfoldable pub trim_start : Text → Text
trim_start [] = []
trim_start (c ∷ cs) = let rest = trim_start cs in if is_space c then rest else c ∷ cs

unfoldable pub trim_end : Text → Text
trim_end [] = []
trim_end (c ∷ cs) = elim (trim_end cs) [
  | [] ↦ if is_space c then [] else c ∷ []
  | d ∷ ds ↦ c ∷ d ∷ ds
]

unfoldable pub trim : Text → Text
unfolding trim_start trim_end
trim cs = trim_end (trim_start cs)

-- compactEntry; `clean` stands for obsidianBody and the replacements that follow it.
unfoldable pub compact_entry : (Text → Text) → Note → Text
unfolding trim native_limit
compact_entry clean n =
    let body = clean n.markdown in
    let prefix = n.title ++ codes ": " in
    if after (codes "hermes-native:") (λ _. true) n.source_ref
    then take (native_limit n.hermes_target) body
    else trim (prefix ++ take (max 1 (600 - length prefix)) body)

pub record Entry : Type 0 where
  pub note_id : String
  pub content : Text

-- `projection[target]` and `used[target]`.
pub record Side : Type 0 where
  pub entries : List Entry
  pub used : ℕ

pub record Packing : Type 0 where
  pub memory_side : Side
  pub user_side : Side
  pub capacity_excluded : List String

abbrev pub gap : List Entry → ℕ
gap [] = 0
gap (e ∷ es) = 3

-- The size after one more entry.
unfoldable pub next_used : Side → Text → ℕ
next_used s content = s.used + gap s.entries + length content

unfoldable pub push : Side → Note → Text → Side
unfolding next_used
push s n content = record {
  entries = s.entries ++ (record { note_id = n.id; content = content }) ∷ [];
  used = next_used s content;
}

abbrev pub left_out : Note → Packing → Packing
left_out n p = record p { capacity_excluded = p.capacity_excluded ++ n.id ∷ [] }

-- The tests on the content for one target, and then the entry.
unfoldable pub fits : Side → ℕ → Text → Bool
unfolding next_used
fits s limit content = not (length content == 0) && not (ltb limit (next_used s content))

-- What a round does once the note's target and content are known.
unfoldable pub place : Target → Note → Text → Packing → Packing
unfolding push fits
place to_none n content p = left_out n p
place to_memory n content p =
    if fits p.memory_side memory_limit content
    then record p { memory_side = push p.memory_side n content }
    else left_out n p
place to_user n content p =
    if fits p.user_side user_limit content
    then record p { user_side = push p.user_side n content }
    else left_out n p

-- One round of the loop.
unfoldable pub pack_one : (Text → Text) → Note → Packing → Packing
unfolding target_for compact_entry place
pack_one clean n p = place (target_for n) n (compact_entry clean n) p

unfoldable pub pack : (Text → Text) → List Note → Packing → Packing
unfolding pack_one
pack clean [] p = p
pack clean (n ∷ ns) p = pack clean ns (pack_one clean n p)

-- `Number(note.importance) || 3`
abbrev pub importance_of : Note → ℕ
importance_of n = elim n.importance [ some (suc k) ↦ suc k | _ ↦ 3 ]

-- The comparator puts `m` before `n`, or finds no difference.
unfoldable pub comes_first : Note → Note → Bool
comes_first m n =
    if importance_of m == importance_of n
    then leb n.updated_at m.updated_at
    else ltb (importance_of n) (importance_of m)

unfoldable pub insert_note : Note → List Note → List Note
unfolding comes_first
insert_note n [] = n ∷ []
insert_note n (m ∷ ms) =
    let rest = insert_note n ms in if comes_first n m then n ∷ m ∷ ms else m ∷ rest

-- The stable sort of the code: by importance, then by the last change, both descending.
unfoldable pub sort_notes : List Note → List Note
unfolding insert_note
sort_notes [] = []
sort_notes (n ∷ ns) = insert_note n (sort_notes ns)

abbrev pub is_excluded : List String → Note → Bool
is_excluded ids n = any (λ i. i === n.id) ids

-- `[...new Set(ids)]`
unfoldable pub unique : List String → List String
unique [] = []
unique (i ∷ is) = i ∷ filter (λ j. not (j === i)) (unique is)

abbrev pub no_side : Side
no_side = record { entries = []; used = 0 }

-- What the call returns, less the digest of it and the limits.
pub record MemoryProjection : Type 0 where
  pub memory_part : Side
  pub user_part : Side
  pub included_note_ids : List String
  pub excluded_note_ids : List String

unfoldable pub packed : (Text → Text) → List Note → List String → Packing
unfolding sort_notes pack
packed clean notes exclude =
    pack clean (sort_notes (filter (λ n. not (is_excluded exclude n)) notes))
      (record { memory_side = no_side; user_side = no_side; capacity_excluded = [] })

unfoldable pub build_hermes_memory_projection :
    (Text → Text) → List Note → List String → MemoryProjection
unfolding packed unique
build_hermes_memory_projection clean notes exclude =
    let p = packed clean notes exclude in
    record {
      memory_part = p.memory_side;
      user_part = p.user_side;
      included_note_ids =
          map (λ (e : Entry). e.note_id) (p.memory_side.entries ++ p.user_side.entries);
      excluded_note_ids = unique exclude ++ p.capacity_excluded;
    }
