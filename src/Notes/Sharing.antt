-- ===== src/Notes/Sharing.antt =====
-- How a projection shares out the notes: packages/memory/obsidian-note.mjs.
use bai_rui_cloud_agent_plat.Prelude.{
  ℕ, ◌+◌, ◌≡◌, refl, Bool-cases, inl, inr, List, [], ◌∷◌, ◌++◌, map, filter, count, count-append,
  arith, String, Bool, not, ◌&&◌, ◌===◌, if◌then◌else◌,
}
use bai_rui_cloud_agent_plat.Json.{Text}
use bai_rui_cloud_agent_plat.Notes.{
  Note, Target, to_memory, to_user, to_none, target_for, memory_limit, user_limit, compact_entry,
  Entry, Packing, push, fits, place, pack_one, pack, no_side, unique, is_excluded, comes_first,
  insert_note, sort_notes, packed, build_hermes_memory_projection,
}

module _ (p : Note → Bool) where
  count-insert_note : (n : Note) (ms : List Note) → count p (insert_note n ms) ≡ count p (n ∷ ms)
  unfolding insert_note
  count-insert_note n [] = refl
  count-insert_note n (m ∷ ms) = elim (Bool-cases (comes_first n m)) [
    | inl t ↦ rw t refl
    | inr f ↦ rw f (omega (arith, count-insert_note n ms))
  ]

  count-sort_notes : (ns : List Note) → count p (sort_notes ns) ≡ count p ns
  unfolding sort_notes
  count-sort_notes [] = refl
  count-sort_notes (n ∷ ns) =
      omega (arith, count-insert_note n (sort_notes ns), count-sort_notes ns)

  count-filter :
      (q : Note → Bool) (ns : List Note) → count p (filter q ns) ≡ count (λ n. q n && p n) ns
  count-filter q [] = refl
  count-filter q (n ∷ ns) = elim (Bool-cases (q n)) [
    | inl t ↦ rw t (omega (arith, count-filter q ns))
    | inr f ↦ rw f (omega (arith, count-filter q ns))
  ]

module _ (x : String) where
  abbrev named : List Entry → ℕ
  named es = count (λ i. i === x) (map (λ (e : Entry). e.note_id) es)

  -- How often the identifier stands in a packing.
  abbrev total : Packing → ℕ
  total p =
      named p.memory_side.entries
      + named p.user_side.entries
      + count (λ i. i === x) p.capacity_excluded

  named-append : (es fs : List Entry) → named (es ++ fs) ≡ named es + named fs
  named-append [] fs = omega arith
  named-append (e ∷ es) fs = omega (arith, named-append es fs)

  total-place :
      (t : Target) (n : Note) (content : Text) (p : Packing)
      → total (place t n content p) ≡ total p + (if n.id === x then 1 else 0)
  unfolding place push
  total-place to_none n content p =
      omega (arith, count-append (λ i. i === x) p.capacity_excluded (n.id ∷ []))
  total-place to_memory n content p = elim (Bool-cases (fits p.memory_side memory_limit content)) [
    | inl f ↦ rw f (
        omega (
          arith,
          named-append p.memory_side.entries ((record { note_id = n.id; content = content }) ∷ []),
        ))
    | inr f ↦ rw f (omega (arith, count-append (λ i. i === x) p.capacity_excluded (n.id ∷ [])))
  ]
  total-place to_user n content p = elim (Bool-cases (fits p.user_side user_limit content)) [
    | inl f ↦ rw f (
        omega (
          arith,
          named-append p.user_side.entries ((record { note_id = n.id; content = content }) ∷ []),
        ))
    | inr f ↦ rw f (omega (arith, count-append (λ i. i === x) p.capacity_excluded (n.id ∷ [])))
  ]

  total-pack :
      (clean : Text → Text) (ns : List Note) (p : Packing)
      → total (pack clean ns p) ≡ total p + count (λ n. n.id === x) ns
  unfolding pack pack_one
  total-pack clean [] p = omega arith
  total-pack clean (n ∷ ns) p = omega (
    arith,
    total-pack clean ns (pack_one clean n p),
    total-place (target_for n) n (compact_entry clean n) p,
  )

total-packed :
    (x : String) (clean : Text → Text) (notes : List Note) (exclude : List String)
    → total x (packed clean notes exclude)
      ≡ count (λ n. not (is_excluded exclude n) && n.id === x) notes
unfolding packed
total-packed x clean notes exclude =
    let kept = filter (λ n. not (is_excluded exclude n)) notes in
    let start : Packing = record {
      memory_side = no_side;
      user_side = no_side;
      capacity_excluded = [];
    } in
    omega (
      arith,
      total-pack x clean (sort_notes kept) start,
      count-sort_notes (λ n. n.id === x) kept,
      count-filter (λ n. n.id === x) (λ n. not (is_excluded exclude n)) notes,
    )

-- Every identifier stands among the included and the excluded ones as often as it stands among the
-- caller's exclusions, each taken once, and is carried by a note that the caller did not exclude:
-- each such note is either included, in one part, or reported as excluded.
pub projection_shares :
    (clean : Text → Text) (notes : List Note) (exclude : List String) (x : String)
    → let r = build_hermes_memory_projection clean notes exclude in
      count (λ i. i === x) r.included_note_ids + count (λ i. i === x) r.excluded_note_ids
      ≡ count (λ i. i === x) (unique exclude)
        + count (λ n. not (is_excluded exclude n) && n.id === x) notes
unfolding build_hermes_memory_projection packed
projection_shares clean notes exclude x =
    let p = packed clean notes exclude in
    omega (
      arith,
      named-append x p.memory_side.entries p.user_side.entries,
      count-append (λ i. i === x) (unique exclude) p.capacity_excluded,
      total-packed x clean notes exclude,
    )
