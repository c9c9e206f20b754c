-- ===== src/Notes/Budget.antt =====
-- The projection of packages/memory/obsidian-note.mjs and the Runtime's memory limits.
use bai_rui_cloud_agent_plat.Prelude.{
  ℕ, ◌+◌, ◌≤◌, ◌≡◌, ◌∙◌, not, filter, refl, Bool-cases, inl, inr, List, [], ◌∷◌, ◌++◌, length,
  length-append, arith, String, true,
}
use bai_rui_cloud_agent_plat.Json.{Text}
use bai_rui_cloud_agent_plat.Notes.{
  Note, Target, to_memory, to_user, to_none, target_for, memory_limit, user_limit, compact_entry,
  Entry, Side, Packing, gap, next_used, push, fits, place, pack_one, pack, no_side, is_excluded,
  sort_notes, packed, build_hermes_memory_projection,
}

-- The entries' contents as one text, with a separator between them.
unfoldable pub joined : Text → List Entry → Text
joined sep [] = []
joined sep (e ∷ []) = e.content
joined sep (e ∷ f ∷ es) = e.content ++ sep ++ joined sep (f ∷ es)

length-glue : (a sep b : Text) → length sep ≡ 3 → length (a ++ sep ++ b) ≡ length a + 3 + length b
length-glue a sep b h = omega (arith, length-append (a ++ sep) b, length-append a sep)

length-joined_snoc :
    (sep : Text) (es : List Entry) (x : Entry)
    → length sep ≡ 3
    → length (joined sep (es ++ x ∷ [])) ≡ length (joined sep es) + gap es + length x.content
unfolding joined
length-joined_snoc sep [] x h =
    let same : length x.content ≡ 0 + length x.content = omega arith in same
length-joined_snoc sep (e ∷ []) x h = length-glue e.content sep x.content h
length-joined_snoc sep (e ∷ f ∷ es) x h =
    let rest = length-joined_snoc sep (f ∷ es) x h in
    let whole = length-glue e.content sep (joined sep ((f ∷ es) ++ x ∷ [])) h in
    let before = length-glue e.content sep (joined sep (f ∷ es)) h in
    whole ∙ omega (arith, rest, before)

-- What is counted is the size of the entries with a separator of three code units, and it is within
-- the limit.
pub record IsWithin (sep : Text) (limit : ℕ) (s : Side) : Type 0 where
  pub counted : s.used ≡ length (joined sep s.entries)
  pub bounded : s.used ≤ limit

push-IsWithin :
    (sep : Text) (limit : ℕ) (s : Side) (n : Note) (content : Text)
    → length sep ≡ 3
    → IsWithin sep limit s
    → fits s limit content ≡ true
    → IsWithin sep limit (push s n content)
unfolding push fits next_used
push-IsWithin sep limit s n content h w f = record {
  counted = omega (
    arith,
    length-joined_snoc sep s.entries (record { note_id = n.id; content = content }) h,
    w.counted,
  );
  bounded = ground arith;
}

pub record AreWithin (sep : Text) (p : Packing) : Type 0 where
  pub memory_within : IsWithin sep memory_limit p.memory_side
  pub user_within : IsWithin sep user_limit p.user_side

place-AreWithin :
    (sep : Text) (t : Target) (n : Note) (content : Text) (p : Packing)
    → length sep ≡ 3
    → AreWithin sep p
    → AreWithin sep (place t n content p)
unfolding place
place-AreWithin sep to_none n content p h w = record {
  memory_within = w.memory_within;
  user_within = w.user_within;
}
place-AreWithin sep to_memory n content p h w =
    elim (Bool-cases (fits p.memory_side memory_limit content)) [
      | inl f ↦ rw f (record {
        memory_within = push-IsWithin sep memory_limit p.memory_side n content h w.memory_within f;
        user_within = w.user_within;
      })
      | inr f ↦ rw f (record { memory_within = w.memory_within; user_within = w.user_within })
    ]
place-AreWithin sep to_user n content p h w =
    elim (Bool-cases (fits p.user_side user_limit content)) [
      | inl f ↦ rw f (record {
        memory_within = w.memory_within;
        user_within = push-IsWithin sep user_limit p.user_side n content h w.user_within f;
      })
      | inr f ↦ rw f (record { memory_within = w.memory_within; user_within = w.user_within })
    ]

pack-AreWithin :
    (clean : Text → Text) (sep : Text) (ns : List Note) (p : Packing)
    → length sep ≡ 3
    → AreWithin sep p
    → AreWithin sep (pack clean ns p)
unfolding pack pack_one
pack-AreWithin clean sep [] p h w = w
pack-AreWithin clean sep (n ∷ ns) p h w =
    pack-AreWithin clean sep ns (pack_one clean n p) h
      (place-AreWithin sep (target_for n) n (compact_entry clean n) p h w)

-- Whatever notes there are and whichever are excluded, each part's count of characters is the
-- length of its entries joined by a separator of three code units, and at most the part's limit.
pub projection-IsWithin :
    (clean : Text → Text) (sep : Text) (notes : List Note) (exclude : List String)
    → length sep ≡ 3
    → IsWithin sep memory_limit (build_hermes_memory_projection clean notes exclude).memory_part
      × IsWithin sep user_limit (build_hermes_memory_projection clean notes exclude).user_part
unfolding build_hermes_memory_projection packed joined
projection-IsWithin clean sep notes exclude h =
    let start : AreWithin sep
        (record { memory_side = no_side; user_side = no_side; capacity_excluded = [] }) =
      record {
        memory_within = record { counted = refl; bounded = omega arith };
        user_within = record { counted = refl; bounded = omega arith };
      } in
    let w =
      pack-AreWithin clean sep (sort_notes (filter (λ n. not (is_excluded exclude n)) notes)) _ h
        start in
    (w.memory_within, w.user_within)
