-- ===== src/Notes/Examples.antt =====
-- A projection on concrete notes: tests, and the theorems at these values.
use bai_rui_cloud_agent_plat.Prelude.{
  ℕ, ◌+◌, ◌≡◌, refl, List, [], ◌∷◌, some, String, count, ◌===◌, not, ◌&&◌,
}
use bai_rui_cloud_agent_plat.Json.{Text, codes}
use bai_rui_cloud_agent_plat.Policy.{after}
use bai_rui_cloud_agent_plat.Notes.{
  Note, HermesTarget, memory_limit, user_limit, is_excluded, unique, build_hermes_memory_projection,
}
use bai_rui_cloud_agent_plat.Notes.Budget.{IsWithin, projection-IsWithin}
use bai_rui_cloud_agent_plat.Notes.Sharing.{projection_shares}

-- The Markdown of these notes is their body.
abbrev body : Text → Text
body s = s

abbrev note : String → String → ℕ → HermesTarget → Note
note id kind weight target = record {
  id = id;
  title = codes "T";
  markdown = codes "text";
  memory_kind = kind;
  importance = some weight;
  hermes_target = target;
  source_ref = codes "bairui-user";
  updated_at = 10;
}

abbrev notes : List Note
notes =
    note "n1" "fact" 2 HermesTarget.auto
    ∷ note "n2" "fact" 5 HermesTarget.auto
    ∷ note "n3" "person" 3 HermesTarget.auto
    ∷ note "n4" "fact" 3 HermesTarget.none
    ∷ note "n5" "fact" 4 HermesTarget.user
    ∷ []

abbrev excluded : List String
excluded = "n3" ∷ []

chosen_test :
    ((build_hermes_memory_projection body notes excluded).included_note_ids
      ≡ "n2" ∷ "n1" ∷ "n5" ∷ [])
    × ((build_hermes_memory_projection body notes excluded).excluded_note_ids ≡ "n3" ∷ "n4" ∷ [])
unfolding build_hermes_memory_projection after
chosen_test = (refl, refl)

projection-IsWithin_example :
    IsWithin
      (10 ∷ 167 ∷ 10 ∷ [])
      memory_limit
      (build_hermes_memory_projection body notes excluded).memory_part
    × IsWithin
        (10 ∷ 167 ∷ 10 ∷ [])
        user_limit
        (build_hermes_memory_projection body notes excluded).user_part
projection-IsWithin_example = projection-IsWithin body (10 ∷ 167 ∷ 10 ∷ []) notes excluded refl

projection_shares_example :
    let r = build_hermes_memory_projection body notes excluded in
    count (λ i. i === "n4") r.included_note_ids + count (λ i. i === "n4") r.excluded_note_ids
    ≡ count (λ i. i === "n4") (unique excluded)
      + count (λ n. not (is_excluded excluded n) && n.id === "n4") notes
projection_shares_example = projection_shares body notes excluded "n4"
