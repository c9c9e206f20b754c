-- ===== src/ChannelWorker/Dropping.antt =====
-- The first loop of refreshInventory in packages/channels/worker.mjs.
use bai_rui_cloud_agent_plat.Prelude.{
  ℕ, Bool, true, false, ◌&&◌, ◌||◌, not, String, Option, none, List, [], ◌∷◌, any, ◌===◌, eq_iff,
  is_some, if◌then◌else◌, ◌≡◌, ◌∙◌, refl, Bool-cases, Option-cases, inl, inr, lookup,
  lookup-remove_same, lookup-remove_other,
}
use bai_rui_cloud_agent_plat.ChannelWorker.{Descriptor, Worker, latest, keeps, drop_one, drop_each}

-- A generation is recorded exactly for the bindings whose adapter runs.
pub record IsPaired (w : Worker) : Type 0 where
  pub paired : (k : String) → is_some (lookup k w.adapters) ≡ is_some (lookup k w.generations)

-- What stays of a table's entry once the loop has come by.
abbrev pub stays {ℓ} : {V : Type ℓ} → Bool → Bool → Option V → Option V
stays listed kept v = if listed && not kept then none else v

abbrev pub keeps_of : List Descriptor → String → Worker → Bool
keeps_of ds k w = keeps (latest k ds) (lookup k w.generations)

stays-stays {ℓ} :
    {V : Type ℓ} (i r kept kept_after : Bool) (v : Option V)
    → kept_after ≡ (if i && not kept then false else kept)
    → stays r kept_after (stays i kept v) ≡ stays (i || r) kept v
stays-stays false r kept after v h = rw h refl
stays-stays true false kept after v h = refl
stays-stays true true true after v h = rw h refl
stays-stays true true false after v h = rw h refl

module _ (ds : List Descriptor) (k : String) where
  drop_one-generations :
      (id : String) (w : Worker)
      → lookup k (drop_one ds id w).generations
        ≡ stays (id === k) (keeps_of ds k w) (lookup k w.generations)
  unfolding drop_one
  drop_one-generations id w = elim (Bool-cases (id === k)) [
    | inl t ↦ rw ((eq_iff id k).0 t) (
        rw ((eq_iff k k).1 refl) (elim (Bool-cases (keeps_of ds k w)) [
          | inl u ↦ rw u refl
          | inr f ↦ rw f (lookup-remove_same k w.generations)
        ]))
    | inr g ↦ rw g (elim (Bool-cases (keeps_of ds id w)) [
      | inl u ↦ rw u refl
      | inr f ↦ rw f (lookup-remove_other id k w.generations g)
    ])
  ]

  drop_one-adapters :
      (id : String) (w : Worker)
      → lookup k (drop_one ds id w).adapters
        ≡ stays (id === k) (keeps_of ds k w) (lookup k w.adapters)
  unfolding drop_one
  drop_one-adapters id w = elim (Bool-cases (id === k)) [
    | inl t ↦ rw ((eq_iff id k).0 t) (
        rw ((eq_iff k k).1 refl) (elim (Bool-cases (keeps_of ds k w)) [
          | inl u ↦ rw u refl
          | inr f ↦ rw f (lookup-remove_same k w.adapters)
        ]))
    | inr g ↦ rw g (elim (Bool-cases (keeps_of ds id w)) [
      | inl u ↦ rw u refl
      | inr f ↦ rw f (lookup-remove_other id k w.adapters g)
    ])
  ]

  pub keeps_none : keeps (latest k ds) none ≡ false
  keeps_none = elim (Option-cases (latest k ds)) [ inl n ↦ rw n refl | inr (d, e) ↦ rw e refl ]

  keeps-stays :
      (i : Bool) (g : Option ℕ)
      → keeps (latest k ds) (stays i (keeps (latest k ds) g) g)
        ≡ (if i && not (keeps (latest k ds) g) then false else keeps (latest k ds) g)
  keeps-stays false g = refl
  keeps-stays true g = elim (Bool-cases (keeps (latest k ds) g)) [
    | inl t ↦ rw t t
    | inr f ↦ rw f keeps_none
  ]

  pub drop_each-generations :
      (ids : List String) (w : Worker)
      → lookup k (drop_each ds ids w).generations
        ≡ stays (any (λ j. j === k) ids) (keeps_of ds k w) (lookup k w.generations)
  unfolding drop_each
  drop_each-generations [] w = refl
  drop_each-generations (id ∷ ids) w =
      let step = drop_one-generations id w in
      drop_each-generations ids (drop_one ds id w)
      ∙ rw step (
          stays-stays (id === k) (any (λ j. j === k) ids) (keeps_of ds k w) _
            (lookup k w.generations) (keeps-stays (id === k) (lookup k w.generations)))

  pub drop_each-adapters :
      (ids : List String) (w : Worker)
      → lookup k (drop_each ds ids w).adapters
        ≡ stays (any (λ j. j === k) ids) (keeps_of ds k w) (lookup k w.adapters)
  unfolding drop_each
  drop_each-adapters [] w = refl
  drop_each-adapters (id ∷ ids) w =
      let step = drop_one-generations id w in
      let others = drop_one-adapters id w in
      drop_each-adapters ids (drop_one ds id w)
      ∙ rw (step, others)
          (stays-stays (id === k) (any (λ j. j === k) ids) (keeps_of ds k w) _ (lookup k w.adapters)
            (keeps-stays (id === k) (lookup k w.generations)))

pub drop_one-worker_id :
    (ds : List Descriptor) (id : String) (w : Worker) → (drop_one ds id w).worker_id ≡ w.worker_id
unfolding drop_one
drop_one-worker_id ds id w = elim (Bool-cases (keeps_of ds id w)) [
  | inl t ↦ rw t refl
  | inr f ↦ rw f refl
]
