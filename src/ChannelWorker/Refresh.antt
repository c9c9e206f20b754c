-- ===== src/ChannelWorker/Refresh.antt =====
-- What a refresh of the inventory leaves running: packages/channels/worker.mjs.
use bai_rui_cloud_agent_plat.Prelude.{
  ℕ, Bool, true, false, ◌||◌, String, Option, none, some, List, [], ◌∷◌, map, any, ◌===◌,
  if◌then◌else◌, ◌≡◌, ◌∙◌, refl, Distinct, Bool-cases, Option-cases, inl, inr, lookup,
  lookup-unlisted, ap, is_some,
}
use bai_rui_cloud_agent_plat.ChannelWorker.{
  Descriptor, Host, Worker, start_outcome, generation_of, is_number, latest, keeps, drop_each, keys,
  refresh_for, drop_one, refresh_inventory,
}
use bai_rui_cloud_agent_plat.ChannelWorker.Dropping.{
  IsPaired, stays, drop_each-generations, drop_one-worker_id,
}
use bai_rui_cloud_agent_plat.ChannelWorker.Starting.{is_running, settled}
use bai_rui_cloud_agent_plat.ChannelWorker.Rounds.{
  start_each-generations, start_each-IsPaired, drop_each-IsPaired,
}

refresh_for-IsPaired :
    (host : Host) (ds : List Descriptor) (w : Worker)
    → IsPaired w
    → IsPaired (refresh_for host ds w).0
unfolding refresh_for
refresh_for-IsPaired host ds w p =
    start_each-IsPaired host ds (drop_each ds (keys w) (record w { inventory_ready = true })) (
      drop_each-IsPaired ds (keys w) (record w { inventory_ready = true })
        (record { paired = p.paired }))

-- After any refresh, whatever the platform and the adapters answer and whether or not it throws, a
-- generation is recorded exactly for the bindings whose adapter runs, if it was so before.
pub refresh_inventory-IsPaired :
    (host : Host) (inventory : Option (List Descriptor)) (w : Worker)
    → IsPaired w
    → IsPaired (refresh_inventory host inventory w).0
unfolding refresh_inventory
refresh_inventory-IsPaired host inventory w p = elim (Bool-cases (w.refreshing || w.stopped)) [
  | inl t ↦ rw t p
  | inr f ↦ rw f (elim (Option-cases inventory) [
    | inl n ↦ rw n p
    | inr (ds, e) ↦ rw e (refresh_for-IsPaired host ds w p)
  ])
]

-- What a refresh leaves for a binding: the generation of its descriptor, if that generation ran
-- already or the adapter was started, and nothing otherwise.
unfoldable pub expected : Host → String → Option Descriptor → Option ℕ → Option ℕ
expected host worker none g = none
expected host worker (some d) g =
    if is_number g (generation_of d) || is_running (start_outcome host worker d)
    then some (generation_of d)
    else none

settled-stays :
    (host : Host) (worker : String) (o : Option Descriptor) (listed : Bool) (g : Option ℕ)
    → (listed ≡ false → g ≡ none)
    → settled host worker o (stays listed (keeps o g) g) ≡ expected host worker o g
unfolding expected
settled-stays host worker none true g h = refl
settled-stays host worker none false g h = h refl
settled-stays host worker (some d) listed g h = elim (Bool-cases (is_number g (generation_of d))) [
  | inl t ↦ rw t (elim (Bool-cases listed) [ inl u ↦ rw u (rw t refl) | inr u ↦ rw u (rw t refl) ])
  | inr f ↦ rw f (elim (Bool-cases listed) [ inl u ↦ rw u refl | inr u ↦ rw u (rw (h u) refl) ])
]

drop_each-worker_id :
    (ds : List Descriptor) (ids : List String) (w : Worker)
    → (drop_each ds ids w).worker_id ≡ w.worker_id
unfolding drop_each
drop_each-worker_id ds [] w = refl
drop_each-worker_id ds (id ∷ ids) w =
    drop_each-worker_id ds ids (drop_one ds id w) ∙ drop_one-worker_id ds id w

unrecorded :
    (k : String) (w : Worker)
    → IsPaired w
    → any (λ j. j === k) (keys w) ≡ false
    → lookup k w.generations ≡ none
unrecorded k w p h = elim (Option-cases (lookup k w.generations)) [
  | inl n ↦ n
  | inr (g, e) ↦ let n = lookup-unlisted k w.adapters h in let q = p.paired k in absurd (cc)
]

refresh_for-expected :
    (host : Host) (ds : List Descriptor) (w : Worker) (k : String)
    → IsPaired w
    → Distinct (map (λ (d : Descriptor). d.id) ds)
    → (refresh_for host ds w).1 ≡ false
    → lookup k (refresh_for host ds w).0.generations
      ≡ expected host w.worker_id (latest k ds) (lookup k w.generations)
unfolding refresh_for
refresh_for-expected host ds w k p u e =
    let v = record w { inventory_ready = true } in
    let q : IsPaired v = record { paired = p.paired } in
    let same = drop_each-worker_id ds (keys w) v in
    let left = drop_each-generations ds k (keys w) v in
    let done =
      start_each-generations host ds (drop_each ds (keys w) v) k u
        (drop_each-IsPaired ds (keys w) v q) e in
    rw (same, left) at done
    ∙ settled-stays host w.worker_id (latest k ds) (any (λ j. j === k) (keys w))
        (lookup k w.generations) (unrecorded k w p)

inventory-expected :
    (host : Host) (ds : List Descriptor) (w : Worker) (k : String)
    → IsPaired w
    → Distinct (map (λ (d : Descriptor). d.id) ds)
    → (w.refreshing || w.stopped) ≡ false
    → (refresh_inventory host (some ds) w).1 ≡ false
    → lookup k (refresh_inventory host (some ds) w).0.generations
      ≡ expected host w.worker_id (latest k ds) (lookup k w.generations)
unfolding refresh_inventory
inventory-expected host ds w k p u free e =
    rw free (refresh_for-expected host ds w k p u (rw free at e))

-- Where a generation is recorded exactly for the bindings whose adapter runs: a refresh that is let in
-- and does not throw, for an inventory without repeated ids, leaves exactly
-- the inventory's bindings with a running adapter that ran already at the inventory's generation or
-- whose adapter started, each recorded at the inventory's generation.
pub refresh_inventory-expected :
    (host : Host) (ds : List Descriptor) (w : Worker) (k : String)
    → IsPaired w
    → Distinct (map (λ (d : Descriptor). d.id) ds)
    → (w.refreshing || w.stopped) ≡ false
    → (refresh_inventory host (some ds) w).1 ≡ false
    → (lookup k (refresh_inventory host (some ds) w).0.generations
        ≡ expected host w.worker_id (latest k ds) (lookup k w.generations))
      × (is_some (lookup k (refresh_inventory host (some ds) w).0.adapters)
          ≡ is_some (expected host w.worker_id (latest k ds) (lookup k w.generations)))
refresh_inventory-expected host ds w k p u free e =
    let recorded = inventory-expected host ds w k p u free e in
    (recorded, (refresh_inventory-IsPaired host (some ds) w p).paired k ∙ ap is_some recorded)
