-- ===== src/ChannelWorker/Examples.antt =====
-- A refresh on a concrete inventory: a test, and the theorems at these values.
use bai_rui_cloud_agent_plat.Prelude.{
  Bool, String, none, some, List, [], ◌∷◌, true, false, ◌===◌, ◌≡◌, ◌≢◌, refl, if◌then◌else◌,
  is_some, map, Distinct, eq_iff, lookup,
}
use bai_rui_cloud_agent_plat.ChannelWorker.{
  OwnerScope, Descriptor, Adapter, Attempt, Host, Worker, latest, refresh_inventory,
}
use bai_rui_cloud_agent_plat.ChannelWorker.Dropping.{IsPaired}
use bai_rui_cloud_agent_plat.ChannelWorker.Refresh.{
  expected, refresh_inventory-IsPaired, refresh_inventory-expected,
}

abbrev scope : OwnerScope
scope = record {
  organization_id = some "o1";
  user_id = some "u1";
  agent_id = some "a1";
  workspace_id = none;
}

-- The platform resolves every binding on QQ, and the adapter of `b3` does not start.
abbrev host : Host
host = record {
  resolve = λ id s. some (record { id = id; channel = "qq"; owner_scope = s });
  attempt = λ a. if a.id === "b3" then Attempt.rejected else Attempt.resolved;
}

abbrev on_qq : String → Descriptor
on_qq id = record { id = id; channel = "qq"; generation = some 2; owner_scope = scope }

abbrev inventory : List Descriptor
inventory = on_qq "b1" ∷ on_qq "b2" ∷ on_qq "b3" ∷ []

abbrev running : String → Adapter
running id = record { id = id; channel = "qq"; worker_id = "w1"; owner_scope = scope }

-- `b1` runs at an old generation, `b2` at the current one, `b4` is not in the inventory.
abbrev worker : Worker
worker = record {
  worker_id = "w1";
  adapters = ("b1", running "b1") ∷ ("b2", running "b2") ∷ ("b4", running "b4") ∷ [];
  generations = ("b1", 1) ∷ ("b2", 2) ∷ ("b4", 2) ∷ [];
  refreshing = false;
  inventory_ready = false;
  stopped = false;
}

refreshed :
    ((refresh_inventory host (some inventory) worker).0.generations ≡ ("b2", 2) ∷ ("b1", 2) ∷ [])
    × ((refresh_inventory host (some inventory) worker).1 ≡ false)
unfolding refresh_inventory
refreshed = (refl, refl)

three {ℓ κ} :
    {V : Type ℓ} {W : Type κ} (a b c : Bool) (u v w : V) (x y z : W)
    → is_some (if a then some u else if b then some v else if c then some w else none)
      ≡ is_some (if a then some x else if b then some y else if c then some z else none)
three true b c u v w x y z = refl
three false true c u v w x y z = refl
three false false true u v w x y z = refl
three false false false u v w x y z = refl

worker-IsPaired : IsPaired worker
worker-IsPaired = record { paired = λ k. three ("b1" === k) ("b2" === k) ("b4" === k) _ _ _ _ _ _ }

refresh_inventory-IsPaired_example : IsPaired (refresh_inventory host (some inventory) worker).0
refresh_inventory-IsPaired_example =
    refresh_inventory-IsPaired host (some inventory) worker worker-IsPaired

apart : (s t : String) → (s === t) ≡ false → s ≢ t
apart s t h e = let r = (eq_iff s t).1 e in cc

inventory-Distinct : Distinct (map (λ (d : Descriptor). d.id) inventory)
inventory-Distinct =
    ((apart "b1" "b2" refl, (apart "b1" "b3" refl, tt)), ((apart "b2" "b3" refl, tt), (tt, tt)))

refresh_inventory-expected_example :
    (lookup "b1" (refresh_inventory host (some inventory) worker).0.generations
      ≡ expected host "w1" (latest "b1" inventory) (some 1))
    × (is_some (lookup "b1" (refresh_inventory host (some inventory) worker).0.adapters)
        ≡ is_some (expected host "w1" (latest "b1" inventory) (some 1)))
refresh_inventory-expected_example =
    refresh_inventory-expected host inventory worker "b1" worker-IsPaired inventory-Distinct refl
      refreshed.1
