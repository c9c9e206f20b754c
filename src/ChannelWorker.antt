-- ===== src/ChannelWorker.antt =====
-- The adapters that a channel worker keeps running: startAdapter, refreshInventory and stop of
-- packages/channels/worker.mjs. What the platform and the vendors' adapters answer is an argument.
-- A refresh is one step: no call of `stop` falls between its awaits.
pub mod Routes
pub mod Delivering
pub mod Released
pub mod Dropping
pub mod Starting
pub mod Rounds
pub mod Refresh
pub mod Examples
use bai_rui_cloud_agent_plat.Prelude.{
  ℕ, Bool, true, false, ◌&&◌, ◌||◌, not, String, Option, none, some, List, [], ◌∷◌, map, ◌===◌,
  ◌==◌, is_text, is_some, or_else, if◌then◌else◌, lookup, put, remove,
}

pub record OwnerScope : Type 0 where
  pub organization_id : Option String
  pub user_id : Option String
  pub agent_id : Option String
  pub workspace_id : Option String

pub record Descriptor : Type 0 where
  pub id : String
  pub channel : String
  pub generation : Option ℕ
  pub owner_scope : OwnerScope

-- The binding that the platform resolves, less its credential.
pub record Resolved : Type 0 where
  pub id : String
  pub channel : String
  pub owner_scope : OwnerScope

-- The binding that an adapter is made for.
pub record Adapter : Type 0 where
  pub id : String
  pub channel : String
  pub worker_id : String
  pub owner_scope : OwnerScope

-- The factory throws, or `start` resolves or rejects.
pub data Attempt : Type 0 where
  unmade resolved rejected : Attempt

-- `resolve` is `none` where resolveBinding throws.
pub record Host : Type 0 where
  pub resolve : String → OwnerScope → Option Resolved
  pub attempt : Adapter → Attempt

pub record Worker : Type 0 where
  pub worker_id : String
  pub adapters : List (String × Adapter)
  pub generations : List (String × ℕ)
  pub refreshing : Bool
  pub inventory_ready : Bool
  pub stopped : Bool

abbrev pub same_field : Option String → Option String → Bool
same_field none none = true
same_field (some s) t = is_text t s
same_field none (some t) = false

-- sameOwnerScope
abbrev pub same_owner_scope : OwnerScope → OwnerScope → Bool
same_owner_scope l r =
    same_field l.organization_id r.organization_id
    && same_field l.user_id r.user_id
    && same_field l.agent_id r.agent_id
    && same_field l.workspace_id r.workspace_id

-- `descriptor.generation ?? 0`
abbrev pub generation_of : Descriptor → ℕ
generation_of d = or_else d.generation 0

abbrev pub adapter_of : String → Descriptor → Adapter
adapter_of worker d = record {
  id = d.id;
  channel = d.channel;
  worker_id = worker;
  owner_scope = d.owner_scope;
}

-- startAdapter returns true or false, or throws.
pub data Started : Type 0 where
  running not_running thrown : Started

unfoldable pub start_outcome : Host → String → Descriptor → Started
start_outcome host worker d = elim (host.resolve d.id d.owner_scope) [
  | none ↦ thrown
  | some r ↦
      if not
        (r.id === d.id && r.channel === d.channel && same_owner_scope r.owner_scope d.owner_scope)
      then thrown
      else elim (host.attempt (adapter_of worker d)) [
        | unmade ↦ thrown
        | resolved ↦ running
        | rejected ↦ not_running
      ]
]

-- `this.generations.get(id) === generation`
abbrev pub is_number : Option ℕ → ℕ → Bool
is_number none n = false
is_number (some m) n = m == n

-- `next.get(id)` for the map made of the descriptors, in which the last one with an id stands.
unfoldable pub latest : String → List Descriptor → Option Descriptor
latest id [] = none
latest id (d ∷ ds) = elim (latest id ds) [
  | some e ↦ some e
  | none ↦ if d.id === id then some d else none
]

abbrev pub keeps : Option Descriptor → Option ℕ → Bool
keeps none g = false
keeps (some d) g = is_number g (generation_of d)

-- The first loop's round for an adapter.
unfoldable pub drop_one : List Descriptor → String → Worker → Worker
unfolding latest
drop_one ds id w =
    if keeps (latest id ds) (lookup id w.generations)
    then w
    else record w { adapters = remove id w.adapters; generations = remove id w.generations }

unfoldable pub drop_each : List Descriptor → List String → Worker → Worker
unfolding drop_one
drop_each ds [] w = w
drop_each ds (id ∷ ids) w = drop_each ds ids (drop_one ds id w)

-- The worker after startAdapter and the write of the generation, and whether it threw.
unfoldable pub after_start : Started → Descriptor → Worker → Worker × Bool
after_start running d w = (
  record w {
    adapters = put d.id (adapter_of w.worker_id d) w.adapters;
    generations = put d.id (generation_of d) w.generations;
  },
  false,
)
after_start not_running d w = (w, false)
after_start thrown d w = (w, true)

-- The second loop's round for a descriptor.
unfoldable pub start_one : Host → Descriptor → Worker → Worker × Bool
unfolding after_start start_outcome
start_one host d w =
    if is_some (lookup d.id w.adapters) && is_number (lookup d.id w.generations) (generation_of d)
    then (w, false)
    else after_start (start_outcome host w.worker_id d) d w

-- What follows a round, unless the round threw.
abbrev pub proceed : Worker × Bool → Worker × Bool → Worker × Bool
proceed (w, true) rest = (w, true)
proceed (w, false) rest = rest

unfoldable pub start_each : Host → List Descriptor → Worker → Worker × Bool
unfolding start_one
start_each host [] w = (w, false)
start_each host (d ∷ ds) w =
    let r = start_one host d w in let rest = start_each host ds r.0 in proceed r rest

abbrev pub keys : Worker → List String
keys w = map (λ (r : String × Adapter). r.0) w.adapters

-- The two loops, once the inventory is known.
unfoldable pub refresh_for : Host → List Descriptor → Worker → Worker × Bool
unfolding drop_each start_each
refresh_for host ds w =
    start_each host ds (drop_each ds (keys w) (record w { inventory_ready = true }))

-- The call and whether it threw; the inventory is `none` where asking for it throws. `refreshing` is
-- set and reset inside the call.
unfoldable pub refresh_inventory : Host → Option (List Descriptor) → Worker → Worker × Bool
unfolding refresh_for
refresh_inventory host inventory w =
    if w.refreshing || w.stopped
    then (w, false)
    else elim inventory [ none ↦ (w, true) | some ds ↦ refresh_for host ds w ]

unfoldable pub stop : Worker → Worker
stop w = record w { stopped = true; adapters = []; generations = [] }
