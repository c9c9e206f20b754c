-- ===== src/Control/Provisioning/Repeated.antt =====
-- A second request to provision an Agent (packages/db/memory-repository.mjs).
use bai_rui_cloud_agent_plat.Prelude.{
  Bool, Bool-cases, List, String, [], ap, find?, inl, inr, lookup, refl, some, true, update_value,
  values, ℕ, ◌===◌, ◌∷◌, ◌≡◌, ◌≢◌, Option-cases, false, lookup-update_key, none, All,
}
use bai_rui_cloud_agent_plat.Control.Provisioning.{
  no_capacity, request_agent_provisioning, ProvisioningInput, provision, is_provisioned, is_usable,
  write_provisioning_agent, provision_revision, provision_deployment, write_provisioning_runtime,
}
use bai_rui_cloud_agent_plat.Fleet.Store.{AgentRuntime, Agent, Server}
use bai_rui_cloud_agent_plat.Control.Store.{ConfigDocument, Store, runtime_of}

find?-update_value :
    (agent : String) (f : AgentRuntime → AgentRuntime) (m : List (String × AgentRuntime))
    (r : AgentRuntime)
    → ((x : AgentRuntime) → (f x).agent_id ≡ x.agent_id)
    → find? (λ x. x.agent_id === agent) (values m) ≡ some r
    → find? (λ x. x.agent_id === agent) (values (update_value (λ x. x.agent_id === agent) f m))
      ≡ some (f r)
find?-update_value agent f [] r keep e = absurd (cc)
find?-update_value agent f ((k, x) ∷ m) r keep e = elim (Bool-cases (x.agent_id === agent)) [
  | inl t ↦
      let same : x ≡ r = (let z = rw t at e in cc) in
      let after : ((f x).agent_id === agent) ≡ true = rw (keep x) t in
      rw t (rw after (ap (λ y. some (f y)) same))
  | inr n ↦ rw n (rw n (find?-update_value agent f m r keep (rw n at e)))
]

module _ (le : String → String → Bool) (digest : ConfigDocument → String) where
  -- When a request writes nothing.
  module _ (now : ℕ) (fresh : ℕ → String) (i : ProvisioningInput) (s : Store) where
    no_agent_lem :
        lookup i.agent_id s.world.agents ≡ none
        → (request_agent_provisioning le digest now fresh i s).0 ≡ s
    unfolding request_agent_provisioning
    no_agent_lem h = rw (request_agent_provisioning, h) refl

    no_runtime_lem :
        (a : Agent)
        → lookup i.agent_id s.world.agents ≡ some a
        → runtime_of i.agent_id s.world ≡ none
        → (request_agent_provisioning le digest now fresh i s).0 ≡ s
    unfolding request_agent_provisioning
    no_runtime_lem a h k = rw (request_agent_provisioning, h, k) refl

    settled :
        (a : Agent) (r : AgentRuntime)
        → lookup i.agent_id s.world.agents ≡ some a
        → runtime_of i.agent_id s.world ≡ some r
        → is_provisioned a ≡ true
        → (request_agent_provisioning le digest now fresh i s).0 ≡ s
    unfolding request_agent_provisioning
    settled a r h k p = rw (request_agent_provisioning, h, k, p) refl

    provisioned_now :
        (a : Agent) (r : AgentRuntime) (v : Server)
        → lookup i.agent_id s.world.agents ≡ some a
        → runtime_of i.agent_id s.world ≡ some r
        → is_provisioned a ≡ false
        → find? (is_usable a) s.world.servers ≡ some v
        → (request_agent_provisioning le digest now fresh i s).0
          ≡ (provision le digest now fresh i a r v s).0
    unfolding request_agent_provisioning
    provisioned_now a r v h k p e = rw (request_agent_provisioning, h, k, p, e) refl

    no_room :
        (a : Agent) (r : AgentRuntime)
        → lookup i.agent_id s.world.agents ≡ some a
        → runtime_of i.agent_id s.world ≡ some r
        → is_provisioned a ≡ false
        → find? (is_usable a) s.world.servers ≡ none
        → (request_agent_provisioning le digest now fresh i s).1 ≡ no_capacity
    unfolding request_agent_provisioning
    no_room a r h k p e = rw (request_agent_provisioning, h, k, p, e) refl

  -- After an Agent is provisioned, its record says so.
  settled_after :
      (now later : ℕ) (fresh other : ℕ → String) (i j : ProvisioningInput) (s : Store) (a : Agent)
      (r : AgentRuntime) (v : Server)
      → j.agent_id ≡ i.agent_id
      → lookup i.agent_id s.world.agents ≡ some a
      → runtime_of i.agent_id s.world ≡ some r
      → let first = (provision le digest now fresh i a r v s).0 in
        (request_agent_provisioning le digest later other j first).0 ≡ first
  unfolding provision
  settled_after now later fresh other i j s a r v same h k =
      let first = (provision le digest now fresh i a r v s).0 in
      let config = (provision_revision le digest now (fresh 0) i a r s.world.revisions).0 in
      let d = (provision_deployment le digest now (fresh 2) a v s.world.deployments).0 in
      settled later other j first (write_provisioning_agent le digest now a)
        (write_provisioning_runtime le digest now d config r)
        (rw same
          (lookup-update_key i.agent_id (write_provisioning_agent le digest now) s.world.agents h))
        (rw same (
          find?-update_value i.agent_id (write_provisioning_runtime le digest now d config)
            s.world.runtimes r (λ x. refl) k))
        refl

  repeated_once :
      (now later : ℕ) (fresh other : ℕ → String) (i j : ProvisioningInput) (s : Store)
      → j.agent_id ≡ i.agent_id
      → (request_agent_provisioning le digest now fresh i s).1 ≢ no_capacity
      → let first = (request_agent_provisioning le digest now fresh i s).0 in
        (request_agent_provisioning le digest later other j first).0 ≡ first
  repeated_once now later fresh other i j s same room =
      elim (Option-cases (lookup i.agent_id s.world.agents)) [
        | inl h ↦ rw (no_agent_lem now fresh i s h) (no_agent_lem later other j s (rw same h))
        | inr (a, h) ↦ elim (Option-cases (runtime_of i.agent_id s.world)) [
          | inl k ↦
              rw (no_runtime_lem now fresh i s a h k)
                (no_runtime_lem later other j s a (rw same h) (rw same k))
          | inr (r, k) ↦ elim (Bool-cases (is_provisioned a)) [
            | inl p ↦
                rw (settled now fresh i s a r h k p)
                  (settled later other j s a r (rw same h) (rw same k) p)
            | inr n ↦ elim (Option-cases (find? (is_usable a) s.world.servers)) [
              | inl e ↦ absurd (room (no_room now fresh i s a r h k n e))
              | inr (v, e) ↦
                  rw (provisioned_now now fresh i s a r v h k n e)
                    (settled_after now later fresh other i j s a r v same h k)
            ]
          ]
        ]
      ]

  -- Requests one after the other, each with its time and the identifiers that it draws.
  abbrev pub provision_each : List (ℕ × (ℕ → String) × ProvisioningInput) → Store → Store
  provision_each [] s = s
  provision_each ((now, fresh, i) ∷ rest) s =
      provision_each rest (request_agent_provisioning le digest now fresh i s).0

  -- After a request for an Agent that was not refused for want of a server, any number of requests for
  -- the same Agent that follow on it, with no other call in between, write nothing, whoever makes them,
  -- whatever they ask for and however late they are.
  pub request_agent_provisioning-repeated :
      (now : ℕ) (fresh : ℕ → String) (i : ProvisioningInput)
      (more : List (ℕ × (ℕ → String) × ProvisioningInput)) (s : Store)
      → All (λ c. c.2.agent_id ≡ i.agent_id) more
      → (request_agent_provisioning le digest now fresh i s).1 ≢ no_capacity
      → let first = (request_agent_provisioning le digest now fresh i s).0 in
        provision_each more first ≡ first
  request_agent_provisioning-repeated now fresh i [] s same room = refl
  request_agent_provisioning-repeated now fresh i ((later, other, j) ∷ more) s same room =
      rw (repeated_once now later fresh other i j s same.0 room)
        (request_agent_provisioning-repeated now fresh i more s same.1 room)
