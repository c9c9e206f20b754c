-- ===== src/Fleet/Samples.antt =====
-- Resource samples of Agents (packages/db/memory-repository.mjs).

use bai_rui_cloud_agent_plat.Prelude.{
  ℕ, suc, String, Option, none, some, List, [], ◌∷◌, ◌++◌, Bool, ◌&&◌, ◌==◌, ◌===◌, is_text,
  if◌then◌else◌, find?, any, update_first, lookup,
}
use bai_rui_cloud_agent_plat.Fleet.Store.{
  Agent, Server, Deployment, SampleInput, ResourceSample, Store,
}
use bai_rui_cloud_agent_plat.Fleet.Alerts.{evaluate_resource_alerts}

abbrev pub is_sample_deployment : String → SampleInput → Deployment → Bool
is_sample_deployment server x d =
    d.id === x.deployment_id && is_text d.server_id server && d.agent_id === x.agent_id

abbrev pub is_sample_server : String → Agent → Server → Bool
is_sample_server server a v = v.id === server && v.organization_id === a.organization_id

-- The sample's deployment and Agent, where the six tests pass.
unfoldable pub sample_owner : String → SampleInput → Store → Option (Deployment × Agent)
sample_owner server x s = elim (find? (is_sample_deployment server x) s.deployments) [
  | none ↦ none
  | some d ↦ elim (lookup x.runtime_id s.runtimes) [
    | none ↦ none
    | some r ↦ elim (lookup x.agent_id s.agents) [
      | none ↦ none
      | some a ↦
          if any (is_sample_server server a) s.servers
            && r.agent_id === a.id
            && is_text r.deployment_id d.id
          then some (d, a)
          else none
    ]
  ]
]

abbrev pub same_sample : SampleInput → ResourceSample → Bool
same_sample x r = r.sample.runtime_id === x.runtime_id && r.sample.sequence == x.sequence

unfoldable pub new_sample : ℕ → String → String → SampleInput → Deployment × Agent → ResourceSample
new_sample now fresh server x (d, a) = record {
  id = fresh;
  organization_id = a.organization_id;
  user_id = a.owner_user_id;
  server_id = server;
  environment = d.environment;
  sample = x;
  received_at = now;
}

-- The sample under the identifier of the one that it replaces.
abbrev pub sample_to_store : ResourceSample → Option ResourceSample → ResourceSample
sample_to_store r none = r
sample_to_store r (some old) = record r { id = old.id }

unfoldable pub store_sample : ResourceSample → List ResourceSample → List ResourceSample
store_sample r samples = elim (find? (same_sample r.sample) samples) [
  | some old ↦ update_first (same_sample r.sample) (λ _. sample_to_store r (some old)) samples
  | none ↦ samples ++ r ∷ []
]

-- One round: the store and the sample, or `none` where the code throws.
unfoldable pub save_sample :
    ℕ → (ℕ → String) → String → SampleInput → Store → Option (Store × ResourceSample)
unfolding sample_owner new_sample store_sample evaluate_resource_alerts
save_sample now fresh server x s = elim (sample_owner server x s) [
  | none ↦ none
  | some owner ↦
      let r = new_sample now (fresh 3) server x owner in
      let stored = sample_to_store r (find? (same_sample x) s.samples) in
      some (
        record s {
          samples = store_sample r s.samples;
          alerts = evaluate_resource_alerts fresh stored s.alerts;
        },
        stored,
      )
]

-- The store after the call, and the samples saved or, where it throws, `none`: what the rounds
-- before have written stays written. Round `n` draws its identifiers from `fresh n`.
unfoldable pub save_samples :
    ℕ
    → (ℕ → ℕ → String)
    → ℕ
    → String
    → List SampleInput
    → Store
    → Store × Option (List ResourceSample)
unfolding save_sample
save_samples now fresh n server [] s = (s, some [])
save_samples now fresh n server (x ∷ xs) s = elim (save_sample now (fresh n) server x s) [
  | none ↦ (s, none)
  | some (t, r) ↦
      let rest = save_samples now fresh (suc n) server xs t in
      (rest.0, elim rest.1 [ none ↦ none | some rs ↦ some (r ∷ rs) ])
]

pub record SamplesInput : Type 0 where
  pub server_id : String
  pub samples : List SampleInput

unfoldable pub save_agent_resource_samples :
    ℕ → (ℕ → ℕ → String) → SamplesInput → Store → Store × Option (List ResourceSample)
unfolding save_samples
save_agent_resource_samples now fresh i s = save_samples now fresh 0 i.server_id i.samples s
