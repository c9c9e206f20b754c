-- ===== src/Control/Provisioning.antt =====
-- requestAgentProvisioning and requestAgentOwnerConfiguration of
-- packages/db/memory-repository.mjs. `digest` stands for the hash of a configuration's JSON text,
-- which is node:crypto's.
pub mod Repeated
use bai_rui_cloud_agent_plat.Prelude.{
  Bool, List, Option, String, [], count, false, filter, find?, find_last?, if◌then◌else◌, lookup,
  map, none, not, or_else, some, true, update_first, update_key, update_value, update_where, ℕ,
  ◌&&◌, ◌*◌, ◌++◌, ◌+◌, ◌===◌, ◌∷◌,
}
use bai_rui_cloud_agent_plat.Control.Store.{
  queued, ProviderChoice, ConfigRevision, ConfigDocument, is_one_of, RuntimeCredential, Store,
  Command, runtime_of,
}
use bai_rui_cloud_agent_plat.Fleet.Store.{Agent, AgentRuntime, Server, Deployment}
use bai_rui_cloud_agent_plat.Json.{Value}
use bai_rui_cloud_agent_plat.Control.Lifecycle.{no_arguments}

pub record SkillInput : Type 0 where
  pub skill_id : String
  pub enabled : Bool

pub record ProvisioningInput : Type 0 where
  pub agent_id : String
  pub skills : Option (List SkillInput)
  pub provider : ProviderChoice
  pub secret_envelope : Value
  pub agent_credential_id : Option String
  pub agent_credential_hash : String
  pub agent_credential_hint : String
  pub requested_by : String

pub data ProvisioningAnswer : Type 0 where
  nothing_to_provision : ProvisioningAnswer
  no_capacity : ProvisioningAnswer
  provisioning : Agent → AgentRuntime → Option Deployment → Option Command → ProvisioningAnswer

-- `sort()` of texts, by the library's order.
unfoldable pub insert_text : (String → String → Bool) → String → List String → List String
insert_text le x [] = x ∷ []
insert_text le x (y ∷ ys) =
    let rest = insert_text le x ys in if le x y then x ∷ y ∷ ys else y ∷ rest

unfoldable pub sort_texts : (String → String → Bool) → List String → List String
unfolding insert_text
sort_texts le [] = []
sort_texts le (x ∷ xs) = insert_text le x (sort_texts le xs)

abbrev pub is_usable : Agent → Server → Bool
is_usable a v =
    v.organization_id === a.organization_id && is_one_of ("active" ∷ "healthy" ∷ []) v.status

abbrev pub is_provisioned : Agent → Bool
is_provisioned a = is_one_of ("provisioning" ∷ "ready" ∷ []) a.initialization_status

abbrev pub next_revision : String → List ConfigRevision → ℕ
next_revision organization rs = count (λ r. r.organization_id === organization) rs + 1

-- `localeCompare` and `sort` of the engine, and the hash.
module _ (le : String → String → Bool) (digest : ConfigDocument → String) where
  abbrev pub provisioned_document : ProvisioningInput → Agent → AgentRuntime → ConfigDocument
  provisioned_document i a r = record {
    agent_id = a.id;
    agent_name = a.name;
    soul_markdown = a.soul_markdown;
    runtime_kind = "hermes";
    workspace_ref = r.workspace_ref;
    provider = i.provider;
    owner_change = none;
    disabled =
        sort_texts le (map (λ k. k.skill_id) (filter (λ k. not k.enabled) (or_else i.skills [])));
  }

  abbrev pub same_content : Agent → String → ConfigRevision → Bool
  same_content a hash r = r.organization_id === a.organization_id && r.content_hash === hash

  abbrev pub write_revision : ProvisioningInput → ConfigRevision → ConfigRevision
  write_revision i r = record r {
    secret_envelope = i.secret_envelope;
    status = "approved";
    created_by = i.requested_by;
  }

  abbrev pub new_revision :
      ℕ → String → ProvisioningInput → Agent → AgentRuntime → List ConfigRevision → ConfigRevision
  new_revision now fresh i a r rs = record {
    id = fresh;
    organization_id = a.organization_id;
    agent_id = a.id;
    revision = next_revision a.organization_id rs;
    config_document = provisioned_document i a r;
    secret_envelope = i.secret_envelope;
    content_hash = digest (provisioned_document i a r);
    status = "approved";
    created_by = i.requested_by;
    created_at = now;
  }

  -- The revision, and the list with it: the stored one of the same content, or a new one.
  unfoldable pub provision_revision :
      ℕ
      → String
      → ProvisioningInput
      → Agent
      → AgentRuntime
      → List ConfigRevision
      → ConfigRevision × List ConfigRevision
  provision_revision now fresh i a r rs =
      let hash = digest (provisioned_document i a r) in
      elim (find? (same_content a hash) rs) [
        | some c ↦ (write_revision i c, update_first (same_content a hash) (write_revision i) rs)
        | none ↦ (new_revision now fresh i a r rs, rs ++ new_revision now fresh i a r rs ∷ [])
      ]

  abbrev pub revoke_credential : RuntimeCredential → RuntimeCredential
  revoke_credential k = record k { status = "revoked" }

  abbrev pub is_active_credential : String → RuntimeCredential → Bool
  is_active_credential runtime k = k.runtime_id === runtime && k.status === "active"

  abbrev pub new_credential :
      ℕ → String → ProvisioningInput → Agent → AgentRuntime → RuntimeCredential
  new_credential now fresh i a r = record {
    id = or_else i.agent_credential_id fresh;
    organization_id = a.organization_id;
    user_id = a.owner_user_id;
    agent_id = a.id;
    runtime_id = r.id;
    key_hash = i.agent_credential_hash;
    key_hint = i.agent_credential_hint;
    status = "active";
    created_by = i.requested_by;
    created_at = now;
  }

  abbrev pub write_enrolling : Agent → Server → Deployment → Deployment
  write_enrolling a v d = record d {
    server_id = some v.id;
    name = some a.name;
    status = "enrolling";
    desired_state_version = d.desired_state_version + 1;
  }

  abbrev pub blank_deployment : ℕ → String → Agent → Deployment
  blank_deployment now fresh a = record {
    id = fresh;
    organization_id = a.organization_id;
    agent_id = a.id;
    server_id = none;
    name = none;
    environment = "production";
    status = "";
    observed_state_version = 0;
    desired_state_version = 0;
    created_at = now;
  }

  -- The Agent's deployment, enrolled on the server, and the list with it.
  unfoldable pub provision_deployment :
      ℕ → String → Agent → Server → List Deployment → Deployment × List Deployment
  provision_deployment now fresh a v ds = elim (find? (λ d. d.agent_id === a.id) ds) [
    | some d ↦
        (write_enrolling a v d, update_first (λ d. d.agent_id === a.id) (write_enrolling a v) ds)
    | none ↦ (
      write_enrolling a v (blank_deployment now fresh a),
      ds ++ write_enrolling a v (blank_deployment now fresh a) ∷ [],
    )
  ]

  abbrev pub provision_command :
      ℕ → String → Agent → AgentRuntime → Deployment → ConfigRevision → Command
  provision_command now fresh a r d c = record {
    id = fresh;
    organization_id = none;
    deployment_id = d.id;
    agent_id = a.id;
    idempotency_key = none;
    action = "deployment.provision";
    instance_id = a.id;
    arguments = record no_arguments {
      agent_id = some a.id;
      workspace_ref = some r.workspace_ref;
      config_revision_id = some c.id;
    };
    approval_id = none;
    expected_observation_version = 0;
    state = queued;
    priority = 100;
    attempt = 0;
    requested_by = none;
    lease_server_id = none;
    lease_expires_at = none;
    expires_at = now + 15 * 60000;
    created_at = now;
  }

  abbrev pub write_provisioning_runtime :
      ℕ → Deployment → ConfigRevision → AgentRuntime → AgentRuntime
  write_provisioning_runtime now d c r = record r {
    deployment_id = some d.id;
    config_revision_id = some c.id;
    status = "provisioning";
    updated_at = now;
  }

  abbrev pub write_provisioning_agent : ℕ → Agent → Agent
  write_provisioning_agent now a = record a {
    initialization_status = "provisioning";
    desired_runtime_state = "running";
    status = "provisioning";
    updated_at = now;
  }

  unfoldable pub provision :
      ℕ
      → (ℕ → String)
      → ProvisioningInput
      → Agent
      → AgentRuntime
      → Server
      → Store
      → Store × ProvisioningAnswer
  unfolding provision_revision provision_deployment
  provision now fresh i a r v s =
      let (config, revisions) = provision_revision now (fresh 0) i a r s.world.revisions in
      let (d, deployments) = provision_deployment now (fresh 2) a v s.world.deployments in
      let c = provision_command now (fresh 3) a r d config in
      (
        record s {
          commands = s.commands ++ c ∷ [];
          world = record (s.world) {
            agents = update_key i.agent_id (write_provisioning_agent now) s.world.agents;
            runtimes =
                update_value (λ x. x.agent_id === i.agent_id)
                  (write_provisioning_runtime now d config) s.world.runtimes;
            deployments = deployments;
            revisions = revisions;
            credentials =
                update_where (is_active_credential r.id) revoke_credential s.world.credentials
                ++ new_credential now (fresh 1) i a r ∷ [];
          };
        },
        provisioning (write_provisioning_agent now a) (write_provisioning_runtime now d config r)
            (some d) (some c),
      )

  unfoldable pub request_agent_provisioning :
      ℕ → (ℕ → String) → ProvisioningInput → Store → Store × ProvisioningAnswer
  unfolding provision
  request_agent_provisioning now fresh i s = elim (lookup i.agent_id s.world.agents) [
    | none ↦ (s, nothing_to_provision)
    | some a ↦ elim (runtime_of i.agent_id s.world) [
      | none ↦ (s, nothing_to_provision)
      | some r ↦ elim (is_provisioned a) [
        | true ↦ (
          s,
          provisioning a r (find? (λ d. d.agent_id === a.id) s.world.deployments)
              (find_last? (λ c. c.agent_id === a.id) s.commands),
        )
        | false ↦ elim (find? (is_usable a) s.world.servers) [
          | none ↦ (s, no_capacity)
          | some v ↦ provision now fresh i a r v s
        ]
      ]
    ]
  ]
