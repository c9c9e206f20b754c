-- ===== src/Control/OwnerConfiguration.antt =====
-- requestAgentOwnerConfiguration of packages/db/memory-repository.mjs, and its two callers.
pub mod Latest
use Prim.Native.String
use bai_rui_cloud_agent_plat.Prelude.{
  Bool, List, Option, String, [], false, filter, find?, is_text, lookup, map, none, not, some, true,
  update_first, update_where, ℕ, ◌&&◌, ◌*◌, ◌++◌, ◌+◌, ◌===◌, ◌∷◌,
}
use bai_rui_cloud_agent_plat.Control.Store.{
  cancelled, queued, ConfigRevision, Command, ConfigDocument, is_queued, Store, SkillPreference,
  World, runtime_of,
}
use bai_rui_cloud_agent_plat.Control.Effects.{scope_of}
use bai_rui_cloud_agent_plat.Fleet.Store.{Agent, Deployment}
use bai_rui_cloud_agent_plat.Control.Provisioning.{sort_texts, next_revision}
use bai_rui_cloud_agent_plat.Control.Lifecycle.{no_arguments}

pub data Scope : Type 0 where
  skills identity : Scope

abbrev pub scope_name : Scope → String
scope_name skills = "skills"
scope_name identity = "identity"

pub record OwnerInput : Type 0 where
  pub organization_id : String
  pub user_id : String
  pub agent_id : String
  pub requested_by : String

-- `null`; no deployment yet; the exception; or the revision and its command.
pub data OwnerAnswer : Type 0 where
  not_owner : OwnerAnswer
  not_deployed : OwnerAnswer
  configuration_unavailable : OwnerAnswer
  queued_change : ConfigRevision → Command → OwnerAnswer

-- A waiting command of the Agent whose configuration is an owner's change of this scope.
abbrev pub revision_of : Command → List ConfigRevision → Option ConfigRevision
revision_of c rs = find? (λ r. is_text c.arguments.config_revision_id r.id) rs

abbrev pub has_scope : Scope → Option ConfigRevision → Bool
has_scope k none = false
has_scope k (some r) = is_text (scope_of r) (scope_name k)

abbrev pub is_waiting_change : List ConfigRevision → String → Scope → Command → Bool
is_waiting_change rs agent k c =
    c.agent_id === agent
    && c.action === "config.apply-user"
    && is_queued c.state
    && has_scope k (revision_of c rs)

abbrev pub cancel : Command → Command
cancel c = record c { state = cancelled }

abbrev pub supersede : ConfigRevision → ConfigRevision
supersede r = record r { status = "superseded" }

-- The revisions of the commands that the change cancels.
unfoldable pub supersede_each : List Command → List ConfigRevision → List ConfigRevision
supersede_each [] rs = rs
supersede_each (c ∷ cs) rs =
    supersede_each cs (update_first (λ r. is_text c.arguments.config_revision_id r.id) supersede rs)

-- The waiting changes of the scope are cancelled, and the new one is queued.
unfoldable pub replace_change : ConfigRevision → Command → Agent → Scope → Store → Store
unfolding supersede_each
replace_change r c a k s =
    let revisions = s.world.revisions ++ r ∷ [] in
    let waiting = is_waiting_change revisions a.id k in
    record s {
      commands = update_where waiting cancel s.commands ++ c ∷ [];
      world = record (s.world) { revisions = supersede_each (filter waiting s.commands) revisions };
    }

module _ (le : String → String → Bool) (digest : ConfigDocument → String) where
  abbrev pub owner_document :
      Agent → ConfigRevision → Scope → ℕ → List SkillPreference → ConfigDocument
  owner_document a current k revision ps = record (current.config_document) {
    agent_id = a.id;
    agent_name = a.name;
    soul_markdown = a.soul_markdown;
    owner_change = some (record { scope = scope_name k; generation = revision });
    disabled =
        sort_texts le
          (map (λ p. p.skill_id) (filter (λ p. p.agent_id === a.id && not p.enabled) ps));
  }

  abbrev pub owner_revision :
      ℕ → String → OwnerInput → Agent → ConfigRevision → Scope → World → ConfigRevision
  owner_revision now fresh i a current k w =
      let revision = next_revision a.organization_id w.revisions in
      record {
        id = fresh;
        organization_id = a.organization_id;
        agent_id = a.id;
        revision = revision;
        config_document = owner_document a current k revision w.preferences;
        secret_envelope = current.secret_envelope;
        content_hash = digest (owner_document a current k revision w.preferences);
        status = "approved";
        created_by = i.requested_by;
        created_at = now;
      }

  abbrev pub owner_command : ℕ → String → OwnerInput → Agent → Deployment → ConfigRevision → Command
  owner_command now fresh i a d r = record {
    id = fresh;
    organization_id = some a.organization_id;
    deployment_id = d.id;
    agent_id = a.id;
    idempotency_key = some (String.◌++◌ d.id (String.◌++◌ "/config.apply-user/" r.id));
    action = "config.apply-user";
    instance_id = a.id;
    arguments = record no_arguments { config_revision_id = some r.id };
    approval_id = none;
    expected_observation_version = d.observed_state_version;
    state = queued;
    priority = 200;
    attempt = 0;
    requested_by = some i.requested_by;
    lease_server_id = none;
    lease_expires_at = none;
    expires_at = now + 30 * 60000;
    created_at = now;
  }

  -- The deployment and the configuration that are in use.
  unfoldable pub change_configuration :
      ℕ → (ℕ → String) → OwnerInput → Scope → Agent → String → String → Store → Store × OwnerAnswer
  unfolding replace_change
  change_configuration now fresh i k a deployment config s =
      elim (find? (λ r. r.id === config && r.agent_id === a.id) s.world.revisions) [
        | none ↦ (s, configuration_unavailable)
        | some current ↦
            elim (find? (λ d. d.id === deployment && not (d.status === "revoked"))
              s.world.deployments) [
                | none ↦ (s, configuration_unavailable)
                | some d ↦
                    let r = owner_revision now (fresh 0) i a current k s.world in
                    let c = owner_command now (fresh 1) i a d r in
                    (replace_change r c a k s, queued_change r c)
              ]
      ]

  unfoldable pub request_agent_owner_configuration :
      ℕ → (ℕ → String) → OwnerInput → Scope → Store → Store × OwnerAnswer
  unfolding change_configuration
  request_agent_owner_configuration now fresh i k s = elim (lookup i.agent_id s.world.agents) [
    | none ↦ (s, not_owner)
    | some a ↦ elim (runtime_of i.agent_id s.world) [
      | none ↦ (s, not_owner)
      | some r ↦ elim (a.organization_id === i.organization_id && a.owner_user_id === i.user_id) [
        | false ↦ (s, not_owner)
        | true ↦ elim r.deployment_id [
          | none ↦ (s, not_deployed)
          | some d ↦ elim r.config_revision_id [
            | none ↦ (s, not_deployed)
            | some c ↦ change_configuration now fresh i k a d c s
          ]
        ]
      ]
    ]
  ]

  abbrev pub request_agent_skill_configuration :
      ℕ → (ℕ → String) → OwnerInput → Store → Store × OwnerAnswer
  request_agent_skill_configuration now fresh i s =
      request_agent_owner_configuration now fresh i skills s

  abbrev pub request_agent_identity_configuration :
      ℕ → (ℕ → String) → OwnerInput → Store → Store × OwnerAnswer
  request_agent_identity_configuration now fresh i s =
      request_agent_owner_configuration now fresh i identity s
