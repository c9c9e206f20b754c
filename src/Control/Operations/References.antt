-- ===== src/Control/Operations/References.antt =====
-- The input of an operation, and the references of it that are refused (packages/db/memory-repository.mjs).

use bai_rui_cloud_agent_plat.Prelude.{
  Bool, Option, String, [], any, if◌then◌else◌, is_some, is_text, none, not, some, ℕ, ◌&&◌, ◌===◌,
  ◌∷◌,
}
use bai_rui_cloud_agent_plat.Control.Store.{Arguments, is_one_of, World}
use bai_rui_cloud_agent_plat.Fleet.Store.{Deployment}

pub record OperationInput : Type 0 where
  pub organization_id : String
  pub agent_id : String
  pub action : String
  pub arguments : Arguments
  pub idempotency_key : Option String
  pub expires_in_ms : Option ℕ
  pub approval_required : Bool
  pub approval_id : Option String
  pub command_id : Option String
  pub priority : Option ℕ
  pub risk_level : Option String
  pub reason : Option String
  pub requested_by : String

-- The Agent's latest deployment that is not revoked.
abbrev pub is_deployment_of : OperationInput → Deployment → Bool
is_deployment_of i d =
    d.agent_id === i.agent_id
    && d.organization_id === i.organization_id
    && not (d.status === "revoked")

-- The message of an exception, by what it is about.
pub data Refusal : Type 0 where
  deployment_unavailable : Refusal
  foreign_configuration : Refusal
  foreign_backup : Refusal
  unverified_backup : Refusal
  release_unavailable : Refusal
  rollback_unavailable : Refusal
  candidate_unavailable : Refusal
  credential_unavailable : Refusal

abbrev pub is_available : String → Bool
is_available status = is_one_of ("candidate" ∷ "approved" ∷ "released" ∷ []) status

abbrev pub has_manifest : Option String → World → Bool
has_manifest id w = any (λ m. is_text id m.id) w.manifests

-- The reference that does not hold, in the order of the tests.
unfoldable pub broken_reference : OperationInput → String → World → Option Refusal
broken_reference i deployment w =
    if is_one_of ("config.stage" ∷ "config.apply" ∷ "config.apply-user" ∷ []) i.action
      && not (
          any
            (λ r.
              is_text i.arguments.config_revision_id r.id
              && r.organization_id === i.organization_id
              && r.agent_id === i.agent_id)
            w.revisions)
    then some foreign_configuration
    else if i.action === "backup.verify"
        && not (
            any (λ b. is_text i.arguments.backup_id b.id && b.deployment_id === deployment)
              w.backups)
    then some foreign_backup
    else if i.action === "backup.restore"
        && not (
            any
              (λ b.
                is_text i.arguments.backup_id b.id
                && b.deployment_id === deployment
                && b.status === "verified")
              w.backups)
    then some unverified_backup
    else if is_one_of ("release.stage" ∷ "release.apply" ∷ []) i.action
        && not (any (λ m. is_text i.arguments.release_id m.id && is_available m.status) w.manifests)
    then some release_unavailable
    else if i.action === "release.rollback"
        && not (
            has_manifest i.arguments.release_id w && has_manifest i.arguments.rollback_release_id w)
    then some rollback_unavailable
    else if i.action === "upstream.check"
        && is_some i.arguments.candidate_id
        && not (
            any
              (λ x.
                is_text i.arguments.candidate_id x.id
                && is_text i.arguments.upstream_id x.upstream_id)
              w.candidates)
    then some candidate_unavailable
    else if i.action === "credential.revoke"
        && not (
            any
              (λ k.
                is_text i.arguments.identity_id k.id
                && k.agent_id === i.agent_id
                && k.status === "active")
              w.credentials)
    then some credential_unavailable
    else none
