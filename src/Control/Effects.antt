-- ===== src/Control/Effects.antt =====
-- The blocks of recordCommandReceipt (packages/db/memory-repository.mjs) on configurations,
-- providers, test runs, backups, restores, releases and candidates.
pub mod Maintenance
use Prim.Native.String
use bai_rui_cloud_agent_plat.Prelude.{
  Bool, List, Option, String, [], is_text, none, or_else, true, update_where, ℕ, ◌&&◌, ◌===◌, ◌||◌,
  ◌∷◌, some, if◌then◌else◌, update_first,
}
use bai_rui_cloud_agent_plat.Control.Receipts.{
  thrown, write_config, Outcome, matches_config, deployment_of, apply_preference, config_of, done,
  write_runtime_of, and_then,
}
use bai_rui_cloud_agent_plat.Control.Store.{
  is_one_of, ConfigRevision, CommandState, Command, ReceiptInput, ProviderChoice,
  ProviderConfiguration, ProviderChannel, ReleaseManifest, World, is_failed, is_succeeded,
  is_running, Candidate, runtime_of,
}
use bai_rui_cloud_agent_plat.Fleet.Store.{AgentRuntime}

abbrev pub is_apply : String → Bool
is_apply action = is_one_of ("config.apply" ∷ "config.apply-user" ∷ []) action

abbrev pub scope_of : ConfigRevision → Option String
scope_of r = elim r.config_document.owner_change [ none ↦ none | some o ↦ some o.scope ]

-- The status that a receipt gives to the configuration it is about, if any.
unfoldable pub config_status : CommandState → String → Option String
config_status state action =
    if is_failed state
    then some "failed"
    else if is_succeeded state
    then (if action === "config.stage" then some "staged" else some "applied")
    else if is_running state && is_apply action
    then some "applying"
    else none

abbrev pub write_config_status : Command → Option String → World → World
write_config_status c none s = s
write_config_status c (some status) s = write_config c status s

-- `runtime.configRevisionId = config.id`
unfoldable pub adopt_config : Command → ConfigRevision → World → Outcome
adopt_config c r s = elim (deployment_of c s) [
  | none ↦ thrown s
  | some d ↦ elim (runtime_of d.agent_id s) [
    | none ↦ thrown s
    | some _ ↦ done (
        write_runtime_of d.agent_id
          (λ (x : AgentRuntime). record x { config_revision_id = some r.id }) s)
  ]
]

-- What the owner's change of skills has come to.
abbrev pub settle_preferences : ℕ → ReceiptInput → ConfigRevision → World → World
settle_preferences now i r s = record s {
  preferences =
      update_where (matches_config r.agent_id r.config_document.disabled)
        (apply_preference now (if is_succeeded i.state then "applied" else "failed")
          (if is_failed i.state then some (or_else i.error_code "config_apply_failed") else none))
        s.preferences;
}

unfoldable pub adopt_if : ReceiptInput → Command → ConfigRevision → World → Outcome
unfolding adopt_config
adopt_if i c r s = if is_succeeded i.state && is_apply c.action then adopt_config c r s else done s

unfoldable pub settle_if : ℕ → ReceiptInput → Command → ConfigRevision → World → World
settle_if now i c r s =
    if c.action === "config.apply-user"
      && is_text (scope_of r) "skills"
      && (is_succeeded i.state || is_failed i.state)
    then settle_preferences now i r s
    else s

-- What a receipt about a configuration writes.
unfoldable pub config_change : ℕ → ReceiptInput → Command → Option ConfigRevision → World → Outcome
unfolding config_status adopt_if settle_if
config_change now i c none s = done s
config_change now i c (some r) s =
    and_then (adopt_if i c r (write_config_status c (config_status i.state c.action) s))
      (λ t. done (settle_if now i c r t))

unfoldable pub config_effects : ℕ → ReceiptInput → Command → World → Outcome
unfolding config_change
config_effects now i c s =
    if is_one_of ("config.stage" ∷ "config.apply" ∷ "config.apply-user" ∷ []) c.action
    then config_change now i c (config_of c s) s
    else done s

abbrev pub same_choice : ProviderChoice → ProviderChoice → Bool
same_choice a b = a.provider === b.provider && a.base_url === b.base_url && a.model === b.model

abbrev pub write_legacy : String → (ProviderConfiguration → Bool) → String → World → World
write_legacy organization test status s = record s {
  provider_configurations =
      update_first (λ (r : String × ProviderConfiguration). r.0 === organization)
        (λ (r : String × ProviderConfiguration).
          (r.0, if test r.1 then record (r.1) { apply_status = status } else r.1))
        s.provider_configurations;
}

abbrev pub apply_channel : ℕ → ProviderChannel → ProviderChannel
apply_channel now h = record h { status = "applied"; last_error_code = none; updated_at = now }

unfoldable pub provider_applied : ℕ → Option ConfigRevision → World → World
provider_applied now none s = s
provider_applied now (some r) s =
    let choice = r.config_document.provider in
    let legacy = write_legacy r.organization_id (λ p. same_choice p.choice choice) "applied" s in
    record legacy {
      provider_channels =
          update_where (λ h. h.organization_id === r.organization_id && same_choice h.choice choice)
            (apply_channel now) s.provider_channels;
    }

unfoldable pub provider_failed : Option ConfigRevision → World → World
provider_failed none s = s
provider_failed (some r) s = write_legacy r.organization_id (λ p. true) "failed" s

unfoldable pub provider_effects : ℕ → ReceiptInput → Command → World → World
unfolding provider_applied provider_failed
provider_effects now i c s =
    if is_succeeded i.state && is_one_of ("deployment.provision" ∷ "config.apply" ∷ []) c.action
    then provider_applied now (config_of c s) s
    else if is_failed i.state && c.action === "config.apply"
    then provider_failed (config_of c s) s
    else s

unfoldable pub release_status : CommandState → String → Option String
release_status state action =
    if is_failed state
    then some "blocked"
    else if action === "release.stage" && is_succeeded state
    then some "approved"
    else if action === "release.apply" && is_running state
    then some "rolling_out"
    else if action === "release.apply" && is_succeeded state
    then some "released"
    else if action === "release.rollback" && is_succeeded state
    then some "withdrawn"
    else none

abbrev pub write_manifest :
    Option String → Option String → List ReleaseManifest → List ReleaseManifest
write_manifest id none ms = ms
write_manifest id (some status) ms =
    update_first (λ m. is_text id m.id) (λ (m : ReleaseManifest). record m { status = status }) ms

unfoldable pub release_effects : ReceiptInput → Command → World → World
unfolding release_status
release_effects i c s =
    if is_one_of ("release.stage" ∷ "release.apply" ∷ "release.rollback" ∷ []) c.action
    then (let rolled =
          if c.action === "release.rollback" && is_succeeded i.state
          then some "released"
          else none in
        let status = release_status i.state c.action in
        record s {
          manifests =
              write_manifest c.arguments.rollback_release_id rolled
                (write_manifest c.arguments.release_id status s.manifests);
        })
    else s

unfoldable pub candidate_effects : ReceiptInput → Command → World → World
candidate_effects i c s =
    if c.action === "upstream.check" && (is_succeeded i.state || is_failed i.state)
    then record s {
      candidates =
          update_first (λ x. is_text c.arguments.candidate_id x.id)
            (λ (x : Candidate). record x {
              status = if is_succeeded i.state then "compatible" else "incompatible";
            })
            s.candidates;
    }
    else s
