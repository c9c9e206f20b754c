-- ===== src/Control/Leasing.antt =====
-- leaseControlCommands of packages/db/memory-repository.mjs.
pub mod Eligible
pub mod Rounds
use Prim.Native.String
use bai_rui_cloud_agent_plat.Prelude.{
  String, List, ℕ, Option, Bool, ◌∷◌, if◌then◌else◌, or_else, some, find_last?, ltb, false, ◌===◌,
  ◌+◌, find?, is_text, ◌||◌, leb, ◌&&◌, update_first, ◌*◌, ◌==◌, [], none, suc, true, ◌++◌,
}
use bai_rui_cloud_agent_plat.Control.Store.{
  Command, ConfigDocument, Store, Restore, Backup, Approval, leased, Compatibility, Arguments,
  ReleaseManifest, ConfigRevision, is_held, is_queued, expired, queued, is_approved_decision,
  runtime_of, World,
}
use bai_rui_cloud_agent_plat.Fleet.Store.{Deployment, AgentRuntime}
use bai_rui_cloud_agent_plat.Json.{Value}

pub record LeaseInput : Type 0 where
  pub server_id : String
  pub limit : Option ℕ
  pub lease_seconds : Option ℕ

-- `new Map(deployments of the server).get(id)`: of two with one identifier, the later.
abbrev pub deployment_for : String → String → List Deployment → Option Deployment
deployment_for server id ds = find_last? (λ d. is_text d.server_id server && d.id === id) ds

-- `left.priority - right.priority || left.createdAt.localeCompare(right.createdAt)`
abbrev pub comes_first : Command → Command → Bool
comes_first c d =
    ltb c.priority d.priority || c.priority == d.priority && leb c.created_at d.created_at

unfoldable pub insert_command : Command → List Command → List Command
insert_command c [] = c ∷ []
insert_command c (d ∷ ds) =
    let rest = insert_command c ds in if comes_first c d then c ∷ d ∷ ds else d ∷ rest

-- The stable sort, in place.
unfoldable pub sort_commands : List Command → List Command
unfolding insert_command
sort_commands [] = []
sort_commands (c ∷ cs) = insert_command c (sort_commands cs)

-- `Date.parse(t) <= now`, which fails where `t` is missing.
abbrev pub is_past : ℕ → Option ℕ → Bool
is_past now none = false
is_past now (some t) = leb t now

-- A command whose lease is over is queued again.
abbrev pub end_lease : ℕ → Command → Command
end_lease now c =
    if is_held c.state && is_past now c.lease_expires_at then record c { state = queued } else c

abbrev pub is_expired : ℕ → Command → Bool
is_expired now c = is_queued c.state && leb c.expires_at now

abbrev pub expire : ℕ → Command → Command
expire now c = if is_expired now c then record c { state = expired } else c

abbrev pub expire_restore : ℕ → Restore → Restore
expire_restore now r = record r {
  status = "cancelled";
  error_code = some "command_expired";
  error_summary = some "Backup restore command expired";
  completed_at = some now;
}

abbrev pub set_backup_status : String → Backup → Backup
set_backup_status status b = record b { status = status }

-- What else a command writes that expires.
unfoldable pub expire_effects : ℕ → Command → World → World
expire_effects now c s = record s {
  restores =
      if is_expired now c && c.action === "backup.restore"
      then update_first (λ r. r.command_id === c.id && r.status === "requested")
          (expire_restore now) s.restores
      else s.restores;
  backups =
      if is_expired now c && c.action === "backup.expire"
      then update_first (λ b. is_text c.arguments.backup_id b.id && b.status === "expiring")
          (set_backup_status "failed") s.backups
      else s.backups;
}

-- The approval that a command names lets it run.
unfoldable pub permits : ℕ → List Approval → String → Option String → Bool
permits now approvals command none = true
permits now approvals command (some a) =
    elim (find? (λ p. p.id === a && p.command_id === command) approvals) [
      | none ↦ false
      | some p ↦ is_approved_decision p.decision && ltb now p.expires_at
    ]

abbrev pub is_approved : ℕ → List Approval → Command → Bool
is_approved now approvals c = permits now approvals c.id c.approval_id

abbrev pub take_lease : ℕ → LeaseInput → Command → Command
take_lease now i c = record c {
  state = leased;
  lease_server_id = some i.server_id;
  lease_expires_at = some (now + or_else i.lease_seconds 60 * 1000);
  attempt = c.attempt + 1;
}

pub record Release : Type 0 where
  pub id : String
  pub version : String
  pub images : Compatibility

pub record LeasedConfig : Type 0 where
  pub document : ConfigDocument
  pub secret_envelope : Option Value

pub record LeasedCommand : Type 0 where
  pub command_id : String
  pub idempotency_key : String
  pub deployment_id : String
  pub action : String
  pub instance_id : String
  pub arguments : Arguments
  pub approval_id : Option String
  pub expected_observation_version : ℕ
  pub created_at : ℕ
  pub expires_at : ℕ
  pub attempt : ℕ
  pub lease_expires_at : Option ℕ
  pub server_id : Option String
  pub agent_id : String
  pub runtime_id : String
  pub organization_id : String
  pub user_id : String
  pub workspace_ref : String
  pub config : Option LeasedConfig
  pub release : Option Release
  pub rollback_release : Option Release

abbrev pub release_for : Option String → List ReleaseManifest → Option Release
release_for id ms = elim (find? (λ m. is_text id m.id) ms) [
  | none ↦ none
  | some m ↦ some (record { id = m.id; version = m.version; images = m.compatibility })
]

-- A change by the owner is sent without the secrets.
abbrev pub config_for : Command → List ConfigRevision → Option LeasedConfig
config_for c rs = elim (find? (λ r. is_text c.arguments.config_revision_id r.id) rs) [
  | none ↦ none
  | some r ↦ some (record {
    document = r.config_document;
    secret_envelope = if c.action === "config.apply-user" then none else some r.secret_envelope;
  })
]

-- `idempotencyKey ?? "deployment/action/configuration or command"`
abbrev pub key_of : Command → String
key_of c = or_else c.idempotency_key (
    String.◌++◌ c.deployment_id (
      String.◌++◌ "/"
        (String.◌++◌ c.action (String.◌++◌ "/" (or_else c.arguments.config_revision_id c.id)))))

unfoldable pub leased_command : World → Deployment → AgentRuntime → Command → LeasedCommand
leased_command s d r c = record {
  command_id = c.id;
  idempotency_key = key_of c;
  deployment_id = c.deployment_id;
  action = c.action;
  instance_id = c.instance_id;
  arguments = c.arguments;
  approval_id = c.approval_id;
  expected_observation_version = c.expected_observation_version;
  created_at = c.created_at;
  expires_at = c.expires_at;
  attempt = c.attempt;
  lease_expires_at = c.lease_expires_at;
  server_id = d.server_id;
  agent_id = d.agent_id;
  runtime_id = r.id;
  organization_id = d.organization_id;
  user_id = r.owner_user_id;
  workspace_ref = r.workspace_ref;
  config = config_for c s.revisions;
  release = release_for c.arguments.release_id s.manifests;
  rollback_release = release_for c.arguments.rollback_release_id s.manifests;
}

-- The commands after the rounds, what the other writes leave and what the rounds lease, or
-- `none` where a round throws because the Agent has no Runtime.
pub record LeaseRun : Type 0 where
  pub commands : List Command
  pub rest : World
  pub leased : Option (List LeasedCommand)

abbrev pub then_command : Command → LeaseRun → LeaseRun
then_command c run = record run { commands = c ∷ run.commands }

abbrev pub then_lease : Command → LeasedCommand → LeaseRun → LeaseRun
then_lease c l run = record {
  commands = c ∷ run.commands;
  rest = run.rest;
  leased = elim run.leased [ none ↦ none | some ls ↦ some (l ∷ ls) ];
}

-- The loop over the sorted commands; `n` is `leased.length`.
unfoldable pub lease_each : ℕ → LeaseInput → List Approval → ℕ → List Command → World → LeaseRun
unfolding expire_effects permits leased_command
lease_each now i ps n [] s = record { commands = []; rest = s; leased = some [] }
lease_each now i ps n (c ∷ cs) s = elim (deployment_for i.server_id c.deployment_id s.deployments) [
  | none ↦ then_command c (lease_each now i ps n cs s)
  | some d ↦ elim (leb (or_else i.limit 10) n) [
    | true ↦ then_command c (lease_each now i ps n cs s)
    | false ↦
        let e = expire now (end_lease now c) in
        let t = expire_effects now (end_lease now c) s in
        elim (is_queued e.state && is_approved now ps e) [
          | false ↦ then_command e (lease_each now i ps n cs t)
          | true ↦ elim (runtime_of d.agent_id s) [
            | none ↦ record { commands = take_lease now i e ∷ cs; rest = t; leased = none }
            | some r ↦
                then_lease (take_lease now i e) (leased_command s d r (take_lease now i e))
                  (lease_each now i ps (suc n) cs t)
          ]
        ]
  ]
]

unfoldable pub lease_control_commands : ℕ → LeaseInput → Store → Store × Option (List LeasedCommand)
unfolding lease_each sort_commands
lease_control_commands now i s =
    let run = lease_each now i s.approvals 0 (sort_commands s.commands) s.world in
    (record s { commands = run.commands; world = run.rest }, run.leased)
