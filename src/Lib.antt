-- ===== src/Lib.antt =====
-- A model of the cloud agent platform and what it can be relied on for.
--
-- The platform keeps tenants' Agents. Messages from chat channels (QQ, Feishu and others) come in
-- through channel workers, wait in an inbox, are leased by an ingress worker that runs them through
-- the Agent's Runtime, and the replies wait in an outbox that the channel workers lease and settle
-- with receipts. Notes that change queue a job that projects them into the Runtime's memory. A
-- control plane accepts a closed set of actions with checked arguments, and stores only metadata
-- that was checked or redacted.
--
-- Files:
--   Prelude, Prelude/*      shared helpers on lists, options, tests and native numbers
--   Json, Patterns, Regex   JavaScript values, texts as lists of UTF-16 code units, patterns
--   Channel/Store           the channel collections of MemoryPlatformRepository
--                           (packages/db/memory-repository.mjs) and their records
--   Channel/Ingress         acceptChannelIngress, ensureChannelConversation
--   Channel/Jobs            leaseChannelIngress, completeChannelIngress, failChannelIngress
--   Channel/Delivery        leaseChannelDeliveries, recordChannelDeliveryReceipt
--   Channel/Bindings        upsertAgentChannelBinding, deleteAgentChannelBinding,
--                           saveChannelHealthReport and the lookups
--   Channel/Calls           one call of any of these, and sequences of calls
--   Channel/Validity/*, Channel/History/*, Channel/Leases, Channel/Idempotence
--                           what the store keeps, how it changes over time, leases, repeated calls
--   Projection              the projection queue of the same file: #enqueueMemoryProjection,
--                           completeMemoryProjectionJob, retryMemoryProjectionJob
--   Projection/Lease        leaseMemoryProjectionJobs
--   Projection/Exclusive/*, Projection/Calls   how an Agent's jobs exclude each other
--   Policy                  the patterns and constants of packages/control-authority/policy.mjs
--   Policy/Payload          assertSafeControlPayload, assertOperationalMetadata
--   Policy/Redaction        redactControlMetadata
--   Policy/Actions          CONTROL_ACTION_ARGUMENTS and validateAction
--   Auth/Authorization      packages/auth/authorization.mjs: roles, permissions and `can`
--   Auth/Scope              what `can` admits
--   Auth/Session            createSessionToken and verifySessionToken of packages/auth/session.mjs
--   Auth/Session/Tokens     a token that is made, given what base64url promises
--   Auth/Session/Genuine    which tokens are accepted
--   Notes                   targetFor, compactEntry and buildHermesMemoryProjection of
--                           packages/memory/obsidian-note.mjs; Notes/Budget and Notes/Sharing on
--                           the limits and on every note's fate
--   ChannelWorker           startAdapter, refreshInventory and stop of packages/channels/worker.mjs;
--                           ChannelWorker/Dropping, Starting, Rounds and Refresh on its loops;
--                           ChannelWorker/Delivering on deliver, and ChannelWorker/Routes on its
--                           receipts' way into the store (apps/web/routes/internal-channels.mjs);
--                           ChannelWorker/Released on both
--   Policy/Actions/Accepted, Policy/Redaction/Laws   what passes, and what redaction gives
--   Fleet/Store             Agents, Runtimes, alerts and telemetry of the same repository
--   Fleet/Alerts            updateAlertStatus, #evaluateResourceAlerts, evaluateOfflineAlerts
--   Fleet/Heartbeats, Fleet/Samples   saveAgentHeartbeat, saveAgentResourceSamples
--   Fleet/Requests          these calls as requests, and sequences of them
--   Fleet/Alerts/Once, Fleet/Requests/Single, Fleet/Heartbeats/Health   the alerts over time
--   Control/Store           the collections of the control plane of the same repository
--   Control/Provisioning, Control/OwnerConfiguration, Control/Lifecycle, Control/Operations
--                           requestAgentProvisioning, requestAgentOwnerConfiguration,
--                           requestAgentLifecycle, requestControlOperation
--   Control/Approvals       decideControlApproval
--   Control/Leasing         leaseControlCommands
--   Control/Receipts, Control/Effects (Maintenance), Control/Recording   recordCommandReceipt
--   Control/*/*             each call's theorems, named for what they are about
--   Scenes                  ensureAgentScene, applyAgentSceneIntent and the lists of events; Scenes/Replay
--                           and Scenes/Steps on what a reader of the events rebuilds
--   Accounts (Agents, Calls, Unique)   organizations, users, Agents and Runtimes of the same repository
--   Credentials, Credentials/Active   createServerCredential, createChannelWorkerCredential,
--                           claimMachineNonce
--   Retention (Data, Backups, Purged, Recent, Spared)   retentionCutoffs, enforceRetentionPolicies
--   Notebook (Data, Queued)   createObsidianNote, updateObsidianNote, deleteObsidianNote,
--                           markObsidianProjection
--   Records, Records/Data, Records/Unique  authorizations, runs, bookmarks and grants of Agents
--   Providers, Providers/Latest  provider channels and model policies
--   SceneDocuments          packages/scene/projection.mjs
--   SceneStream             packages/scene/sse-transport.mjs, over Scenes:
--                           Following and Behind on a reader's pending events, Synced and Rounds on
--                           what a client of the stream holds
--   IngressWorker           packages/channels/ingress-worker.mjs, over Channel: Messages and
--                           Settings on what it reads, Released on the leases that it ends
--   ProjectionWorker        packages/memory/projection-worker.mjs, over Projection and Notebook:
--                           Held and Settled on the jobs that it has run, Counted, Runs and
--                           Attempts on how often it tries one
--   MachineRequests, MachineRequests/Accepted   packages/security/machine-request.mjs, and
--                           authenticateMachine of apps/web/app.mjs, over Credentials
--   */Examples              tests on concrete values
--
-- Conventions. A method of the repository is a function from the store to the store and its result.
-- Its clock reading and each identifier that `randomUUID` draws are arguments, in the order in which
-- the code takes them. Instants are milliseconds on ℕ; ISO strings are read as the instants they
-- print, so two readings of the clock inside one call are one argument. Identifiers, channels and
-- statuses are strings. Counts that a caller may leave out are natural numbers or absent. A payload
-- that the code only stores is a JSON value. Writing to an object that a `find` or `filter` returned
-- is a write to its place in the list. `null` and `undefined` fields are both `none`. The one
-- `await` inside recordChannelDeliveryReceipt is on a method that does not wait, and each method is
-- one step. Regular expressions are modelled by derivatives, and searching for one at every place.
--
-- An exception is an answer. Where a method has written before it throws, the writes stay in the
-- store that it leaves. A sort by `localeCompare` on instants is one on numbers.
--
-- A worker's calls go to the store that it shares with others: what they do in the course of an
-- `await` is a list of calls, which stands for any.
--
-- Bounds. No function needs fuel: every loop is over a list of the store or of its argument, the
-- walks over JSON values are structural. The numbers of the code (limits, spans, depths, lengths)
-- are written as they stand there.
--
-- The clean-up of a note's Markdown before it is measured is an argument of the projection. A JSON
-- number is finite, with a tag for its value, or it is not.
--
-- Not modelled: the PostgreSQL repository, whose logic is SQL text; HTTP handlers but
-- authenticateMachine and the one for receipts; views and the browser's code; calls to vendors'
-- services; cryptography, which is node:crypto's; the host's containers and services.
pub mod Prelude
pub mod Json
pub mod Patterns
pub mod Regex
pub mod Accounts
pub mod Auth
pub mod Channel
pub mod ChannelWorker
pub mod Control
pub mod Credentials
pub mod Fleet
pub mod IngressWorker
pub mod MachineRequests
pub mod Notebook
pub mod Notes
pub mod Policy
pub mod Projection
pub mod ProjectionWorker
pub mod Providers
pub mod Records
pub mod Retention
pub mod SceneDocuments
pub mod SceneStream
pub mod Scenes
