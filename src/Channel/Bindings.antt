-- ===== src/Channel/Bindings.antt =====
-- The bindings: upsertAgentChannelBinding, deleteAgentChannelBinding, saveChannelHealthReport and
-- the lookups of packages/db/memory-repository.mjs.
use bai_rui_cloud_agent_plat.Prelude.{
  ℕ, ◌+◌, String, Option, none, some, List, [], ◌∷◌, ◌++◌, Bool, true, false, ◌&&◌, leb, ◌==◌,
  ◌===◌, if◌then◌else◌, or_else, or_option, is_some, find?, update_first, filter,
}
use bai_rui_cloud_agent_plat.Json.{Value, Fields}
use bai_rui_cloud_agent_plat.Channel.Store.{Binding, Health, Store}

pub record BindingInput : Type 0 where
  pub id : Option String
  pub organization_id : String
  pub user_id : String
  pub agent_id : String
  pub channel : String
  pub display_name : String
  pub status : Option String
  pub credential_envelope : Option Value
  pub credential_hint : Option String
  pub metadata : Option Value
  pub last_error_code : Option String

abbrev pub same_channel : String → String → Binding → Bool
same_channel agent channel b = b.agent_id === agent && b.channel === channel

abbrev pub old_field {ℓ} : {A : Type ℓ} → (Binding → Option A) → Option Binding → Option A
old_field f none = none
old_field f (some b) = f b

abbrev pub old_value {ℓ} : {A : Type ℓ} → (Binding → A) → A → Option Binding → A
old_value f d none = d
old_value f d (some b) = f b

-- The `value` that the call stores over the existing binding, or as a new one.
unfoldable pub binding_value : ℕ → String → BindingInput → Option Binding → Binding
binding_value now fresh i e = record {
  id = old_value (λ b. b.id) (or_else i.id fresh) e;
  organization_id = i.organization_id;
  user_id = i.user_id;
  agent_id = i.agent_id;
  channel = i.channel;
  display_name = i.display_name;
  status = or_else i.status "pending";
  credential_envelope = or_option i.credential_envelope (old_field (λ b. b.credential_envelope) e);
  credential_hint = or_option i.credential_hint (old_field (λ b. b.credential_hint) e);
  metadata = or_else i.metadata (Value.obj Fields.end);
  connection_generation =
      old_value (λ b. b.connection_generation) 0 e
      + (if is_some i.credential_envelope then 1 else 0);
  capabilities = if is_some i.credential_envelope then [] else old_value (λ b. b.capabilities) [] e;
  adapter_version =
      if is_some i.credential_envelope then none else old_field (λ b. b.adapter_version) e;
  last_error_code = i.last_error_code;
  last_seen_at = old_field (λ b. b.last_seen_at) e;
  last_health_at =
      if is_some i.credential_envelope then none else old_field (λ b. b.last_health_at) e;
  last_inbound_at = old_field (λ b. b.last_inbound_at) e;
  last_outbound_at = old_field (λ b. b.last_outbound_at) e;
  created_at = old_value (λ b. b.created_at) now e;
  updated_at = now;
}

unfoldable pub upsert_agent_channel_binding : ℕ → String → BindingInput → Store → Store × Binding
unfolding binding_value
upsert_agent_channel_binding now fresh i s =
    elim (find? (same_channel i.agent_id i.channel) s.bindings) [
      | none ↦ (
        record s { bindings = s.bindings ++ binding_value now fresh i none ∷ [] },
        binding_value now fresh i none,
      )
      | some b ↦ (
        record s {
          bindings =
              update_first (same_channel i.agent_id i.channel)
                (λ old. binding_value now fresh i (some old)) s.bindings;
        },
        binding_value now fresh i (some b),
      )
    ]

abbrev pub owned_channel : String → String → String → String → Binding → Bool
owned_channel org user agent channel b =
    b.organization_id === org && b.user_id === user && b.agent_id === agent && b.channel === channel

unfoldable pub get_agent_channel_binding :
    String → String → String → String → Store → Option Binding
get_agent_channel_binding org user agent channel s =
    find? (owned_channel org user agent channel) s.bindings

unfoldable pub list_agent_channel_bindings : String → String → String → Store → List Binding
list_agent_channel_bindings org user agent s =
    filter (λ b. b.organization_id === org && b.user_id === user && b.agent_id === agent) s.bindings

unfoldable pub get_channel_binding_by_id : String → Store → Option Binding
get_channel_binding_by_id id s = find? (λ b. b.id === id) s.bindings

-- `findIndex` and `splice(index, 1)`
unfoldable pub remove_first : (Binding → Bool) → List Binding → List Binding
remove_first p [] = []
remove_first p (b ∷ bs) = let rest = remove_first p bs in if p b then bs else b ∷ rest

unfoldable pub delete_agent_channel_binding :
    String → String → String → String → Store → Store × Bool
unfolding remove_first
delete_agent_channel_binding org user agent channel s =
    elim (find? (owned_channel org user agent channel) s.bindings) [
      | none ↦ (s, false)
      | some _ ↦ (
        record s { bindings = remove_first (owned_channel org user agent channel) s.bindings },
        true,
      )
    ]

pub record HealthInput : Type 0 where
  pub id : Option String
  pub binding_id : String
  pub agent_id : String
  pub channel : String
  pub worker_id : String
  pub sequence : ℕ
  pub status : String
  pub capabilities : Option (List String)
  pub adapter_version : Option String
  pub latency_ms : Option ℕ
  pub last_inbound_at : Option ℕ
  pub last_outbound_at : Option ℕ
  pub error_code : Option String
  pub observed_at : ℕ

abbrev pub is_health_target : HealthInput → Binding → Bool
is_health_target h b = b.id === h.binding_id && b.agent_id === h.agent_id && b.channel === h.channel

abbrev pub same_report : String → HealthInput → Health → Bool
same_report binding h o =
    o.binding_id === binding && o.worker_id === h.worker_id && o.sequence == h.sequence

unfoldable pub new_health : ℕ → String → HealthInput → Binding → Health
new_health now fresh h b = record {
  id = or_else h.id fresh;
  organization_id = b.organization_id;
  agent_id = b.agent_id;
  binding_id = b.id;
  channel = b.channel;
  worker_id = h.worker_id;
  sequence = h.sequence;
  status = h.status;
  capabilities = or_else h.capabilities [];
  adapter_version = h.adapter_version;
  latency_ms = h.latency_ms;
  last_inbound_at = h.last_inbound_at;
  last_outbound_at = h.last_outbound_at;
  error_code = h.error_code;
  observed_at = h.observed_at;
  created_at = now;
}

-- `!lastHealthAt || Date.parse(lastHealthAt) <= Date.parse(observedAt)`
abbrev pub not_after : Option ℕ → ℕ → Bool
not_after none at = true
not_after (some t) at = leb t at

unfoldable pub report_health : ℕ → HealthInput → Binding → Binding
report_health now h b =
    if not_after b.last_health_at h.observed_at
    then record b {
      status = h.status;
      capabilities = or_else h.capabilities [];
      adapter_version = h.adapter_version;
      last_error_code = h.error_code;
      last_health_at = some h.observed_at;
      last_seen_at = if h.status === "connected" then some h.observed_at else b.last_seen_at;
      last_inbound_at = or_option h.last_inbound_at b.last_inbound_at;
      last_outbound_at = or_option h.last_outbound_at b.last_outbound_at;
      updated_at = now;
    }
    else b

-- The observation that the call answers, and the observations that it leaves.
unfoldable pub observe : ℕ → String → HealthInput → Binding → List Health → List Health × Health
unfolding new_health
observe now fresh h b os = elim (find? (same_report b.id h) os) [
  | some o ↦ (os, o)
  | none ↦ (os ++ new_health now fresh h b ∷ [], new_health now fresh h b)
]

unfoldable pub save_channel_health_report :
    ℕ → String → HealthInput → Store → Store × Option (Health × Binding)
unfolding observe report_health
save_channel_health_report now fresh h s = elim (find? (is_health_target h) s.bindings) [
  | none ↦ (s, none)
  | some b ↦
      let (os, o) = observe now fresh h b s.health in
      (
        record s {
          health = os;
          bindings = update_first (is_health_target h) (report_health now h) s.bindings;
        },
        some (o, report_health now h b),
      )
]
