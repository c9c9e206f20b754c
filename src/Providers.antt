-- ===== src/Providers.antt =====
-- Provider channels and model policies in MemoryPlatformRepository
-- (packages/db/memory-repository.mjs).
mod Examples
pub mod Latest
use bai_rui_cloud_agent_plat.Prelude.{
  Bool, List, Option, String, [], false, find?, lookup, none, or_else, some, true, update_first, ℕ,
  ◌&&◌, ◌++◌, ◌===◌, ◌∷◌, put,
}
use bai_rui_cloud_agent_plat.Json.{Value}

pub record ProviderChannel : Type 0 where
  pub id : String
  pub organization_id : String
  pub name : String
  pub provider : String
  pub base_url : String
  pub model : String
  pub api_key_envelope : Option Value
  pub key_hint : Option String
  pub status : String
  pub priority : ℕ
  pub weight : ℕ
  pub max_concurrency : Option ℕ
  pub monthly_budget_usd : Option Value
  pub enabled : Bool
  pub last_error_code : Option String
  pub updated_by : String
  pub created_at : ℕ
  pub updated_at : ℕ

pub record ProviderInput : Type 0 where
  pub id : Option String
  pub organization_id : String
  pub name : String
  pub provider : String
  pub base_url : String
  pub model : String
  pub api_key_envelope : Option Value
  pub key_hint : Option String
  pub priority : Option ℕ
  pub weight : Option ℕ
  pub max_concurrency : Option ℕ
  pub monthly_budget_usd : Option Value
  pub enabled : Option Bool
  pub updated_by : String

pub record ModelPolicy : Type 0 where
  pub organization_id : String
  pub allowed_models : List String
  pub default_model : Option String
  pub user_custom_keys_allowed : Bool
  pub daily_token_limit : Option ℕ
  pub monthly_budget_usd : Option Value
  pub updated_by : String
  pub updated_at : ℕ

pub record ModelPolicyInput : Type 0 where
  pub organization_id : String
  pub allowed_models : Option (List String)
  pub default_model : Option String
  pub user_custom_keys_allowed : Option Bool
  pub daily_token_limit : Option ℕ
  pub monthly_budget_usd : Option Value
  pub updated_by : String

pub record Store : Type 0 where
  pub provider_channels : List ProviderChannel
  pub model_policies : List (String × ModelPolicy)

abbrev pub is_provider : String → String → ProviderChannel → Bool
is_provider organization name c = c.organization_id === organization && c.name === name

abbrev pub new_provider : ℕ → String → ProviderInput → ProviderChannel
new_provider now fresh i = record {
  id = or_else i.id fresh;
  organization_id = i.organization_id;
  name = i.name;
  provider = i.provider;
  base_url = i.base_url;
  model = i.model;
  api_key_envelope = i.api_key_envelope;
  key_hint = i.key_hint;
  status = "pending";
  priority = or_else i.priority 100;
  weight = or_else i.weight 1;
  max_concurrency = i.max_concurrency;
  monthly_budget_usd = i.monthly_budget_usd;
  enabled = or_else i.enabled true;
  last_error_code = none;
  updated_by = i.updated_by;
  created_at = now;
  updated_at = now;
}

-- `a ?? b`, where `b` may be absent too.
unfoldable pub or_kept : {A : Type 0} → Option A → Option A → Option A
or_kept (some a) b = some a
or_kept none b = b

abbrev pub stored_key : Option ProviderChannel → Option Value
stored_key none = none
stored_key (some c) = c.api_key_envelope

-- What stays of the one that is there.
abbrev pub renew_provider : ℕ → ProviderInput → ProviderChannel → ProviderChannel
renew_provider now i c = record (new_provider now c.id i) {
  id = c.id;
  api_key_envelope = or_kept i.api_key_envelope c.api_key_envelope;
  key_hint = or_kept i.key_hint c.key_hint;
  created_at = c.created_at;
}

unfoldable pub upsert_provider_channel :
    ℕ → String → ProviderInput → Store → Store × ProviderChannel
upsert_provider_channel now fresh i s =
    elim (find? (is_provider i.organization_id i.name) s.provider_channels) [
      | some c ↦ (
        record s {
          provider_channels =
              update_first (is_provider i.organization_id i.name) (renew_provider now i)
                s.provider_channels;
        },
        renew_provider now i c,
      )
      | none ↦ (
        record s { provider_channels = s.provider_channels ++ new_provider now fresh i ∷ [] },
        new_provider now fresh i,
      )
    ]

unfoldable pub get_model_policy : String → Store → Option ModelPolicy
get_model_policy organization s = lookup organization s.model_policies

abbrev pub new_model_policy : ℕ → ModelPolicyInput → ModelPolicy
new_model_policy now i = record {
  organization_id = i.organization_id;
  allowed_models = or_else i.allowed_models [];
  default_model = i.default_model;
  user_custom_keys_allowed = or_else i.user_custom_keys_allowed false;
  daily_token_limit = i.daily_token_limit;
  monthly_budget_usd = i.monthly_budget_usd;
  updated_by = i.updated_by;
  updated_at = now;
}

unfoldable pub upsert_model_policy : ℕ → ModelPolicyInput → Store → Store × ModelPolicy
upsert_model_policy now i s = (
  record s { model_policies = put i.organization_id (new_model_policy now i) s.model_policies },
  new_model_policy now i,
)
