-- ===== src/Providers/Examples.antt =====
-- Provider channels on a small store (packages/db/memory-repository.mjs).
use bai_rui_cloud_agent_plat.Prelude.{[], none, some, ◌∷◌}
use bai_rui_cloud_agent_plat.Json.{Value, obj, end}
use bai_rui_cloud_agent_plat.Providers.{ProviderInput, Store, new_provider}

abbrev a_key : Value
a_key = obj end

abbrev an_input : ProviderInput
an_input = record {
  id = none;
  organization_id = "org";
  name = "main";
  provider = "openai";
  base_url = "https://api";
  model = "m";
  api_key_envelope = none;
  key_hint = none;
  priority = none;
  weight = none;
  max_concurrency = none;
  monthly_budget_usd = none;
  enabled = none;
  updated_by = "u1";
}

abbrev stored : Store
stored = record {
  provider_channels = record (new_provider 1 "p1" an_input) { api_key_envelope = some a_key } ∷ [];
  model_policies = [];
}
