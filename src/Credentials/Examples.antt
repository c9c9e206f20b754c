-- ===== src/Credentials/Examples.antt =====
-- Credentials and nonces on concrete values (packages/db/memory-repository.mjs).
use bai_rui_cloud_agent_plat.Prelude.{[], arith, false, none, refl, true, ◌∷◌, ◌≡◌}
use bai_rui_cloud_agent_plat.Credentials.{
  WorkerCredentialInput, NonceInput, claim_each, create_channel_worker_credential,
}
use bai_rui_cloud_agent_plat.Credentials.Active.{IsSole, create_channel_worker_credential-IsSole}

abbrev a_worker : WorkerCredentialInput
a_worker = record {
  id = none;
  worker_id = "w1";
  organization_id = none;
  allowed_channels = none;
  key_hash = "h1";
  key_hint = "hint";
  created_by = none;
  expires_at = none;
}

one-IsSole : IsSole (create_channel_worker_credential 1 "c1" a_worker []).0
one-IsSole = create_channel_worker_credential-IsSole 1 "c1" a_worker [] (λ w. omega arith)

abbrev a_nonce : NonceInput
a_nonce = record { credential_type = "server"; credential_id = "k1"; nonce = "n" }

second_refused : claim_each (a_nonce ∷ a_nonce ∷ []) [] ≡ true ∷ false ∷ []
unfolding claim_each
second_refused = refl
