-- ===== src/MachineRequests/Examples.antt =====
-- Signed requests on concrete values (packages/security/machine-request.mjs, apps/web/app.mjs).
use bai_rui_cloud_agent_plat.Prelude.{[], arith, none, refl, some, ◌∷◌, ◌≡◌, ◌≤◌}
use bai_rui_cloud_agent_plat.Json.{Text, codes}
use bai_rui_cloud_agent_plat.MachineRequests.{
  Crypto, derive_machine_key, sign_machine_request, Request, authenticate_machine, CredentialType,
  message_of, find_credential, FoundCredential,
}
use bai_rui_cloud_agent_plat.MachineRequests.Accepted.{
  IsCrypto, accepted, authenticate_machine-once, authenticate_machine-signed,
}
use bai_rui_cloud_agent_plat.Credentials.{ServerCredential}
use bai_rui_cloud_agent_plat.Patterns.{run_of}

abbrev a_hash : Text
a_hash = codes "0000000000000000000000000000000000000000000000000000000000000000"

abbrev a_token : Text
a_token = codes "a-token-of-more-than-32-characters"

abbrev a_signature : Text
a_signature = codes "AAAAAAAAAAAAAAAAAAAAAAAAAAAAAAAAAAAAAAAAAAA"

-- A stand-in for node:crypto whose texts have the lengths of the real ones.
abbrev a_crypto : Crypto
a_crypto = record {
  sha256 = λ t. a_hash;
  hmac = λ k m. 7 ∷ 8 ∷ [];
  encode = λ bs. a_signature;
  decode = λ t. some (7 ∷ 8 ∷ []);
  number = λ t. some 5;
  upper = λ t. t;
}

a_crypto-IsCrypto : IsCrypto a_crypto
unfolding run_of
a_crypto-IsCrypto = record { digests = λ t. refl; texts = λ k m. refl; read_back = λ k m. refl }

derived : derive_machine_key a_crypto a_token ≡ some a_hash
unfolding derive_machine_key
derived = refl

abbrev a_server : ServerCredential
a_server = record {
  id = "k1";
  server_id = "s1";
  key_hash = "0000000000000000000000000000000000000000000000000000000000000000";
  key_hint = "hint";
  status = "active";
  created_by = none;
  created_at = 1;
}

abbrev a_request : Request
a_request = record {
  now = 9;
  credential_type = CredentialType.server;
  credentials = record { servers = a_server ∷ []; workers = []; runtimes = [] };
  machine_id = some "s1";
  timestamp = some (codes "5");
  nonce = some "nonce_of_16_char";
  signature = some a_signature;
  method = codes "POST";
  path = codes "/api/internal/v1/channels";
  body = [];
}

signed : sign_machine_request a_crypto (message_of a_request) a_token ≡ some a_signature
unfolding sign_machine_request
signed = refl

abbrev a_found : FoundCredential
a_found = record { id = "k1"; key_hash = a_server.key_hash }

authenticate_machine-signed_example :
    (authenticate_machine a_crypto a_request ("server:k1:older" ∷ [])
      ≡ ("server:k1:older" ∷ "server:k1:nonce_of_16_char" ∷ [], some ("s1", a_found)))
    × ((authenticate_machine a_crypto
          (record a_request { now = 70 })
          ("server:k1:older" ∷ "server:k1:nonce_of_16_char" ∷ "server:k2:other" ∷ [])).1
        ≡ none)
unfolding run_of find_credential
authenticate_machine-signed_example =
    authenticate_machine-signed a_crypto a_request "s1" "nonce_of_16_char" a_found a_token
      a_signature (codes "5") 5 70 ("server:k1:older" ∷ []) ("server:k2:other" ∷ [])
      a_crypto-IsCrypto refl refl derived refl refl refl signed refl (omega arith) (omega arith)
      refl refl refl

authenticate_machine-once_example :
    accepted a_crypto "server:k1:nonce_of_16_char" (a_request ∷ a_request ∷ []) [] ≤ 1
authenticate_machine-once_example =
    authenticate_machine-once a_crypto "server:k1:nonce_of_16_char" (a_request ∷ a_request ∷ []) []
