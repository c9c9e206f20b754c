-- ===== src/Credentials.antt =====
-- The credentials of servers and channel workers, and the nonces of machine requests, in
-- MemoryPlatformRepository (packages/db/memory-repository.mjs).
pub mod Active
mod Examples
use Prim.Native.String
use bai_rui_cloud_agent_plat.Prelude.{
  Bool, List, Option, String, [], any, false, find_last?, if◌then◌else◌, ltb, none, or_else, some,
  true, update_last, update_where, ℕ, ◌&&◌, ◌++◌, ◌===◌, ◌∷◌, same_option,
}

pub record ServerCredential : Type 0 where
  pub id : String
  pub server_id : String
  pub key_hash : String
  pub key_hint : String
  pub status : String
  pub created_by : Option String
  pub created_at : ℕ

pub record ServerCredentialInput : Type 0 where
  pub id : Option String
  pub server_id : String
  pub key_hash : String
  pub key_hint : String
  pub created_by : Option String

abbrev pub is_active_server : String → ServerCredential → Bool
is_active_server server k = k.server_id === server && k.status === "active"

abbrev pub revoke_server : ServerCredential → ServerCredential
revoke_server k = record k { status = "revoked" }

abbrev pub new_server_credential : ℕ → String → ServerCredentialInput → ServerCredential
new_server_credential now fresh i = record {
  id = or_else i.id fresh;
  server_id = i.server_id;
  key_hash = i.key_hash;
  key_hint = i.key_hint;
  status = "active";
  created_by = i.created_by;
  created_at = now;
}

unfoldable pub create_server_credential :
    ℕ → String → ServerCredentialInput → List ServerCredential → List ServerCredential
create_server_credential now fresh i ks =
    update_where (is_active_server i.server_id) revoke_server ks
    ++ new_server_credential now fresh i ∷ []

unfoldable pub get_active_server_credential :
    String → List ServerCredential → Option ServerCredential
get_active_server_credential server ks = find_last? (is_active_server server) ks

pub record WorkerCredential : Type 0 where
  pub id : String
  pub worker_id : String
  pub organization_id : Option String
  pub allowed_channels : List String
  pub key_hash : String
  pub key_hint : String
  pub status : String
  pub created_by : Option String
  pub expires_at : Option ℕ
  pub revoked_at : Option ℕ
  pub created_at : ℕ

pub record WorkerCredentialInput : Type 0 where
  pub id : Option String
  pub worker_id : String
  pub organization_id : Option String
  pub allowed_channels : Option (List String)
  pub key_hash : String
  pub key_hint : String
  pub created_by : Option String
  pub expires_at : Option ℕ

abbrev pub is_active_worker : String → WorkerCredential → Bool
is_active_worker worker k = k.worker_id === worker && k.status === "active"

abbrev pub revoke_worker : ℕ → WorkerCredential → WorkerCredential
revoke_worker now k = record k { status = "revoked"; revoked_at = some now }

abbrev pub new_worker_credential : ℕ → String → WorkerCredentialInput → WorkerCredential
new_worker_credential now fresh i = record {
  id = or_else i.id fresh;
  worker_id = i.worker_id;
  organization_id = i.organization_id;
  allowed_channels = or_else i.allowed_channels ("feishu" ∷ "wechat" ∷ "qq" ∷ []);
  key_hash = i.key_hash;
  key_hint = i.key_hint;
  status = "active";
  created_by = i.created_by;
  expires_at = i.expires_at;
  revoked_at = none;
  created_at = now;
}

abbrev pub is_same_key : WorkerCredentialInput → WorkerCredential → Bool
is_same_key i k = k.key_hash === i.key_hash && same_option k.organization_id i.organization_id

unfoldable pub create_channel_worker_credential :
    ℕ
    → String
    → WorkerCredentialInput
    → List WorkerCredential
    → List WorkerCredential × WorkerCredential
create_channel_worker_credential now fresh i ks =
    elim (find_last? (is_active_worker i.worker_id) ks) [
      | none ↦ (ks ++ new_worker_credential now fresh i ∷ [], new_worker_credential now fresh i)
      | some k ↦ if is_same_key i k then (ks, k) else (
        update_last (is_active_worker i.worker_id) (revoke_worker now) ks
            ++ new_worker_credential now fresh i ∷ [],
        new_worker_credential now fresh i,
      )
    ]

-- `!expiresAt || Date.parse(expiresAt) > Date.now()`
abbrev pub is_unexpired : ℕ → Option ℕ → Bool
is_unexpired now none = true
is_unexpired now (some t) = ltb now t

unfoldable pub get_active_channel_worker_credential :
    ℕ → String → List WorkerCredential → Option WorkerCredential
get_active_channel_worker_credential now worker ks =
    find_last? (λ k. is_active_worker worker k && is_unexpired now k.expires_at) ks

pub record NonceInput : Type 0 where
  pub credential_type : String
  pub credential_id : String
  pub nonce : String

abbrev pub nonce_key : NonceInput → String
nonce_key i =
    String.◌++◌ i.credential_type
      (String.◌++◌ ":" (String.◌++◌ i.credential_id (String.◌++◌ ":" i.nonce)))

-- The set of the keys that were claimed.
unfoldable pub claim_machine_nonce : NonceInput → List String → List String × Bool
claim_machine_nonce i keys =
    if any (λ k. k === nonce_key i) keys then (keys, false) else (keys ++ nonce_key i ∷ [], true)

-- One claim after the other, with the answers.
unfoldable pub claim_each : List NonceInput → List String → List Bool
unfolding claim_machine_nonce
claim_each [] keys = []
claim_each (i ∷ is) keys =
    (claim_machine_nonce i keys).1 ∷ claim_each is (claim_machine_nonce i keys).0
