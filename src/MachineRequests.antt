-- ===== src/MachineRequests.antt =====
-- Signed requests of machines: packages/security/machine-request.mjs, and authenticateMachine of
-- apps/web/app.mjs, which checks them by the credentials and nonces of
-- packages/db/memory-repository.mjs. What node:crypto, base64url, `Number` and `toUpperCase` compute is
-- an argument.
mod Examples
pub mod Accepted
use mathlib.Core.Option
use bai_rui_cloud_agent_plat.Json.{Text, codes}
use bai_rui_cloud_agent_plat.Patterns.{run_of, is_alnum, is_digit, one_of}
use bai_rui_cloud_agent_plat.Policy.{text_eq}
use bai_rui_cloud_agent_plat.Control.Store.{RuntimeCredential}
use bai_rui_cloud_agent_plat.Credentials.{
  ServerCredential, WorkerCredential, NonceInput, get_active_server_credential,
  get_active_channel_worker_credential, claim_machine_nonce,
}
use bai_rui_cloud_agent_plat.Prelude.{
  Bool, List, Option, String, [], false, find_last?, if◌then◌else◌, is_some, leb, length, ltb, map,
  none, or_else, some, ℕ, ◌&&◌, ◌++◌, ◌+◌, ◌===◌, ◌||◌, ◌∷◌,
}

-- `number` is `none` for what is no safe integer, or lies before 1970; `decode` for what `Buffer.from`
-- throws at.
pub record Crypto : Type 0 where
  pub sha256 : Text → Text
  pub hmac : Text → Text → List ℕ
  pub encode : List ℕ → Text
  pub decode : Text → Option (List ℕ)
  pub number : Text → Option ℕ
  pub upper : Text → Text

-- MAX_CLOCK_SKEW_MS
abbrev pub max_clock_skew : ℕ
max_clock_skew = 300000

-- `none` where the code throws a TypeError.
unfoldable pub derive_machine_key : Crypto → Text → Option Text
derive_machine_key c token = if ltb (length token) 32 then none else some (c.sha256 token)

pub record Message : Type 0 where
  pub method : Text
  pub path : Text
  pub timestamp : Text
  pub nonce : String
  pub body : Text

abbrev newline : ℕ
newline = 10

unfoldable pub machine_canonical : Crypto → Message → Text
machine_canonical c m =
    c.upper m.method
    ++ newline
      ∷ (m.path
          ++ newline ∷ (m.timestamp ++ newline ∷ (codes m.nonce ++ newline ∷ c.sha256 m.body)))

unfoldable pub sign_machine_request : Crypto → Message → Text → Option Text
unfolding derive_machine_key machine_canonical
sign_machine_request c m token = elim (derive_machine_key c token) [
  | none ↦ none
  | some key ↦ some (c.encode (c.hmac key (machine_canonical c m)))
]

abbrev pub is_url_safe : ℕ → Bool
is_url_safe ch = is_alnum ch || one_of "_-" ch

abbrev pub is_hex : ℕ → Bool
is_hex ch = is_digit ch || leb b'a' ch && leb ch b'f'

-- `Math.abs(now - t) <= maxClockSkewMs`
abbrev pub is_in_time : ℕ → Option ℕ → Bool
is_in_time now none = false
is_in_time now (some t) = leb now (t + max_clock_skew) && leb t (now + max_clock_skew)

abbrev pub is_mac : Option (List ℕ) → List ℕ → Bool
is_mac none expected = false
is_mac (some actual) expected = text_eq actual expected

unfoldable pub verify_machine_request : Crypto → ℕ → Message → Text → Text → Bool
verify_machine_request c now m signature key_hash =
    is_in_time now (c.number m.timestamp)
    && run_of is_url_safe 16 128 (codes m.nonce)
    && run_of is_url_safe 32 128 signature
    && run_of is_hex 64 64 key_hash
    && is_mac (c.decode signature) (c.hmac key_hash (machine_canonical c m))

pub data CredentialType : Type 0 where
  server channel_worker agent_runtime : CredentialType

abbrev pub type_name : CredentialType → String
type_name server = "server"
type_name channel_worker = "channel-worker"
type_name agent_runtime = "agent-runtime"

pub record Credentials : Type 0 where
  pub servers : List ServerCredential
  pub workers : List WorkerCredential
  pub runtimes : List RuntimeCredential

unfoldable pub get_active_agent_runtime_credential :
    String → List RuntimeCredential → Option RuntimeCredential
get_active_agent_runtime_credential agent ks =
    find_last? (λ k. k.agent_id === agent && k.status === "active") ks

-- What is read of a credential.
pub record FoundCredential : Type 0 where
  pub id : String
  pub key_hash : String

unfoldable pub find_credential : CredentialType → ℕ → String → Credentials → Option FoundCredential
unfolding get_active_server_credential get_active_channel_worker_credential
    get_active_agent_runtime_credential
find_credential server now id cs =
    Option.map (λ (k : ServerCredential). record { id = k.id; key_hash = k.key_hash })
      (get_active_server_credential id cs.servers)
find_credential channel_worker now id cs =
    Option.map (λ (k : WorkerCredential). record { id = k.id; key_hash = k.key_hash })
      (get_active_channel_worker_credential now id cs.workers)
find_credential agent_runtime now id cs =
    Option.map (λ (k : RuntimeCredential). record { id = k.id; key_hash = k.key_hash })
      (get_active_agent_runtime_credential id cs.runtimes)

-- A request as it comes, with the clock and the credentials at that time. A header may be missing.
pub record Request : Type 0 where
  pub now : ℕ
  pub credential_type : CredentialType
  pub credentials : Credentials
  pub machine_id : Option String
  pub timestamp : Option Text
  pub nonce : Option String
  pub signature : Option Text
  pub method : Text
  pub path : Text
  pub body : Text

abbrev pub message_of : Request → Message
message_of r = record {
  method = r.method;
  path = r.path;
  timestamp = or_else r.timestamp [];
  nonce = or_else r.nonce "";
  body = r.body;
}

abbrev pub nonce_input : Request → FoundCredential → NonceInput
nonce_input r k = record {
  credential_type = type_name r.credential_type;
  credential_id = k.id;
  nonce = or_else r.nonce "";
}

-- A missing header is refused: no number, no nonce and no signature is read from it.
unfoldable pub is_verified : Crypto → Request → FoundCredential → Bool
is_verified c r k =
    is_some r.timestamp
    && is_some r.nonce
    && is_some r.signature
    && verify_machine_request c r.now (message_of r) (or_else r.signature []) (codes k.key_hash)

-- The claim of the nonce, and the machine where it succeeds.
unfoldable pub claim_for :
    Request
    → String
    → FoundCredential
    → List String
    → List String × Option (String × FoundCredential)
unfolding claim_machine_nonce
claim_for r id k keys =
    let claimed = claim_machine_nonce (nonce_input r k) keys in
    (claimed.0, if claimed.1 then some (id, k) else none)

unfoldable pub authenticate_machine :
    Crypto → Request → List String → List String × Option (String × FoundCredential)
unfolding find_credential is_verified claim_for
authenticate_machine c r keys = elim r.machine_id [
  | none ↦ (keys, none)
  | some id ↦ elim (find_credential r.credential_type r.now id r.credentials) [
    | none ↦ (keys, none)
    | some k ↦ if is_verified c r k then claim_for r id k keys else (keys, none)
  ]
]
