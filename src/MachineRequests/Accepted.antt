-- ===== src/MachineRequests/Accepted.antt =====
-- Which requests of machines are accepted (packages/security/machine-request.mjs, apps/web/app.mjs).
use bai_rui_cloud_agent_plat.Json.{Text, codes}
use bai_rui_cloud_agent_plat.Patterns.{run_of}
use bai_rui_cloud_agent_plat.Policy.{text_eq}
use bai_rui_cloud_agent_plat.Credentials.{nonce_key, claim_machine_nonce}
use bai_rui_cloud_agent_plat.MachineRequests.{
  Crypto, Message, derive_machine_key, machine_canonical, sign_machine_request, is_url_safe, is_hex,
  is_in_time, verify_machine_request, Request, FoundCredential, find_credential, nonce_input,
  is_verified, claim_for, authenticate_machine, message_of,
}
use bai_rui_cloud_agent_plat.Prelude.{
  Bool, Bool-cases, List, Option, Option-cases, String, [], any, arith, false, if◌then◌else◌, inl,
  inr, none, refl, some, true, ℕ, ◌++◌, ◌+◌, ◌===◌, ◌∷◌, ◌≡◌, ◌≤◌, ◌⊎◌, any-append, eq_iff, length,
  ltb, eq_refl, is_some, or_else,
}

-- What the code relies on: a key is 64 hexadecimal digits; a code of a message is read back from its
-- text, which has the 32 to 128 characters of base64url that the check wants.
pub record IsCrypto (c : Crypto) : Type 0 where
  pub digests : (t : Text) → run_of is_hex 64 64 (c.sha256 t) ≡ true
  pub texts : (k m : Text) → run_of is_url_safe 32 128 (c.encode (c.hmac k m)) ≡ true
  pub read_back : (k m : Text) → c.decode (c.encode (c.hmac k m)) ≡ some (c.hmac k m)

text_eq_refl : (t : Text) → text_eq t t ≡ true
text_eq_refl [] = refl
text_eq_refl (x ∷ xs) = ground (arith, text_eq_refl xs)

derive-hash :
    (c : Crypto) (token key : Text) → derive_machine_key c token ≡ some key → c.sha256 token ≡ key
unfolding derive_machine_key
derive-hash c token key e = elim (Bool-cases (ltb (length token) 32)) [
  | inl t ↦ absurd (let r = rw t at e in cc)
  | inr n ↦ let r = rw n at e in cc
]

-- A message that is signed with a machine's token passes the check by the key that is kept for the
-- token, where its time is a number at most five minutes away from the clock, and its nonce is 16 to
-- 128 characters of base64url.
verify-sign :
    (c : Crypto) (m : Message) (token signature key : Text) (now t : ℕ)
    → IsCrypto c
    → derive_machine_key c token ≡ some key
    → sign_machine_request c m token ≡ some signature
    → c.number m.timestamp ≡ some t
    → now ≤ t + 300000
    → t ≤ now + 300000
    → run_of is_url_safe 16 128 (codes m.nonce) ≡ true
    → verify_machine_request c now m signature key ≡ true
unfolding verify_machine_request sign_machine_request
verify-sign c m token signature key now t laws derived signed number early late nonce =
    let hash : c.sha256 token ≡ key = derive-hash c token key derived in
    let text : c.encode (c.hmac key (machine_canonical c m)) ≡ signature =
      (let e = rw (sign_machine_request, derived) at signed in cc) in
    let time : is_in_time now (some t) ≡ true = ground (arith, early, late) in
    let digits : run_of is_hex 64 64 key ≡ true = rw (← hash) (laws.digests token) in
    let readable : run_of is_url_safe 32 128 signature ≡ true =
      rw (← text) (laws.texts key (machine_canonical c m)) in
    let back : c.decode signature ≡ some (c.hmac key (machine_canonical c m)) =
      rw (← text) (laws.read_back key (machine_canonical c m)) in
    rw (verify_machine_request, number, time, nonce, readable, digits, back)
      (text_eq_refl (c.hmac key (machine_canonical c m)))

-- The key of the nonce that a request is accepted with.
abbrev pub is_accepted_as : String → Request → Option (String × FoundCredential) → Bool
is_accepted_as key r none = false
is_accepted_as key r (some (id, k)) = nonce_key (nonce_input r k) === key

-- How many of some requests, one after the other, are accepted with a nonce.
abbrev pub accepted : Crypto → String → List Request → List String → ℕ
accepted c key [] keys = 0
accepted c key (r ∷ rs) keys =
    (if is_accepted_as key r (authenticate_machine c r keys).1 then 1 else 0)
    + accepted c key rs (authenticate_machine c r keys).0

-- Each request either leaves the claimed keys and is refused, or is accepted with a key that was not
-- claimed and is now.
authenticate-cases :
    (c : Crypto) (r : Request) (keys : List String)
    → (((authenticate_machine c r keys).0 ≡ keys) × ((authenticate_machine c r keys).1 ≡ none))
      ⊎ ((id : String) × (k : FoundCredential) × (any (λ q. q === nonce_key (nonce_input r k)) keys
            ≡ false)
          × ((authenticate_machine c r keys).0 ≡ keys ++ nonce_key (nonce_input r k) ∷ [])
          × ((authenticate_machine c r keys).1 ≡ some (id, k)))
unfolding authenticate_machine claim_for claim_machine_nonce
authenticate-cases c r keys = elim (Option-cases r.machine_id) [
  | inl e ↦ rw (authenticate_machine, e) (inl (refl, refl))
  | inr (id, e) ↦ elim (Option-cases (find_credential r.credential_type r.now id r.credentials)) [
    | inl g ↦ rw (authenticate_machine, e, g) (inl (refl, refl))
    | inr (k, g) ↦ elim (Bool-cases (is_verified c r k)) [
      | inr n ↦ rw (authenticate_machine, e, g, n) (inl (refl, refl))
      | inl t ↦ elim (Bool-cases (any (λ q. q === nonce_key (nonce_input r k)) keys)) [
        | inl u ↦
            rw (authenticate_machine, e, g, t) (rw (claim_machine_nonce, u) (inl (refl, refl)))
        | inr u ↦
            rw (authenticate_machine, e, g, t)
              (rw (claim_machine_nonce, u) (inr (id, k, u, refl, refl)))
      ]
    ]
  ]
]

accepted-taken :
    (c : Crypto) (key : String) (rs : List Request) (keys : List String)
    → any (λ q. q === key) keys ≡ true
    → accepted c key rs keys ≡ 0
accepted-taken c key [] keys h = refl
accepted-taken c key (r ∷ rs) keys h = elim (authenticate-cases c r keys) [
  | inl (same, refused) ↦ rw (same, refused) (omega (arith, accepted-taken c key rs keys h))
  | inr (id, k, fresh, grown, taken) ↦ elim (Bool-cases (nonce_key (nonce_input r k) === key)) [
    | inl u ↦ absurd (
        let same = (eq_iff (nonce_key (nonce_input r k)) key).0 u in
        let clash = rw same at fresh in cc)
    | inr u ↦
        rw (grown, taken)
          (rw u (
            omega (
              arith,
              accepted-taken c key rs (keys ++ nonce_key (nonce_input r k) ∷ []) (
                  rw (any-append (λ q. q === key) keys (nonce_key (nonce_input r k) ∷ []), h) refl),
            )))
  ]
]

-- Of any requests, one after the other, whatever they hold and whichever credentials stand at their
-- times, at most one is accepted with each credential's nonce.
pub authenticate_machine-once :
    (c : Crypto) (key : String) (rs : List Request) (keys : List String)
    → accepted c key rs keys ≤ 1
authenticate_machine-once c key [] keys = omega arith
authenticate_machine-once c key (r ∷ rs) keys = elim (authenticate-cases c r keys) [
  | inl (same, refused) ↦
      rw (same, refused) (omega (arith, authenticate_machine-once c key rs keys))
  | inr (id, k, fresh, grown, taken) ↦
      rw (grown, taken)
        (elim (Bool-cases (nonce_key (nonce_input r k) === key)) [
          | inl u ↦ rw u (
              omega (
                arith,
                accepted-taken c key rs (keys ++ nonce_key (nonce_input r k) ∷ []) (
                    rw (any-append (λ q. q === key) keys (nonce_key (nonce_input r k) ∷ []), u)
                      (ground arith)),
              ))
          | inr u ↦ rw u (
              omega (
                arith,
                authenticate_machine-once c key rs (keys ++ nonce_key (nonce_input r k) ∷ []),
              ))
        ])
]

claimed-refused :
    (c : Crypto) (r : Request) (id : String) (k : FoundCredential) (keys : List String)
    → r.machine_id ≡ some id
    → find_credential r.credential_type r.now id r.credentials ≡ some k
    → any (λ q. q === nonce_key (nonce_input r k)) keys ≡ true
    → (authenticate_machine c r keys).1 ≡ none
unfolding authenticate_machine claim_for claim_machine_nonce
claimed-refused c r id k keys e g u = elim (Bool-cases (is_verified c r k)) [
  | inr n ↦ rw (authenticate_machine, e, g, n) refl
  | inl t ↦ rw (authenticate_machine, e, g, t) (rw (claim_machine_nonce, u) refl)
]

headers-verified :
    (c : Crypto) (r : Request) (k : FoundCredential) {timestamp signature : Text} {nonce : String}
    → r.timestamp ≡ some timestamp
    → r.nonce ≡ some nonce
    → r.signature ≡ some signature
    → verify_machine_request c r.now (message_of r) (or_else r.signature []) (codes k.key_hash)
      ≡ true
    → is_verified c r k ≡ true
unfolding is_verified
headers-verified c r k when n s v =
    let has_time : is_some r.timestamp ≡ true = rw when refl in
    let has_nonce : is_some r.nonce ≡ true = rw n refl in
    let has_signature : is_some r.signature ≡ true = rw s refl in
    rw (is_verified, has_time, has_nonce, has_signature, v) refl

-- A request that a machine signs with its token is accepted and its nonce is claimed, where the
-- machine's credential is found and has the token's key, the time sent is a number at most five
-- minutes away from the clock, and the nonce is 16 to 128 characters of base64url that the
-- credential has not claimed. The same request is refused at any time after that, whatever else was
-- claimed meanwhile, where the same credential is found.
pub authenticate_machine-signed :
    (c : Crypto) (r : Request) (id nonce : String) (k : FoundCredential)
    → (token signature timestamp : Text) (t again : ℕ) (keys later : List String) → IsCrypto c
    → r.machine_id ≡ some id
    → find_credential r.credential_type r.now id r.credentials ≡ some k
    → derive_machine_key c token ≡ some (codes k.key_hash)
    → r.timestamp ≡ some timestamp
    → r.nonce ≡ some nonce
    → r.signature ≡ some signature
    → sign_machine_request c (message_of r) token ≡ some signature
    → c.number timestamp ≡ some t
    → r.now ≤ t + 300000
    → t ≤ r.now + 300000
    → run_of is_url_safe 16 128 (codes nonce) ≡ true
    → any (λ q. q === nonce_key (nonce_input r k)) keys ≡ false
    → find_credential r.credential_type again id r.credentials ≡ some k
    → let key = nonce_key (nonce_input r k) in
      (authenticate_machine c r keys ≡ (keys ++ key ∷ [], some (id, k)))
      × ((authenticate_machine c (record r { now = again }) ((keys ++ key ∷ []) ++ later)).1 ≡ none)
unfolding authenticate_machine claim_for claim_machine_nonce
authenticate_machine-signed c r id nonce k token signature timestamp t again keys later laws e g
      derived when n s signed number early late safe fresh g_again =
    let sent : verify_machine_request c r.now (message_of r) signature (codes k.key_hash) ≡ true =
      verify-sign c (message_of r) token signature (codes k.key_hash) r.now t laws derived signed
        (rw when number) early late (rw n safe) in
    let verified : is_verified c r k ≡ true = headers-verified c r k when n s (rw s sent) in
    let p : String → Bool = (λ q. q === nonce_key (nonce_input r k)) in
    let stays : any p ((keys ++ nonce_key (nonce_input r k) ∷ []) ++ later) ≡ true =
      rw
        (
          any-append p (keys ++ nonce_key (nonce_input r k) ∷ []) later,
          any-append p keys (nonce_key (nonce_input r k) ∷ []),
          eq_refl (nonce_key (nonce_input r k)),
        )
        (ground arith) in
    (
      rw (authenticate_machine, e, g, verified) (rw (claim_machine_nonce, fresh) refl),
      claimed-refused c (record r { now = again }) id k _ e g_again stays,
    )
