-- ===== src/Credentials/Active.antt =====
-- Which credentials are active, and which claims succeed (packages/db/memory-repository.mjs).
use bai_rui_cloud_agent_plat.Prelude.{
  Bool, Bool-cases, List, String, [], any, arith, count, count-append, count-update_where_zero,
  eq_iff, eq_refl, false, find_last?, if◌then◌else◌, inl, inr, refl, some, true, update_where,
  weight, ℕ, ◌&&◌, ◌++◌, ◌+◌, ◌===◌, ◌∙◌, ◌∷◌, ◌≡◌, ◌≤◌, Option-cases, any-append, ap,
  find_last?-test, none, update_last,
}
use bai_rui_cloud_agent_plat.Credentials.{
  ServerCredential, create_server_credential, WorkerCredential, NonceInput, claim_each,
  is_active_server, get_active_server_credential, is_active_worker, nonce_key, claim_machine_nonce,
  revoke_server, ServerCredentialInput, new_server_credential, revoke_worker,
  create_channel_worker_credential, WorkerCredentialInput, new_worker_credential, is_same_key,
}

revoked_lem :
    (server : String) (k : ServerCredential)
    → is_active_server server (if is_active_server server k then revoke_server k else k) ≡ false
revoked_lem server k = elim (Bool-cases (is_active_server server k)) [
  | inl t ↦ rw t (ground arith)
  | inr n ↦ rw n n
]

find_last?-snoc :
    {A : Type 0} (p : A → Bool) (xs : List A) (x : A)
    → p x ≡ true
    → find_last? p (xs ++ x ∷ []) ≡ some x
find_last?-snoc p [] x t = rw t refl
find_last?-snoc p (y ∷ ys) x t = rw (find_last?-snoc p ys x t) refl

-- When a server gets a credential, it is the server's only active one, and the one that requests of
-- the server are checked against; the active ones of other servers are as many as before.
pub create_server_credential-only :
    (now : ℕ) (fresh : String) (i : ServerCredentialInput) (ks : List ServerCredential)
    → let after = create_server_credential now fresh i ks in
      (count (is_active_server i.server_id) after ≡ 1)
      × (get_active_server_credential i.server_id after ≡ some (new_server_credential now fresh i))
      × ((other : String)
          → (i.server_id === other) ≡ false
          → count (is_active_server other) after ≡ count (is_active_server other) ks)
unfolding create_server_credential get_active_server_credential
create_server_credential-only now fresh i ks =
    let new = new_server_credential now fresh i in
    let mine : is_active_server i.server_id new ≡ true = rw (eq_refl i.server_id) refl in
    let one : weight (is_active_server i.server_id) new ≡ 1 = rw mine refl in
    let old =
      count-update_where_zero (is_active_server i.server_id) (is_active_server i.server_id)
        revoke_server ks (revoked_lem i.server_id) in
    (
      count-append (is_active_server i.server_id)
            (update_where (is_active_server i.server_id) revoke_server ks) (new ∷ [])
          ∙ omega (arith, old, one),
      find_last?-snoc (is_active_server i.server_id)
          (update_where (is_active_server i.server_id) revoke_server ks) new mine,
      λ other apart.
          count-append (is_active_server other)
            (update_where (is_active_server i.server_id) revoke_server ks) (new ∷ [])
          ∙ omega (
            arith,
            kept other apart ks,
            (let w : weight (is_active_server other) new ≡ 0 = rw apart refl in w),
          ),
    )
  where
    kept :
        (other : String)
        → (i.server_id === other) ≡ false
        → (xs : List ServerCredential)
        → count
            (is_active_server other)
            (update_where (is_active_server i.server_id) revoke_server xs)
          ≡ count (is_active_server other) xs
    kept other apart [] = refl
    kept other apart (x ∷ xs) = elim (Bool-cases (is_active_server i.server_id x)) [
      | inr n ↦ rw n (omega (arith, kept other apart xs))
      | inl t ↦
          let same : x.server_id ≡ i.server_id =
            (eq_iff x.server_id i.server_id).0 (ground arith) in
          let off : (x.server_id === other) ≡ false = rw same apart in
          rw t (rw off (omega (arith, kept other apart xs)))
    ]

-- At most one credential of each worker is active.
abbrev pub IsSole : List WorkerCredential → Type 0
IsSole ks = (worker : String) → count (is_active_worker worker) ks ≤ 1

count-update_last :
    {A : Type 0} (p q : A → Bool) (f : A → A) (xs : List A) {x : A}
    → find_last? q xs ≡ some x
    → count p (update_last q f xs) + weight p x ≡ count p xs + weight p (f x)
count-update_last p q f [] e = absurd (cc)
count-update_last p q f (y ∷ ys) {x} e = elim (Option-cases (find_last? q ys)) [
  | inr (z, h) ↦
      let same : z ≡ x = (let r = rw h at e in cc) in
      rw (update_last, h) (omega (arith, count-update_last p q f ys (h ∙ ap some same)))
  | inl h ↦ elim (Bool-cases (q y)) [
    | inr n ↦ absurd (let r = rw (h, n) at e in cc)
    | inl t ↦
        let same : y ≡ x = (let r = rw (h, t) at e in cc) in
        rw (update_last, h, t) (rw (← same) (omega arith))
  ]
]

find_last?-zero :
    (p : WorkerCredential → Bool) (cs : List WorkerCredential)
    → find_last? p cs ≡ none
    → count p cs ≡ 0
find_last?-zero p [] e = refl
find_last?-zero p (c ∷ cs) e = elim (Option-cases (find_last? p cs)) [
  | inr (d, h) ↦ absurd (let r = rw h at e in cc)
  | inl h ↦ elim (Bool-cases (p c)) [
    | inl t ↦ absurd (let r = rw (h, t) at e in cc)
    | inr n ↦ rw n (omega (arith, find_last?-zero p cs h))
  ]
]

push-IsSole :
    (ks : List WorkerCredential) (k : WorkerCredential)
    → count (is_active_worker k.worker_id) ks ≡ 0
    → IsSole ks
    → IsSole (ks ++ k ∷ [])
push-IsSole ks k zero_here sole worker =
    rw (count-append (is_active_worker worker) ks (k ∷ []))
      (elim (Bool-cases (is_active_worker worker k)) [
        | inr n ↦ rw n (omega (arith, sole worker))
        | inl t ↦
            let same : k.worker_id ≡ worker = (eq_iff k.worker_id worker).0 (ground arith) in
            let none_yet : count (is_active_worker worker) ks ≡ 0 = rw (← same) zero_here in
            rw t (omega (arith, none_yet))
      ])

revoke-IsSole :
    (now : ℕ) (worker : String) (ks : List WorkerCredential) (k : WorkerCredential)
    → find_last? (is_active_worker worker) ks ≡ some k
    → IsSole ks
    → (count
          (is_active_worker worker)
          (update_last (is_active_worker worker) (revoke_worker now) ks)
        ≡ 0)
      × IsSole (update_last (is_active_worker worker) (revoke_worker now) ks)
revoke-IsSole now worker ks k e sole =
    let active : weight (is_active_worker worker) k ≡ 1 =
      rw (find_last?-test (is_active_worker worker) ks e) refl in
    let off : (other : String) → weight (is_active_worker other) (revoke_worker now k) ≡ 0 =
      λ other. elim (Bool-cases (k.worker_id === other)) [
        | inl t ↦ rw t refl
        | inr n ↦ rw n refl
      ] in
    (
      omega (
        arith,
        active,
        off worker,
        sole worker,
        count-update_last (is_active_worker worker) (is_active_worker worker) (revoke_worker now) ks
            e,
      ),
      λ other. omega (
        arith,
        off other,
        sole other,
        count-update_last (is_active_worker other) (is_active_worker worker) (revoke_worker now) ks
            e,
      ),
    )

-- A worker's credential is replaced only by revoking it: after any request for one, at most one
-- credential of each worker is active, if this held before.
pub create_channel_worker_credential-IsSole :
    (now : ℕ) (fresh : String) (i : WorkerCredentialInput) (ks : List WorkerCredential)
    → IsSole ks
    → IsSole (create_channel_worker_credential now fresh i ks).0
unfolding create_channel_worker_credential
create_channel_worker_credential-IsSole now fresh i ks sole =
    elim (Option-cases (find_last? (is_active_worker i.worker_id) ks)) [
      | inl e ↦
          rw (create_channel_worker_credential, e)
            (push-IsSole ks (new_worker_credential now fresh i)
              (find_last?-zero (is_active_worker i.worker_id) ks e) sole)
      | inr (k, e) ↦ elim (Bool-cases (is_same_key i k)) [
        | inl t ↦ rw (create_channel_worker_credential, e, t) sole
        | inr n ↦
            let (gone, kept) = revoke-IsSole now i.worker_id ks k e sole in
            rw (create_channel_worker_credential, e, n)
              (push-IsSole _ (new_worker_credential now fresh i) gone kept)
      ]
    ]

-- How often a nonce's key was claimed with success.
abbrev pub claims : String → List NonceInput → List Bool → ℕ
claims key [] bs = 0
claims key (i ∷ is) [] = 0
claims key (i ∷ is) (b ∷ bs) = (if nonce_key i === key && b then 1 else 0) + claims key is bs

claims-taken :
    (key : String) (is : List NonceInput) (keys : List String)
    → any (λ k. k === key) keys ≡ true
    → claims key is (claim_each is keys) ≡ 0
unfolding claim_each claim_machine_nonce
claims-taken key [] keys h = refl
claims-taken key (i ∷ is) keys h = elim (Bool-cases (any (λ k. k === nonce_key i) keys)) [
  | inl t ↦
      rw (claim_each, claim_machine_nonce, t)
        (elim (Bool-cases (nonce_key i === key)) [
          | inl u ↦ rw u (omega (arith, claims-taken key is keys h))
          | inr u ↦ rw u (omega (arith, claims-taken key is keys h))
        ])
  | inr n ↦
      rw (claim_each, claim_machine_nonce, n)
        (elim (Bool-cases (nonce_key i === key)) [
          | inl u ↦
              absurd (let same = (eq_iff (nonce_key i) key).0 u in let clash = rw same at n in cc)
          | inr u ↦ rw u (
              omega (
                arith,
                claims-taken key is (keys ++ nonce_key i ∷ [])
                    (rw (any-append (λ k. k === key) keys (nonce_key i ∷ []), h) refl),
              ))
        ])
]

-- Of any sequence of claims, at most one of each credential's nonce succeeds: a signed machine
-- request that is sent again is refused.
pub claim_machine_nonce-once :
    (key : String) (is : List NonceInput) (keys : List String)
    → claims key is (claim_each is keys) ≤ 1
unfolding claim_each claim_machine_nonce
claim_machine_nonce-once key [] keys = omega arith
claim_machine_nonce-once key (i ∷ is) keys = elim (Bool-cases (any (λ k. k === nonce_key i) keys)) [
  | inl t ↦
      rw (claim_each, claim_machine_nonce, t)
        (elim (Bool-cases (nonce_key i === key)) [
          | inl u ↦ rw u (omega (arith, claim_machine_nonce-once key is keys))
          | inr u ↦ rw u (omega (arith, claim_machine_nonce-once key is keys))
        ])
  | inr n ↦
      rw (claim_each, claim_machine_nonce, n)
        (elim (Bool-cases (nonce_key i === key)) [
          | inl u ↦ rw u (
              omega (
                arith,
                claims-taken key is (keys ++ nonce_key i ∷ [])
                    (rw (any-append (λ k. k === key) keys (nonce_key i ∷ []), u) (ground arith)),
              ))
          | inr u ↦ rw u (omega (arith, claim_machine_nonce-once key is (keys ++ nonce_key i ∷ [])))
        ])
]
