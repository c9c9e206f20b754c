-- ===== src/IngressWorker/Released.antt =====
-- Leases that the ingress worker ends (packages/channels/ingress-worker.mjs).
use bai_rui_cloud_agent_plat.Channel.Store.{InboxItem, is_leased, Conversation, Store, OutboxItem}
use bai_rui_cloud_agent_plat.Channel.Ingress.{ensure_channel_conversation}
use bai_rui_cloud_agent_plat.Channel.Jobs.{
  OutboundInput, CompleteInput, FailInput, holds_lease, complete_item, fail_item,
  complete_channel_ingress, fail_channel_ingress, completed, lease_lost, scope_unavailable,
  reply_outbox,
}
use bai_rui_cloud_agent_plat.Channel.Calls.{Call, run, empty}
use bai_rui_cloud_agent_plat.Channel.Validity.{IsValid, InboxOk}
use bai_rui_cloud_agent_plat.Channel.Validity.Runs.{run_from-IsValid, run-IsValid}
use bai_rui_cloud_agent_plat.Channel.Validity.Inbound.{ensure_channel_conversation-IsValid}
use bai_rui_cloud_agent_plat.Channel.Validity.Settling.{
  complete_channel_ingress-IsValid, fail_channel_ingress-IsValid,
}
use bai_rui_cloud_agent_plat.Json.{Value}
use mathlib.Core.Option
use bai_rui_cloud_agent_plat.Fleet.Store.{Agent}
use bai_rui_cloud_agent_plat.IngressWorker.{
  Host, Course, job_now, token_now, give_back, settle, converse, process, conversation_input,
  owns_job, invocation, outbound_of, answered, threw, Reply, reply_of, attempts_now,
}
use bai_rui_cloud_agent_plat.IngressWorker.Settings.{Worker, retry_delay}
use bai_rui_cloud_agent_plat.IngressWorker.Messages.{message_text, error_code}
use bai_rui_cloud_agent_plat.Prelude.{
  All, Bool, Bool-cases, List, String, [], any, ap, arith, count, false, find?, inl, inr, leb, none,
  refl, update_first, ℕ, ◌&&◌, ◌===◌, ◌∷◌, ◌≡◌, ◌≤◌, Option-cases, eq_refl, or_else, some, Option,
  sym, true, ◌+◌, ◌⊎◌,
}

abbrev pub has_id : String → InboxItem → Bool
has_id id i = i.id === id

abbrev pub is_running : String → InboxItem → Bool
is_running id i = i.id === id && is_leased i.state

-- A write that ends a lease.
record IsEnding (f : InboxItem → InboxItem) : Type 0 where
  same_id : (i : InboxItem) → (f i).id ≡ i.id
  ends : (i : InboxItem) → is_leased (f i).state ≡ false

complete_item-IsEnding : (now : ℕ) → IsEnding (complete_item now)
unfolding complete_item
complete_item-IsEnding now = record { same_id = λ i. refl; ends = λ i. refl }

fail_item-IsEnding : (now : ℕ) (f : FailInput) → IsEnding (fail_item now f)
unfolding fail_item
fail_item-IsEnding now f = record {
  same_id = λ i. refl;
  ends = λ i. elim (Bool-cases (leb i.max_attempts i.attempts)) [
    | inl t ↦ rw t refl
    | inr n ↦ rw n refl
  ];
}

update_first-none :
    (p : InboxItem → Bool) (f : InboxItem → InboxItem) (xs : List InboxItem)
    → find? p xs ≡ none
    → update_first p f xs ≡ xs
update_first-none p f [] e = refl
update_first-none p f (x ∷ xs) e = elim (Bool-cases (p x)) [
  | inl t ↦ absurd (let z = rw t at e in cc)
  | inr n ↦ rw n (ap (λ ys. x ∷ ys) (update_first-none p f xs (rw n at e)))
]

absent-not_running :
    (id : String) (xs : List InboxItem) → count (has_id id) xs ≤ 0 → any (is_running id) xs ≡ false
absent-not_running id [] h = refl
absent-not_running id (x ∷ xs) h = ground (arith, absent-not_running id xs)

module _ (id : String) (f : InboxItem → InboxItem) (e : IsEnding f) where
  count-ended :
      (q : InboxItem → Bool) (xs : List InboxItem)
      → count (has_id id) (update_first q f xs) ≡ count (has_id id) xs
  count-ended q [] = refl
  count-ended q (x ∷ xs) = elim (Bool-cases (q x)) [
    | inl t ↦ rw t (rw (e.same_id x) refl)
    | inr n ↦ rw n (omega (arith, count-ended q xs))
  ]

  -- The one item with an identifier is not leased after a write by the token that it holds.
  ended-not_running :
      (token : String) (xs : List InboxItem)
      → All InboxOk xs
      → count (has_id id) xs ≤ 1
      → ((i : InboxItem) → find? (has_id id) xs ≡ some i → or_else i.lease_token "" ≡ token)
      → any (is_running id) (update_first (holds_lease id token) f xs) ≡ false
  ended-not_running token [] ok h held = refl
  ended-not_running token (x ∷ xs) ok h held = elim (Bool-cases (x.id === id)) [
    | inr n ↦
        let fewer : count (has_id id) xs ≤ 1 = ground arith in
        rw n (rw n (ended-not_running token xs ok.1 fewer (λ i g. held i (rw n g))))
    | inl t ↦
        let others : count (has_id id) xs ≤ 0 = ground arith in
        let mine = held x (rw t refl) in
        elim (Bool-cases (is_leased x.state)) [
          | inr u ↦
              rw (t, u)
                (rw (t, u)
                  (absent-not_running id (update_first (holds_lease id token) f xs)
                    (omega (arith, others, count-ended (holds_lease id token) xs))))
          | inl l ↦ elim (Option-cases x.lease_token) [
            | inl g ↦ absurd (let z = ok.0.token_held in let w = rw (g, l) at z in cc)
            | inr (u, g) ↦
                let same : u ≡ token = rw g at mine in
                let hit : holds_lease id token x ≡ true =
                  rw (t, l) (rw g (rw same (eq_refl token))) in
                rw hit (ground (arith, e.ends x, absent-not_running id xs others))
          ]
        ]
  ]

  token_now-ended :
      (xs : List InboxItem)
      → All InboxOk xs
      → count (has_id id) xs ≤ 1
      → any (is_running id) (update_first (holds_lease id (token_now id xs)) f xs) ≡ false
  unfolding token_now job_now
  token_now-ended xs ok h =
      ended-not_running (token_now id xs) xs ok h (λ i g. rw (token_now, g) refl)

fail-inbox :
    (now : ℕ) (fresh : String) (f : FailInput) (s : Store)
    → (fail_channel_ingress now fresh f s).0.inbox
      ≡ update_first (holds_lease f.id f.lease_token) (fail_item now f) s.inbox
unfolding fail_channel_ingress
fail-inbox now fresh f s = elim (Option-cases (find? (holds_lease f.id f.lease_token) s.inbox)) [
  | inl e ↦
      rw (fail_channel_ingress, e)
        (sym (update_first-none (holds_lease f.id f.lease_token) (fail_item now f) s.inbox e))
  | inr (i, e) ↦ rw (fail_channel_ingress, e) refl
]

-- A complete call either ends the lease, or changes nothing.
complete-inbox :
    (now : ℕ) (fresh : String) (c : CompleteInput) (s : Store)
    → ((i : InboxItem) × (sent : Option OutboxItem) × ((complete_channel_ingress now fresh c s).1
          ≡ completed i sent)
        × ((complete_channel_ingress now fresh c s).0.inbox
            ≡ update_first (holds_lease c.id c.lease_token) (complete_item now) s.inbox))
      ⊎ (((complete_channel_ingress now fresh c s).0 ≡ s)
          × (((complete_channel_ingress now fresh c s).1 ≡ lease_lost)
              ⊎ ((complete_channel_ingress now fresh c s).1 ≡ scope_unavailable)))
unfolding complete_channel_ingress
complete-inbox now fresh c s =
    elim (Option-cases (find? (holds_lease c.id c.lease_token) s.inbox)) [
      | inl e ↦ rw (complete_channel_ingress, e) (inr (refl, inl refl))
      | inr (i, e) ↦ elim (Option-cases (reply_outbox now fresh c.outbound i s)) [
        | inl g ↦ rw (complete_channel_ingress, e, g) (inr (refl, inr refl))
        | inr ((outbox, sent), g) ↦
            rw (complete_channel_ingress, e, g) (inl (complete_item now i, sent, refl, refl))
      ]
    ]

-- What the end of a process leaves: the job does not run, if its identifier is its own.
record IsSettled (id : String) (s : Store) : Type 0 where
  valid : IsValid s
  released : count (has_id id) s.inbox ≤ 1 → any (is_running id) s.inbox ≡ false

give_back-IsSettled :
    (w : Worker) (c : Course) (j : InboxItem) (code : Option String) (s : Store)
    → IsValid s
    → IsSettled j.id (give_back w c j code s).0
unfolding give_back
give_back-IsSettled w c j code s v =
    let f : FailInput = record {
      id = j.id;
      lease_token = token_now j.id s.inbox;
      error_code = error_code code;
      available_at = some (c.settled_at + retry_delay w (attempts_now j s.inbox));
    } in
    let inbox = fail-inbox c.settled_at (c.fresh 3) f s in
    let ending = fail_item-IsEnding c.settled_at f in
    record {
      valid = fail_channel_ingress-IsValid c.settled_at (c.fresh 3) f s v;
      released = λ h. rw inbox (
          token_now-ended j.id (fail_item c.settled_at f) ending s.inbox v.inbox_ok (
            omega (
              arith,
              rw inbox at h,
              count-ended j.id (fail_item c.settled_at f) ending
                  (holds_lease j.id (token_now j.id s.inbox)) s.inbox,
            )));
    }

settle-IsSettled :
    (w : Worker) (c : Course) (j : InboxItem) (o : Option OutboundInput) (s : Store)
    → IsValid s
    → IsSettled j.id (settle w c j o s).0
unfolding settle
settle-IsSettled w c j o s v =
    let i : CompleteInput = record {
      id = j.id;
      lease_token = token_now j.id s.inbox;
      outbound = o;
    } in
    let ending = complete_item-IsEnding c.settled_at in
    elim (complete-inbox c.settled_at (c.fresh 2) i s) [
      | inl (x, sent, e, inbox) ↦
          rw (settle, e)
            (record {
              valid = complete_channel_ingress-IsValid c.settled_at (c.fresh 2) i s v;
              released = λ h. rw inbox (
                  token_now-ended j.id (complete_item c.settled_at) ending s.inbox v.inbox_ok (
                    omega (
                      arith,
                      rw inbox at h,
                      count-ended j.id (complete_item c.settled_at) ending
                          (holds_lease j.id (token_now j.id s.inbox)) s.inbox,
                    )));
            })
      | inr (same, inl e) ↦
          rw (settle, e)
            (rw same (give_back-IsSettled w c j (some "channel_ingress_lease_lost") s v))
      | inr (same, inr e) ↦
          rw (settle, e)
            (rw same
              (give_back-IsSettled w c j (some "channel_conversation_scope_unavailable") s v))
    ]

reply-cases :
    (r : Reply) → ((code : Option String) × (r ≡ threw code)) ⊎ ((v : Value) × (r ≡ answered v))
reply-cases (threw code) = inl (code, refl)
reply-cases (answered v) = inr (v, refl)

converse-IsSettled :
    (w : Worker) (h : Host) (c : Course) (j : InboxItem) (a : Agent) (k : Conversation) (s : Store)
    → IsValid s
    → IsSettled j.id (converse w h c j a k s).0
unfolding converse
converse-IsSettled w h c j a k s v = elim (Option-cases (message_text j.content)) [
  | inl e ↦ rw (converse, e) (give_back-IsSettled w c j (some "unsupported_channel_content") s v)
  | inr (text, e) ↦ elim (reply-cases (h.invoke (invocation h j a k text))) [
    | inl (code, r) ↦
        rw (converse, e, r)
          (give_back-IsSettled w c j code (run c.meanwhile s) (run_from-IsValid c.meanwhile s v))
    | inr (content, r) ↦
        rw (converse, e, r)
          (settle-IsSettled w c j (Option.map (outbound_of j k) (reply_of content))
            (run c.meanwhile s) (run_from-IsValid c.meanwhile s v))
  ]
]

-- From a store that calls have made: when a job has been processed, whatever the Runtime answers or
-- throws, whoever owns its Agent, and whatever calls others make while it waits, the item with its
-- identifier, if there is only one, is not leased: it is answered, or it waits, or it is given up.
pub process-released :
    (w : Worker) (h : Host) (c : Course) (agent : Option Agent) (j : InboxItem) (cs : List Call)
    → count (has_id j.id) (process w h c agent j (run cs empty)).0.inbox ≤ 1
    → any (is_running j.id) (process w h c agent j (run cs empty)).0.inbox ≡ false
unfolding process
process-released w h c none j cs one =
    (give_back-IsSettled w c j (some "channel_agent_not_found") (run cs empty)
        (run-IsValid cs)).released
      one
process-released w h c (some a) j cs one = elim (Bool-cases (owns_job j a)) [
  | inr n ↦
      rw (process, n)
        ((give_back-IsSettled w c j (some "channel_agent_not_found") (run cs empty)
            (run-IsValid cs)).released
          (rw (process, n) at one))
  | inl t ↦
      let r =
        ensure_channel_conversation c.ensured_at (c.fresh 0) (c.fresh 1) (conversation_input h j)
          (run cs empty) in
      rw (process, t)
        ((converse-IsSettled w h c j a r.1 r.0 (
            ensure_channel_conversation-IsValid c.ensured_at (c.fresh 0) (c.fresh 1)
              (conversation_input h j) (run cs empty) (run-IsValid cs))).released
          (rw (process, t) at one))
]
