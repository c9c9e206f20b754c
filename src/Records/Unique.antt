-- ===== src/Records/Unique.antt =====
-- What is stored once (packages/db/memory-repository.mjs).
use bai_rui_cloud_agent_plat.Prelude.{
  Bool, Bool-cases, List, Option-cases, String, [], any, arith, count, count-append,
  count-update_first_le, count-zero_of_All, count-zero_of_any, eq_iff, find?, find?-none, inl, inr,
  refl, true, update_first, ℕ, ◌===◌, ◌∷◌, ◌≡◌, ◌≤◌, ◌++◌,
}
use bai_rui_cloud_agent_plat.Records.{
  upsert_agent_authorization, revoke_agent_authorization, is_authorization,
  mark_agent_authorization_used, drop_first, has_run_id, create_agent_run, renew_authorization,
  is_bookmark, update_agent_run, new_authorization, set_agent_hotspot_bookmark,
  get_agent_authorization, is_own_authorization, revoke, use_now, new_run, get_agent_run,
  is_own_run, change_run, new_bookmark,
}
use bai_rui_cloud_agent_plat.Records.Data.{
  Store, AuthorizationInput, Bookmark, RunInput, Authorization, RunUpdate, BookmarkInput,
}

-- At most one authorization of an Agent for a service and a label, one run with an identifier, and one
-- bookmark of an Agent on an item.
pub record IsUnique (s : Store) : Type 0 where
  pub authorizations_once :
      (agent service label : String)
      → count (is_authorization agent service label) s.authorizations ≤ 1
  pub runs_once : (id : String) → count (has_run_id id) s.runs ≤ 1
  pub bookmarks_once : (agent item : String) → count (is_bookmark agent item) s.bookmarks ≤ 1

-- One of the calls that write, with the time and the identifier that it draws.
pub data RecordCall : Type 0 where
  upsert_authorization : ℕ → String → AuthorizationInput → RecordCall
  revoke_authorization : ℕ → String → String → String → String → RecordCall
  mark_used : ℕ → String → RecordCall
  create_run : ℕ → RunInput → RecordCall
  update_run : ℕ → RunUpdate → RecordCall
  set_bookmark : ℕ → BookmarkInput → RecordCall

unfoldable pub run_record : RecordCall → Store → Store
run_record (upsert_authorization now fresh i) s = (upsert_agent_authorization now fresh i s).0
run_record (revoke_authorization now organization user agent id) s =
    (revoke_agent_authorization now organization user agent id s).0
run_record (mark_used now id) s = (mark_agent_authorization_used now id s).0
run_record (create_run now i) s = (create_agent_run now i s).0
run_record (update_run now i) s = (update_agent_run now i s).0
run_record (set_bookmark now i) s = (set_agent_hotspot_bookmark now i s).0

unfoldable pub run_records : List RecordCall → Store → Store
unfolding run_record
run_records [] s = s
run_records (c ∷ cs) s = run_records cs (run_record c s)

-- A write that keeps what a test looks at.
count-write_kept :
    {A : Type 0} (p q : A → Bool) (f : A → A) (xs : List A)
    → ((x : A) → q x ≡ true → p (f x) ≡ p x)
    → count p (update_first q f xs) ≤ count p xs
count-write_kept p q f xs keep = count-update_first_le p q f xs (λ x t. rw (keep x t) (omega arith))

count-drop_first :
    (p q : Bookmark → Bool) (bs : List Bookmark) → count p (drop_first q bs) ≤ count p bs
count-drop_first p q [] = omega arith
count-drop_first p q (b ∷ bs) = elim (Bool-cases (q b)) [
  | inl t ↦ rw t (omega arith)
  | inr n ↦ rw n (omega (arith, count-drop_first p q bs))
]

count-push :
    {A : Type 0} (p : A → Bool) (xs : List A) (x : A)
    → count p xs ≤ 1
    → (p x ≡ true → count p xs ≡ 0)
    → count p (xs ++ x ∷ []) ≤ 1
count-push p xs x once free = rw (count-append p xs (x ∷ [])) (elim (Bool-cases (p x)) [
  | inr n ↦ rw n (omega (arith, once))
  | inl t ↦ rw t (omega (arith, free t))
])

upsert-IsUnique :
    (now : ℕ) (fresh : String) (i : AuthorizationInput) (s : Store)
    → IsUnique s
    → IsUnique (upsert_agent_authorization now fresh i s).0
unfolding upsert_agent_authorization
upsert-IsUnique now fresh i s u =
    elim (Option-cases (find? (is_authorization i.agent_id i.service i.label) s.authorizations)) [
      | inr (a, e) ↦
          rw (upsert_agent_authorization, e)
            (record {
              authorizations_once = λ agent service label. omega (
                arith,
                u.authorizations_once agent service label,
                count-write_kept (is_authorization agent service label)
                    (is_authorization i.agent_id i.service i.label) (renew_authorization now i)
                    s.authorizations
                    (λ x t.
                      let one : x.agent_id ≡ i.agent_id =
                        (eq_iff x.agent_id i.agent_id).0 (ground arith) in
                      let two : x.service ≡ i.service =
                        (eq_iff x.service i.service).0 (ground arith) in
                      let three : x.label ≡ i.label = (eq_iff x.label i.label).0 (ground arith) in
                      rw (one, two, three) refl),
              );
              runs_once = u.runs_once;
              bookmarks_once = u.bookmarks_once;
            })
      | inl e ↦
          rw (upsert_agent_authorization, e)
            (record {
              authorizations_once = λ agent service label.
                  count-push (is_authorization agent service label) s.authorizations
                    (new_authorization now fresh i) (u.authorizations_once agent service label)
                    (λ t.
                      let one : i.agent_id ≡ agent = (eq_iff i.agent_id agent).0 (ground arith) in
                      let two : i.service ≡ service = (eq_iff i.service service).0 (ground arith) in
                      let three : i.label ≡ label = (eq_iff i.label label).0 (ground arith) in
                      rw (← one, ← two, ← three)
                        (count-zero_of_All (is_authorization i.agent_id i.service i.label)
                          s.authorizations (find?-none (λ _. Unit {0}) _ s.authorizations e)));
              runs_once = u.runs_once;
              bookmarks_once = u.bookmarks_once;
            })
    ]

-- A write to an authorization that keeps its Agent, its service and its label.
keep-IsUnique :
    (s : Store) (q : Authorization → Bool) (f : Authorization → Authorization)
    → ((agent service label : String) (x : Authorization)
        → is_authorization agent service label (f x) ≡ is_authorization agent service label x)
    → IsUnique s
    → IsUnique (record s { authorizations = update_first q f s.authorizations })
keep-IsUnique s q f keep u = record {
  authorizations_once = λ agent service label. omega (
    arith,
    u.authorizations_once agent service label,
    count-write_kept (is_authorization agent service label) q f s.authorizations
        (λ x t. keep agent service label x),
  );
  runs_once = u.runs_once;
  bookmarks_once = u.bookmarks_once;
}

create_agent_run-IsUnique :
    (now : ℕ) (i : RunInput) (s : Store) → IsUnique s → IsUnique (create_agent_run now i s).0
unfolding create_agent_run
create_agent_run-IsUnique now i s u = elim (Bool-cases (any (has_run_id i.id) s.runs)) [
  | inl t ↦ rw (create_agent_run, t) u
  | inr n ↦
      rw (create_agent_run, n)
        (record {
          authorizations_once = u.authorizations_once;
          runs_once = λ id. count-push (has_run_id id) s.runs (new_run now i) (u.runs_once id) (λ t.
              let same : i.id ≡ id = (eq_iff i.id id).0 t in
              rw (← same) (count-zero_of_any (has_run_id i.id) s.runs n));
          bookmarks_once = u.bookmarks_once;
        })
]

update_agent_run-IsUnique :
    (now : ℕ) (i : RunUpdate) (s : Store) → IsUnique s → IsUnique (update_agent_run now i s).0
unfolding update_agent_run
update_agent_run-IsUnique now i s u =
    elim (Option-cases (get_agent_run i.organization_id i.user_id i.agent_id i.id s)) [
      | inl e ↦ rw (update_agent_run, e) u
      | inr (r, e) ↦
          rw (update_agent_run, e)
            (record {
              authorizations_once = u.authorizations_once;
              runs_once = λ id. omega (
                arith,
                u.runs_once id,
                count-write_kept (has_run_id id)
                    (is_own_run i.organization_id i.user_id i.agent_id i.id) (change_run now i)
                    s.runs (λ x t. refl),
              );
              bookmarks_once = u.bookmarks_once;
            })
    ]

set_agent_hotspot_bookmark-IsUnique :
    (now : ℕ) (i : BookmarkInput) (s : Store)
    → IsUnique s
    → IsUnique (set_agent_hotspot_bookmark now i s).0
unfolding set_agent_hotspot_bookmark
set_agent_hotspot_bookmark-IsUnique now i s u = record {
  authorizations_once = u.authorizations_once;
  runs_once = u.runs_once;
  bookmarks_once = λ agent item. elim (Bool-cases i.bookmarked) [
    | inr n ↦ rw n (
        omega (
          arith,
          u.bookmarks_once agent item,
          count-drop_first (is_bookmark agent item) (is_bookmark i.agent_id i.hotspot_item_id)
              s.bookmarks,
        ))
    | inl t ↦ elim (Bool-cases (any (is_bookmark i.agent_id i.hotspot_item_id) s.bookmarks)) [
      | inl h ↦ rw (t, h) (u.bookmarks_once agent item)
      | inr h ↦
          rw (t, h)
            (count-push (is_bookmark agent item) s.bookmarks (new_bookmark now i)
              (u.bookmarks_once agent item)
              (λ g.
                let one : i.agent_id ≡ agent = (eq_iff i.agent_id agent).0 (ground arith) in
                let two : i.hotspot_item_id ≡ item =
                  (eq_iff i.hotspot_item_id item).0 (ground arith) in
                rw (← one, ← two)
                  (count-zero_of_any (is_bookmark i.agent_id i.hotspot_item_id) s.bookmarks h)))
    ]
  ];
}

run_record-IsUnique : (c : RecordCall) (s : Store) → IsUnique s → IsUnique (run_record c s)
unfolding run_record revoke_agent_authorization mark_agent_authorization_used
run_record-IsUnique (upsert_authorization now fresh i) s u = upsert-IsUnique now fresh i s u
run_record-IsUnique (revoke_authorization now organization user agent id) s u =
    elim (Option-cases (get_agent_authorization organization user agent id s)) [
      | inl e ↦ rw (run_record, revoke_agent_authorization, e) u
      | inr (a, e) ↦
          rw (run_record, revoke_agent_authorization, e)
            (keep-IsUnique s (is_own_authorization organization user agent id) (revoke now)
              (λ a b c x. refl) u)
    ]
run_record-IsUnique (mark_used now id) s u =
    elim (Option-cases (find? (λ a. a.id === id) s.authorizations)) [
      | inl e ↦ rw (run_record, mark_agent_authorization_used, e) u
      | inr (a, e) ↦
          rw (run_record, mark_agent_authorization_used, e)
            (keep-IsUnique s (λ a. a.id === id) (use_now now) (λ a b c x. refl) u)
    ]
run_record-IsUnique (create_run now i) s u = create_agent_run-IsUnique now i s u
run_record-IsUnique (update_run now i) s u = update_agent_run-IsUnique now i s u
run_record-IsUnique (set_bookmark now i) s u = set_agent_hotspot_bookmark-IsUnique now i s u

-- After any calls on them, an Agent has at most one authorization for each service and label, no two
-- runs have one identifier, and an Agent has at most one bookmark on an item, if this held before.
pub run_records-IsUnique :
    (cs : List RecordCall) (s : Store) → IsUnique s → IsUnique (run_records cs s)
unfolding run_records
run_records-IsUnique [] s u = u
run_records-IsUnique (c ∷ cs) s u =
    run_records-IsUnique cs (run_record c s) (run_record-IsUnique c s u)
