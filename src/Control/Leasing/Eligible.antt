-- ===== src/Control/Leasing/Eligible.antt =====
-- Which commands leaseControlCommands (packages/db/memory-repository.mjs) hands out.
use bai_rui_cloud_agent_plat.Prelude.{
  Bool-cases, In, List, [], inl, inr, or_else, some, true, ℕ, arith, leb, ◌≡◌, ◌∷◌, ◌⊎◌, ◌&&◌, ◌+◌,
  ◌<◌, ◌||◌, All, Option-cases, length, refl, suc, ◌≤◌, find_last?-test, is_text, is_text_iff,
  ◌===◌, In-find?, String, eq_iff, find?, find?-test, ltb, Bool, find_last?, sym, values, ◌∙◌,
}
use bai_rui_cloud_agent_plat.Control.Leasing.{
  LeaseInput, insert_command, sort_commands, LeaseRun, LeasedCommand, expire, comes_first,
  end_lease, is_past, is_approved, leased_command, lease_each, expire_effects, deployment_for,
  take_lease, then_lease, lease_control_commands, permits,
}
use bai_rui_cloud_agent_plat.Control.Store.{
  Command, Store, is_queued, is_held, Approval, runtime_of, World, is_approved_decision,
}
use bai_rui_cloud_agent_plat.Fleet.Store.{Deployment, AgentRuntime}

-- The approval `a` of a command, which is given and still counts.
pub record Approved (now : ℕ) (approvals : List Approval) (command a : String) : Type 0 where
  pub approval : Approval
  pub stored : In approval approvals
  pub named : approval.id ≡ a
  pub of_command : approval.command_id ≡ command
  pub given : is_approved_decision approval.decision ≡ true
  pub in_time : now < approval.expires_at

permits-Approved :
    (now : ℕ) (ps : List Approval) (command a : String)
    → permits now ps command (some a) ≡ true
    → Approved now ps command a
unfolding permits
permits-Approved now ps command a h =
    elim (Option-cases (find? (λ p. p.id === a && p.command_id === command) ps)) [
      | inl e ↦ absurd (let z = rw (permits, e) at h in cc)
      | inr (p, e) ↦
          let test : (p.id === a && p.command_id === command) ≡ true =
            find?-test (λ p. p.id === a && p.command_id === command) ps e in
          let given : (is_approved_decision p.decision && ltb now p.expires_at) ≡ true =
            rw (permits, e) at h in
          record {
            approval = p;
            stored = In-find? (λ p. p.id === a && p.command_id === command) ps e;
            named = (eq_iff p.id a).0 (ground arith);
            of_command = (eq_iff p.command_id command).0 (ground arith);
            given = ground arith;
            in_time = ground arith;
          }
    ]

-- What a leased command was before, and to whom it goes.

pub record IsEligible (now : ℕ) (i : LeaseInput) (s : Store) (l : LeasedCommand) : Type 0 where
  pub command : Command
  pub member : In command s.commands
  pub same : l.command_id ≡ command.id
  pub startable :
      (is_queued command.state || (is_held command.state && is_past now command.lease_expires_at))
      ≡ true
  pub unexpired : now < command.expires_at
  pub permitted :
      (a : String) → command.approval_id ≡ some a → Approved now s.approvals command.id a
  pub next_attempt : l.attempt ≡ command.attempt + 1
  pub deployment : Deployment
  pub deployed : In deployment s.world.deployments
  pub of_deployment : (command.deployment_id ≡ deployment.id) × (l.deployment_id ≡ deployment.id)
  pub placed : (deployment.server_id ≡ some i.server_id) × (l.server_id ≡ some i.server_id)
  pub runtime : AgentRuntime
  pub run_by : In runtime (values s.world.runtimes)
  pub of_agent :
      (l.agent_id ≡ deployment.agent_id)
      × (runtime.agent_id ≡ deployment.agent_id)
      × (l.runtime_id ≡ runtime.id)

In-find_last? :
    {A : Type 0} (p : A → Bool) (xs : List A) {x : A} → find_last? p xs ≡ some x → In x xs
In-find_last? p [] e = absurd (cc)
In-find_last? p (y ∷ ys) {x} e = elim (Option-cases (find_last? p ys)) [
  | inr (z, h) ↦ inr (In-find_last? p ys (h ∙ (rw h at e)))
  | inl h ↦ elim (Bool-cases (p y)) [
    | inl t ↦ inl (let z = rw (h, t) at e in cc)
    | inr n ↦ absurd (let z = rw (h, n) at e in cc)
  ]
]

In-insert_command :
    (c : Command) (cs : List Command) (d : Command) → In d (insert_command c cs) → (c ≡ d) ⊎ In d cs
unfolding insert_command
In-insert_command c [] d m = m
In-insert_command c (e ∷ es) d m = elim (Bool-cases (comes_first c e)) [
  | inl t ↦ rw (insert_command, t) at m
  | inr n ↦ elim (rw (insert_command, n) at m) [
    | inl h ↦ inr (inl h)
    | inr k ↦ elim (In-insert_command c es d k) [ inl h ↦ inl h | inr h ↦ inr (inr h) ]
  ]
]

In-sort_commands : (cs : List Command) (d : Command) → In d (sort_commands cs) → In d cs
unfolding sort_commands
In-sort_commands [] d m = m
In-sort_commands (c ∷ cs) d m = elim (In-insert_command c (sort_commands cs) d m) [
  | inl h ↦ inl h
  | inr k ↦ inr (In-sort_commands cs d k)
]

-- The results of the rounds, where none has thrown.
abbrev handed : LeaseRun → List LeasedCommand
handed run = or_else run.leased []

handed-then_lease :
    (P : LeasedCommand → Type 0) (c : Command) (l : LeasedCommand) (run : LeaseRun)
    → P l
    → All P (handed run)
    → All P (handed (then_lease c l run))
handed-then_lease P c l run h k = elim (Option-cases run.leased) [
  | inl e ↦ rw e tt
  | inr (ls, e) ↦ rw e (h, rw e at k)
]

length-then_lease :
    (c : Command) (l : LeasedCommand) (run : LeaseRun)
    → length (handed (then_lease c l run)) ≤ suc (length (handed run))
length-then_lease c l run = elim (Option-cases run.leased) [
  | inl e ↦ rw e (omega arith)
  | inr (ls, e) ↦ rw e (omega arith)
]

pub startable_lem :
    (now : ℕ) (c : Command)
    → is_queued (expire now (end_lease now c)).state ≡ true
    → ((is_queued c.state || (is_held c.state && is_past now c.lease_expires_at)) ≡ true)
      × (now < c.expires_at)
startable_lem now c q = elim (Bool-cases (is_held c.state && is_past now c.lease_expires_at)) [
  | inl t ↦ elim (Bool-cases (leb c.expires_at now)) [
    | inl p ↦ absurd (let r = rw (t, p) at q in cc)
    | inr p ↦ (ground arith, ground arith)
  ]
  | inr n ↦ elim (Bool-cases (is_queued c.state)) [
    | inl t ↦ elim (Bool-cases (leb c.expires_at now)) [
      | inl p ↦ absurd (let r = rw (n, t, p) at q in cc)
      | inr p ↦ (ground arith, ground arith)
    ]
    | inr e ↦ absurd (let r = rw (n, e) at q in cc)
  ]
]

-- The rounds keep the identifier and the approval.
pub expire_keeps :
    (now : ℕ) (c : Command)
    → let e = expire now (end_lease now c) in
      (e.id ≡ c.id)
      × (e.approval_id ≡ c.approval_id)
      × (e.attempt ≡ c.attempt)
      × (e.action ≡ c.action)
      × (e.deployment_id ≡ c.deployment_id)
expire_keeps now c = elim (Bool-cases (is_held c.state && is_past now c.lease_expires_at)) [
  | inl t ↦ elim (Bool-cases (leb c.expires_at now)) [
    | inl p ↦ rw (t, p) (refl, refl, refl, refl, refl)
    | inr p ↦ rw (t, p) (refl, refl, refl, refl, refl)
  ]
  | inr n ↦ elim (Bool-cases (is_queued c.state && leb c.expires_at now)) [
    | inl p ↦ rw (n, p) (refl, refl, refl, refl, refl)
    | inr p ↦ rw (n, p) (refl, refl, refl, refl, refl)
  ]
]

is_approved-same :
    (now : ℕ) (ps : List Approval) (c e : Command)
    → e.id ≡ c.id
    → e.approval_id ≡ c.approval_id
    → is_approved now ps e ≡ is_approved now ps c
is_approved-same now ps c e h k = rw (h, k) refl

IsEligible-round :
    (now : ℕ) (i : LeaseInput) (s : Store) (u : World) (c : Command) (d : Deployment)
    (r : AgentRuntime)
    → In c s.commands
    → u.deployments ≡ s.world.deployments
    → u.runtimes ≡ s.world.runtimes
    → deployment_for i.server_id c.deployment_id u.deployments ≡ some d
    → (is_queued (expire now (end_lease now c)).state
        && is_approved now s.approvals (expire now (end_lease now c)))
      ≡ true
    → runtime_of d.agent_id u ≡ some r
    → IsEligible now i s (leased_command u d r (take_lease now i (expire now (end_lease now c))))
unfolding leased_command
IsEligible-round now i s u c d r m same_deployments same_runtimes here go served_by =
    let (same_id, same_approval, same_attempt, same_action, same_deployment) = expire_keeps now c in
    let found : (is_text d.server_id i.server_id && d.id === c.deployment_id) ≡ true =
      find_last?-test (λ d. is_text d.server_id i.server_id && d.id === c.deployment_id)
        u.deployments here in
    let served : is_text d.server_id i.server_id ≡ true = ground arith in
    let named : d.id ≡ c.deployment_id = (eq_iff d.id c.deployment_id).0 (ground arith) in
    let allowed : is_approved now s.approvals (expire now (end_lease now c)) ≡ true =
      ground arith in
    let (started, fresh) = startable_lem now c (ground arith) in
    record {
      command = c;
      member = m;
      same = same_id;
      startable = started;
      unexpired = fresh;
      permitted = λ a named. permits-Approved now s.approvals c.id a (
          rw named at (
            rw
              (is_approved-same now s.approvals c (expire now (end_lease now c)) same_id
                same_approval)
              at allowed));
      next_attempt = rw same_attempt refl;
      deployment = d;
      deployed = rw (← same_deployments) (
          In-find_last? (λ d. is_text d.server_id i.server_id && d.id === c.deployment_id)
            u.deployments here);
      of_deployment = (sym named, same_deployment ∙ sym named);
      placed = (
        (is_text_iff d.server_id i.server_id).0 served,
        (is_text_iff d.server_id i.server_id).0 served,
      );
      runtime = r;
      run_by =
          rw (← same_runtimes)
            (In-find? (λ x. x.agent_id === d.agent_id) (values u.runtimes) served_by);
      of_agent = (
        refl,
        (eq_iff r.agent_id d.agent_id).0
            (find?-test (λ x. x.agent_id === d.agent_id) (values u.runtimes) served_by),
        refl,
      );
    }

lease_each-IsEligible :
    (now : ℕ) (i : LeaseInput) (n : ℕ) (cs : List Command) (s : Store) (u : World)
    → All (λ c. In c s.commands) cs
    → u.deployments ≡ s.world.deployments
    → u.runtimes ≡ s.world.runtimes
    → n ≤ or_else i.limit 10
    → All (IsEligible now i s) (handed (lease_each now i s.approvals n cs u))
      × (length (handed (lease_each now i s.approvals n cs u)) + n ≤ or_else i.limit 10)
unfolding lease_each expire_effects
lease_each-IsEligible now i n [] s u m sd sr le = (tt, omega (arith, le))
lease_each-IsEligible now i n (c ∷ cs) s u m sd sr le =
    elim (Option-cases (deployment_for i.server_id c.deployment_id u.deployments)) [
      | inl e ↦ rw (lease_each, e) (lease_each-IsEligible now i n cs s u m.1 sd sr le)
      | inr (d, e) ↦ elim (Bool-cases (leb (or_else i.limit 10) n)) [
        | inl t ↦ rw (lease_each, e, t) (lease_each-IsEligible now i n cs s u m.1 sd sr le)
        | inr f ↦
            let x = expire now (end_lease now c) in
            let v = expire_effects now (end_lease now c) u in
            elim (Bool-cases (is_queued x.state && is_approved now s.approvals x)) [
              | inr stop ↦
                  rw (lease_each, e, f, stop) (lease_each-IsEligible now i n cs s v m.1 sd sr le)
              | inl go ↦ elim (Option-cases (runtime_of d.agent_id u)) [
                | inl none_here ↦ rw (lease_each, e, f, go, none_here) (tt, omega (arith, le))
                | inr (r, here) ↦
                    let later =
                      lease_each-IsEligible now i (suc n) cs s v m.1 sd sr (ground arith) in
                    let this = IsEligible-round now i s u c d r m.0 sd sr e go here in
                    rw (lease_each, e, f, go, here)
                      (
                        handed-then_lease (IsEligible now i s) (take_lease now i x)
                            (leased_command u d r (take_lease now i x))
                            (lease_each now i s.approvals (suc n) cs v) this later.0,
                        omega (
                          arith,
                          later.1,
                          length-then_lease (take_lease now i x)
                              (leased_command u d r (take_lease now i x))
                              (lease_each now i s.approvals (suc n) cs v),
                        ),
                      )
              ]
            ]
      ]
    ]

-- Whatever a server is leased was one of the stored commands, waiting or with its lease run out. It
-- belongs to a stored deployment that stands on that server, and names it, its Agent and a stored
-- Runtime of this Agent. It has not expired, and has, where it names an approval,
-- one of that command that is approved and has not expired; its attempt is the next one. No more
-- commands are leased than the limit, which is 10 where the server names none.
pub lease_control_commands-IsEligible :
    (now : ℕ) (i : LeaseInput) (s : Store)
    → let leased = or_else (lease_control_commands now i s).1 [] in
      All (IsEligible now i s) leased × (length leased ≤ or_else i.limit 10)
unfolding lease_control_commands
lease_control_commands-IsEligible now i s =
    let (eligible, bound) =
      lease_each-IsEligible now i 0 (sort_commands s.commands) s s.world
        (All_In (sort_commands s.commands) (In-sort_commands s.commands)) refl refl (omega arith) in
    (eligible, omega (arith, bound))
  where
    All_In :
        (cs : List Command)
        → ((c : Command) → In c cs → In c s.commands)
        → All (λ c. In c s.commands) cs
    All_In [] h = tt
    All_In (c ∷ cs) h = (h c (inl refl), All_In cs (λ d m. h d (inr m)))
