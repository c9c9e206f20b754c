-- ===== src/Control/Leasing/Rounds.antt =====
-- What leaseControlCommands (packages/db/memory-repository.mjs) does to each command.
-- A held command whose lease has not run out.
use bai_rui_cloud_agent_plat.Prelude.{
  Bool, arith, false, inl, inr, leb, not, or_else, refl, some, true, ℕ, ◌&&◌, ◌*◌, ◌+◌, ◌≡◌, ◌⊎◌,
  Bool-cases, Evolves, Evolves-refl, List, Option-cases, [], suc, ◌∷◌, ◌<◌,
}
use bai_rui_cloud_agent_plat.Control.Store.{
  Command, is_held, is_queued, CommandState, Store, runtime_of, accepted, cancelled, expired,
  failed, queued, running, succeeded, leased, Approval, World,
}
use bai_rui_cloud_agent_plat.Control.Leasing.{
  LeaseInput, expire, is_past, end_lease, take_lease, lease_each, lease_control_commands,
  deployment_for, sort_commands, expire_effects, is_approved,
}
use bai_rui_cloud_agent_plat.Control.Leasing.Eligible.{expire_keeps, startable_lem}

abbrev pub is_taken : ℕ → Command → Bool
is_taken now c = is_held c.state && not (is_past now c.lease_expires_at)

-- A command that has come to an end.
abbrev pub is_done : Command → Bool
is_done c = not (is_queued c.state) && not (is_held c.state)

pub record IsRound (now : ℕ) (i : LeaseInput) (c d : Command) : Type 0 where
  pub same_id : d.id ≡ c.id
  pub same_action : d.action ≡ c.action
  pub taken : is_taken now c ≡ true → d ≡ c
  pub done : is_done c ≡ true → d ≡ c
  pub attempts :
      ((d.attempt ≡ c.attempt) × ((d ≡ c) ⊎ (is_held d.state ≡ false)))
      ⊎ ((d.attempt ≡ c.attempt + 1)
          × (d.state ≡ leased)
          × (now < c.expires_at)
          × (d.lease_server_id ≡ some i.server_id)
          × (d.lease_expires_at ≡ some (now + or_else i.lease_seconds 60 * 1000)))

IsRound-refl : (now : ℕ) (i : LeaseInput) (c : Command) → IsRound now i c c
IsRound-refl now i c = record {
  same_id = refl;
  same_action = refl;
  taken = λ h. refl;
  done = λ h. refl;
  attempts = inl (refl, inl refl);
}

held_waits_not : (x : CommandState) → is_held x ≡ true → is_queued x ≡ false
held_waits_not leased h = refl
held_waits_not accepted h = refl
held_waits_not running h = refl
held_waits_not queued h = absurd (cc)
held_waits_not succeeded h = absurd (cc)
held_waits_not failed h = absurd (cc)
held_waits_not cancelled h = absurd (cc)
held_waits_not expired h = absurd (cc)

expire_taken : (now : ℕ) (c : Command) → is_taken now c ≡ true → expire now (end_lease now c) ≡ c
expire_taken now c h =
    let held : (is_held c.state && is_past now c.lease_expires_at) ≡ false = ground arith in
    let waiting : (is_queued c.state && leb c.expires_at now) ≡ false =
      ground (arith, held_waits_not c.state) in
    rw (held, waiting) refl

expire_done : (now : ℕ) (c : Command) → is_done c ≡ true → expire now (end_lease now c) ≡ c
expire_done now c h =
    let held : (is_held c.state && is_past now c.lease_expires_at) ≡ false = ground arith in
    let waiting : (is_queued c.state && leb c.expires_at now) ≡ false = ground arith in
    rw (held, waiting) refl

-- What a round leaves without an attempt is as it was, or no server holds it.
expire_frees :
    (now : ℕ) (c : Command)
    → (expire now (end_lease now c) ≡ c) ⊎ (is_held (expire now (end_lease now c)).state ≡ false)
expire_frees now c = elim (Bool-cases (is_held c.state && is_past now c.lease_expires_at)) [
  | inl t ↦ elim (Bool-cases (leb c.expires_at now)) [
    | inl p ↦ rw (t, p) (inr refl)
    | inr p ↦ rw (t, p) (inr refl)
  ]
  | inr n ↦ elim (Bool-cases (is_queued c.state && leb c.expires_at now)) [
    | inl p ↦ rw (n, p) (inr refl)
    | inr p ↦ rw (n, p) (inl refl)
  ]
]

IsRound-expire :
    (now : ℕ) (i : LeaseInput) (c : Command) → IsRound now i c (expire now (end_lease now c))
IsRound-expire now i c = record {
  same_id = (expire_keeps now c).0;
  same_action = (expire_keeps now c).3;
  taken = expire_taken now c;
  done = expire_done now c;
  attempts = inl ((expire_keeps now c).2, expire_frees now c);
}

IsRound-take :
    (now : ℕ) (i : LeaseInput) (c : Command)
    → is_queued (expire now (end_lease now c)).state ≡ true
    → IsRound now i c (take_lease now i (expire now (end_lease now c)))
IsRound-take now i c q = record {
  same_id = (expire_keeps now c).0;
  same_action = (expire_keeps now c).3;
  taken = λ h.
      absurd (let (started, _) = startable_lem now c q in ground (arith, held_waits_not c.state));
  done = λ h. absurd (let (started, _) = startable_lem now c q in ground arith);
  attempts = inr (rw ((expire_keeps now c).2) refl, refl, (startable_lem now c q).1, refl, refl);
}

lease_each-IsRound :
    (now : ℕ) (i : LeaseInput) (ps : List Approval) (n : ℕ) (cs : List Command) (s : World)
    → Evolves (IsRound now i) cs (lease_each now i ps n cs s).commands
unfolding lease_each
lease_each-IsRound now i ps n [] s = tt
lease_each-IsRound now i ps n (c ∷ cs) s =
    elim (Option-cases (deployment_for i.server_id c.deployment_id s.deployments)) [
      | inl e ↦ rw (lease_each, e) (IsRound-refl now i c, lease_each-IsRound now i ps n cs s)
      | inr (d, e) ↦ elim (Bool-cases (leb (or_else i.limit 10) n)) [
        | inl t ↦ rw (lease_each, e, t) (IsRound-refl now i c, lease_each-IsRound now i ps n cs s)
        | inr f ↦
            let x = expire now (end_lease now c) in
            let v = expire_effects now (end_lease now c) s in
            elim (Bool-cases (is_queued x.state && is_approved now ps x)) [
              | inr stop ↦
                  rw (lease_each, e, f, stop)
                    (IsRound-expire now i c, lease_each-IsRound now i ps n cs v)
              | inl go ↦
                  let this = IsRound-take now i c (ground arith) in
                  elim (Option-cases (runtime_of d.agent_id s)) [
                    | inl gone ↦
                        rw (lease_each, e, f, go, gone)
                          (this, Evolves-refl (IsRound now i) (IsRound-refl now i) cs)
                    | inr (r, here) ↦
                        rw (lease_each, e, f, go, here)
                          (this, lease_each-IsRound now i ps (suc n) cs v)
                  ]
            ]
      ]
    ]

-- A lease call, whatever it answers, keeps each stored command's place in the order of priority and
-- age, its identifier and its action. A command that some server holds, its lease not run out, and
-- one that has come to an end, it does not change at all. Where an attempt begins, the command has
-- not expired, the attempt is the next one, and the command is leased to the calling server, until
-- the seconds that it asks for, or 60, are over; where none begins, the attempts stay, and the
-- command is as it was or held by no server.
pub lease_control_commands-IsRound :
    (now : ℕ) (i : LeaseInput) (s : Store)
    → Evolves (IsRound now i) (sort_commands s.commands) (lease_control_commands now i s).0.commands
unfolding lease_control_commands
lease_control_commands-IsRound now i s =
    lease_each-IsRound now i s.approvals 0 (sort_commands s.commands) s.world
