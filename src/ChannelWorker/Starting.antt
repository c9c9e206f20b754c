-- ===== src/ChannelWorker/Starting.antt =====
-- The rounds of the second loop of refreshInventory in packages/channels/worker.mjs.
use bai_rui_cloud_agent_plat.Prelude.{
  ℕ, Bool, true, false, ◌&&◌, ◌||◌, String, Option, none, some, List, ◌===◌, ==_iff, eq_iff,
  is_some, if◌then◌else◌, ◌≡◌, ◌∙◌, refl, ap, subst, arith, Bool-cases, inl, inr, lookup, put,
  lookup-put_same, lookup-put_other,
}
use bai_rui_cloud_agent_plat.ChannelWorker.{
  Descriptor, Host, Worker, Started, running, not_running, thrown, start_outcome, generation_of,
  is_number, adapter_of, after_start, start_one,
}
use bai_rui_cloud_agent_plat.ChannelWorker.Dropping.{IsPaired}

abbrev pub is_running : Started → Bool
is_running running = true
is_running _ = false

-- The generation recorded for a binding after the second loop, from the one before it.
abbrev pub settled : Host → String → Option Descriptor → Option ℕ → Option ℕ
settled host worker none g = g
settled host worker (some d) g =
    if is_number g (generation_of d) || is_running (start_outcome host worker d)
    then some (generation_of d)
    else g

is_number-some : (g : Option ℕ) (n : ℕ) → is_number g n ≡ true → g ≡ some n
is_number-some none n h = cc
is_number-some (some m) n h = ap some ((==_iff m n).0 h)

after_start-generations :
    (o : Started) (d : Descriptor) (w : Worker) (k : String)
    → lookup k (after_start o d w).0.generations
      ≡ (if d.id === k && is_running o then some (generation_of d) else lookup k w.generations)
unfolding after_start
after_start-generations running d w k = elim (Bool-cases (d.id === k)) [
  | inl t ↦ rw t (rw ((eq_iff d.id k).0 t) (lookup-put_same k (generation_of d) w.generations))
  | inr f ↦ rw f (lookup-put_other d.id k (generation_of d) w.generations f)
]
after_start-generations not_running d w k = elim (Bool-cases (d.id === k)) [
  | inl t ↦ rw t refl
  | inr f ↦ rw f refl
]
after_start-generations thrown d w k = elim (Bool-cases (d.id === k)) [
  | inl t ↦ rw t refl
  | inr f ↦ rw f refl
]

both_put {ℓ κ} :
    {V : Type ℓ} {W : Type κ} (j k : String) (v : V) (x : W) (m : List (String × V))
    (n : List (String × W))
    → is_some (lookup k m) ≡ is_some (lookup k n)
    → is_some (lookup k (put j v m)) ≡ is_some (lookup k (put j x n))
both_put j k v x m n h = elim (Bool-cases (j === k)) [
  | inl t ↦ rw ((eq_iff j k).0 t) (rw (lookup-put_same k v m, lookup-put_same k x n) refl)
  | inr f ↦ rw (lookup-put_other j k v m f, lookup-put_other j k x n f) h
]

after_start-IsPaired :
    (o : Started) (d : Descriptor) (w : Worker) → IsPaired w → IsPaired (after_start o d w).0
unfolding after_start
after_start-IsPaired running d w p = record {
  paired = λ k.
      both_put d.id k (adapter_of w.worker_id d) (generation_of d) w.adapters w.generations
        (p.paired k);
}
after_start-IsPaired not_running d w p = p
after_start-IsPaired thrown d w p = p

after_start-worker_id :
    (o : Started) (d : Descriptor) (w : Worker) → (after_start o d w).0.worker_id ≡ w.worker_id
unfolding after_start
after_start-worker_id running d w = refl
after_start-worker_id not_running d w = refl
after_start-worker_id thrown d w = refl

abbrev runs_already : Descriptor → Worker → Bool
runs_already d w =
    is_some (lookup d.id w.adapters) && is_number (lookup d.id w.generations) (generation_of d)

module _ (host : Host) (d : Descriptor) (w : Worker) where
  pub start_one-worker_id : (start_one host d w).0.worker_id ≡ w.worker_id
  unfolding start_one
  start_one-worker_id = elim (Bool-cases (runs_already d w)) [
    | inl t ↦ rw t refl
    | inr f ↦ rw f (after_start-worker_id (start_outcome host w.worker_id d) d w)
  ]

  pub start_one-IsPaired : IsPaired w → IsPaired (start_one host d w).0
  unfolding start_one
  start_one-IsPaired p = elim (Bool-cases (runs_already d w)) [
    | inl t ↦ rw t p
    | inr f ↦ rw f (after_start-IsPaired (start_outcome host w.worker_id d) d w p)
  ]

  runs_recorded : runs_already d w ≡ true → lookup d.id w.generations ≡ some (generation_of d)
  runs_recorded t = is_number-some (lookup d.id w.generations) (generation_of d) (ground arith)

  not_recorded :
      IsPaired w
      → runs_already d w ≡ false
      → is_number (lookup d.id w.generations) (generation_of d) ≡ false
  not_recorded p f = elim (Bool-cases (is_number (lookup d.id w.generations) (generation_of d))) [
    | inr n ↦ n
    | inl t ↦
        let e = is_number-some (lookup d.id w.generations) (generation_of d) t in
        let there : is_some (lookup d.id w.adapters) ≡ true = p.paired d.id ∙ ap is_some e in
        absurd (ground arith)
  ]

  settled_already :
      (k : String)
      → lookup d.id w.generations ≡ some (generation_of d)
      → lookup k w.generations
        ≡ settled host w.worker_id (if d.id === k then some d else none) (lookup k w.generations)
  settled_already k h = elim (Bool-cases (d.id === k)) [
    | inr f ↦ rw f refl
    | inl t ↦
        let e = (eq_iff d.id k).0 t in
        let g : lookup k w.generations ≡ some (generation_of d) =
          subst (λ x. lookup x w.generations ≡ some (generation_of d)) e h in
        rw t (rw g (rw ((==_iff (generation_of d) (generation_of d)).1 refl) refl))
  ]

  settled_anew :
      (k : String)
      → is_number (lookup d.id w.generations) (generation_of d) ≡ false
      → (if d.id === k && is_running (start_outcome host w.worker_id d)
          then some (generation_of d)
          else lookup k w.generations)
        ≡ settled host w.worker_id (if d.id === k then some d else none) (lookup k w.generations)
  settled_anew k n = elim (Bool-cases (d.id === k)) [
    | inr f ↦ rw f refl
    | inl t ↦
        let e = (eq_iff d.id k).0 t in
        let g : is_number (lookup k w.generations) (generation_of d) ≡ false =
          subst (λ x. is_number (lookup x w.generations) (generation_of d) ≡ false) e n in
        rw t (rw g refl)
  ]

  pub start_one-generations :
      (k : String)
      → IsPaired w
      → lookup k (start_one host d w).0.generations
        ≡ settled host w.worker_id (if d.id === k then some d else none) (lookup k w.generations)
  unfolding start_one
  start_one-generations k p = elim (Bool-cases (runs_already d w)) [
    | inl t ↦ rw t (settled_already k (runs_recorded t))
    | inr f ↦ rw f (
        after_start-generations (start_outcome host w.worker_id d) d w k
        ∙ settled_anew k (not_recorded p f))
  ]
