-- ===== src/ChannelWorker/Rounds.antt =====
-- The two loops of refreshInventory in packages/channels/worker.mjs.
use bai_rui_cloud_agent_plat.Prelude.{
  ℕ, Bool, true, false, String, Option, none, some, List, [], ◌∷◌, map, any, ◌===◌, eq_iff, is_some,
  if◌then◌else◌, ◌≡◌, ◌≢◌, ◌∙◌, refl, sym, subst, All, Distinct, Bool-cases, Option-cases, inl, inr,
  lookup,
}
use bai_rui_cloud_agent_plat.ChannelWorker.{
  Descriptor, Host, Worker, latest, drop_each, proceed, start_one, start_each,
}
use bai_rui_cloud_agent_plat.ChannelWorker.Dropping.{
  IsPaired, stays, keeps_of, drop_each-generations, drop_each-adapters,
}
use bai_rui_cloud_agent_plat.ChannelWorker.Starting.{
  settled, start_one-worker_id, start_one-IsPaired, start_one-generations,
}

latest-unlisted :
    (k : String) (ds : List Descriptor)
    → All (λ i. k ≢ i) (map (λ (d : Descriptor). d.id) ds)
    → latest k ds ≡ none
unfolding latest
latest-unlisted k [] h = refl
latest-unlisted k (d ∷ ds) h = elim (Bool-cases (d.id === k)) [
  | inl t ↦ absurd (h.0 (sym ((eq_iff d.id k).0 t)))
  | inr f ↦ rw (latest-unlisted k ds h.1) (rw f refl)
]

-- The first descriptor is tried for its own binding, the others for theirs.
settled-cons :
    (host : Host) (worker k : String) (d : Descriptor) (ds : List Descriptor) (g : Option ℕ)
    → Distinct (map (λ (d : Descriptor). d.id) (d ∷ ds))
    → settled host worker
        (latest k ds)
        (settled host worker (if d.id === k then some d else none) g)
      ≡ settled host worker (latest k (d ∷ ds)) g
unfolding latest
settled-cons host worker k d ds g u = elim (Bool-cases (d.id === k)) [
  | inr f ↦ elim (Option-cases (latest k ds)) [
    | inl n ↦ rw n (rw f refl)
    | inr (e, m) ↦ rw m (rw f refl)
  ]
  | inl t ↦
      let n : latest k ds ≡ none =
        subst (λ x. latest x ds ≡ none) ((eq_iff d.id k).0 t) (latest-unlisted d.id ds u.0) in
      rw n (rw t refl)
]

proceed-false : (r rest : Worker × Bool) → r.1 ≡ false → proceed r rest ≡ rest
proceed-false (w, true) rest h = cc
proceed-false (w, false) rest h = refl

proceed-true : (r rest : Worker × Bool) → r.1 ≡ true → (proceed r rest).1 ≡ true
proceed-true (w, true) rest h = refl
proceed-true (w, false) rest h = cc

proceed-IsPaired :
    (r rest : Worker × Bool) → IsPaired r.0 → IsPaired rest.0 → IsPaired (proceed r rest).0
proceed-IsPaired (w, true) rest p q = p
proceed-IsPaired (w, false) rest p q = q

is_some-stays {ℓ κ} :
    {V : Type ℓ} {W : Type κ} (listed kept : Bool) (v : Option V) (x : Option W)
    → is_some v ≡ is_some x
    → is_some (stays listed kept v) ≡ is_some (stays listed kept x)
is_some-stays false kept v x h = h
is_some-stays true true v x h = h
is_some-stays true false v x h = refl

module _ (host : Host) (d : Descriptor) (ds : List Descriptor) (w : Worker) where
  goes_on :
      (start_one host d w).1 ≡ false
      → start_each host (d ∷ ds) w ≡ start_each host ds (start_one host d w).0
  unfolding start_each
  goes_on f = proceed-false (start_one host d w) _ f

  gives_up : (start_one host d w).1 ≡ true → (start_each host (d ∷ ds) w).1 ≡ true
  unfolding start_each
  gives_up t = proceed-true (start_one host d w) _ t

  did_not_throw : (start_each host (d ∷ ds) w).1 ≡ false → (start_one host d w).1 ≡ false
  did_not_throw e = elim (Bool-cases (start_one host d w).1) [
    | inr f ↦ f
    | inl t ↦ let h = gives_up t in absurd (cc)
  ]

start_each-empty :
    (host : Host) (w : Worker) (k : String)
    → lookup k (start_each host [] w).0.generations
      ≡ settled host w.worker_id (latest k []) (lookup k w.generations)
unfolding start_each latest
start_each-empty host w k = refl

pub start_each-generations :
    (host : Host) (ds : List Descriptor) (w : Worker) (k : String)
    → Distinct (map (λ (d : Descriptor). d.id) ds)
    → IsPaired w
    → (start_each host ds w).1 ≡ false
    → lookup k (start_each host ds w).0.generations
      ≡ settled host w.worker_id (latest k ds) (lookup k w.generations)
start_each-generations host [] w k u p e = start_each-empty host w k
start_each-generations host (d ∷ ds) w k u p e =
    let f = did_not_throw host d ds w e in
    let same = goes_on host d ds w f in
    let rest =
      start_each-generations host ds (start_one host d w).0 k u.1 (start_one-IsPaired host d w p)
        (rw same at e) in
    rw same (
      rw (start_one-worker_id host d w, start_one-generations host d w k p) at rest
      ∙ settled-cons host w.worker_id k d ds (lookup k w.generations) u)

pub start_each-IsPaired :
    (host : Host) (ds : List Descriptor) (w : Worker)
    → IsPaired w
    → IsPaired (start_each host ds w).0
unfolding start_each
start_each-IsPaired host [] w p = p
start_each-IsPaired host (d ∷ ds) w p =
    let q = start_one-IsPaired host d w p in
    proceed-IsPaired (start_one host d w) (start_each host ds (start_one host d w).0) q
      (start_each-IsPaired host ds (start_one host d w).0 q)

pub drop_each-IsPaired :
    (ds : List Descriptor) (ids : List String) (w : Worker)
    → IsPaired w
    → IsPaired (drop_each ds ids w)
drop_each-IsPaired ds ids w p = record {
  paired = λ k.
      rw (drop_each-adapters ds k ids w, drop_each-generations ds k ids w)
        (is_some-stays (any (λ j. j === k) ids) (keeps_of ds k w) (lookup k w.adapters)
          (lookup k w.generations) (p.paired k));
}
