-- ===== src/Retention/Purged.antt =====
-- What a purge of one collection leaves (packages/db/memory-repository.mjs).
use bai_rui_cloud_agent_plat.Prelude.{
  All, Bool-cases, In, List, Option, String, [], arith, eq_iff, false, inl, inr, leb, none, not,
  refl, some, true, ℕ, ◌*◌, ◌+◌, ◌<◌, ◌===◌, ◌||◌, ◌∷◌, ◌≡◌, ◌≤◌, ◌⊎◌,
}
use bai_rui_cloud_agent_plat.Retention.Data.{is_recent, day}
use bai_rui_cloud_agent_plat.Retention.{purge, keeps}

-- An item of another organization, or one of the last days. What bears no date counts as recent.
abbrev pub IsRecent : ℕ → ℕ → String → String → Option ℕ → Type 0
IsRecent now days id organization none = Unit
IsRecent now days id organization (some t) =
    ((organization === id) ≡ false) ⊎ (now ≤ t + days * 86400000)

abbrev pub IsOld : ℕ → ℕ → Option ℕ → Type 0
IsOld now days none = false ≡ true
IsOld now days (some t) = t + days * 86400000 < now

is_recent-cases :
    (now days : ℕ) (t : Option ℕ) → (is_recent now (days * day) t ≡ true) ⊎ IsOld now days t
is_recent-cases now days none = inl refl
is_recent-cases now days (some t) = elim (Bool-cases (leb now (t + days * day))) [
  | inl u ↦ inl u
  | inr u ↦ inr (ground arith)
]

keeps-IsRecent :
    (now days : ℕ) (id organization : String) (t : Option ℕ)
    → (not (organization === id) || is_recent now (days * day) t) ≡ true
    → IsRecent now days id organization t
keeps-IsRecent now days id organization none h = tt
keeps-IsRecent now days id organization (some t) h = elim (Bool-cases (organization === id)) [
  | inr n ↦ inl n
  | inl u ↦ inr (ground arith)
]

module _ {A : Type 0} (organization : A → String) (time : A → Option ℕ) (now days : ℕ)
    (id : String) where
  pub purge-IsRecent :
      (xs : List A)
      → All
          (λ x. IsRecent now days id (organization x) (time x))
          (purge organization time now (days * day) id xs)
  unfolding purge
  purge-IsRecent [] = tt
  purge-IsRecent (x ∷ xs) = elim (Bool-cases (keeps organization time now (days * day) id x)) [
    | inl t ↦
        rw (purge, t) (keeps-IsRecent now days id (organization x) (time x) t, purge-IsRecent xs)
    | inr n ↦ rw (purge, n) (purge-IsRecent xs)
  ]

  pub In-purge :
      (xs : List A) (x : A)
      → In x xs
      → keeps organization time now (days * day) id x ≡ true
      → In x (purge organization time now (days * day) id xs)
  unfolding purge
  In-purge [] x m k = m
  In-purge (y ∷ ys) x m k = elim (Bool-cases (keeps organization time now (days * day) id y)) [
    | inl t ↦ rw (purge, t) (elim m [ inl e ↦ inl e | inr l ↦ inr (In-purge ys x l k) ])
    | inr n ↦
        rw (purge, n)
          (elim m [ inl e ↦ absurd (let z = rw e at n in cc) | inr l ↦ In-purge ys x l k ])
  ]

  -- What a purge leaves of some items, where the days are those of each item's own organization.
  pub purge-spares :
      (own : A → ℕ) (xs zs : List A)
      → ((x : A) → organization x ≡ id → own x ≡ days)
      → All (λ x. IsOld now (own x) (time x) ⊎ In x xs) zs
      → All
          (λ x. IsOld now (own x) (time x) ⊎ In x (purge organization time now (days * day) id xs))
          zs
  purge-spares own xs [] same h = tt
  purge-spares own xs (z ∷ zs) same h = (
    elim (h.0) [
      | inl old ↦ inl old
      | inr m ↦ elim (Bool-cases (organization z === id)) [
        | inr n ↦ inr (In-purge xs z m (rw n refl))
        | inl t ↦
            let days_are = same z ((eq_iff (organization z) id).0 t) in
            elim (is_recent-cases now (own z) (time z)) [
              | inr old ↦ inl old
              | inl u ↦ inr (In-purge xs z m (rw (t, rw days_are at u) refl))
            ]
      ]
    ],
    purge-spares own xs zs same h.1,
  )

  pub purge-All :
      (P : A → Type 0) (xs : List A)
      → All P xs
      → All P (purge organization time now (days * day) id xs)
  unfolding purge
  purge-All P [] h = tt
  purge-All P (x ∷ xs) h = elim (Bool-cases (keeps organization time now (days * day) id x)) [
    | inl t ↦ rw (purge, t) (h.0, purge-All P xs h.1)
    | inr n ↦ rw (purge, n) (purge-All P xs h.1)
  ]
