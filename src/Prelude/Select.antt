-- ===== src/Prelude/Select.antt =====
-- `xs.filter(p).sort(by key).slice(0, n)` as positions of `xs`, and the writes to the objects found.
use Prim.Native.Nat.{ℕ, zero, suc, ◌≤◌, ◌<◌}
use mathlib.Core.Path.{◌≡◌, refl, ap, ◌∙◌}
use mathlib.Core.Logic.{inl, inr}
use mathlib.Core.Bool.{Bool, true, false, ◌||◌}
use mathlib.Core.List.{List, [], ◌∷◌, map}
use native.Mathlib.Omega.{arith}
use bai_rui_cloud_agent_plat.Prelude.Tests.{if◌then◌else◌, Bool-cases, ◌==◌, leb}
use bai_rui_cloud_agent_plat.Prelude.Lists.{All, take, length, length-take_le}

module _ {ℓ} {A : Type ℓ} where
  -- The positions that pass the test, each with its element.
  abbrev pub positions : (A → Bool) → ℕ → List A → List (ℕ × A)
  positions p n [] = []
  positions p n (x ∷ xs) = let rest = positions p (suc n) xs in if p x then (n, x) ∷ rest else rest

  abbrev pub insert_by : (A → ℕ) → A → List A → List A
  insert_by key x [] = x ∷ []
  insert_by key x (y ∷ ys) =
      let rest = insert_by key x ys in if leb (key x) (key y) then x ∷ y ∷ ys else y ∷ rest

  -- `sort((a, b) => key(a) - key(b))`: stable, in ascending order.
  abbrev pub sort_by : (A → ℕ) → List A → List A
  sort_by key [] = []
  sort_by key (x ∷ xs) = insert_by key x (sort_by key xs)

abbrev pub contains : ℕ → List ℕ → Bool
contains n [] = false
contains n (m ∷ ms) = n == m || contains n ms

module _ {ℓ} {A : Type ℓ} where
  -- A write to the objects at some positions.
  abbrev pub update_at : List ℕ → (A → A) → ℕ → List A → List A
  update_at sel f n [] = []
  update_at sel f n (x ∷ xs) = (if contains n sel then f x else x) ∷ update_at sel f (suc n) xs

  -- `filter`, `sort` and `slice`, in that order.
  unfoldable pub select : (A → Bool) → (A → ℕ) → ℕ → List A → List (ℕ × A)
  select p key n xs = take n (sort_by (λ r. key r.1) (positions p 0 xs))

  -- Every selected position holds an element that passes the test.
  abbrev pub Picks : (A → Bool) → List ℕ → ℕ → List A → Type 0
  Picks p sel n [] = Unit
  Picks p sel n (x ∷ xs) = (contains n sel ≡ true → p x ≡ true) × Picks p sel (suc n) xs

  pub Picks-mono :
      (p : A → Bool) (s t : List ℕ) (n : ℕ) (xs : List A)
      → ((m : ℕ) → n ≤ m → contains m s ≡ true → contains m t ≡ true)
      → Picks p t n xs
      → Picks p s n xs
  Picks-mono p s t n [] sub h = tt
  Picks-mono p s t n (x ∷ xs) sub h = (
    λ e. h.0 (sub n (omega arith) e),
    Picks-mono p s t (suc n) xs (λ m le. sub m (omega arith)) h.1,
  )

  positions_above :
      (p : A → Bool) (m n : ℕ) (xs : List A)
      → m < n
      → contains m (map (λ (r : ℕ × A). r.0) (positions p n xs)) ≡ false
  positions_above p m n [] lt = refl
  positions_above p m n (x ∷ xs) lt = ground (arith, positions_above p m (suc n) xs)

  positions-Picks :
      (p : A → Bool) (n : ℕ) (xs : List A)
      → Picks p (map (λ (r : ℕ × A). r.0) (positions p n xs)) n xs
  positions-Picks p n [] = tt
  positions-Picks p n (x ∷ xs) = (
    λ e. ground (arith, positions_above p n (suc n) xs (omega arith)),
    Picks-mono p _ (map (λ (r : ℕ × A). r.0) (positions p (suc n) xs)) (suc n) xs
        (λ m le e. ground arith) (positions-Picks p (suc n) xs),
  )

  contains-insert_by :
      (key : ℕ × A → ℕ) (m : ℕ) (r : ℕ × A) (rs : List (ℕ × A))
      → contains m (map (λ (q : ℕ × A). q.0) (insert_by key r rs))
        ≡ (m == r.0 || contains m (map (λ (q : ℕ × A). q.0) rs))
  contains-insert_by key m r [] = refl
  contains-insert_by key m r (q ∷ rs) = ground (arith, contains-insert_by key m r rs)

  contains-sort_by :
      (key : ℕ × A → ℕ) (m : ℕ) (rs : List (ℕ × A))
      → contains m (map (λ (q : ℕ × A). q.0) (sort_by key rs))
        ≡ contains m (map (λ (q : ℕ × A). q.0) rs)
  contains-sort_by key m [] = refl
  contains-sort_by key m (r ∷ rs) =
      contains-insert_by key m r (sort_by key rs)
      ∙ ap (λ b. m == r.0 || b) (contains-sort_by key m rs)

  contains-take :
      (m k : ℕ) (rs : List (ℕ × A))
      → contains m (map (λ (q : ℕ × A). q.0) (take k rs)) ≡ true
      → contains m (map (λ (q : ℕ × A). q.0) rs) ≡ true
  contains-take m zero rs e = cc
  contains-take m (suc k) [] e = cc
  contains-take m (suc k) (r ∷ rs) e = ground (arith, contains-take m k rs)

  pub select-Picks :
      (p : A → Bool) (key : A → ℕ) (k : ℕ) (xs : List A)
      → Picks p (map (λ (r : ℕ × A). r.0) (select p key k xs)) 0 xs
  unfolding select
  select-Picks p key k xs =
      Picks-mono p _ (map (λ (r : ℕ × A). r.0) (positions p 0 xs)) 0 xs
        (λ m le e.
          rw (← contains-sort_by (λ r. key r.1) m (positions p 0 xs)) (contains-take m k _ e))
        (positions-Picks p 0 xs)

  pub length-select :
      (p : A → Bool) (key : A → ℕ) (k : ℕ) (xs : List A) → length (select p key k xs) ≤ k
  unfolding select
  length-select p key k xs = length-take_le k _

module _ {ℓ κ} {A : Type ℓ} (P : A → Type κ) (p : A → Bool) (sel : List ℕ) (f : A → A) where
  pub update_at-All :
      (n : ℕ) (xs : List A)
      → ((x : A) → p x ≡ true → P x → P (f x))
      → Picks p sel n xs
      → All P xs
      → All P (update_at sel f n xs)
  update_at-All n [] step k h = tt
  update_at-All n (x ∷ xs) step k h = elim (Bool-cases (contains n sel)) [
    | inl t ↦ rw t (step x (k.0 t) h.0, update_at-All (suc n) xs step k.1 h.1)
    | inr e ↦ rw e (h.0, update_at-All (suc n) xs step k.1 h.1)
  ]

module _ {ℓ κ} {A : Type ℓ} {B : Type κ} (key : A → B) (sel : List ℕ) (f : A → A) where
  pub map-update_at :
      ((x : A) → key (f x) ≡ key x)
      → (n : ℕ) (xs : List A) → map key (update_at sel f n xs) ≡ map key xs
  map-update_at keep n [] = refl
  map-update_at keep n (x ∷ xs) = elim (Bool-cases (contains n sel)) [
    | inl t ↦ rw t (λ i. keep x i ∷ map-update_at keep (suc n) xs i)
    | inr e ↦ rw e (ap (λ ks. key x ∷ ks) (map-update_at keep (suc n) xs))
  ]
