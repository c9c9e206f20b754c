-- ===== src/Prelude/Cells.antt =====
-- Writes to one place of a list, membership, and how often a test holds.
use Prim.Native.Nat.{ℕ, zero, suc, ◌+◌, ◌≤◌}
use mathlib.Core.Path.{◌≡◌, refl, ap, sym, ◌∙◌}
use mathlib.Core.Logic.{◌⊎◌, inl, inr, ◌≢◌}
use mathlib.Core.Bool.{Bool, true, false}
use mathlib.Core.List.{List, [], ◌∷◌, ◌++◌, map}
use mathlib.Core.Option.{some}
use native.Mathlib.Omega.{arith}
use bai_rui_cloud_agent_plat.Prelude.Tests.{if◌then◌else◌, Bool-cases}
use bai_rui_cloud_agent_plat.Prelude.Lists.{All, get_elem?, Distinct}
use bai_rui_cloud_agent_plat.Prelude.Arrays.{find?, update_first, count, update_where}

module _ {ℓ} {A : Type ℓ} where
  -- A write out of bounds changes nothing.
  abbrev pub set : List A → ℕ → A → List A
  set [] i v = []
  set (x ∷ xs) zero v = v ∷ xs
  set (x ∷ xs) (suc i) v = x ∷ set xs i v

  abbrev pub weight : (A → Bool) → A → ℕ
  weight p x = if p x then 1 else 0

abbrev pub In : {A : Type 0} → A → List A → Type 0
In y [] = ⊥
In y (x ∷ xs) = (x ≡ y) ⊎ In y xs

module _ {ℓ} {A : Type ℓ} (p : A → Bool) where
  pub count-set :
      (xs : List A) (k : ℕ) (y : A) {x : A}
      → get_elem? xs k ≡ some x
      → count p (set xs k y) + weight p x ≡ count p xs + weight p y
  count-set [] k y e = cc
  count-set (z ∷ zs) zero y {x} e = let same : z ≡ x = ground arith in rw (← same) (omega arith)
  count-set (z ∷ zs) (suc k) y e = omega (arith, count-set zs k y e)

  pub count-update_first :
      (q : A → Bool) (f : A → A) (xs : List A) {x : A}
      → find? q xs ≡ some x
      → count p (update_first q f xs) + weight p x ≡ count p xs + weight p (f x)
  count-update_first q f [] e = cc
  count-update_first q f (z ∷ zs) {x} e = elim (Bool-cases (q z)) [
    | inl t ↦ let same : z ≡ x = ground arith in rw t (rw (← same) (omega arith))
    | inr n ↦ rw n (omega (arith, count-update_first q f zs (rw (n, if◌then◌else◌) at e)))
  ]

  pub count-zero_of_All : (xs : List A) → All (λ x. p x ≡ false) xs → count p xs ≡ 0
  count-zero_of_All [] h = refl
  count-zero_of_All (x ∷ xs) h = rw (h.0) (omega (arith, count-zero_of_All xs h.1))

  pub count-pos_of_find? : (xs : List A) {x : A} → find? p xs ≡ some x → 1 ≤ count p xs
  count-pos_of_find? [] e = absurd (cc)
  count-pos_of_find? (y ∷ ys) {x} e = elim (Bool-cases (p y)) [
    | inl t ↦ rw t (omega arith)
    | inr n ↦ rw n (omega (arith, count-pos_of_find? ys (rw (n, if◌then◌else◌) at e)))
  ]

  -- Writes that make the test hold nowhere anew.
  pub count-update_first_le :
      (q : A → Bool) (f : A → A) (xs : List A)
      → ((x : A) → q x ≡ true → weight p (f x) ≤ weight p x)
      → count p (update_first q f xs) ≤ count p xs
  count-update_first_le q f [] h = omega arith
  count-update_first_le q f (x ∷ xs) h = elim (Bool-cases (q x)) [
    | inl t ↦ rw t (omega (arith, h x t))
    | inr n ↦ rw n (omega (arith, count-update_first_le q f xs h))
  ]

  pub count-update_where_le :
      (q : A → Bool) (f : A → A) (xs : List A)
      → ((x : A) → q x ≡ true → weight p (f x) ≤ weight p x)
      → count p (update_where q f xs) ≤ count p xs
  count-update_where_le q f [] h = omega arith
  count-update_where_le q f (x ∷ xs) h = elim (Bool-cases (q x)) [
    | inl t ↦ rw t (omega (arith, h x t, count-update_where_le q f xs h))
    | inr n ↦ rw n (omega (arith, count-update_where_le q f xs h))
  ]

  pub count-update_where_zero :
      (q : A → Bool) (f : A → A) (xs : List A)
      → ((x : A) → p (if q x then f x else x) ≡ false)
      → count p (update_where q f xs) ≡ 0
  count-update_where_zero q f [] h = refl
  count-update_where_zero q f (x ∷ xs) h =
      rw (h x) (omega (arith, count-update_where_zero q f xs h))

module _ {A : Type 0} where
  pub In-get_elem? : (xs : List A) (k : ℕ) {x : A} → get_elem? xs k ≡ some x → In x xs
  In-get_elem? [] k e = absurd (cc)
  In-get_elem? (y ∷ ys) zero e = inl (cc)
  In-get_elem? (y ∷ ys) (suc k) e = inr (In-get_elem? ys k e)

  pub In-find? : (p : A → Bool) (xs : List A) {x : A} → find? p xs ≡ some x → In x xs
  In-find? p [] e = absurd (cc)
  In-find? p (y ∷ ys) e = elim (Bool-cases (p y)) [
    | inl t ↦ inl (ground arith)
    | inr n ↦ inr (In-find? p ys (rw (n, if◌then◌else◌) at e))
  ]

  pub In-middle : (xs : List A) (y : A) (zs : List A) → In y (xs ++ y ∷ zs)
  In-middle [] y zs = inl refl
  In-middle (x ∷ xs) y zs = inr (In-middle xs y zs)

module _ {A B : Type 0} (key : A → B) where
  pub map-set :
      (xs : List A) (k : ℕ) (y : A) {x : A}
      → get_elem? xs k ≡ some x
      → key y ≡ key x
      → map key (set xs k y) ≡ map key xs
  map-set [] k y e h = refl
  map-set (z ∷ zs) zero y {x} e h =
      let same : x ≡ z = ground arith in ap (λ b. b ∷ map key zs) (h ∙ ap key same)
  map-set (z ∷ zs) (suc k) y e h = ap (λ bs. key z ∷ bs) (map-set zs k y e h)

  key_apart :
      (x : A) (ys : List A) {j : A} → All (λ b. key x ≢ b) (map key ys) → In j ys → key x ≢ key j
  key_apart x (y ∷ ys) h (inl e) k = h.0 (k ∙ ap key (sym e))
  key_apart x (y ∷ ys) h (inr m) k = key_apart x ys h.1 m k
  key_apart x [] h m k = absurd m

  -- Where keys are distinct, an element is known by its key.
  pub unique_by_key :
      (xs : List A) (j : A) → Distinct (map key xs) → In j xs → All (λ x. key x ≡ key j → x ≡ j) xs
  unique_by_key [] j d m = tt
  unique_by_key (x ∷ xs) j d (inl e) = (λ _. e, others xs d.0)
    where
      others :
          (ys : List A) → All (λ b. key x ≢ b) (map key ys) → All (λ y. key y ≡ key j → y ≡ j) ys
      others [] h = tt
      others (y ∷ ys) h = (λ k. absurd (h.0 (ap key e ∙ sym k)), others ys h.1)
  unique_by_key (x ∷ xs) j d (inr m) =
      (λ k. absurd (key_apart x xs d.0 m k), unique_by_key xs j d.1 m)
