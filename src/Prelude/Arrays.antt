-- ===== src/Prelude/Arrays.antt =====
-- JavaScript arrays: `find`, `filter`, `some`, and writes through the objects that they return.
use Prim.Native.Nat.{ℕ, ◌+◌, ◌≤◌}
use mathlib.Core.Path.{◌≡◌, refl, ap, ◌∙◌}
use mathlib.Core.Logic.{inl, inr}
use mathlib.Core.Bool.{Bool, true, false, ◌||◌}
use mathlib.Core.List.{List, [], ◌∷◌, ◌++◌, map}
use mathlib.Core.Option.{Option, none, some}
use native.Mathlib.Omega.{arith}
use bai_rui_cloud_agent_plat.Prelude.Tests.{Option-cases, if◌then◌else◌, Bool-cases}
use bai_rui_cloud_agent_plat.Prelude.Lists.{All}

module _ {ℓ} {A : Type ℓ} where
  -- `xs.find(p)`; `undefined` is `none`
  abbrev pub find? : (A → Bool) → List A → Option A
  find? p [] = none
  find? p (x ∷ xs) = if p x then some x else find? p xs

  -- `xs.findLast(p)`
  abbrev pub find_last? : (A → Bool) → List A → Option A
  find_last? p [] = none
  find_last? p (x ∷ xs) = elim (find_last? p xs) [
    | some y ↦ some y
    | none ↦ if p x then some x else none
  ]

  -- A write to the object that `xs.findLast(p)` returns.
  abbrev pub update_last : (A → Bool) → (A → A) → List A → List A
  update_last p f [] = []
  update_last p f (x ∷ xs) = elim (find_last? p xs) [
    | some _ ↦ x ∷ update_last p f xs
    | none ↦ if p x then f x ∷ xs else x ∷ xs
  ]

  -- `xs.some(p)`
  abbrev pub any : (A → Bool) → List A → Bool
  any p [] = false
  any p (x ∷ xs) = p x || any p xs

  -- `xs.filter(p)`
  abbrev pub filter : (A → Bool) → List A → List A
  filter p [] = []
  filter p (x ∷ xs) = let rest = filter p xs in if p x then x ∷ rest else rest

  -- A write to the object that `xs.find(p)` returns.
  abbrev pub update_first : (A → Bool) → (A → A) → List A → List A
  update_first p f [] = []
  update_first p f (x ∷ xs) = let rest = update_first p f xs in if p x then f x ∷ xs else x ∷ rest

  -- A write to every object that `xs.filter(p)` returns.
  abbrev pub update_where : (A → Bool) → (A → A) → List A → List A
  update_where p f [] = []
  update_where p f (x ∷ xs) = (if p x then f x else x) ∷ update_where p f xs

  -- How many elements pass a test.
  abbrev pub count : (A → Bool) → List A → ℕ
  count p [] = 0
  count p (x ∷ xs) = (if p x then 1 else 0) + count p xs

module _ {ℓ κ} {A : Type ℓ} (P : A → Type κ) (p : A → Bool) where
  pub find?-All : (xs : List A) {x : A} → find? p xs ≡ some x → All P xs → P x × (p x ≡ true)
  find?-All [] e h = cc
  find?-All (y ∷ ys) {x} e h = elim (Bool-cases (p y)) [
    | inl t ↦ let same : y ≡ x = ground arith in (rw (← same) h.0, rw (← same) t)
    | inr f ↦ find?-All ys (rw (f, if◌then◌else◌) at e) h.1
  ]

  pub find?-none : (xs : List A) → find? p xs ≡ none → All (λ x. p x ≡ false) xs
  find?-none [] e = tt
  find?-none (x ∷ xs) e = elim (Bool-cases (p x)) [
    | inl t ↦ absurd (ground arith)
    | inr f ↦ (f, find?-none xs (rw (f, if◌then◌else◌) at e))
  ]

  pub filter-All : (xs : List A) → All P xs → All (λ x. P x × (p x ≡ true)) (filter p xs)
  filter-All [] h = tt
  filter-All (x ∷ xs) h = elim (Bool-cases (p x)) [
    | inl t ↦ rw t ((h.0, t), filter-All xs h.1)
    | inr f ↦ rw f (filter-All xs h.1)
  ]

  pub update_first-All :
      (f : A → A) (xs : List A)
      → ((x : A) → p x ≡ true → P x → P (f x))
      → All P xs
      → All P (update_first p f xs)
  update_first-All f [] step h = tt
  update_first-All f (x ∷ xs) step h = elim (Bool-cases (p x)) [
    | inl t ↦ rw t (step x t h.0, h.1)
    | inr e ↦ rw e (h.0, update_first-All f xs step h.1)
  ]

  -- The write reaches the object that `find` returns.
  pub update_found-All :
      (f : A → A) (xs : List A) {x : A}
      → find? p xs ≡ some x
      → P (f x)
      → All P xs
      → All P (update_first p f xs)
  update_found-All f [] e h all = tt
  update_found-All f (y ∷ ys) {x} e h all = elim (Bool-cases (p y)) [
    | inl t ↦ let same : x ≡ y = ground arith in rw t (rw same at h, all.1)
    | inr n ↦ rw n (all.0, update_found-All f ys (rw (n, if◌then◌else◌) at e) h all.1)
  ]

  pub update_where-All :
      (f : A → A) (xs : List A)
      → ((x : A) → p x ≡ true → P x → P (f x))
      → All P xs
      → All P (update_where p f xs)
  update_where-All f [] step h = tt
  update_where-All f (x ∷ xs) step h = elim (Bool-cases (p x)) [
    | inl t ↦ rw t (step x t h.0, update_where-All f xs step h.1)
    | inr e ↦ rw e (h.0, update_where-All f xs step h.1)
  ]

-- A write that keeps a key keeps the list of keys.
module _ {ℓ κ} {A : Type ℓ} {B : Type κ} (key : A → B) (p : A → Bool) (f : A → A) where
  pub map-update_first :
      ((x : A) → key (f x) ≡ key x) → (xs : List A) → map key (update_first p f xs) ≡ map key xs
  map-update_first keep [] = refl
  map-update_first keep (x ∷ xs) = elim (Bool-cases (p x)) [
    | inl t ↦ rw t (ap (λ k. k ∷ map key xs) (keep x))
    | inr e ↦ rw e (ap (λ ks. key x ∷ ks) (map-update_first keep xs))
  ]

  pub map-update_where :
      ((x : A) → key (f x) ≡ key x) → (xs : List A) → map key (update_where p f xs) ≡ map key xs
  map-update_where keep [] = refl
  map-update_where keep (x ∷ xs) = elim (Bool-cases (p x)) [
    | inl t ↦ rw t (λ i. keep x i ∷ map-update_where keep xs i)
    | inr e ↦ rw e (ap (λ ks. key x ∷ ks) (map-update_where keep xs))
  ]

module _ {ℓ} {A : Type ℓ} (p : A → Bool) where
  pub count-append : (xs ys : List A) → count p (xs ++ ys) ≡ count p xs + count p ys
  count-append [] ys = omega arith
  count-append (x ∷ xs) ys = omega (arith, count-append xs ys)

  pub count-pos_of_any : (xs : List A) → any p xs ≡ true → 1 ≤ count p xs
  count-pos_of_any [] h = cc
  count-pos_of_any (x ∷ xs) h = ground (arith, count-pos_of_any xs)

  pub count-zero_of_any : (xs : List A) → any p xs ≡ false → count p xs ≡ 0
  count-zero_of_any [] h = refl
  count-zero_of_any (x ∷ xs) h = ground (arith, count-zero_of_any xs)

module _ {ℓ} {A : Type ℓ} (p : A → Bool) where
  -- What `find` gives in a list that has grown.
  pub find?-append_some :
      (xs ys : List A) {x : A} → find? p xs ≡ some x → find? p (xs ++ ys) ≡ some x
  find?-append_some [] ys {x} e = cc
  find?-append_some (y ∷ xs) ys {x} e = ground (arith, find?-append_some xs ys {x = x})

  pub find?-append_none : (xs ys : List A) → find? p xs ≡ none → find? p (xs ++ ys) ≡ find? p ys
  find?-append_none [] ys e = refl
  find?-append_none (x ∷ xs) ys e = ground (arith, find?-append_none xs ys)

  -- A write that keeps the test is what `find` gives afterwards.
  pub find?-update_first :
      (f : A → A) (xs : List A) {x : A}
      → ((y : A) → p (f y) ≡ p y)
      → find? p xs ≡ some x
      → find? p (update_first p f xs) ≡ some (f x)
  find?-update_first f [] keep e = absurd (cc)
  find?-update_first f (y ∷ ys) {x} keep e = elim (Bool-cases (p y)) [
    | inl t ↦
        let same : y ≡ x = ground arith in rw t (rw (keep y) (rw t (ap (λ z. some (f z)) same)))
    | inr n ↦ rw n (rw n (find?-update_first f ys keep (rw (n, if◌then◌else◌) at e)))
  ]

  pub find?-test : (xs : List A) {x : A} → find? p xs ≡ some x → p x ≡ true
  find?-test [] e = cc
  find?-test (y ∷ ys) {x} e = elim (Bool-cases (p y)) [
    | inl t ↦ let same : y ≡ x = ground arith in rw (← same) t
    | inr n ↦ find?-test ys (rw (n, if◌then◌else◌) at e)
  ]

  pub find_last?-test : (xs : List A) {x : A} → find_last? p xs ≡ some x → p x ≡ true
  find_last?-test [] e = absurd (cc)
  find_last?-test (y ∷ ys) {x} e = elim (Option-cases (find_last? p ys)) [
    | inr (z, h) ↦ find_last?-test ys (h ∙ (rw h at e))
    | inl h ↦ elim (Bool-cases (p y)) [
      | inl t ↦ let same : y ≡ x = (let r = rw (h, t) at e in cc) in rw (← same) t
      | inr n ↦ absurd (let r = rw (h, n) at e in cc)
    ]
  ]
