-- ===== src/Prelude/Evolution.antt =====
-- A list that only grows at its end, while its elements change by a relation.
use mathlib.Core.Path.{◌≡◌}
use mathlib.Core.Logic.{inl, inr}
use mathlib.Core.Bool.{Bool, true}
use mathlib.Core.List.{List, [], ◌∷◌, ◌++◌}
use Prim.Native.Nat.{ℕ, suc}
use bai_rui_cloud_agent_plat.Prelude.Tests.{Bool-cases}
use bai_rui_cloud_agent_plat.Prelude.Arrays.{update_first}
use bai_rui_cloud_agent_plat.Prelude.Select.{update_at, contains, Picks}

abbrev pub Evolves {ℓ} : {A : Type ℓ} → (A → A → Type 0) → List A → List A → Type 0
Evolves R [] ys = Unit
Evolves R (x ∷ xs) [] = ⊥
Evolves R (x ∷ xs) (y ∷ ys) = R x y × Evolves R xs ys

module _ {ℓ} {A : Type ℓ} (R : A → A → Type 0) (R_refl : (x : A) → R x x) where
  pub Evolves-refl : (xs : List A) → Evolves R xs xs
  Evolves-refl [] = tt
  Evolves-refl (x ∷ xs) = (R_refl x, Evolves-refl xs)

  pub Evolves-append : (xs ys : List A) → Evolves R xs (xs ++ ys)
  Evolves-append [] ys = tt
  Evolves-append (x ∷ xs) ys = (R_refl x, Evolves-append xs ys)

  pub Evolves-update_first :
      (p : A → Bool) (f : A → A) (xs : List A)
      → ((x : A) → p x ≡ true → R x (f x))
      → Evolves R xs (update_first p f xs)
  Evolves-update_first p f [] step = tt
  Evolves-update_first p f (x ∷ xs) step = elim (Bool-cases (p x)) [
    | inl t ↦ rw t (step x t, Evolves-refl xs)
    | inr n ↦ rw n (R_refl x, Evolves-update_first p f xs step)
  ]

  pub Evolves-update_at :
      (p : A → Bool) (sel : List ℕ) (f : A → A) (n : ℕ) (xs : List A)
      → ((x : A) → p x ≡ true → R x (f x))
      → Picks p sel n xs
      → Evolves R xs (update_at sel f n xs)
  Evolves-update_at p sel f n [] step k = tt
  Evolves-update_at p sel f n (x ∷ xs) step k = elim (Bool-cases (contains n sel)) [
    | inl t ↦ rw t (step x (k.0 t), Evolves-update_at p sel f (suc n) xs step k.1)
    | inr e ↦ rw e (R_refl x, Evolves-update_at p sel f (suc n) xs step k.1)
  ]

pub Evolves-trans {ℓ} :
    {A : Type ℓ} (R : A → A → Type 0)
    → ((x y z : A) → R x y → R y z → R x z)
    → (xs ys zs : List A) → Evolves R xs ys
    → Evolves R ys zs
    → Evolves R xs zs
Evolves-trans R trans [] ys zs h k = tt
Evolves-trans R trans (x ∷ xs) (y ∷ ys) (z ∷ zs) h k =
    (trans x y z h.0 k.0, Evolves-trans R trans xs ys zs h.1 k.1)
Evolves-trans R trans (x ∷ xs) (y ∷ ys) [] h k = absurd k
Evolves-trans R trans (x ∷ xs) [] zs h k = absurd h
