-- ===== src/Prelude/Chosen.antt =====
-- What the positions that `select` gives hold, before and after a write to positions.
use Prim.Native.Nat.{ℕ, zero, suc, ◌+◌}
use mathlib.Core.Path.{◌≡◌, refl, ◌∙◌, sym}
use mathlib.Core.Logic.{inl, inr}
use mathlib.Core.Bool.{Bool, true, false}
use mathlib.Core.List.{List, [], ◌∷◌}
use mathlib.Core.Option.{some}
use native.Mathlib.Omega.{arith}
use bai_rui_cloud_agent_plat.Prelude.Tests.{Bool-cases, leb}
use bai_rui_cloud_agent_plat.Prelude.Lists.{All, All-take, All-imp, get_elem?}
use bai_rui_cloud_agent_plat.Prelude.Select.{
  positions, insert_by, sort_by, contains, update_at, select,
}

module _ {ℓ} {A : Type ℓ} where
  -- A pair of a position and the element there, which passes the test.
  pub record Found (p : A → Bool) (n : ℕ) (xs : List A) (r : ℕ × A) : Type ℓ where
    pub offset : ℕ
    pub at : r.0 ≡ n + offset
    pub element : get_elem? xs offset ≡ some r.1
    pub passes : p r.1 ≡ true

  Found-suc :
      (p : A → Bool) (n : ℕ) (x : A) (xs : List A) (r : ℕ × A)
      → Found p (suc n) xs r
      → Found p n (x ∷ xs) r
  Found-suc p n x xs r f = record {
    offset = suc f.offset;
    at = f.at ∙ omega arith;
    element = f.element;
    passes = f.passes;
  }

  pub positions-Found : (p : A → Bool) (n : ℕ) (xs : List A) → All (Found p n xs) (positions p n xs)
  positions-Found p n [] = tt
  positions-Found p n (x ∷ xs) =
      let later =
        All-imp (Found p (suc n) xs) (Found p n (x ∷ xs)) (positions p (suc n) xs)
          (Found-suc p n x xs) (positions-Found p (suc n) xs) in
      elim (Bool-cases (p x)) [
        | inl t ↦ rw t (record { offset = 0; at = omega arith; element = refl; passes = t }, later)
        | inr e ↦ rw e later
      ]

  insert_by-All {κ} :
      (P : A → Type κ) (key : A → ℕ) (x : A) (xs : List A)
      → P x
      → All P xs
      → All P (insert_by key x xs)
  insert_by-All P key x [] h k = (h, tt)
  insert_by-All P key x (y ∷ ys) h k = elim (Bool-cases (leb (key x) (key y))) [
    | inl t ↦ rw t (h, k)
    | inr e ↦ rw e (k.0, insert_by-All P key x ys h k.1)
  ]

  pub sort_by-All {κ} :
      (P : A → Type κ) (key : A → ℕ) (xs : List A) → All P xs → All P (sort_by key xs)
  sort_by-All P key [] h = tt
  sort_by-All P key (x ∷ xs) h =
      insert_by-All P key x (sort_by key xs) h.0 (sort_by-All P key xs h.1)

  update_at-elem :
      (sel : List ℕ) (f : A → A) (n k : ℕ) (xs : List A) {x : A}
      → contains (n + k) sel ≡ true
      → get_elem? (update_at sel f n xs) k ≡ some x
      → (y : A) × (get_elem? xs k ≡ some y) × (x ≡ f y)
  update_at-elem sel f n k [] c e = absurd (cc)
  update_at-elem sel f n zero (y ∷ ys) {x} c e =
      let here : contains n sel ≡ true = rw (← (let z : n + 0 ≡ n = omega arith in z)) c in
      (y, refl, some_eq (sym e ∙ rw here))
    where
      some_eq : {a b : A} → some a ≡ some b → a ≡ b
      some_eq h = cc
  update_at-elem sel f n (suc k) (y ∷ ys) c e =
      update_at-elem sel f (suc n) k ys (rw (let z : suc n + k ≡ n + suc k = omega arith in z) c) e

module _ {ℓ} {A : Type ℓ} where
  pub select-Found :
      (p : A → Bool) (key : A → ℕ) (k : ℕ) (xs : List A) → All (Found p 0 xs) (select p key k xs)
  unfolding select
  select-Found p key k xs = All-take (Found p 0 xs) k _ (
      sort_by-All {A = ℕ × A} (Found p 0 xs) (λ r. key r.1) (positions p 0 xs)
        (positions-Found p 0 xs))

  -- After a write that makes the test fail, no position that was written is chosen.
  pub select-update_at_apart :
      (p : A → Bool) (key : A → ℕ) (k : ℕ) (sel : List ℕ) (f : A → A) (xs : List A)
      → ((x : A) → p (f x) ≡ false)
      → All (λ r. contains r.0 sel ≡ false) (select p key k (update_at sel f 0 xs))
  select-update_at_apart p key k sel f xs off =
      All-imp (Found p 0 (update_at sel f 0 xs)) _ _ apart
        (select-Found p key k (update_at sel f 0 xs))
    where
      apart : (r : ℕ × A) → Found p 0 (update_at sel f 0 xs) r → contains r.0 sel ≡ false
      apart r h = elim (Bool-cases (contains r.0 sel)) [
        | inr e ↦ e
        | inl t ↦
            let (y, here, same) = update_at-elem sel f 0 h.offset xs (rw (← h.at) t) h.element in
            let clash : p (f y) ≡ true = rw (← same) h.passes in absurd (ground (arith, off y))
      ]
