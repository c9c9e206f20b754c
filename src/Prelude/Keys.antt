-- ===== src/Prelude/Keys.antt =====
-- Lists whose elements have distinct keys, and tests on lists that grow.
use mathlib.Core.Path.{◌≡◌, refl}
use mathlib.Core.Logic.{◌≢◌}
use mathlib.Core.Bool.{Bool, false, ◌||◌}
use mathlib.Core.List.{List, [], ◌∷◌, ◌++◌, map, map-append}
use mathlib.Core.Option.{none}
use native.Mathlib.Omega.{arith}
use bai_rui_cloud_agent_plat.Prelude.Lists.{All, All-imp, All-map, Distinct, Distinct-snoc}
use bai_rui_cloud_agent_plat.Prelude.Arrays.{find?, find?-none, any}

module _ {ℓ} {A : Type ℓ} (p : A → Bool) where
  pub any-append : (xs ys : List A) → any p (xs ++ ys) ≡ (any p xs || any p ys)
  any-append [] ys = refl
  any-append (x ∷ xs) ys = ground (arith, any-append xs ys)

  pub any-false_All : (xs : List A) → any p xs ≡ false → All (λ x. p x ≡ false) xs
  any-false_All [] e = tt
  any-false_All (x ∷ xs) e = (ground arith, any-false_All xs (ground arith))

module _ {ℓ κ} {A : Type ℓ} {B : Type κ} (key : A → B) (p : A → Bool) (y : A) where
  -- An element that no element of the list is found to match can be added.
  pub push-Distinct :
      (xs : List A)
      → ((x : A) → p x ≡ false → key x ≢ key y)
      → All (λ x. p x ≡ false) xs
      → Distinct (map key xs)
      → Distinct (map key (xs ++ y ∷ []))
  push-Distinct xs apart unmatched d = rw (map-append key xs (y ∷ [])) (
      Distinct-snoc (map key xs) (key y) d
        (All-map (λ k. k ≢ key y) key xs (All-imp _ _ xs apart unmatched)))

  pub push_found-Distinct :
      (xs : List A)
      → ((x : A) → p x ≡ false → key x ≢ key y)
      → find? p xs ≡ none
      → Distinct (map key xs)
      → Distinct (map key (xs ++ y ∷ []))
  push_found-Distinct xs apart e d = push-Distinct xs apart (find?-none (λ _. Unit {0}) p xs e) d
