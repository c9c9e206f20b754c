-- ===== src/Prelude/Tables.antt =====
-- `Map` with string keys: a list in the order of insertion.
use mathlib.Core.Path.{◌≡◌, refl, ap}
use mathlib.Core.Logic.{inl, inr}
use mathlib.Core.Bool.{Bool, false}
use mathlib.Core.List.{List, [], ◌∷◌, map}
use mathlib.Core.Option.{Option, none, some}
use Prim.Native.String.{String}
use text.Mathlib.TextEquality.{eq_iff}
use native.Mathlib.Omega.{arith}
use bai_rui_cloud_agent_plat.Prelude.Tests.{◌===◌, if◌then◌else◌, Bool-cases}
use bai_rui_cloud_agent_plat.Prelude.Arrays.{any, update_first}

module _ {ℓ} {V : Type ℓ} where
  abbrev pub lookup : String → List (String × V) → Option V
  lookup k [] = none
  lookup k ((j, v) ∷ m) = if j === k then some v else lookup k m

  -- `set` keeps the place of a key that is there.
  abbrev pub put : String → V → List (String × V) → List (String × V)
  put k v [] = (k, v) ∷ []
  put k v ((j, w) ∷ m) = let rest = put k v m in if j === k then (j, v) ∷ m else (j, w) ∷ rest

  abbrev pub remove : String → List (String × V) → List (String × V)
  remove k [] = []
  remove k ((j, v) ∷ m) = let rest = remove k m in if j === k then rest else (j, v) ∷ rest

  pub lookup-remove_same : (k : String) (m : List (String × V)) → lookup k (remove k m) ≡ none
  lookup-remove_same k [] = refl
  lookup-remove_same k ((j, v) ∷ m) = elim (Bool-cases (j === k)) [
    | inl t ↦ rw t (lookup-remove_same k m)
    | inr f ↦ rw f (rw f (lookup-remove_same k m))
  ]

  pub lookup-remove_other :
      (k l : String) (m : List (String × V))
      → (k === l) ≡ false
      → lookup l (remove k m) ≡ lookup l m
  lookup-remove_other k l [] h = refl
  lookup-remove_other k l ((j, v) ∷ m) h = elim (Bool-cases (j === k)) [
    | inl t ↦ rw t (rw ((eq_iff j k).0 t) (rw h (lookup-remove_other k l m h)))
    | inr f ↦ rw f (elim (Bool-cases (j === l)) [
      | inl u ↦ rw u refl
      | inr g ↦ rw g (lookup-remove_other k l m h)
    ])
  ]

  pub lookup-put_same : (k : String) (v : V) (m : List (String × V)) → lookup k (put k v m) ≡ some v
  lookup-put_same k v [] = rw ((eq_iff k k).1 refl) refl
  lookup-put_same k v ((j, w) ∷ m) = elim (Bool-cases (j === k)) [
    | inl t ↦ rw t (rw t refl)
    | inr f ↦ rw f (rw f (lookup-put_same k v m))
  ]

  pub lookup-put_other :
      (k l : String) (v : V) (m : List (String × V))
      → (k === l) ≡ false
      → lookup l (put k v m) ≡ lookup l m
  lookup-put_other k l v [] h = rw h refl
  lookup-put_other k l v ((j, w) ∷ m) h = elim (Bool-cases (j === k)) [
    | inl t ↦ rw t (rw ((eq_iff j k).0 t) (rw h refl))
    | inr f ↦ rw f (elim (Bool-cases (j === l)) [
      | inl u ↦ rw u refl
      | inr g ↦ rw g (lookup-put_other k l v m h)
    ])
  ]

  -- A key that the table does not list has no value.
  pub lookup-unlisted :
      (k : String) (m : List (String × V))
      → any (λ j. j === k) (map (λ (r : String × V). r.0) m) ≡ false
      → lookup k m ≡ none
  lookup-unlisted k [] h = refl
  lookup-unlisted k ((j, v) ∷ m) h = elim (Bool-cases (j === k)) [
    | inl t ↦ let r = rw t at h in cc
    | inr f ↦ rw f (lookup-unlisted k m (rw f at h))
  ]

  -- A write to the object that `get` returns.
  abbrev pub update_key : String → (V → V) → List (String × V) → List (String × V)
  update_key k f m =
      update_first (λ (r : String × V). r.0 === k) (λ (r : String × V). (r.0, f r.1)) m

  pub lookup-update_key :
      (k : String) (f : V → V) (m : List (String × V)) {v : V}
      → lookup k m ≡ some v
      → lookup k (update_key k f m) ≡ some (f v)
  lookup-update_key k f [] h = absurd (cc)
  lookup-update_key k f ((j, w) ∷ m) {v} h = elim (Bool-cases (j === k)) [
    | inl t ↦ let same : w ≡ v = ground arith in rw t (rw t (ap (λ x. some (f x)) same))
    | inr n ↦ rw n (rw n (lookup-update_key k f m (rw (n, if◌then◌else◌) at h)))
  ]

  -- A write to the object that `[...values()].find(p)` returns.
  abbrev pub update_value : (V → Bool) → (V → V) → List (String × V) → List (String × V)
  update_value p f m = update_first (λ (r : String × V). p r.1) (λ (r : String × V). (r.0, f r.1)) m

  -- `[...values()]`
  abbrev pub values : List (String × V) → List V
  values m = map (λ (r : String × V). r.1) m
