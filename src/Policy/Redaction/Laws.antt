-- ===== src/Policy/Redaction/Laws.antt =====
-- What redacted metadata can be relied on for.
use bai_rui_cloud_agent_plat.Prelude.{
  ℕ, zero, suc, ◌+◌, ◌≤◌, ◌≡◌, refl, ap, Bool, true, false, ◌||◌, if◌then◌else◌, none, ltb, take,
  length, length-take_le, [], ◌∷◌, arith, Bool-cases, inl, inr,
}
use bai_rui_cloud_agent_plat.Json.{
  Text, codes, Value, null, undefined, bool, num, str, arr, obj, other, Items, nil, cons, Fields,
  end, field,
}
use bai_rui_cloud_agent_plat.Regex.{finds-take}
use bai_rui_cloud_agent_plat.Policy.{has_secret, secret_pattern, text_eq, forbidden_key}
use bai_rui_cloud_agent_plat.Policy.Payload.{length_items, safe, safe_items, safe_fields, safe_text}
use bai_rui_cloud_agent_plat.Policy.Redaction.{
  Redacted, redact, redact_items, redact_fields, redact_text, within,
}

marker_safe :
    (safe_text (codes "[redacted]") ≡ none)
    × (safe_text (codes "[redacted-depth]") ≡ none)
    × (safe_text (codes "[redacted-type]") ≡ none)
unfolding safe_text has_secret
marker_safe = (refl, refl, refl)

has_secret-take : (n : ℕ) (s : Text) → has_secret s ≡ false → has_secret (take n s) ≡ false
unfolding has_secret
has_secret-take n s e = ground (arith, finds-take secret_pattern n s)

short_safe : (s : Text) → length s ≤ 512 → has_secret s ≡ false → safe_text s ≡ none
unfolding safe_text
short_safe s h e = ground arith

safe-redact_text : (s : Text) → safe (redact_text s).value ≡ none
unfolding redact_text safe
safe-redact_text s = elim (Bool-cases (has_secret s)) [
  | inl t ↦ rw t (marker_safe.0)
  | inr n ↦ rw n (short_safe (take 512 s) (length-take_le 512 s) (has_secret-take 512 s n))
]

safe-within : (d : ℕ) (r : Redacted) → safe r.value ≡ none → safe (within d r).value ≡ none
unfolding safe
safe-within d r h = elim (Bool-cases (ltb 8 d)) [ inl t ↦ rw t (marker_safe.1) | inr n ↦ rw n h ]

length-redact_items : (d n : ℕ) (vs : Items) → length_items (redact_items d n vs).0 ≤ n
unfolding redact_items
length-redact_items d n nil = omega arith
length-redact_items d zero (cons v vs) = omega arith
length-redact_items d (suc n) (cons v vs) = omega (arith, length-redact_items d n vs)

array_safe : (vs : Items) → length_items vs ≤ 100 → safe_items vs ≡ none → safe (arr vs) ≡ none
unfolding safe
array_safe vs h e = ground arith

mutual
  unfolding redact safe

  redact_value_safe : (d : ℕ) (v : Value) → safe (redact d v).value ≡ none
  redact_value_safe d null = safe-within d _ refl
  redact_value_safe d undefined = safe-within d _ refl
  redact_value_safe d (bool b) = safe-within d _ refl
  redact_value_safe d (num n) = safe-within d _ refl
  redact_value_safe d (str s) = safe-within d _ (safe-redact_text s)
  redact_value_safe d (arr vs) = safe-within d _ (
      array_safe (redact_items (d + 1) 100 vs).0 (length-redact_items (d + 1) 100 vs)
        (redact_items_safe (d + 1) 100 vs))
  redact_value_safe d (obj fs) = safe-within d _ (redact_fields_safe (d + 1) fs)
  redact_value_safe d other = safe-within d _ (marker_safe.2)

  redact_items_safe : (d n : ℕ) (vs : Items) → safe_items (redact_items d n vs).0 ≡ none
  redact_items_safe d n nil = refl
  redact_items_safe d zero (cons v vs) = refl
  redact_items_safe d (suc n) (cons v vs) = rw (redact_value_safe d v) (redact_items_safe d n vs)

  redact_fields_safe : (d : ℕ) (fs : Fields) → safe_fields (redact_fields d fs).0 ≡ none
  redact_fields_safe d end = refl
  redact_fields_safe d (field k v fs) =
      let h = redact_value_safe d v in let t = redact_fields_safe d fs in ground arith

-- Whatever value is redacted, at whatever depth, the result passes assertSafeControlPayload: it
-- holds no forbidden key at any level, no secret text, no text over the limit, no oversized array
-- and no value of an unsupported type.
pub safe-redact : (d : ℕ) (v : Value) → safe (redact d v).value ≡ none
safe-redact d v = redact_value_safe d v

take_all : (n : ℕ) (s : Text) → length s ≤ n → take n s ≡ s
take_all zero [] h = refl
take_all zero (c ∷ cs) h = absurd (omega arith)
take_all (suc n) [] h = refl
take_all (suc n) (c ∷ cs) h = ap (λ t. c ∷ t) (take_all n cs (omega arith))

at_most : (n m : ℕ) → ltb n m ≡ false → m ≤ n
at_most n m h = ground arith

flag_true : true ≡ false → ⊥
flag_true h = cc

or_false : (a b : Bool) → (a || b) ≡ false → (a ≡ false) × (b ≡ false)
or_false false false h = (refl, refl)
or_false true b h = cc
or_false false true h = cc

redact_text_unflagged :
    (s : Text) → (redact_text s).redacted ≡ false → (redact_text s).value ≡ str s
unfolding redact_text
redact_text_unflagged s e = elim (Bool-cases (has_secret s)) [
  | inl t ↦ absurd (ground arith)
  | inr n ↦ rw n (ap str (take_all 512 s (at_most 512 (length s) (rw n at e))))
]

-- An object of the value has a property of its own that is called `__proto__`.
unfoldable mutual
  pub has_proto : Value → Bool
  has_proto (arr vs) = has_proto_items vs
  has_proto (obj fs) = has_proto_fields fs
  has_proto _ = false

  pub has_proto_items : Items → Bool
  has_proto_items nil = false
  has_proto_items (cons v vs) = has_proto v || has_proto_items vs

  pub has_proto_fields : Fields → Bool
  has_proto_fields end = false
  has_proto_fields (field k v fs) =
      text_eq k (codes "__proto__") || has_proto v || has_proto_fields fs

within_unflagged :
    (d : ℕ) (r : Redacted) (v : Value)
    → (within d r).redacted ≡ false
    → (r.redacted ≡ false → r.value ≡ v)
    → (within d r).value ≡ v
within_unflagged d r v e h = elim (Bool-cases (ltb 8 d)) [
  | inl t ↦ absurd (ground arith)
  | inr n ↦ rw n (h (rw n at e))
]

mutual
  unfolding redact has_proto

  value_unflagged :
      (d : ℕ) (v : Value)
      → has_proto v ≡ false
      → (redact d v).redacted ≡ false
      → (redact d v).value ≡ v
  value_unflagged d null p e = within_unflagged d _ null e (λ _. refl)
  value_unflagged d undefined p e = within_unflagged d _ undefined e (λ _. refl)
  value_unflagged d (bool b) p e = within_unflagged d _ (bool b) e (λ _. refl)
  value_unflagged d (num n) p e = within_unflagged d _ (num n) e (λ _. refl)
  value_unflagged d (str s) p e = within_unflagged d _ (str s) e (redact_text_unflagged s)
  value_unflagged d (arr vs) p e = within_unflagged d _ (arr vs) e (λ h.
      let (short, flags) = or_false (ltb 100 (length_items vs)) (redact_items (d + 1) 100 vs).1 h in
      ap arr (items_unflagged (d + 1) 100 vs (at_most 100 (length_items vs) short) p flags))
  value_unflagged d (obj fs) p e =
      within_unflagged d _ (obj fs) e (λ h. ap obj (fields_unflagged (d + 1) fs p h))
  value_unflagged d other p e = within_unflagged d _ other e (λ h. cc)

  items_unflagged :
      (d n : ℕ) (vs : Items)
      → length_items vs ≤ n
      → has_proto_items vs ≡ false
      → (redact_items d n vs).1 ≡ false
      → (redact_items d n vs).0 ≡ vs
  items_unflagged d n nil l p e = refl
  items_unflagged d zero (cons v vs) l p e = absurd (omega arith)
  items_unflagged d (suc n) (cons v vs) l p e =
      let (p0, p1) = or_false (has_proto v) (has_proto_items vs) p in
      let (e0, e1) = or_false (redact d v).redacted (redact_items d n vs).1 e in
      let h = value_unflagged d v p0 e0 in
      let t = items_unflagged d n vs (omega arith) p1 e1 in λ i. cons (h i) (t i)

  fields_unflagged :
      (d : ℕ) (fs : Fields)
      → has_proto_fields fs ≡ false
      → (redact_fields d fs).1 ≡ false
      → (redact_fields d fs).0 ≡ fs
  fields_unflagged d end p e = refl
  fields_unflagged d (field k v fs) p e =
      let (q, p1) =
        or_false (text_eq k (codes "__proto__") || has_proto v) (has_proto_fields fs) p in
      let (k0, p0) = or_false (text_eq k (codes "__proto__")) (has_proto v) q in
      elim (Bool-cases (forbidden_key k)) [
        | inl t ↦ absurd (flag_true (rw (t, if◌then◌else◌) at e))
        | inr n ↦
            let (e0, e1) =
              or_false (redact d v).redacted (redact_fields d fs).1 (rw (n, if◌then◌else◌) at e) in
            let h = value_unflagged d v p0 e0 in
            let t = fields_unflagged d fs p1 e1 in rw n (rw k0 (λ i. field k (h i) (t i)))
      ]

-- Where the result is not flagged as redacted, it is the value that was given, unless an object in
-- it has a property of its own that is called `__proto__`, which the copy drops.
pub redact_unflagged :
    (d : ℕ) (v : Value)
    → has_proto v ≡ false
    → (redact d v).redacted ≡ false
    → (redact d v).value ≡ v
redact_unflagged d v p e = value_unflagged d v p e
