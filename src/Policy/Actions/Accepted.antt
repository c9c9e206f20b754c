-- ===== src/Policy/Actions/Accepted.antt =====
-- What an action and its arguments are once validateAction has let them pass.
use bai_rui_cloud_agent_plat.Prelude.{
  ◌≤◌, ◌≡◌, ◌≢◌, refl, Bool, true, false, ◌||◌, ltb, if◌then◌else◌, Option, none, some, String,
  eq_iff, List, [], ◌∷◌, ◌++◌, All, In, any, inl, inr, arith, ◌==◌, ==_iff, Bool-cases,
  Option-cases, ◌===◌,
}
use bai_rui_cloud_agent_plat.Json.{
  Text, codes, Value, undefined, str, arr, obj, Items, nil, cons, Fields, end, field,
}
use bai_rui_cloud_agent_plat.Policy.{ControlError, identifier, text_eq}
use bai_rui_cloud_agent_plat.Policy.Payload.{safe, first_error, refuse_if, length_items}
use bai_rui_cloud_agent_plat.Policy.Actions.{
  Definition, own, inherited, control_action_arguments, find_action, prototype_names, has_key,
  allows, assert_identifier, identifiers, probe_ids, missing_required, unknown_keys,
  argument_values, validate_arguments, validate_value, validate_action,
}

-- The object has the property, and its value.
pub data Has (k : Text) (v : Value) : Fields → Type 0 where
  here : {fs : Fields} → Has k v (field k v fs)
  there : {j : Text} {w : Value} {fs : Fields} → Has k v fs → Has k v (field j w fs)

pub data Every (P : Value → Type 0) : Items → Type 0 where
  nothing : Every P nil
  item : {v : Value} {vs : Items} → P v → Every P vs → Every P (cons v vs)

pub data IsIdentifier : Value → Type 0 where
  is_identifier : (s : Text) → identifier s ≡ true → IsIdentifier (str s)

-- An argument's value: a list of 1 to 100 identifiers under `probe_ids`, an identifier otherwise.
pub data IsArgument (k : Text) : Value → Type 0 where
  probes :
      (vs : Items)
      → k ≡ codes "probe_ids"
      → 1 ≤ length_items vs
      → length_items vs ≤ 100
      → Every IsIdentifier vs
      → IsArgument k (arr vs)
  single : {v : Value} → k ≢ codes "probe_ids" → IsIdentifier v → IsArgument k v

-- The own properties of the arguments; a missing value stands for the empty object.
pub data Arguments : Value → Fields → Type 0 where
  given : (fs : Fields) → Arguments (obj fs) fs
  left_out : Arguments undefined end

pub record IsAccepted (action : String) (args : Value) : Type 0 where
  pub required : List String
  pub optional : List String
  pub fields : Fields
  pub listed : In (action, (required, optional)) control_action_arguments
  pub arguments : Arguments args fields
  pub is_safe : safe (obj fields) ≡ none
  pub present : All (λ n. (v : Value) × Has (codes n) v fields) required
  pub allowed :
      (k : Text) (v : Value)
      → Has k v fields
      → ((n : String) × ((k ≡ codes n) × In n (required ++ optional))) × IsArgument k v

pub text_eq_same : (s t : Text) → text_eq s t ≡ true → s ≡ t
text_eq_same [] [] h = refl
text_eq_same [] (d ∷ t) h = cc
text_eq_same (c ∷ s) [] h = cc
text_eq_same (c ∷ s) (d ∷ t) h = elim (Bool-cases (c == d)) [
  | inl e ↦ let u = (==_iff c d).0 e in let w = text_eq_same s t (rw e at h) in λ i. u i ∷ w i
  | inr n ↦ cc
]

pub text_eq_refl : (s : Text) → text_eq s s ≡ true
text_eq_refl [] = refl
text_eq_refl (c ∷ s) = rw ((==_iff c c).1 refl) (text_eq_refl s)

has_key-Has : (k : Text) (fs : Fields) → has_key k fs ≡ true → (v : Value) × Has k v fs
has_key-Has k end h = cc
has_key-Has k (field j v fs) h = elim (Bool-cases (text_eq k j)) [
  | inl e ↦ rw (text_eq_same k j e) (v, here)
  | inr n ↦ let r = has_key-Has k fs (rw n at h) in (r.0, there r.1)
]

missing_required-present :
    (ns : List String) (fs : Fields)
    → missing_required ns fs ≡ false
    → All (λ n. (v : Value) × Has (codes n) v fs) ns
unfolding missing_required
missing_required-present [] fs h = tt
missing_required-present (n ∷ ns) fs h = elim (Bool-cases (has_key (codes n) fs)) [
  | inl e ↦ (has_key-Has (codes n) fs e, missing_required-present ns fs (rw e at h))
  | inr m ↦ let r = rw m at h in cc
]

allows-In :
    (names : List String) (k : Text)
    → allows names k ≡ true
    → (n : String) × ((k ≡ codes n) × In n names)
allows-In [] k h = cc
allows-In (n ∷ ns) k h = elim (Bool-cases (text_eq k (codes n))) [
  | inl e ↦ (n, (text_eq_same k (codes n) e, inl refl))
  | inr m ↦ let r = allows-In ns k (rw m at h) in (r.0, (r.1.0, inr r.1.1))
]

unknown_keys-allowed :
    (names : List String) (fs : Fields)
    → unknown_keys names fs ≡ false
    → {k : Text} {v : Value} → Has k v fs
    → (n : String) × ((k ≡ codes n) × In n names)
unfolding unknown_keys
unknown_keys-allowed names end h p = elim p [ ]
unknown_keys-allowed names (field k v fs) h here = elim (Bool-cases (allows names k)) [
  | inl e ↦ allows-In names k e
  | inr m ↦ let r = rw m at h in cc
]
unknown_keys-allowed names (field j w fs) h (there p) = elim (Bool-cases (allows names j)) [
  | inl e ↦ unknown_keys-allowed names fs (rw e at h) p
  | inr m ↦ let r = rw m at h in cc
]

first_none : (a b : Option ControlError) → first_error a b ≡ none → (a ≡ none) × (b ≡ none)
first_none none b h = (refl, h)
first_none (some e) b h = cc

refuse_none :
    (b : Bool) (e : ControlError) (rest : Option ControlError)
    → refuse_if b e rest ≡ none
    → (b ≡ false) × (rest ≡ none)
refuse_none false e rest h = (refl, h)
refuse_none true e rest h = cc

assert_identifier-IsIdentifier : (v : Value) → assert_identifier v ≡ none → IsIdentifier v
unfolding assert_identifier
assert_identifier-IsIdentifier (str s) h = elim (Bool-cases (identifier s)) [
  | inl e ↦ is_identifier s e
  | inr n ↦ let r = rw n at h in cc
]
assert_identifier-IsIdentifier _ h = cc

identifiers-Every : (vs : Items) → identifiers vs ≡ none → Every IsIdentifier vs
unfolding identifiers
identifiers-Every nil h = nothing
identifiers-Every (cons v vs) h =
    let (h0, h1) = first_none (assert_identifier v) (identifiers vs) h in
    item (assert_identifier-IsIdentifier v h0) (identifiers-Every vs h1)

probe_ids-IsArgument :
    (k : Text) (v : Value) → k ≡ codes "probe_ids" → probe_ids v ≡ none → IsArgument k v
unfolding probe_ids
probe_ids-IsArgument k (arr vs) e h =
    let (h0, h1) =
      refuse_none (ltb (length_items vs) 1 || ltb 100 (length_items vs)) _ (identifiers vs) h in
    probes vs e (ground arith) (ground arith) (identifiers-Every vs h1)
probe_ids-IsArgument k _ e h = cc

value-IsArgument :
    (k : Text) (v : Value)
    → (if text_eq k (codes "probe_ids") then probe_ids v else assert_identifier v) ≡ none
    → IsArgument k v
value-IsArgument k v h = elim (Bool-cases (text_eq k (codes "probe_ids"))) [
  | inl e ↦ probe_ids-IsArgument k v (text_eq_same k (codes "probe_ids") e) (rw e at h)
  | inr n ↦
      single (λ e. let t = text_eq_refl (codes "probe_ids") in let u = rw e at n in cc)
        (assert_identifier-IsIdentifier v (rw n at h))
]

argument_values-IsArgument :
    (fs : Fields) → argument_values fs ≡ none → {k : Text} {v : Value} → Has k v fs → IsArgument k v
unfolding argument_values
argument_values-IsArgument end h p = elim p [ ]
argument_values-IsArgument (field k v fs) h here =
    value-IsArgument k v (first_none _ (argument_values fs) h).0
argument_values-IsArgument (field j w fs) h (there p) =
    argument_values-IsArgument fs (first_none _ (argument_values fs) h).1 p

find_action-In :
    (action : String) (table : List (String × (List String × List String)))
    → (required optional : List String) → find_action action table ≡ some (own required optional)
    → In (action, (required, optional)) table
unfolding find_action
find_action-In action [] required optional h =
    elim (Bool-cases (any (λ n. action === n) prototype_names)) [
      | inl t ↦ let r = rw t at h in cc
      | inr n ↦ let r = rw n at h in cc
    ]
find_action-In action ((name, (r, o)) ∷ rest) required optional h =
    elim (Bool-cases (action === name)) [
      | inl t ↦ let same = (eq_iff action name).0 t in let e = rw t at h in inl (cc)
      | inr n ↦ inr (find_action-In action rest required optional (rw n at h))
    ]

arguments-IsAccepted :
    (action : String) (args : Value) (required optional : List String) (fs : Fields)
    → find_action action control_action_arguments ≡ some (own required optional)
    → Arguments args fs
    → validate_arguments (own required optional) fs ≡ none
    → IsAccepted action args
unfolding validate_arguments
arguments-IsAccepted action args required optional fs e a h =
    let (h0, h1) = first_none (safe (obj fs)) _ h in
    let (h2, h3) = refuse_none (missing_required required fs) _ _ h1 in
    let (h4, h5) = refuse_none (unknown_keys (required ++ optional) fs) _ _ h3 in
    record {
      required = required;
      optional = optional;
      fields = fs;
      listed = find_action-In action control_action_arguments required optional e;
      arguments = a;
      is_safe = h0;
      present = missing_required-present required fs h2;
      allowed = λ k v p.
          (unknown_keys-allowed (required ++ optional) fs h4 p, argument_values-IsArgument fs h5 p);
    }

inherited_refused : (fs : Fields) → validate_arguments inherited fs ≢ none
unfolding validate_arguments
inherited_refused fs h = let r = (first_none (safe (obj fs)) _ h).1 in cc

value-IsAccepted :
    (action : String) (args : Value) (d : Definition)
    → find_action action control_action_arguments ≡ some d
    → validate_value d args ≡ none
    → IsAccepted action args
unfolding validate_value
value-IsAccepted action (obj fs) (own r o) e h =
    arguments-IsAccepted action (obj fs) r o fs e (given fs) h
value-IsAccepted action undefined (own r o) e h =
    arguments-IsAccepted action undefined r o end e left_out h
value-IsAccepted action (obj fs) inherited e h = absurd (inherited_refused fs h)
value-IsAccepted action undefined inherited e h = absurd (inherited_refused end h)
value-IsAccepted action _ d e h = cc

-- An action that validateAction lets pass stands in the table, and its arguments are an object, or
-- left out, that is safe as a payload, has each required property, and has no property but the
-- required and optional ones, each an identifier or, for `probe_ids`, a list of 1 to 100
-- identifiers.
pub validate_action-IsAccepted :
    (action : String) (args : Value) → validate_action action args ≡ none → IsAccepted action args
unfolding validate_action
validate_action-IsAccepted action args h =
    elim (Option-cases (find_action action control_action_arguments)) [
      | inl n ↦ let r = rw (validate_action, n) at h in cc
      | inr (d, e) ↦ value-IsAccepted action args d e (rw (validate_action, e) at h)
    ]
