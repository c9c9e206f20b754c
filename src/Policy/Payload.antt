-- ===== src/Policy/Payload.antt =====
-- assertSafeControlPayload and assertOperationalMetadata of packages/control-authority/policy.mjs.
-- A call answers `none` where the code returns its argument, and the code of what it throws
-- otherwise; the path in the message is left out.
use bai_rui_cloud_agent_plat.Prelude.{
  ℕ, ◌+◌, Bool, true, false, ◌||◌, not, ltb, Option, none, some, if◌then◌else◌, suc, length,
}
use bai_rui_cloud_agent_plat.Json.{
  Text, Value, null, undefined, bool, num, str, arr, obj, other, Items, nil, cons, Fields, end,
  field, JsNumber, finite,
}
use bai_rui_cloud_agent_plat.Patterns.{is_lower, is_digit, one_of, first_then}
use bai_rui_cloud_agent_plat.Policy.{
  ControlError, forbidden_field, raw_secret_not_allowed, has_secret, forbidden_key,
  operational_text,
}

abbrev pub length_items : Items → ℕ
length_items nil = 0
length_items (cons v vs) = suc (length_items vs)

abbrev pub length_fields : Fields → ℕ
length_fields end = 0
length_fields (field k v fs) = suc (length_fields fs)

-- The first of two checks that throws.
abbrev pub first_error : Option ControlError → Option ControlError → Option ControlError
first_error none e = e
first_error (some e) _ = some e

abbrev pub refuse_if : Bool → ControlError → Option ControlError → Option ControlError
refuse_if b e rest = if b then some e else rest

unfoldable pub safe_text : Text → Option ControlError
safe_text s =
    refuse_if (ltb 4096 (length s)) forbidden_field
      (refuse_if (has_secret s) raw_secret_not_allowed none)

unfoldable mutual
  pub safe : Value → Option ControlError
  safe null = none
  safe undefined = none
  safe (bool b) = none
  safe (num n) = none
  safe (str s) = safe_text s
  safe (arr vs) = refuse_if (ltb 1000 (length_items vs)) forbidden_field (safe_items vs)
  safe (obj fs) = safe_fields fs
  safe other = some forbidden_field

  pub safe_items : Items → Option ControlError
  safe_items nil = none
  safe_items (cons v vs) = first_error (safe v) (safe_items vs)

  pub safe_fields : Fields → Option ControlError
  safe_fields end = none
  safe_fields (field k v fs) =
      refuse_if (forbidden_key k) forbidden_field (first_error (safe v) (safe_fields fs))

abbrev pub is_finite : JsNumber → Bool
is_finite (finite n) = true
is_finite _ = false

-- `/^[a-z][a-z0-9_]{0,63}$/`
unfoldable pub metadata_key : Text → Bool
unfolding first_then
metadata_key k = first_then is_lower (λ c. is_lower c || is_digit c || one_of "_" c) 63 k

-- The checks that stand before the walk: the payload's own, then the depth.
unfoldable pub enter : ℕ → Value → Option ControlError → Option ControlError
unfolding safe
enter d v rest = first_error (safe v) (refuse_if (ltb 8 d) forbidden_field rest)

unfoldable mutual
  unfolding enter metadata_key

  pub operational : ℕ → Value → Option ControlError
  operational d null = enter d null none
  operational d undefined = enter d undefined none
  operational d (bool b) = enter d (bool b) none
  operational d (num n) = enter d (num n) (refuse_if (not (is_finite n)) forbidden_field none)
  operational d (str s) =
      enter d (str s) (refuse_if (not (operational_text s)) forbidden_field none)
  operational d (arr vs) =
      enter d (arr vs)
        (refuse_if (ltb 100 (length_items vs)) forbidden_field (operational_items (d + 1) vs))
  operational d (obj fs) =
      enter d (obj fs)
        (refuse_if (ltb 100 (length_fields fs)) forbidden_field (operational_fields (d + 1) fs))
  operational d other = enter d other none

  pub operational_items : ℕ → Items → Option ControlError
  operational_items d nil = none
  operational_items d (cons v vs) = first_error (operational d v) (operational_items d vs)

  pub operational_fields : ℕ → Fields → Option ControlError
  operational_fields d end = none
  operational_fields d (field k v fs) =
      refuse_if (not (metadata_key k)) forbidden_field
        (first_error (operational d v) (operational_fields d fs))
