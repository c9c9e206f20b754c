-- ===== src/Policy/Redaction.antt =====
-- redactControlMetadata of packages/control-authority/policy.mjs.
pub mod Laws
use bai_rui_cloud_agent_plat.Prelude.{
  ℕ, zero, suc, ◌+◌, Bool, true, false, ◌||◌, ltb, if◌then◌else◌, take, length,
}
use bai_rui_cloud_agent_plat.Json.{
  Text, codes, Value, null, undefined, bool, num, str, arr, obj, other, Items, nil, cons, Fields,
  end, field,
}
use bai_rui_cloud_agent_plat.Policy.{has_secret, forbidden_key, text_eq}
use bai_rui_cloud_agent_plat.Policy.Payload.{length_items}

-- `{ value, redacted }`
pub record Redacted : Type 0 where
  pub value : Value
  pub redacted : Bool

unfoldable pub redact_text : Text → Redacted
redact_text s =
    if has_secret s
    then record { value = str (codes "[redacted]"); redacted = true }
    else record { value = str (take 512 s); redacted = ltb 512 (length s) }

-- The test that stands before the walk.
abbrev pub within : ℕ → Redacted → Redacted
within d r =
    if ltb 8 d then record { value = str (codes "[redacted-depth]"); redacted = true } else r

-- `output[key] = value` on a plain object: an assignment to `__proto__` makes no own property.
abbrev pub assign : Text → Value → Fields → Fields
assign k v fs = if text_eq k (codes "__proto__") then fs else field k v fs

unfoldable mutual
  unfolding redact_text

  pub redact : ℕ → Value → Redacted
  redact d null = within d (record { value = null; redacted = false })
  redact d undefined = within d (record { value = undefined; redacted = false })
  redact d (bool b) = within d (record { value = bool b; redacted = false })
  redact d (num n) = within d (record { value = num n; redacted = false })
  redact d (str s) = within d (redact_text s)
  redact d (arr vs) = within d (record {
    value = arr (redact_items (d + 1) 100 vs).0;
    redacted = ltb 100 (length_items vs) || (redact_items (d + 1) 100 vs).1;
  })
  redact d (obj fs) =
      within d (record {
        value = obj (redact_fields (d + 1) fs).0;
        redacted = (redact_fields (d + 1) fs).1;
      })
  redact d other = within d (record { value = str (codes "[redacted-type]"); redacted = true })

  -- The items of `slice(0, n)`, and whether one of them was redacted.
  pub redact_items : ℕ → ℕ → Items → Items × Bool
  redact_items d n nil = (nil, false)
  redact_items d zero (cons v vs) = (nil, false)
  redact_items d (suc n) (cons v vs) =
      let r = redact d v in
      let rest = redact_items d n vs in (cons r.value rest.0, r.redacted || rest.1)

  pub redact_fields : ℕ → Fields → Fields × Bool
  redact_fields d end = (end, false)
  redact_fields d (field k v fs) =
      let r = redact d v in
      let rest = redact_fields d fs in
      if forbidden_key k then (rest.0, true) else (assign k r.value rest.0, r.redacted || rest.1)
