-- ===== src/Policy/Examples.antt =====
-- Payloads on concrete values: tests of the checks, and the theorems at these values.
use bai_rui_cloud_agent_plat.Prelude.{◌≡◌, refl, none, some, true, false}
use bai_rui_cloud_agent_plat.Json.{codes, Value, str, obj, bool, null, end, field, arr, cons, nil}
use bai_rui_cloud_agent_plat.Policy.{
  forbidden_action, type_error, raw_secret_not_allowed, has_secret, forbidden_key, identifier,
}
use bai_rui_cloud_agent_plat.Policy.Payload.{safe, safe_text}
use bai_rui_cloud_agent_plat.Policy.Actions.{validate_action}
use bai_rui_cloud_agent_plat.Policy.Actions.Accepted.{IsAccepted, validate_action-IsAccepted}
use bai_rui_cloud_agent_plat.Policy.Redaction.{redact}
use bai_rui_cloud_agent_plat.Policy.Redaction.Laws.{has_proto, safe-redact, redact_unflagged}

abbrev leak : Value
leak = obj (
    field (codes "note") (str (codes "use Bearer abcdefghijklmnop now"))
      (field (codes "Api-Key") (str (codes "x")) (field (codes "ok") (bool true) end)))

leak_test : safe leak ≡ some raw_secret_not_allowed
unfolding safe safe_text forbidden_key has_secret
leak_test = refl

-- The secret text is replaced, the forbidden key is dropped.
leak_redacted :
    (redact 0 leak).value
    ≡ obj (field (codes "note") (str (codes "[redacted]")) (field (codes "ok") (bool true) end))
unfolding redact forbidden_key has_secret
leak_redacted = refl

safe-redact_example : safe (redact 0 leak).value ≡ none
safe-redact_example = safe-redact 0 leak

abbrev plain : Value
plain = obj (
    field (codes "region") (str (codes "eu-west-1"))
      (field (codes "parts") (arr (cons null nil)) end))

plain_unflagged : (redact 0 plain).redacted ≡ false
unfolding redact forbidden_key has_secret
plain_unflagged = refl

plain_proto : has_proto plain ≡ false
unfolding has_proto
plain_proto = refl

redact_unflagged_example : (redact 0 plain).value ≡ plain
redact_unflagged_example = redact_unflagged 0 plain plain_proto plain_unflagged

abbrev deletion : Value
deletion = obj (field (codes "agent_id") (str (codes "agent-7")) end)

deletion_passes : validate_action "deployment.delete" deletion ≡ none
unfolding validate_action forbidden_key has_secret safe_text safe identifier
deletion_passes = refl

inherited_test : validate_action "toString" deletion ≡ some type_error
unfolding validate_action forbidden_key has_secret safe_text safe identifier
inherited_test = refl

unknown_test : validate_action "shell.run" deletion ≡ some forbidden_action
unfolding validate_action
unknown_test = refl

validate_action-IsAccepted_example : IsAccepted "deployment.delete" deletion
validate_action-IsAccepted_example =
    validate_action-IsAccepted "deployment.delete" deletion deletion_passes
